-- ===== src/Models/StrongId.antt =====
-- shared/models/StrongID.h and OrderIds.h: identifiers that are UUID texts.
pub mod Shape
use liquid_pet_project.Prelude.{
  ℕ, Bool, true, false, ◌&&◌, ◌||◌, List, [], ◌∷◌, ◌++◌, String, leb, eqb, replicate, characters,
  if◌then◌else◌, Expected, ok, err, Eq, ◌==◌, eq_string,
}
use liquid_pet_project.Errors.{ErrorCode, make_error_code, strong_id_enum, StrongIdError}

-- The tag structs.
pub data Tag : Type 0 where
  order_id user_id product_id outbox_event_id : Tag

pub record StrongId (t : Tag) : Type 0 where
  pub value : String

-- [0-9a-fA-F]
unfoldable pub is_hex_digit : ℕ → Bool
is_hex_digit c =
    (leb b'0' c && leb c b'9') || ((leb b'a' c && leb c b'f') || (leb b'A' c && leb c b'F'))

-- One place of the regular expression: a hexadecimal digit or a dash.
pub data Place : Type 0 where
  hex dash : Place

unfoldable pub fits : Place → ℕ → Bool
unfolding is_hex_digit
fits hex c = is_hex_digit c
fits dash c = eqb c b'-'

-- ^[0-9a-fA-F]{8}-[0-9a-fA-F]{4}-[0-9a-fA-F]{4}-[0-9a-fA-F]{4}-[0-9a-fA-F]{12}$
unfoldable pub uuid_pattern : List Place
uuid_pattern =
    replicate 8 hex
    ++ (dash
        ∷ (replicate 4 hex
            ++ (dash
                ∷ (replicate 4 hex ++ (dash ∷ (replicate 4 hex ++ (dash ∷ replicate 12 hex)))))))

-- std::regex_match: the whole text fits the pattern.
unfoldable pub matches : List Place → List ℕ → Bool
unfolding fits
matches [] [] = true
matches [] (c ∷ cs) = false
matches (p ∷ ps) [] = false
matches (p ∷ ps) (c ∷ cs) = fits p c && matches ps cs

unfoldable pub is_valid_uuid : String → Bool
unfolding matches uuid_pattern
is_valid_uuid value = matches uuid_pattern (characters value)

-- IdTraits<Tag>::isValid is the same for every tag.
unfoldable pub create : (t : Tag) → String → Expected ErrorCode (StrongId t)
unfolding is_valid_uuid
create t value =
    if value == ""
    then err (make_error_code StrongIdError.empty_id)
    else (if is_valid_uuid value
        then ok (record { value = value })
        else err (make_error_code StrongIdError.invalid_format))
