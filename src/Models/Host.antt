-- ===== src/Models/Host.antt =====
-- shared/models/Host.h, NetworkAddress.h, UpstreamConfiguration.h and NetworkConfiguration.h: where to
-- connect and where to listen. `boost::asio::ip::make_address` is a parameter.
use liquid_pet_project.Prelude.{
  ℕ, Bool, true, false, ◌&&◌, ◌||◌, not, List, [], ◌∷◌, String, leb, ltb, eqb, length, characters,
  if◌then◌else◌, Expected, ok, err, ◌==◌, eq_string,
}
use liquid_pet_project.Errors.{
  ErrorCode, make_error_code, host_enum, HostError, network_address_enum, NetworkAddressError,
}

-- std::isalnum in the C locale.
unfoldable pub is_alnum : ℕ → Bool
is_alnum c =
    (leb b'0' c && leb c b'9') || ((leb b'a' c && leb c b'z') || (leb b'A' c && leb c b'Z'))

unfoldable pub is_label_character : ℕ → Bool
unfolding is_alnum
is_label_character c = is_alnum c || eqb c b'-'

-- std::ranges::all_of
abbrev pub all_of : (ℕ → Bool) → List ℕ → Bool
all_of p [] = true
all_of p (c ∷ cs) = p c && all_of p cs

abbrev pub last_of : ℕ → List ℕ → ℕ
last_of c [] = c
last_of c (d ∷ ds) = last_of d ds

unfoldable pub is_valid_hostname_label : List ℕ → Bool
unfolding is_label_character
is_valid_hostname_label [] = false
is_valid_hostname_label (c ∷ cs) =
    not (ltb 63 (length (c ∷ cs)))
    && (not (eqb c b'-' || eqb (last_of c cs) b'-') && all_of is_label_character (c ∷ cs))

abbrev pub before_first : ℕ → List (List ℕ) → List (List ℕ)
before_first c [] = (c ∷ []) ∷ []
before_first c (label ∷ labels) = (c ∷ label) ∷ labels

-- std::views::split by a dot.
unfoldable pub split_dots : List ℕ → List (List ℕ)
split_dots [] = [] ∷ []
split_dots (c ∷ cs) =
    let rest = split_dots cs in if eqb c b'.' then [] ∷ rest else before_first c rest

-- The loop of `isValidHostname`.
unfoldable pub all_labels : List (List ℕ) → Bool
unfolding is_valid_hostname_label
all_labels [] = true
all_labels (label ∷ labels) = is_valid_hostname_label label && all_labels labels

unfoldable pub is_valid_hostname : List ℕ → Bool
unfolding split_dots all_labels
is_valid_hostname [] = false
is_valid_hostname (c ∷ cs) = not (ltb 253 (length (c ∷ cs))) && all_labels (split_dots (c ∷ cs))

pub record Host : Type 0 where
  pub value : String

pub record NetworkAddress : Type 0 where
  pub value : String

pub record UpstreamConfiguration : Type 0 where
  pub host : Host
  pub port : ℕ

pub record NetworkConfiguration : Type 0 where
  pub address : NetworkAddress
  pub port : ℕ

-- Whether `make_address` reads a text without an error.
module _ (is_address : String → Bool) where
  unfoldable pub create_host : String → Expected ErrorCode Host
  unfolding is_valid_hostname
  create_host value =
      if value == ""
      then err (make_error_code HostError.empty_host)
      else (if is_address value
          then ok (record { value = value })
          else (if is_valid_hostname (characters value)
              then ok (record { value = value })
              else err (make_error_code HostError.invalid_format)))

  unfoldable pub create_address : String → Expected ErrorCode NetworkAddress
  create_address value =
      if value == ""
      then err (make_error_code NetworkAddressError.empty_address)
      else (if is_address value
          then ok (record { value = value })
          else err (make_error_code NetworkAddressError.invalid_format))
