-- ===== src/Json.antt =====
-- shared/json/Json.h, over the parts of nlohmann::json that the mappers use: those are a parameter.
use liquid_pet_project.Prelude.{
  ℕ, ◌≡◌, ◌⊎◌, inl, inr, refl, ◌-◌, ◌^◌, String, Option, some, List, Expected, ok, err, eq_string,
}
use liquid_pet_project.Prelude.Dict.{Dict, lookup}
use liquid_pet_project.Prelude.Int.{ℤ, pos, negsuc, ◌≤ℤ◌}
use liquid_pet_project.Errors.{ErrorCode, make_error_code, json_parse_enum, JsonParseError}

-- What `object.at(key).get<T>()` does: it returns or throws.
pub data Access {ℓ} (A : Type ℓ) : Type ℓ where
  found : A → Access A
  out_of_range type_error other_exception : Access A

-- What `nlohmann::json::parse` does: it returns a value, throws a parse_error, or throws an out_of_range
-- on a number that is too large for a double.
pub data Parse {ℓ} (A : Type ℓ) : Type ℓ where
  json_value : A → Parse A
  parse_error number_overflow : Parse A

pub Parse-cases {ℓ} :
    {A : Type ℓ} (p : Parse A)
    → ((a : A) × (p ≡ json_value a)) ⊎ ((p ≡ parse_error) ⊎ (p ≡ number_overflow))
Parse-cases (json_value a) = inl (a, refl)
Parse-cases parse_error = inr (inl refl)
Parse-cases number_overflow = inr (inr refl)

pub record JsonLibrary : Type 1 where
  pub Json : Type 0
  pub parse : String → Parse Json
  -- object.at(key).get<T>() for std::string, int and nlohmann::json
  pub string_at : Json → String → Access String
  pub int_at : Json → String → Access ℤ
  pub json_at : Json → String → Access Json
  -- is_array, and the loop over the elements
  pub elements : Json → Option (List Json)
  -- a json that is null, the assignment of a text to a key, and dump
  pub null_json : Json
  pub set_string : Json → String → String → Json
  pub dump : Json → String

-- The catch clauses of `JsonHelper::getValue`.
unfoldable pub get_value {ℓ} : {A : Type ℓ} → Access A → Expected ErrorCode A
get_value (found a) = ok a
get_value out_of_range = err (make_error_code JsonParseError.key_not_found)
get_value type_error = err (make_error_code JsonParseError.invalid_format)
get_value other_exception = err (make_error_code JsonParseError.unknown_error)

-- What the mappers of orders use besides: more types of numbers, and the values that are written. An
-- object is given by its fields.
pub record JsonValues (j : JsonLibrary) : Type 0 where
  pub int8_at : j.Json → String → Access ℤ
  pub int64_at : j.Json → String → Access ℤ
  pub text : String → j.Json
  pub number : ℤ → j.Json
  pub array : List j.Json → j.Json
  pub object : Dict String j.Json → j.Json

-- An integer of a type with values from -n-1 to n.
abbrev pub Fits : ℕ → ℤ → Type 0
Fits n v = (negsuc n ≤ℤ v) × (v ≤ℤ pos n)

-- A value that was written is read as what it was: the fields of an object, the numbers that fit their
-- type, and the elements of an array.
pub record Keeps (j : JsonLibrary) (v : JsonValues j) : Type 0 where
  pub string_kept :
      (fields : Dict String j.Json) (key text : String)
      → lookup key fields ≡ some (v.text text)
      → j.string_at (v.object fields) key ≡ found text
  pub int_kept :
      (fields : Dict String j.Json) (key : String) (n : ℤ)
      → lookup key fields ≡ some (v.number n)
      → Fits (2 ^ 31 - 1) n
      → j.int_at (v.object fields) key ≡ found n
  pub int8_kept :
      (fields : Dict String j.Json) (key : String) (n : ℤ)
      → lookup key fields ≡ some (v.number n)
      → Fits 127 n
      → v.int8_at (v.object fields) key ≡ found n
  pub int64_kept :
      (fields : Dict String j.Json) (key : String) (n : ℤ)
      → lookup key fields ≡ some (v.number n)
      → Fits (2 ^ 63 - 1) n
      → v.int64_at (v.object fields) key ≡ found n
  pub json_kept :
      (fields : Dict String j.Json) (key : String) (value : j.Json)
      → lookup key fields ≡ some value
      → j.json_at (v.object fields) key ≡ found value
  pub elements_kept : (values : List j.Json) → j.elements (v.array values) ≡ some values
