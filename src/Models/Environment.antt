-- ===== src/Models/Environment.antt =====
-- shared/models/EnvironmentConfiguration.h: the settings that a service reads from its environment.
-- std::getenv is a parameter.
pub mod Values
pub mod Loading
use liquid_pet_project.Prelude.{
  Bool, true, false, Option, none, some, List, [], ◌∷◌, String, Expected, ok, err, ◌==◌, eq_string,
}
use liquid_pet_project.Prelude.Dict.{Dict, lookup, insert}
use liquid_pet_project.Errors.{
  ErrorCode, make_error_code, environment_configuration_enum, missing_required_variable,
}

pub record EnvironmentVariableSpec : Type 0 where
  pub name : String
  pub required : Bool
  pub default_value : Option String

pub record EnvironmentConfiguration : Type 0 where
  pub values : Dict String String

module _ (getenv : String → Option String) where
  -- The value of one variable: from the environment, or else the default.
  unfoldable pub value_of : EnvironmentVariableSpec → Option String
  value_of spec = elim (getenv spec.name) [ some raw ↦ some raw | none ↦ spec.default_value ]

  -- The loop of `load`, from the values so far.
  unfoldable pub load_from :
      Dict String String
      → List EnvironmentVariableSpec
      → Expected ErrorCode EnvironmentConfiguration
  unfolding value_of
  load_from values [] = ok (record { values = values })
  load_from values (spec ∷ schema) = elim (value_of spec) [
    | some value ↦ load_from (insert spec.name value values) schema
    | none ↦ elim spec.required [
      | true ↦ err (make_error_code missing_required_variable)
      | false ↦ load_from values schema
    ]
  ]

  unfoldable pub load : List EnvironmentVariableSpec → Expected ErrorCode EnvironmentConfiguration
  unfolding load_from
  load schema = load_from [] schema

unfoldable pub get : EnvironmentConfiguration → String → Option String
get c name = lookup name c.values

-- `at` throws on a name that is missing, which `none` stands for.
unfoldable pub require : EnvironmentConfiguration → String → Option String
require c name = lookup name c.values
