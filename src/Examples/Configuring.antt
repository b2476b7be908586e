-- ===== src/Examples/Configuring.antt =====
-- The settings of a service and of its database (shared/models/EnvironmentConfiguration.h,
-- DatabaseConfiguration.h).
use liquid_pet_project.Prelude.{
  ◌≡◌, ◌⊎◌, refl, true, false, Option, none, some, List, [], ◌∷◌, String, ok, err, All, Any,
  if◌then◌else◌, ◌==◌, eq_string,
}
use liquid_pet_project.Errors.{
  make_error_code, environment_configuration_enum, missing_required_variable,
  database_configuration_enum, DatabaseConfigurationError,
}
use liquid_pet_project.Prelude.Dict.{insert, lookup}
use liquid_pet_project.Models.Database.{from_url}
use liquid_pet_project.Models.Environment.{EnvironmentVariableSpec, EnvironmentConfiguration, load}
use liquid_pet_project.Models.Environment.Loading.{IsMissing, expected, load_exact}

abbrev environment : String → Option String
environment name = if name == "DATABASE_URL" then some "postgres://db" else none

abbrev schema : List EnvironmentVariableSpec
schema =
    record { name = "DATABASE_URL"; required = true; default_value = none }
    ∷ record { name = "LOG_LEVEL"; required = true; default_value = some "info" }
    ∷ []

load_exact_example :
    ((c : EnvironmentConfiguration) × (load environment schema ≡ ok c)
      × All (λ spec. IsMissing environment spec → ⊥) schema
      × ((name : String) → lookup name c.values ≡ expected environment name schema))
    ⊎ (Any (IsMissing environment) schema
        × (load environment schema ≡ err (make_error_code missing_required_variable)))
load_exact_example = load_exact environment schema

loaded :
    load environment schema
    ≡ ok (record { values = ("DATABASE_URL", "postgres://db") ∷ ("LOG_LEVEL", "info") ∷ [] })
unfolding load insert
loaded = refl

-- A URL with every part, one without a user, and ports beyond sixteen and beyond thirty-one bits.
read_url :
    from_url "postgresql://app:p:w@db:5432/orders?sslmode=require"
    ≡ some (
        ok (record {
          host = "db";
          port = 5432;
          database_name = "orders";
          user = "app";
          password = "p:w";
          use_ssl = true;
        }))
unfolding from_url
read_url = refl

no_user :
    from_url "postgres://:pw@db:5432/orders"
    ≡ some (err (make_error_code DatabaseConfigurationError.invalid_url))
unfolding from_url
no_user = refl

port_wraps :
    from_url "postgres://app:pw@db:70968/orders"
    ≡ some (
        ok (record {
          host = "db";
          port = 5432;
          database_name = "orders";
          user = "app";
          password = "pw";
          use_ssl = false;
        }))
unfolding from_url
port_wraps = refl

port_throws : from_url "postgres://app:pw@db:4294967296/orders" ≡ none
unfolding from_url
port_throws = refl
