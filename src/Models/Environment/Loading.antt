-- ===== src/Models/Environment/Loading.antt =====
-- When a configuration is loaded and what it holds (shared/models/EnvironmentConfiguration.h).
use liquid_pet_project.Prelude.{
  ◌≡◌, ◌⊎◌, inl, inr, refl, sym, ap, ◌∙◌, true, false, Option, none, some, List, [], ◌∷◌, String,
  Expected, ok, err, All, Any, Bool-cases, Option-cases, ◌==◌, eq_string, beq→eq, if◌then◌else◌,
}
use mathlib.Core.Path.{subst}
use liquid_pet_project.Prelude.Dict.{Dict, lookup, insert, lookup-insert}
use liquid_pet_project.Errors.{
  ErrorCode, make_error_code, environment_configuration_enum, missing_required_variable,
}
use liquid_pet_project.Models.Environment.{
  EnvironmentVariableSpec, EnvironmentConfiguration, value_of, load_from, load,
}
use liquid_pet_project.Models.Environment.Values.{
  or_else, is_declared, last_default, undeclared-default, found_first, missing_first, or_else-none,
  other_first, or_else_nothing,
}

module _ (getenv : String → Option String) where
  -- A required variable that the environment does not have and that has no default.
  abbrev pub IsMissing : EnvironmentVariableSpec → Type 0
  IsMissing spec = (getenv spec.name ≡ none) × (spec.default_value ≡ none) × (spec.required ≡ true)

  -- What a configuration is to hold under a name, where it held `before` already: for a variable of the
  -- schema its value in the environment, or else the last default.
  abbrev held : String → List EnvironmentVariableSpec → Option String → Option String
  held name schema before =
      if is_declared name schema
      then or_else (getenv name) (or_else (last_default name schema) before)
      else before

  abbrev pub expected : String → List EnvironmentVariableSpec → Option String
  expected name schema =
      if is_declared name schema then or_else (getenv name) (last_default name schema) else none

  value_parts :
      (spec : EnvironmentVariableSpec)
      → value_of getenv spec ≡ or_else (getenv spec.name) spec.default_value
  unfolding value_of
  value_parts spec = elim (Option-cases (getenv spec.name)) [
    | inl nothing ↦ rw (nothing, value_of) refl
    | inr (raw, has) ↦ rw (has, value_of) refl
  ]

  missing-value : (spec : EnvironmentVariableSpec) → IsMissing spec → value_of getenv spec ≡ none
  missing-value spec (unset, bare, must) = value_parts spec ∙ rw (unset, bare) refl

  nothing_for :
      (spec : EnvironmentVariableSpec)
      → value_of getenv spec ≡ none
      → (getenv spec.name ≡ none) × (spec.default_value ≡ none)
  nothing_for spec missing =
      or_else_nothing (getenv spec.name) spec.default_value (sym (value_parts spec) ∙ missing)

  held-found :
      (name : String) (spec : EnvironmentVariableSpec) (schema : List EnvironmentVariableSpec)
      (before : Option String) (v : String)
      → value_of getenv spec ≡ some v
      → held name schema (if spec.name == name then some v else before)
        ≡ held name (spec ∷ schema) before
  held-found name spec schema before v has = elim (Bool-cases (spec.name == name)) [
    | inr other ↦
        rw other
          (other_first (is_declared name schema) (getenv name) (last_default name schema) before)
    | inl same ↦ rw same (
        found_first (is_declared name schema) (getenv name) (last_default name schema)
          spec.default_value before v (undeclared-default name schema)
          (ap (λ n. or_else (getenv n) spec.default_value) (sym (beq→eq spec.name name same))
            ∙ sym (value_parts spec)
            ∙ has))
  ]

  held-missing :
      (name : String) (spec : EnvironmentVariableSpec) (schema : List EnvironmentVariableSpec)
      (before : Option String)
      → value_of getenv spec ≡ none
      → held name schema before ≡ held name (spec ∷ schema) before
  held-missing name spec schema before missing = elim (Bool-cases (spec.name == name)) [
    | inr other ↦
        rw other
          (other_first (is_declared name schema) (getenv name) (last_default name schema) before)
    | inl same ↦
        let (unset, bare) = nothing_for spec missing in
        let unset_here = ap getenv (sym (beq→eq spec.name name same)) ∙ unset in
        rw same (
          rw (unset_here, bare)
            (missing_first (is_declared name schema) (last_default name schema) before
              (undeclared-default name schema)))
  ]

  -- What loading comes to, from the values so far.
  abbrev Outcome :
      List EnvironmentVariableSpec
      → Dict String String
      → Expected ErrorCode EnvironmentConfiguration
      → Type 0
  Outcome schema before result =
      ((c : EnvironmentConfiguration) × (result ≡ ok c)
        × All (λ spec. IsMissing spec → ⊥) schema
        × ((name : String) → lookup name c.values ≡ held name schema (lookup name before)))
      ⊎ (Any IsMissing schema × (result ≡ err (make_error_code missing_required_variable)))

  module _ (m : Dict String String) (spec : EnvironmentVariableSpec)
      (schema : List EnvironmentVariableSpec) where
    step_found :
        (v : String)
        → value_of getenv spec ≡ some v
        → load_from getenv m (spec ∷ schema) ≡ load_from getenv (insert spec.name v m) schema
    unfolding load_from
    step_found v h = rw (h, load_from) refl

    step_optional :
        value_of getenv spec ≡ none
        → spec.required ≡ false
        → load_from getenv m (spec ∷ schema) ≡ load_from getenv m schema
    unfolding load_from
    step_optional h optional = rw (h, load_from) (rw optional refl)

    step_missing :
        value_of getenv spec ≡ none
        → spec.required ≡ true
        → load_from getenv m (spec ∷ schema) ≡ err (make_error_code missing_required_variable)
    unfolding load_from
    step_missing h must = rw (h, load_from) (rw must refl)

    found-Outcome :
        (v : String) (result : Expected ErrorCode EnvironmentConfiguration)
        → value_of getenv spec ≡ some v
        → Outcome schema (insert spec.name v m) result
        → Outcome (spec ∷ schema) m result
    found-Outcome v result has (inr (missing, q)) = inr (inr missing, q)
    found-Outcome v result has (inl (c, q, complete, holds)) = inl (
      c,
      q,
      ((λ missing. cc (sym has ∙ missing-value spec missing)), complete),
      λ name.
          holds name
          ∙ ap (held name schema) (lookup-insert spec.name name v m)
          ∙ held-found name spec schema (lookup name m) v has,
    )

    optional-Outcome :
        (result : Expected ErrorCode EnvironmentConfiguration)
        → value_of getenv spec ≡ none
        → spec.required ≡ false
        → Outcome schema m result
        → Outcome (spec ∷ schema) m result
    optional-Outcome result missing optional (inr (others, q)) = inr (inr others, q)
    optional-Outcome result missing optional (inl (c, q, complete, holds)) = inl (
      c,
      q,
      ((λ (unset, bare, must). cc (sym optional ∙ must)), complete),
      λ name. holds name ∙ held-missing name spec schema (lookup name m) missing,
    )

  load_from-Outcome :
      (m : Dict String String) (schema : List EnvironmentVariableSpec)
      → Outcome schema m (load_from getenv m schema)
  unfolding load_from
  load_from-Outcome m [] = inl (record { values = m }, refl, tt, λ name. refl)
  load_from-Outcome m (spec ∷ schema) = elim (Option-cases (value_of getenv spec)) [
    | inr (v, has) ↦ subst (Outcome (spec ∷ schema) m) (sym (step_found m spec schema v has)) (
        found-Outcome m spec schema v (load_from getenv (insert spec.name v m) schema) has
          (load_from-Outcome (insert spec.name v m) schema))
    | inl missing ↦ elim (Bool-cases spec.required) [
      | inl must ↦
          let (unset, bare) = nothing_for spec missing in
          inr (inl (unset, bare, must), step_missing m spec schema missing must)
      | inr optional ↦
          subst (Outcome (spec ∷ schema) m) (sym (step_optional m spec schema missing optional)) (
            optional-Outcome m spec schema (load_from getenv m schema) missing optional
              (load_from-Outcome m schema))
    ]
  ]

  -- Either no variable of the schema is missing, and the configuration holds exactly this: under the
  -- name of each variable of the schema its value in the environment, or else the last default that
  -- the schema gives to the name, if it gives one, and nothing under any other name. Or some required
  -- variable is neither in the environment nor has a default, and loading fails.
  pub load_exact :
      (schema : List EnvironmentVariableSpec)
      → ((c : EnvironmentConfiguration) × (load getenv schema ≡ ok c)
          × All (λ spec. IsMissing spec → ⊥) schema
          × ((name : String) → lookup name c.values ≡ expected name schema))
        ⊎ (Any IsMissing schema
            × (load getenv schema ≡ err (make_error_code missing_required_variable)))
  unfolding load lookup
  load_exact schema = elim (load_from-Outcome [] schema) [
    | inl (c, q, complete, holds) ↦ inl (
      c,
      q,
      complete,
      λ name.
          holds name
          ∙ ap (λ o. if is_declared name schema then or_else (getenv name) o else none)
              (or_else-none (last_default name schema)),
    )
    | inr missing ↦ inr missing
  ]
