-- ===== src/Models/Environment/Values.antt =====
-- The value of a variable that a schema may declare several times
-- (shared/models/EnvironmentConfiguration.h).
use liquid_pet_project.Prelude.{
  ◌≡◌, inl, inr, refl, sym, ap, ◌∙◌, Bool, true, false, ◌||◌, Option, none, some, List, [], ◌∷◌,
  String, Bool-cases, ◌==◌, eq_string, if◌then◌else◌, arith,
}
use liquid_pet_project.Errors.{environment_configuration_enum}
use liquid_pet_project.Models.Environment.{EnvironmentVariableSpec}

-- The first of two values that is there.
abbrev pub or_else : Option String → Option String → Option String
or_else (some v) other = some v
or_else none other = other

-- Whether the schema has a variable of this name, and the last default that it gives to one.
abbrev pub is_declared : String → List EnvironmentVariableSpec → Bool
is_declared name [] = false
is_declared name (spec ∷ schema) = (spec.name == name) || is_declared name schema

abbrev pub last_default : String → List EnvironmentVariableSpec → Option String
last_default name [] = none
last_default name (spec ∷ schema) =
    or_else (last_default name schema) (if spec.name == name then spec.default_value else none)

pub undeclared-default :
    (name : String) (schema : List EnvironmentVariableSpec)
    → is_declared name schema ≡ false
    → last_default name schema ≡ none
undeclared-default name [] h = refl
undeclared-default name (spec ∷ schema) h = elim (Bool-cases (spec.name == name)) [
  | inl same ↦ absurd (ground (arith, same))
  | inr other ↦ rw (other, undeclared-default name schema (ground (arith, other))) refl
]

-- The first variable of a schema that declares a name: with a value, and with none.
pub found_first :
    (d : Bool) (e l default before : Option String) (v : String)
    → (d ≡ false → l ≡ none)
    → or_else e default ≡ some v
    → (if d then or_else e (or_else l (some v)) else some v)
      ≡ or_else e (or_else (or_else l default) before)
found_first true (some raw) l default before v bare h = refl
found_first false (some raw) l default before v bare h = sym h
found_first true none (some x) default before v bare h = refl
found_first true none none default before v bare h = ap (λ o. or_else o before) (sym h)
found_first false none l default before v bare h =
    ap (λ o. or_else o before) (sym h)
    ∙ ap (λ o. or_else (or_else o default) before) (sym (bare refl))

pub missing_first :
    (d : Bool) (l before : Option String)
    → (d ≡ false → l ≡ none)
    → (if d then or_else l before else before) ≡ or_else (or_else l none) before
missing_first true (some x) before bare = refl
missing_first true none before bare = refl
missing_first false l before bare = ap (λ o. or_else (or_else o none) before) (sym (bare refl))

pub or_else-none : (o : Option String) → or_else o none ≡ o
or_else-none (some v) = refl
or_else-none none = refl

-- A variable that declares another name changes nothing.
pub other_first :
    (d : Bool) (e l before : Option String)
    → (if d then or_else e (or_else l before) else before)
      ≡ (if d then or_else e (or_else (or_else l none) before) else before)
other_first d e l before =
    ap (λ o. if d then or_else e (or_else o before) else before) (sym (or_else-none l))

pub or_else_nothing : (a b : Option String) → or_else a b ≡ none → (a ≡ none) × (b ≡ none)
or_else_nothing (some v) b h = absurd (cc h)
or_else_nothing none b h = (refl, h)
