-- ===== src/Models/Database.antt =====
-- shared/models/DatabaseConfiguration.h, without the connection string. The regular expression of
-- `fromUrl` is written out: each of its parts ends at the first character that the part excludes.
use liquid_pet_project.Prelude.{
  ℕ, ◌+◌, ◌*◌, ◌-◌, ◌^◌, ◌%◌, Bool, false, ◌&&◌, ◌||◌, not, Option, none, some, String, leb, ltb,
  eqb, if◌then◌else◌, Expected, ok, err, ◌==◌, eq_string,
}
use Prim.Native.Char.{code}
use liquid_pet_project.Errors.{
  ErrorCode, make_error_code, database_configuration_enum, DatabaseConfigurationError,
}

pub record DatabaseConfiguration : Type 0 where
  pub host : String
  pub port : ℕ
  pub database_name : String
  pub user : String
  pub password : String
  pub use_ssl : Bool

unfoldable pub create :
    String → ℕ → String → String → String → Bool → Expected ErrorCode DatabaseConfiguration
create host port database_name user password use_ssl =
    if host == ""
    then err (make_error_code DatabaseConfigurationError.empty_host)
    else (if database_name == ""
        then err (make_error_code DatabaseConfigurationError.empty_database_name)
        else (if user == ""
            then err (make_error_code DatabaseConfigurationError.empty_user)
            else (if eqb port 0
                then err (make_error_code DatabaseConfigurationError.invalid_port)
                else ok (record {
                  host = host;
                  port = port;
                  database_name = database_name;
                  user = user;
                  password = password;
                  use_ssl = use_ssl;
                }))))

-- The longest part whose characters pass the test, and what follows it.
unfoldable pub part : (ℕ → Bool) → String → String × String
part passes String.[] = ("", "")
part passes (String.◌∷◌ first text) =
    let (taken, rest) = part passes text in
    if passes (code first) then (String.◌∷◌ first taken, rest) else ("", String.◌∷◌ first text)

-- What follows a literal text.
unfoldable pub after : String → String → Option String
after String.[] text = some text
after (String.◌∷◌ p prefix) String.[] = none
after (String.◌∷◌ p prefix) (String.◌∷◌ first text) =
    let rest = after prefix text in if eqb (code p) (code first) then rest else none

-- One part of the expression, which must not be empty, and the literal text after it.
unfoldable pub field : (ℕ → Bool) → String → String → Option (String × String)
unfolding part after
field passes stop text =
    let (taken, rest) = part passes text in
    elim (after stop rest) [
      | none ↦ none
      | some more ↦ if taken == "" then none else some (taken, more)
    ]

abbrev is_digit : ℕ → Bool
is_digit c = leb b'0' c && leb c b'9'

-- \w
abbrev is_word : ℕ → Bool
is_word c = is_digit c || ((leb b'a' c && leb c b'z') || ((leb b'A' c && leb c b'Z') || eqb c b'_'))

-- The value of a run of digits, from the value so far.
unfoldable pub digits_from : ℕ → String → ℕ
digits_from n String.[] = n
digits_from n (String.◌∷◌ first text) = digits_from (n * 10 + (code first - b'0')) text

abbrev bind {ℓ κ} : {A : Type ℓ} {B : Type κ} → Option A → (A → Option B) → Option B
bind none next = none
bind (some a) next = next a

-- What the groups of the expression match; whether there is an sslmode other than disable.
pub record Parts : Type 0 where
  pub user : String
  pub password : String
  pub host : String
  pub digits : String
  pub database_name : String
  pub use_ssl : Bool

-- postgres(?:ql)?://
unfoldable pub match_scheme : String → Option String
unfolding after
match_scheme url =
    bind (after "postgres" url)
      (λ text. elim (after "ql" text) [ none ↦ after "://" text | some rest ↦ after "://" rest ])

-- (?:\?sslmode=(\w+))?$
unfoldable pub match_mode : String → Option Bool
unfolding part after
match_mode text =
    if text == ""
    then some false
    else bind (after "?sslmode=" text) (λ mode.
      if not (mode == "") && ((part is_word mode).1 == "")
      then some (not (mode == "disable"))
      else none)

-- ([^:/]+):(\d+)/([^?]+) and the mode, after the user and the password.
unfoldable pub match_place : String → String → String → Option Parts
unfolding field match_mode part
match_place user password text =
    bind (field (λ c. not (eqb c b':' || eqb c b'/')) ":" text) (λ (host, at_port).
      bind (field is_digit "/" at_port) (λ (digits, at_name).
        let (database_name, at_mode) = part (λ c. not (eqb c b'?')) at_name in
        if database_name == ""
        then none
        else bind (match_mode at_mode) (λ use_ssl. some (record {
          user = user;
          password = password;
          host = host;
          digits = digits;
          database_name = database_name;
          use_ssl = use_ssl;
        }))))

-- std::regex_match
unfoldable pub match_url : String → Option Parts
unfolding match_scheme field part after match_place
match_url url = bind (match_scheme url) (λ text.
    bind (field (λ c. not (eqb c b':')) ":" text) (λ (user, at_password).
      let (password, at_host) = part (λ c. not (eqb c b'@')) at_password in
      bind (after "@" at_host) (λ rest. match_place user password rest)))

-- The parts of a URL; none is that std::stoi throws, on a number beyond an int. The cast of the port
-- to std::uint16_t wraps.
unfoldable pub from_parts : Option Parts → Option (Expected ErrorCode DatabaseConfiguration)
unfolding digits_from create
from_parts none = some (err (make_error_code DatabaseConfigurationError.invalid_url))
from_parts (some p) =
    let n = digits_from 0 p.digits in
    if ltb (2 ^ 31 - 1) n
    then none
    else some (create p.host (n % 2 ^ 16) p.database_name p.user p.password p.use_ssl)

-- fromUrl
unfoldable pub from_url : String → Option (Expected ErrorCode DatabaseConfiguration)
unfolding match_url from_parts
from_url url = from_parts (match_url url)
