-- ===== src/Errors/Messages.antt =====
-- The `name` and `message` members of the category classes.
pub mod Defaults
pub mod Described
use liquid_pet_project.Prelude.{ℕ, zero, suc, String, List, [], ◌∷◌, Option, none, some}
use liquid_pet_project.Errors.Codes.{
  Category, ErrorCode, offset_tracker, partition_registry, event_publisher, event_consumer,
  strong_id, host, network_address, database_configuration, environment_configuration, json_parse,
  repository, currency, money, order_item, order, order_processing, generic,
}

unfoldable pub name : Category → String
name offset_tracker = "offset_tracker"
name partition_registry = "partition_registry"
name event_publisher = "event_publisher"
name event_consumer = "event_consumer"
name strong_id = "strongId"
name host = "host"
name network_address = "networkAddress"
name database_configuration = "databaseConfiguration"
name environment_configuration = "environmentConfiguration"
name json_parse = "json parse"
name repository = "repository"
name currency = "currency"
name money = "money"
name order_item = "orderItem"
name order = "order"
name order_processing = "order_processing"
name generic = "generic"

-- One `switch` over the enumerators 1, 2, … of a category; an enumerator with no case of its own
-- takes the default, as does every other number.
cases : List (Option String) → ℕ → String → String
cases [] ev default = default
cases (m ∷ ms) zero default = default
cases (none ∷ ms) (suc zero) default = default
cases (some m ∷ ms) (suc zero) default = m
cases (m ∷ ms) (suc (suc ev)) default = cases ms (suc ev) default

-- The `message` of each category class.
offset_tracker_message : ℕ → String
unfolding cases
offset_tracker_message ev =
    cases
      (some "offset registered out of order"
        ∷ some "unknown offset"
        ∷ some "commit position is beyond watermark"
        ∷ [])
      ev "unknown offset tracker error"

partition_registry_message : ℕ → String
unfolding cases
partition_registry_message ev =
    cases (some "partition is not assigned" ∷ []) ev "unknown partition registry error"

event_publisher_message : ℕ → String
unfolding cases
event_publisher_message ev =
    cases
      (some "connection failure"
        ∷ some "timeout"
        ∷ some "serialization failure"
        ∷ some "broker rejected message"
        ∷ [])
      ev "unknown event publisher error"

event_consumer_message : ℕ → String
unfolding cases
event_consumer_message ev =
    cases (some "connection failure" ∷ some "timeout" ∷ some "broker rejected message" ∷ []) ev
      "unknown event consumer error"

strong_id_message : ℕ → String
unfolding cases
strong_id_message ev =
    cases (some "empty id" ∷ some "invalid format" ∷ []) ev "unknown strongId error"

host_message : ℕ → String
unfolding cases
host_message ev = cases (some "empty host" ∷ some "invalid format" ∷ []) ev "unknown host error"

network_address_message : ℕ → String
unfolding cases
network_address_message ev =
    cases (some "empty address" ∷ some "invalid format" ∷ []) ev "unknown networkAddress error"

database_configuration_message : ℕ → String
unfolding cases
database_configuration_message ev =
    cases
      (some "empty host"
        ∷ some "empty database name"
        ∷ some "empty user"
        ∷ some "invalid port"
        ∷ some "invalid url"
        ∷ [])
      ev "unknown database config error"

environment_configuration_message : ℕ → String
unfolding cases
environment_configuration_message ev =
    cases (some "missing required environment variable" ∷ []) ev
      "unknown environment configuration error"

json_parse_message : ℕ → String
unfolding cases
json_parse_message ev =
    cases
      (some "invalid json format"
        ∷ some "invalid path"
        ∷ some "file access denied"
        ∷ some "section not found"
        ∷ some "key not found"
        ∷ some "unknown error"
        ∷ [])
      ev "unknown json parse error"

repository_message : ℕ → String
unfolding cases
repository_message ev =
    cases
      (some "not found"
        ∷ some "connection failure"
        ∷ some "timeout"
        ∷ some "constraint violation failure"
        ∷ some "serialization failure"
        ∷ [])
      ev "unknown repository error"

currency_message : ℕ → String
unfolding cases
currency_message ev =
    cases (some "empty currency" ∷ some "negative amount" ∷ []) ev "unknown currency error"

money_message : ℕ → String
unfolding cases
money_message ev =
    cases
      (some "negative amount"
        ∷ some "different currencies"
        ∷ some "underflow"
        ∷ some "overflow"
        ∷ [])
      ev "unknown money error"

order_item_message : ℕ → String
unfolding cases
order_item_message ev =
    cases (some "invalid quantity" ∷ some "price overflow" ∷ []) ev "unknown orderItem error"

order_message : ℕ → String
unfolding cases
order_message ev =
    cases (some "empty items" ∷ some "invalid items" ∷ none ∷ some "invalid status transition" ∷ [])
      ev "unknown order error"

order_processing_message : ℕ → String
unfolding cases
order_processing_message ev = cases (some "reservation failed" ∷ []) ev "unknown processing error"

-- `std::error_code::message`. What the standard library says of std::errc is a parameter.
unfoldable pub message : (ℕ → String) → ErrorCode → String
unfolding offset_tracker_message partition_registry_message event_publisher_message
    event_consumer_message strong_id_message host_message network_address_message
    database_configuration_message environment_configuration_message json_parse_message
    repository_message currency_message money_message order_item_message order_message
    order_processing_message
message strerror e = elim e.category [
  | generic ↦ strerror e.value
  | offset_tracker ↦ offset_tracker_message e.value
  | partition_registry ↦ partition_registry_message e.value
  | event_publisher ↦ event_publisher_message e.value
  | event_consumer ↦ event_consumer_message e.value
  | strong_id ↦ strong_id_message e.value
  | host ↦ host_message e.value
  | network_address ↦ network_address_message e.value
  | database_configuration ↦ database_configuration_message e.value
  | environment_configuration ↦ environment_configuration_message e.value
  | json_parse ↦ json_parse_message e.value
  | repository ↦ repository_message e.value
  | currency ↦ currency_message e.value
  | money ↦ money_message e.value
  | order_item ↦ order_item_message e.value
  | order ↦ order_message e.value
  | order_processing ↦ order_processing_message e.value
]
