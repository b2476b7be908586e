-- ===== src/Errors/Messages/Described.antt =====
-- Every error of the program has a code of its own, and a message of its own but for one.
use liquid_pet_project.Prelude.{ℕ, String, ◌≡◌, ◌≢◌, refl, false, ◌==◌, eq_string, beq_self, arith}
use liquid_pet_project.Errors.Enums.{
  OffsetTrackerError, PartitionRegistryError, EventPublisherError, EventConsumerError,
  StrongIdError, HostError, NetworkAddressError, DatabaseConfigurationError,
  EnvironmentConfigurationError, JsonParseError, RepositoryError, CurrencyError, MoneyError,
  OrderItemError, OrderError, ProcessingError,
}
use liquid_pet_project.Errors.Codes.{
  ErrorCode, make_error_code, offset_tracker_enum, offset_tracker_value, partition_registry_enum,
  partition_registry_value, event_publisher_enum, event_publisher_value, event_consumer_enum,
  event_consumer_value, strong_id_enum, strong_id_value, host_enum, host_value,
  network_address_enum, network_address_value, database_configuration_enum,
  database_configuration_value, environment_configuration_enum, environment_configuration_value,
  json_parse_enum, json_parse_value, repository_enum, repository_value, currency_enum,
  currency_value, money_enum, money_value, order_item_enum, order_item_value, order_enum,
  order_value, order_processing_enum, order_processing_value,
}
use liquid_pet_project.Errors.Messages.{message}
use liquid_pet_project.Errors.Messages.Defaults.{default_message}

-- All errors of the program.
pub data Failure : Type 0 where
  offset_tracker : OffsetTrackerError → Failure
  partition_registry : PartitionRegistryError → Failure
  event_publisher : EventPublisherError → Failure
  event_consumer : EventConsumerError → Failure
  strong_id : StrongIdError → Failure
  host : HostError → Failure
  network_address : NetworkAddressError → Failure
  database_configuration : DatabaseConfigurationError → Failure
  environment_configuration : EnvironmentConfigurationError → Failure
  json_parse : JsonParseError → Failure
  repository : RepositoryError → Failure
  currency : CurrencyError → Failure
  money : MoneyError → Failure
  order_item : OrderItemError → Failure
  order : OrderError → Failure
  order_processing : ProcessingError → Failure

abbrev pub code_of : Failure → ErrorCode
code_of (offset_tracker e) = make_error_code e
code_of (partition_registry e) = make_error_code e
code_of (event_publisher e) = make_error_code e
code_of (event_consumer e) = make_error_code e
code_of (strong_id e) = make_error_code e
code_of (host e) = make_error_code e
code_of (network_address e) = make_error_code e
code_of (database_configuration e) = make_error_code e
code_of (environment_configuration e) = make_error_code e
code_of (json_parse e) = make_error_code e
code_of (repository e) = make_error_code e
code_of (currency e) = make_error_code e
code_of (money e) = make_error_code e
code_of (order_item e) = make_error_code e
code_of (order e) = make_error_code e
code_of (order_processing e) = make_error_code e

-- Two different errors never have equal characters, so a comparison of characters tells every error apart.
pub code_of-injective : (f g : Failure) → code_of f ≡ code_of g → f ≡ g
unfolding offset_tracker_value partition_registry_value event_publisher_value event_consumer_value
    strong_id_value host_value network_address_value database_configuration_value
    environment_configuration_value json_parse_value repository_value currency_value money_value
    order_item_value order_value order_processing_value
code_of-injective (offset_tracker e) g h = ground arith
code_of-injective (partition_registry e) g h = ground arith
code_of-injective (event_publisher e) g h = ground arith
code_of-injective (event_consumer e) g h = ground arith
code_of-injective (strong_id e) g h = ground arith
code_of-injective (host e) g h = ground arith
code_of-injective (network_address e) g h = ground arith
code_of-injective (database_configuration e) g h = ground arith
code_of-injective (environment_configuration e) g h = ground arith
code_of-injective (json_parse e) g h = ground arith
code_of-injective (repository e) g h = ground arith
code_of-injective (currency e) g h = ground arith
code_of-injective (money e) g h = ground arith
code_of-injective (order_item e) g h = ground arith
code_of-injective (order e) g h = ground arith
code_of-injective (order_processing e) g h = ground arith

ne_of_beq : (s t : String) → (s == t) ≡ false → s ≢ t
ne_of_beq s t h p = ground (arith, beq_self s)

-- The category's own text for every error but `unknown_status`, which has no case in its switch.
pub described :
    (strerror : ℕ → String) (f : Failure)
    → f ≢ order OrderError.unknown_status
    → message strerror (code_of f) ≢ default_message (code_of f).category
unfolding message offset_tracker_value partition_registry_value event_publisher_value
    event_consumer_value strong_id_value host_value network_address_value
    database_configuration_value environment_configuration_value json_parse_value repository_value
    currency_value money_value order_item_value order_value order_processing_value
described strerror (offset_tracker OffsetTrackerError.out_of_order_registration) h =
    ne_of_beq _ _ refl
described strerror (offset_tracker OffsetTrackerError.unknown_offset) h = ne_of_beq _ _ refl
described strerror (offset_tracker OffsetTrackerError.commit_beyond_watermark) h =
    ne_of_beq _ _ refl
described strerror (partition_registry PartitionRegistryError.partition_not_assigned) h =
    ne_of_beq _ _ refl
described strerror (event_publisher EventPublisherError.connection_failure) h = ne_of_beq _ _ refl
described strerror (event_publisher EventPublisherError.timeout) h = ne_of_beq _ _ refl
described strerror (event_publisher EventPublisherError.serialization_failure) h =
    ne_of_beq _ _ refl
described strerror (event_publisher EventPublisherError.broker_rejected) h = ne_of_beq _ _ refl
described strerror (event_consumer EventConsumerError.connection_failure) h = ne_of_beq _ _ refl
described strerror (event_consumer EventConsumerError.timeout) h = ne_of_beq _ _ refl
described strerror (event_consumer EventConsumerError.broker_rejected) h = ne_of_beq _ _ refl
described strerror (strong_id StrongIdError.empty_id) h = ne_of_beq _ _ refl
described strerror (strong_id StrongIdError.invalid_format) h = ne_of_beq _ _ refl
described strerror (host HostError.empty_host) h = ne_of_beq _ _ refl
described strerror (host HostError.invalid_format) h = ne_of_beq _ _ refl
described strerror (network_address NetworkAddressError.empty_address) h = ne_of_beq _ _ refl
described strerror (network_address NetworkAddressError.invalid_format) h = ne_of_beq _ _ refl
described strerror (database_configuration DatabaseConfigurationError.empty_host) h =
    ne_of_beq _ _ refl
described strerror (database_configuration DatabaseConfigurationError.empty_database_name) h =
    ne_of_beq _ _ refl
described strerror (database_configuration DatabaseConfigurationError.empty_user) h =
    ne_of_beq _ _ refl
described strerror (database_configuration DatabaseConfigurationError.invalid_port) h =
    ne_of_beq _ _ refl
described strerror (database_configuration DatabaseConfigurationError.invalid_url) h =
    ne_of_beq _ _ refl
described strerror
      (environment_configuration EnvironmentConfigurationError.missing_required_variable) h =
    ne_of_beq _ _ refl
described strerror (json_parse JsonParseError.invalid_format) h = ne_of_beq _ _ refl
described strerror (json_parse JsonParseError.invalid_path) h = ne_of_beq _ _ refl
described strerror (json_parse JsonParseError.file_access_denied) h = ne_of_beq _ _ refl
described strerror (json_parse JsonParseError.section_not_found) h = ne_of_beq _ _ refl
described strerror (json_parse JsonParseError.key_not_found) h = ne_of_beq _ _ refl
described strerror (json_parse JsonParseError.unknown_error) h = ne_of_beq _ _ refl
described strerror (repository RepositoryError.not_found) h = ne_of_beq _ _ refl
described strerror (repository RepositoryError.connection_failure) h = ne_of_beq _ _ refl
described strerror (repository RepositoryError.timeout) h = ne_of_beq _ _ refl
described strerror (repository RepositoryError.constraint_violation) h = ne_of_beq _ _ refl
described strerror (repository RepositoryError.serialization_failure) h = ne_of_beq _ _ refl
described strerror (currency CurrencyError.empty_currency) h = ne_of_beq _ _ refl
described strerror (currency CurrencyError.negative_amount) h = ne_of_beq _ _ refl
described strerror (money MoneyError.negative_amount) h = ne_of_beq _ _ refl
described strerror (money MoneyError.different_currencies) h = ne_of_beq _ _ refl
described strerror (money MoneyError.underflow) h = ne_of_beq _ _ refl
described strerror (money MoneyError.overflow) h = ne_of_beq _ _ refl
described strerror (order_item OrderItemError.invalid_quantity) h = ne_of_beq _ _ refl
described strerror (order_item OrderItemError.price_overflow) h = ne_of_beq _ _ refl
described strerror (order OrderError.empty_items) h = ne_of_beq _ _ refl
described strerror (order OrderError.invalid_items) h = ne_of_beq _ _ refl
described strerror (order OrderError.unknown_status) h = absurd (h refl)
described strerror (order OrderError.invalid_status_transition) h = ne_of_beq _ _ refl
described strerror (order_processing ProcessingError.reservation_failed) h = ne_of_beq _ _ refl

undescribed :
    (strerror : ℕ → String)
    → message strerror (make_error_code OrderError.unknown_status) ≡ "unknown order error"
unfolding message order_value
undescribed strerror = refl
