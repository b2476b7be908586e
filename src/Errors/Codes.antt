-- ===== src/Errors/Codes.antt =====
-- An error code is a number and a category; each enum has its own category, and its first
-- enumerator is 1 (the `make_error_code` functions). `generic` is the category of std::errc.
use liquid_pet_project.Prelude.{ℕ}
use liquid_pet_project.Errors.Enums.{
  OffsetTrackerError, PartitionRegistryError, EventPublisherError, EventConsumerError,
  StrongIdError, HostError, NetworkAddressError, DatabaseConfigurationError,
  EnvironmentConfigurationError, JsonParseError, RepositoryError, CurrencyError, MoneyError,
  OrderItemError, OrderError, ProcessingError,
}

pub data Category : Type 0 where
  offset_tracker partition_registry event_publisher event_consumer strong_id host network_address
        database_configuration environment_configuration json_parse repository currency money
        order_item order order_processing generic :
      Category

pub record ErrorCode : Type 0 where
  pub value : ℕ
  pub category : Category

-- std::is_error_code_enum, with the conversion that it switches on.
pub record ErrorEnum (E : Type 0) : Type 0 where
  pub to_code : E → ErrorCode

abbrev pub make_error_code : {E : Type 0} ⦃i : ErrorEnum E⦄ → E → ErrorCode
make_error_code ⦃i⦄ = i.to_code

-- std::errc::invalid_argument and operation_in_progress, by their numbers on Linux.
pub data Errc : Type 0 where
  invalid_argument operation_in_progress : Errc

unfoldable pub errc_value : Errc → ℕ
errc_value invalid_argument = 22
errc_value operation_in_progress = 115

instance abbrev pub errc_enum : ErrorEnum Errc
errc_enum = record { to_code = λ e. record { value = errc_value e; category = generic } }

unfoldable pub offset_tracker_value : OffsetTrackerError → ℕ
offset_tracker_value OffsetTrackerError.out_of_order_registration = 1
offset_tracker_value OffsetTrackerError.unknown_offset = 2
offset_tracker_value OffsetTrackerError.commit_beyond_watermark = 3

instance abbrev pub offset_tracker_enum : ErrorEnum OffsetTrackerError
offset_tracker_enum = record {
  to_code = λ e. record { value = offset_tracker_value e; category = offset_tracker };
}

unfoldable pub partition_registry_value : PartitionRegistryError → ℕ
partition_registry_value PartitionRegistryError.partition_not_assigned = 1

instance abbrev pub partition_registry_enum : ErrorEnum PartitionRegistryError
partition_registry_enum = record {
  to_code = λ e. record { value = partition_registry_value e; category = partition_registry };
}

unfoldable pub event_publisher_value : EventPublisherError → ℕ
event_publisher_value EventPublisherError.connection_failure = 1
event_publisher_value EventPublisherError.timeout = 2
event_publisher_value EventPublisherError.serialization_failure = 3
event_publisher_value EventPublisherError.broker_rejected = 4

instance abbrev pub event_publisher_enum : ErrorEnum EventPublisherError
event_publisher_enum = record {
  to_code = λ e. record { value = event_publisher_value e; category = event_publisher };
}

unfoldable pub event_consumer_value : EventConsumerError → ℕ
event_consumer_value EventConsumerError.connection_failure = 1
event_consumer_value EventConsumerError.timeout = 2
event_consumer_value EventConsumerError.broker_rejected = 3

instance abbrev pub event_consumer_enum : ErrorEnum EventConsumerError
event_consumer_enum = record {
  to_code = λ e. record { value = event_consumer_value e; category = event_consumer };
}

unfoldable pub strong_id_value : StrongIdError → ℕ
strong_id_value StrongIdError.empty_id = 1
strong_id_value StrongIdError.invalid_format = 2

instance abbrev pub strong_id_enum : ErrorEnum StrongIdError
strong_id_enum = record {
  to_code = λ e. record { value = strong_id_value e; category = strong_id };
}

unfoldable pub host_value : HostError → ℕ
host_value HostError.empty_host = 1
host_value HostError.invalid_format = 2

instance abbrev pub host_enum : ErrorEnum HostError
host_enum = record { to_code = λ e. record { value = host_value e; category = host } }

unfoldable pub network_address_value : NetworkAddressError → ℕ
network_address_value NetworkAddressError.empty_address = 1
network_address_value NetworkAddressError.invalid_format = 2

instance abbrev pub network_address_enum : ErrorEnum NetworkAddressError
network_address_enum = record {
  to_code = λ e. record { value = network_address_value e; category = network_address };
}

unfoldable pub database_configuration_value : DatabaseConfigurationError → ℕ
database_configuration_value DatabaseConfigurationError.empty_host = 1
database_configuration_value DatabaseConfigurationError.empty_database_name = 2
database_configuration_value DatabaseConfigurationError.empty_user = 3
database_configuration_value DatabaseConfigurationError.invalid_port = 4
database_configuration_value DatabaseConfigurationError.invalid_url = 5

instance abbrev pub database_configuration_enum : ErrorEnum DatabaseConfigurationError
database_configuration_enum = record {
  to_code =
      λ e. record { value = database_configuration_value e; category = database_configuration };
}

unfoldable pub environment_configuration_value : EnvironmentConfigurationError → ℕ
environment_configuration_value EnvironmentConfigurationError.missing_required_variable = 1

instance abbrev pub environment_configuration_enum : ErrorEnum EnvironmentConfigurationError
environment_configuration_enum = record {
  to_code = λ e. record {
    value = environment_configuration_value e;
    category = environment_configuration;
  };
}

unfoldable pub json_parse_value : JsonParseError → ℕ
json_parse_value JsonParseError.invalid_format = 1
json_parse_value JsonParseError.invalid_path = 2
json_parse_value JsonParseError.file_access_denied = 3
json_parse_value JsonParseError.section_not_found = 4
json_parse_value JsonParseError.key_not_found = 5
json_parse_value JsonParseError.unknown_error = 6

instance abbrev pub json_parse_enum : ErrorEnum JsonParseError
json_parse_enum = record {
  to_code = λ e. record { value = json_parse_value e; category = json_parse };
}

unfoldable pub repository_value : RepositoryError → ℕ
repository_value RepositoryError.not_found = 1
repository_value RepositoryError.connection_failure = 2
repository_value RepositoryError.timeout = 3
repository_value RepositoryError.constraint_violation = 4
repository_value RepositoryError.serialization_failure = 5

instance abbrev pub repository_enum : ErrorEnum RepositoryError
repository_enum = record {
  to_code = λ e. record { value = repository_value e; category = repository };
}

unfoldable pub currency_value : CurrencyError → ℕ
currency_value CurrencyError.empty_currency = 1
currency_value CurrencyError.negative_amount = 2

instance abbrev pub currency_enum : ErrorEnum CurrencyError
currency_enum = record { to_code = λ e. record { value = currency_value e; category = currency } }

unfoldable pub money_value : MoneyError → ℕ
money_value MoneyError.negative_amount = 1
money_value MoneyError.different_currencies = 2
money_value MoneyError.underflow = 3
money_value MoneyError.overflow = 4

instance abbrev pub money_enum : ErrorEnum MoneyError
money_enum = record { to_code = λ e. record { value = money_value e; category = money } }

unfoldable pub order_item_value : OrderItemError → ℕ
order_item_value OrderItemError.invalid_quantity = 1
order_item_value OrderItemError.price_overflow = 2

instance abbrev pub order_item_enum : ErrorEnum OrderItemError
order_item_enum = record {
  to_code = λ e. record { value = order_item_value e; category = order_item };
}

unfoldable pub order_value : OrderError → ℕ
order_value OrderError.empty_items = 1
order_value OrderError.invalid_items = 2
order_value OrderError.unknown_status = 3
order_value OrderError.invalid_status_transition = 4

instance abbrev pub order_enum : ErrorEnum OrderError
order_enum = record { to_code = λ e. record { value = order_value e; category = order } }

unfoldable pub order_processing_value : ProcessingError → ℕ
order_processing_value ProcessingError.reservation_failed = 1

instance abbrev pub order_processing_enum : ErrorEnum ProcessingError
order_processing_enum = record {
  to_code = λ e. record { value = order_processing_value e; category = order_processing };
}
