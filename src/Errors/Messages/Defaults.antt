-- ===== src/Errors/Messages/Defaults.antt =====
-- The default cases of the `message` members, apart from the switches that use them.
use liquid_pet_project.Prelude.{String}
use liquid_pet_project.Errors.Codes.{
  Category, offset_tracker, partition_registry, event_publisher, event_consumer, strong_id, host,
  network_address, database_configuration, environment_configuration, json_parse, repository,
  currency, money, order_item, order, order_processing, generic,
}

-- What each category says of a number that it has no case for.
abbrev pub default_message : Category → String
default_message offset_tracker = "unknown offset tracker error"
default_message partition_registry = "unknown partition registry error"
default_message event_publisher = "unknown event publisher error"
default_message event_consumer = "unknown event consumer error"
default_message strong_id = "unknown strongId error"
default_message host = "unknown host error"
default_message network_address = "unknown networkAddress error"
default_message database_configuration = "unknown database config error"
default_message environment_configuration = "unknown environment configuration error"
default_message json_parse = "unknown json parse error"
default_message repository = "unknown repository error"
default_message currency = "unknown currency error"
default_message money = "unknown money error"
default_message order_item = "unknown orderItem error"
default_message order = "unknown order error"
default_message order_processing = "unknown processing error"
default_message generic = "unknown error"
