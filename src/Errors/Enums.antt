-- ===== src/Errors/Enums.antt =====
-- The error enums of the program, each beside its category class in the source.

-- shared/messaging/OffsetTracker.h
pub data OffsetTrackerError : Type 0 where
  out_of_order_registration unknown_offset commit_beyond_watermark : OffsetTrackerError

-- shared/messaging/PartitionRegistry.h
pub data PartitionRegistryError : Type 0 where
  partition_not_assigned : PartitionRegistryError

-- shared/messaging/producer/IEventPublisher.h
pub data EventPublisherError : Type 0 where
  connection_failure timeout serialization_failure broker_rejected : EventPublisherError

-- shared/messaging/consumer/IEventConsumer.h
pub data EventConsumerError : Type 0 where
  connection_failure timeout broker_rejected : EventConsumerError

-- shared/models/StrongID.h
pub data StrongIdError : Type 0 where
  empty_id invalid_format : StrongIdError

-- shared/models/Host.h
pub data HostError : Type 0 where
  empty_host invalid_format : HostError

-- shared/models/NetworkAddress.h
pub data NetworkAddressError : Type 0 where
  empty_address invalid_format : NetworkAddressError

-- shared/models/DatabaseConfiguration.h
pub data DatabaseConfigurationError : Type 0 where
  empty_host empty_database_name empty_user invalid_port invalid_url : DatabaseConfigurationError

-- shared/models/EnvironmentConfiguration.h
pub data EnvironmentConfigurationError : Type 0 where
  missing_required_variable : EnvironmentConfigurationError

-- shared/json/Json.h
pub data JsonParseError : Type 0 where
  invalid_format invalid_path file_access_denied section_not_found key_not_found unknown_error :
      JsonParseError

-- shared/repository/RepositoryError.h
pub data RepositoryError : Type 0 where
  not_found connection_failure timeout constraint_violation serialization_failure : RepositoryError

-- order-service/models/Currency.h
pub data CurrencyError : Type 0 where
  empty_currency negative_amount : CurrencyError

-- order-service/models/Money.h
pub data MoneyError : Type 0 where
  negative_amount different_currencies underflow overflow : MoneyError

-- order-service/models/Order.h
pub data OrderItemError : Type 0 where
  invalid_quantity price_overflow : OrderItemError

-- order-service/models/Order.h
pub data OrderError : Type 0 where
  empty_items invalid_items unknown_status invalid_status_transition : OrderError

-- worker-service/processing/IOrderProcessor.h
pub data ProcessingError : Type 0 where
  reservation_failed : ProcessingError
