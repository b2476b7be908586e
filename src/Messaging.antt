-- ===== src/Messaging.antt =====
-- shared/messaging: from the broker's records to handled and committed offsets.
pub mod OffsetTracker
pub mod PartitionRegistry
pub mod WorkerPool
pub mod RetryPolicy
pub mod Handling
pub mod RecordExecutor
pub mod ConsumerPipeline
pub mod KafkaConsumer
