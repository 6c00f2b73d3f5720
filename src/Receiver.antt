-- ===== src/Receiver.antt =====
-- receiver/awskinesisreceiver: one shard's poller, what it does with the records of a batch, and the
-- coordinator that shares the shards out.
pub mod Config
pub mod Batch
pub mod Poller
pub mod Worker
pub mod Discovery
pub mod Coordinator
mod Samples
