-- ===== src/Exporter.antt =====
-- exporter/awskinesisexporter: the exporter, a module for each file of the package.
pub mod Config
pub mod Oversize
pub mod Record
pub mod Text
pub mod Emit
pub mod Consume
pub mod Signal
pub mod Partition
pub mod Split
pub mod Clamp
mod Samples
