-- ===== src/Modbus.antt =====
-- The Modbus package: pkg/modbus.
pub mod Words
pub mod ByteOrder
pub mod Result
pub mod Client
pub mod Value
pub mod Parse
pub mod Grouping
pub mod Batch
pub mod Collector
pub mod Collect
pub mod Convert
pub mod Write
pub mod Single
pub mod Manager
pub mod Cache
pub mod Loaded
pub mod Methods
