-- ===== src/NetLog.antt =====
-- m1-net-log-filtering-system: IPv4 addresses, filters, the stream processor and its interface.
pub mod Address
pub mod Subnet
pub mod Range
pub mod Composite
pub mod Config
pub mod Stream
pub mod Main
mod Tests
