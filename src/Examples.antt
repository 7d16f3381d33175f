-- ===== src/Examples.antt =====
-- The theorems at concrete stores, records and times, with tests of what the definitions compute.
pub mod Values
pub mod Codecs
pub mod Files
pub mod Stores
pub mod Services
pub mod Conflicts
pub mod Queues
pub mod Identities
pub mod Mappings
pub mod Engines
