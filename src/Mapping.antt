-- ===== src/Mapping.antt =====
-- internal/mapping: which canonical field stands at which path of each side.
pub mod Directions
pub mod Transforms
pub mod Paths
pub mod RoundTrip
pub mod Narrowing
pub mod Fields
pub mod Building
pub mod Exchange
pub mod Hosts
pub mod Checks
