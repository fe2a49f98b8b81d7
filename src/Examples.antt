-- ===== src/Examples.antt =====
-- The theorems at concrete inputs, and runs of the definitions.
pub mod Failures
pub mod Pools
pub mod Stores
pub mod Caches
pub mod Costs
pub mod Readers
pub mod Slices
pub mod Gateways
pub mod Keys
pub mod Finders
pub mod Lookups
pub mod Events
pub mod Tenants
pub mod Tags
