-- ===== src/Provider.antt =====
-- provider/: which AWS client serves an account in a region, and which failures are remembered.
pub mod FailureCache
pub mod Client
pub mod Pool
pub mod Discovery
pub mod Local
