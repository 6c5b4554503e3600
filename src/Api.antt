-- ===== src/Api.antt =====
-- api/v1 and api/provider/v1: the data types that the components share.
mod Config
mod State
pub mod Provider
pub use Config.*
pub use State.*
