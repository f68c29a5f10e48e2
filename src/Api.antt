-- ===== src/Api.antt =====
-- web/src/lib/api.ts: the data that the hub sends and the calls that the panel makes.
pub mod Types
pub mod Fetch
pub mod Calls
pub mod Laws
mod Tests
