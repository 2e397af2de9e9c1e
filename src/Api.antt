-- ===== src/Api.antt =====
-- What stands between the server and the routes (api).
pub mod RequestSize
pub mod Limits
mod Tests
