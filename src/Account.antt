-- ===== src/Account.antt =====
-- The accounts' rows: backend/bot/account/.
pub mod Rows
pub mod Reauth
pub mod Observation
