-- ===== src/Licensing.antt =====
-- The authorization of a user's account to send: backend/h5_backend/services/licensing/service.py.
pub mod Rows
pub mod Normalize
pub mod Single
pub mod Permission
pub mod Cards
pub mod Trial
pub mod Bindings
