-- ===== src/Agents.antt =====
-- The agents of the administration panel: accounts in a hierarchy, their credit and their money
-- (backend/h5_backend/services/admin_panel).
pub mod Rows
pub mod Rbac
pub mod Visibility
pub mod Credit
pub mod Settlement
pub mod Recharge
pub mod Codes
pub mod Quote
pub mod Funding
pub mod Batches
pub mod Hierarchy
pub mod Settings
pub mod Books
pub mod Escalation
