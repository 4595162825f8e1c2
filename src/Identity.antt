-- ===== src/Identity.antt =====
-- internal/identity: accounts, browser sessions, their correlation with provider sessions, logout
-- grants, the validation runs of managed applications, and the ways to get an account.
pub mod Policy
pub mod Rows
pub mod Sessions
pub mod Grants
pub mod Validation
pub mod Accounts
