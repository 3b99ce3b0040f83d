-- ===== src/Accounts.antt =====
-- packages/local-data/src/repositories/account.ts: the local mutations of accounts, and the balances
-- that its SQL aggregates.
pub mod Balance
pub mod Creation
pub mod Updating
pub mod Removing
pub mod Mutations
pub mod Removal
