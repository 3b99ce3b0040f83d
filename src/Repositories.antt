-- ===== src/Repositories.antt =====
-- packages/local-data/src/repositories: what the local repositories share, and the repositories of
-- debtors, debt operations, categories, planned payments and transactions.
pub mod Values
pub mod Amounts
pub mod Actions
pub mod Queued
pub mod Cascade
pub mod References
pub mod Debtors
pub mod DebtOperations
pub mod Categories
pub mod PlannedPayments
pub mod Transactions
