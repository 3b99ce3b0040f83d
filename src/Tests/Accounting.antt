-- ===== src/Tests/Accounting.antt =====
-- The repository of accounts at the sample database.
