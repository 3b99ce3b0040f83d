-- ===== src/Lib.antt =====
-- The offline-first core of Trata, a household finance app: the local database with its
-- repositories, its sync engine and when that runs, and the arithmetic of balances and recurring
-- payments.
--
-- The program. The apps call the repositories, which check an input and write entity rows
-- (accounts, categories, transactions, debtors, debt operations, planned payments) to a local
-- database; each write queues an operation in the outbox. A row has two counters: it is CLEAN when
-- version = server_version, and DIRTY else. The sync engine pushes batches of operations over the
-- transport, applies confirmations and conflicts, and pulls pages of the server's changes from a
-- stored cursor. Conflicts are kept as rows until the user keeps the local side, takes the server's
-- or restores the lost record as a new one; deletions win by default. The run policy decides when
-- the engine runs. A database belongs to one user (the ownership gate), and its bookkeeping to one
-- household (the rebase).
--
-- Files and sources.
--   Prelude (Tests, Lists, Int, Rows): helpers; a where clause of a statement is a Boolean test, and
--     select, delete, update and first are the statements on a list of rows.
--   Json: the JSON values; packages/local-data/src/sync/sync-entity-catalog.generated.ts, asString to
--     asCalendarDay.
--   Schema: packages/local-data/src/schema.ts, with a row of a kind as its columns and the sync columns.
--   Db: the database as one value; readEntityRow, updateEntityRow, and the statements on the tables.
--   Catalog: sync-entity-catalog.generated.ts and sync-data.ts in packages/local-data/src/sync, that
--     is rowToPayload (Payload), payloadToSyncData (Wire) and syncDataToRowPatch (Patch) for all six
--     kinds.
--   Outbox: packages/local-data/src/outbox.ts, from enqueueOperation to coalesceUnsentOperations.
--   Meta: packages/local-data/src/sync/sync-meta.ts, with the wipe.
--   Conflicts: packages/local-data/src/sync/conflicts.ts; Subject is conflictSubject.
--   Repositories: packages/local-data/src/repositories. Values and Actions are what the repositories
--     share: the outcomes, and the row, tombstone and operation that a change writes; Queued, Cascade
--     and References are what follows for the queue, for a removal with its dependants and for a
--     reference. Debtors and DebtOperations: debt.ts; Categories: category.ts; PlannedPayments:
--     planned-payment.ts; Transactions: transaction.ts, with its guards in Rules, its operations in
--     Changing and its queries in Reading.
--   Accounts: repositories/account.ts. Creation, Updating and Removing are create, update and remove;
--     Balance is the SQL of the balances, getAll and getById.
--   Recurrence: packages/local-data/src/recurrence.ts; Texts is the reading and writing of days.
--   Restore: packages/local-data/src/sync/restore.ts; Decoding is decodeCatalogRestorePayload.
--   RunPolicy: packages/local-data/src/sync/run-policy.ts.
--   Frame: what an operation on one record may touch, and the invariant IsSettled: a record without
--     queued operations is CLEAN.
--   Engine: packages/local-data/src/sync/sync-engine.ts with the wire types of
--     packages/api/src/http/sync.ts. Select is selectPushBatch, Push is handlePushConflict and
--     pushPhase, Pull is applyPullChange and pullPhase, Run is run and resume.
--   Ownership: ownership.ts and offline-gate.ts; Rebase: rebase.ts; Status: sync-status.ts, all of
--     packages/local-data/src/sync.
--   Balances: packages/money/src/balance-calculator.ts and packages/local-data/src/balances.ts.
--   Tests: a sample database, host and network, and the theorems applied to them.
--
-- Correspondence. A transaction is a function on the database, since a transaction of the source
-- does not interleave with others; the one value Db stands for all tables. Ids are texts,
-- timestamps are milliseconds, versions and attempts are natural numbers, amounts are integers. A
-- JSON text column is an encoded value or a malformed text. The id factory and the clock are the
-- parameter Host, read by the number of the call, with toISOString and the normal form that Date
-- gives of a text. A calendar day counts its months from 0. A repository's answer is the database
-- with a value or with the reason of a refusal, in place of a thrown error. A page's cursor is a
-- number. The run policy is a step relation on its flags, its calls that wait and its timer, since
-- the order in which the app notifies, checks settle and calls go on is free. The transport is the
-- parameter Network, by the number of the request: it answers, refuses with a 401 or fails; while a
-- request is out the app may change the database (meanwhile) and call run again (called_again). Of
-- the catalog's set of known kinds the pull takes a test as a parameter. The flags of the engine's
-- closure are the record Engine, and those of one cycle the record Cycle.
--
-- Fuel. push_phase, pull_phase and run are on fuel, which counts the rounds of a loop and the
-- cycles of a run; they give none when it runs out. A push round that goes on has confirmed an
-- operation, so that the outbox is shorter, as long as the app does not write while a request is
-- out and an answer applies only what it was sent; a pull round that goes on has moved the cursor
-- on in the server's log; a further cycle was asked for. So some amount of fuel is enough, and
-- every larger one gives the same. Against a server that breaks this the source's loops may go on
-- as well. A client that follows the cursors of pages needs one round more than there are rows.
--
-- Not modelled: the floating-point rates and the formats of packages/money, the labels of
-- packages/dates, packages/i18n, the HTTP client, the listeners of the engine and of the run
-- policy, the apps, and the Go backend, which the sync core meets as the transport.
--

pub mod Prelude
pub mod Json
pub mod Schema
pub mod Db
pub mod Catalog
pub mod Outbox
pub mod Meta
pub mod Conflicts
pub mod Frame
pub mod Accounts
pub mod RunPolicy
pub mod Restore
pub mod Recurrence
pub mod Repositories
pub mod Engine
pub mod Ownership
pub mod Rebase
pub mod Status
pub mod Balances
pub mod Tests
