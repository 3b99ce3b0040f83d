-- ===== src/Status/Counts.antt =====
-- packages/local-data/src/sync/sync-status.ts: the counts of the snapshot.
use trata.Prelude.{
  suc, ◌≤◌, ◌≡◌, refl, Bool, true, List, [], ◌∷◌, arith, All, ltb, length, is_some, select,
  order_by, insert_by, Bool-cases, inl, inr,
}
use trata.Schema.{SyncOutboxRow}
use trata.Db.{Db}
use trata.Status.{read_sync_status, is_failing, newer_first, sample_error}

length-select :
    (p : SyncOutboxRow → Bool) (xs : List SyncOutboxRow) → length (select p xs) ≤ length xs
unfolding select
length-select p [] = omega arith
length-select p (x ∷ xs) = ground (arith, length-select p xs)

All-select :
    (p : SyncOutboxRow → Bool) (xs : List SyncOutboxRow) → All (λ x. p x ≡ true) (select p xs)
unfolding select
All-select p [] = tt
All-select p (x ∷ xs) = elim (Bool-cases (p x)) [
  | inl yes_p ↦ rw yes_p (yes_p, All-select p xs)
  | inr no_p ↦ rw no_p (All-select p xs)
]

All-insert_by :
    (P : SyncOutboxRow → Type 0) (b : SyncOutboxRow → SyncOutboxRow → Bool) (x : SyncOutboxRow)
    (xs : List SyncOutboxRow)
    → P x
    → All P xs
    → All P (insert_by b x xs) × (length (insert_by b x xs) ≡ suc (length xs))
unfolding insert_by
All-insert_by P b x [] h hs = ((h, tt), refl)
All-insert_by P b x (y ∷ ys) h (k, ks) = elim (Bool-cases (b x y)) [
  | inl before ↦ rw before ((h, (k, ks)), refl)
  | inr after ↦
      let (rest, size) = All-insert_by P b x ys h ks in rw after ((k, rest), omega (arith, size))
]

All-order_by :
    (P : SyncOutboxRow → Type 0) (b : SyncOutboxRow → SyncOutboxRow → Bool)
    (xs : List SyncOutboxRow)
    → All P xs
    → All P (order_by b xs) × (length (order_by b xs) ≡ length xs)
unfolding order_by
All-order_by P b [] h = (tt, refl)
All-order_by P b (x ∷ xs) (h, hs) =
    let (rest, size) = All-order_by P b xs hs in
    let (all, more) = All-insert_by P b x (order_by b xs) h rest in (all, omega (arith, more, size))

sampled :
    (xs : List SyncOutboxRow)
    → All (λ x. is_failing x ≡ true) xs
    → is_some (sample_error xs) ≡ ltb 0 (length xs)
sampled [] h = refl
sampled (x ∷ xs) (h, hs) = ground arith

-- The snapshot is consistent: no more operations fail than wait, and an error text is shown exactly
-- when some operation fails.
pub read_sync_status_lem :
    (db : Db)
    → let s = read_sync_status db in
      (s.failing_operations ≤ s.pending_operations)
      × (is_some s.last_error ≡ ltb 0 s.failing_operations)
unfolding read_sync_status
read_sync_status_lem db =
    let failing = select is_failing db.outbox in
    let (all, size) = All-order_by _ newer_first failing (All-select is_failing db.outbox) in
    (length-select is_failing db.outbox, rw (← size) (sampled (order_by newer_first failing) all))
