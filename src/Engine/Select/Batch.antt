-- ===== src/Engine/Select/Batch.antt =====
-- `selectPushBatch` of sync-engine.ts: the size, the records and the operations of a batch.
use trata.Prelude.{
  ◌⊎◌, eq_iff, ℕ, ◌+◌, ◌≤◌, ◌<◌, ◌≡◌, refl, ◌∙◌, inl, inr, String, Bool, true, false, not, ◌&&◌,
  some, List, [], ◌∷◌, ◌++◌, arith, All, leb, length, is_some, Bool-cases, Option-cases,
}
use trata.Schema.{SyncEntity, SyncOutboxRow, Row, op_of}
use trata.Db.{Db, Host, read_entity_row}
use trata.Engine.{SelectedOp, push_batch_size}
use trata.Engine.Select.{
  Selection, is_seen, is_blocked, is_backing_off, is_upsert, visit_operation, mark_seen,
  select_loop, select_push_batch, send_operation, wire_of, wire_data, read_record_for_coalescing,
}
use trata.Outbox.{pending_operations, coalesce_unsent_operations}
use trata.Outbox.Queue.{same_entity_refl}
use trata.Conflicts.{find_unresolved_conflict}

-- An operation that may go out: it is not blocked by a version conflict and not backing off, its
-- wire form is the one that its row gives, and an upsert has data.
pub record IsSendable (db : Db) (force : Bool) (now : ℕ) (x : SelectedOp) : Type 0 where
  pub open_record : is_blocked db x.op ≡ false
  pub due : is_backing_off force now x.op ≡ false
  pub row : Row x.op.entity
  pub found : read_entity_row db x.op.entity x.op.entity_id ≡ some row
  pub wire : x.wire ≡ wire_of x.op row
  pub readable : is_upsert x.op.op ≡ true → is_some x.wire.body ≡ true

-- No two of the operations are of one record.
abbrev pub OnePerRecord : List SelectedOp → Type 0
OnePerRecord [] = Unit
OnePerRecord (x ∷ xs) =
    All (λ y. op_of x.op.entity x.op.entity_id y.op ≡ false) xs × OnePerRecord xs

pub record IsBatch (db : Db) (force : Bool) (now : ℕ) (batch : List SelectedOp) : Type 0 where
  pub limit : length batch ≤ push_batch_size
  pub distinct : OnePerRecord batch
  pub sendable : All (IsSendable db force now) batch

-- The state of the loop: what it selected is a batch of records that it has seen.
record Inv (db : Db) (force : Bool) (now : ℕ) (s : Selection) : Type 0 where
  size : length s.selected ≤ push_batch_size
  apart : OnePerRecord s.selected
  ready : All (IsSendable db force now) s.selected
  seen : All (λ x. is_seen x.op s.seen ≡ true) s.selected
  tables : s.db.tables ≡ db.tables
  conflicts : s.db.conflicts ≡ db.conflicts

All-append :
    (P : SelectedOp → Type 0) (xs : List SelectedOp) (y : SelectedOp)
    → All P xs
    → P y
    → All P (xs ++ y ∷ [])
All-append P [] y h p = (p, tt)
All-append P (x ∷ xs) y (h, hs) p = (h, All-append P xs y hs p)

length-append_one : (xs : List SelectedOp) (y : SelectedOp) → length (xs ++ y ∷ []) ≡ length xs + 1
length-append_one [] y = refl
length-append_one (x ∷ xs) y = omega (arith, length-append_one xs y)

OnePerRecord-append :
    (xs : List SelectedOp) (y : SelectedOp)
    → OnePerRecord xs
    → All (λ x. op_of x.op.entity x.op.entity_id y.op ≡ false) xs
    → OnePerRecord (xs ++ y ∷ [])
OnePerRecord-append [] y h f = (tt, tt)
OnePerRecord-append (x ∷ xs) y (h, hs) (f, fs) =
    (All-append _ xs y h f, OnePerRecord-append xs y hs fs)

All-map :
    (P Q : SelectedOp → Type 0)
    → ((x : SelectedOp) → P x → Q x)
    → (xs : List SelectedOp) → All P xs
    → All Q xs
All-map P Q f [] h = tt
All-map P Q f (x ∷ xs) (h, hs) = (f x h, All-map P Q f xs hs)

-- What one operation adds to the batch: nothing, or itself.
abbrev Added : Db → Bool → ℕ → SyncOutboxRow → Selection → Selection → Type 0
Added db force now o s t =
    (t.selected ≡ s.selected)
    ⊎ ((x : SelectedOp) × (t.selected ≡ s.selected ++ x ∷ [])
        × (x.op ≡ o)
        × IsSendable db force now x)

record Visited (db : Db) (force : Bool) (now : ℕ) (o : SyncOutboxRow) (s t : Selection)
    : Type 0 where
  seen : t.seen ≡ s.seen
  tables : t.db.tables ≡ s.db.tables
  conflicts : t.db.conflicts ≡ s.db.conflicts
  added : Added db force now o s t

module _ (h : Host) (db : Db) (force : Bool) (now : ℕ) (o : SyncOutboxRow) (s : Selection)
    (t : s.db.tables ≡ db.tables) (c : s.db.conflicts ≡ db.conflicts) where
  send-Visited :
      (r : Row o.entity)
      → read_entity_row s.db o.entity o.entity_id ≡ some r
      → is_blocked s.db o ≡ false
      → is_backing_off force now o ≡ false
      → Visited db force now o s (send_operation h o r s)
  unfolding send_operation
  send-Visited r found opened due =
      elim (Bool-cases (is_upsert o.op && not (is_some (wire_data o r)))) [
        | inl corrupt ↦
            rw (corrupt, send_operation)
              (record { seen = refl; tables = refl; conflicts = refl; added = inl refl })
        | inr readable ↦
            rw (readable, send_operation)
              (record {
                seen = refl;
                tables = refl;
                conflicts = refl;
                added = inr (
                  record { op = o; wire = wire_of o r },
                  refl,
                  refl,
                  record {
                    open_record = unfold is_blocked find_unresolved_conflict in (rw c at opened);
                    due = due;
                    row = r;
                    found = unfold read_entity_row in (rw t at found);
                    wire = refl;
                    readable = λ up. ground arith;
                  },
                );
              })
      ]

  visit-Visited : Visited db force now o s (visit_operation h force now o s)
  unfolding visit_operation
  visit-Visited = elim (Bool-cases (is_blocked s.db o)) [
    | inl blocked ↦
        rw (blocked, visit_operation)
          (record { seen = refl; tables = refl; conflicts = refl; added = inl refl })
    | inr opened ↦
        rw (opened, visit_operation)
          (elim (Option-cases (read_entity_row s.db o.entity o.entity_id)) [
            | inl absent ↦
                rw absent
                  (record { seen = refl; tables = refl; conflicts = refl; added = inl refl })
            | inr (r, found) ↦ rw found (elim (Bool-cases (is_backing_off force now o)) [
              | inl waits ↦
                  rw waits
                    (record { seen = refl; tables = refl; conflicts = refl; added = inl refl })
              | inr due ↦ rw due (send-Visited r found opened due)
            ])
          ])
  ]

-- Two operations of which one's record was seen and the other's was not.
seen_apart :
    (a b : SyncOutboxRow) (ks : List (SyncEntity × String))
    → is_seen a ks ≡ true
    → is_seen b ks ≡ false
    → op_of a.entity a.entity_id b ≡ false
seen_apart a b [] h n = cc h
seen_apart a b ((e, i) ∷ ks) h n = ground (
  arith,
  seen_apart a b ks,
  eq_iff i a.entity_id,
  eq_iff i b.entity_id,
  eq_iff b.entity_id a.entity_id,
)

seen_mark :
    (x o : SyncOutboxRow) (s : Selection)
    → is_seen x s.seen ≡ true
    → is_seen x (mark_seen o s).seen ≡ true
seen_mark x o s h = ground arith

module _ (h : Host) (db : Db) (force : Bool) (now : ℕ) where
  marked-Inv :
      (o : SyncOutboxRow) (s : Selection) → Inv db force now s → Inv db force now (mark_seen o s)
  marked-Inv o s i = record {
    size = i.size;
    apart = i.apart;
    ready = i.ready;
    seen = All-map _ _ (λ x. seen_mark x.op o s) s.selected i.seen;
    tables = i.tables;
    conflicts = i.conflicts;
  }

  step-Inv :
      (o : SyncOutboxRow) (s t : Selection)
      → Inv db force now s
      → is_seen o s.seen ≡ false
      → length s.selected < push_batch_size
      → Visited db force now o (mark_seen o s) t
      → Inv db force now t
  step-Inv o s t i fresh room v = elim v.added [
    | inl same ↦ record {
      size = rw same i.size;
      apart = rw same i.apart;
      ready = rw same i.ready;
      seen = rw (same, v.seen) (marked-Inv o s i).seen;
      tables = v.tables ∙ i.tables;
      conflicts = v.conflicts ∙ i.conflicts;
    }
    | inr (x, more, own, sendable) ↦ record {
      size = rw more (omega (arith, length-append_one s.selected x, room));
      apart = rw more (
          OnePerRecord-append s.selected x i.apart (
            All-map _ _ (λ y seen. rw own (seen_apart y.op o s.seen seen fresh)) s.selected
              i.seen));
      ready = rw more (All-append _ s.selected x i.ready sendable);
      seen =
          rw (more, v.seen)
            (All-append _ s.selected x (marked-Inv o s i).seen
              (rw own (ground (arith, same_entity_refl o.entity, eq_iff o.entity_id o.entity_id))));
      tables = v.tables ∙ i.tables;
      conflicts = v.conflicts ∙ i.conflicts;
    }
  ]

  loop-Inv :
      (os : List SyncOutboxRow) (s : Selection)
      → Inv db force now s
      → length s.selected < push_batch_size
      → Inv db force now (select_loop h force now os s)
  unfolding select_loop
  loop-Inv [] s i room = i
  loop-Inv (o ∷ os) s i room = elim (Bool-cases (is_seen o s.seen)) [
    | inl again ↦ rw (again, select_loop) (loop-Inv os s i room)
    | inr fresh ↦
        let t = visit_operation h force now o (mark_seen o s) in
        let j =
          step-Inv o s t i fresh room
            (visit-Visited h db force now o (mark_seen o s) i.tables i.conflicts) in
        rw (fresh, select_loop)
          (elim (Bool-cases (leb push_batch_size (length t.selected))) [
            | inl full ↦ rw full j
            | inr open_batch ↦ rw open_batch (loop-Inv os t j (ground arith))
          ])
  ]

-- The database over which the batch is selected.
abbrev pub coalesced_db : Db → Db
coalesced_db db = coalesce_unsent_operations (read_record_for_coalescing db) db

-- A batch has at most fifty operations, no two of one record, and each of them is one that may go
-- out: not blocked by a version conflict, not backing off, and an upsert only with readable data.
pub select_push_batch-IsBatch :
    (h : Host) (force : Bool) (db : Db)
    → IsBatch (coalesced_db db) force (h.clock db.calls) (select_push_batch h force db).selected
unfolding select_push_batch
select_push_batch-IsBatch h force db =
    let c = coalesced_db db in
    let s : Selection = record {
      db = record c { calls = c.calls + 1 };
      seen = [];
      selected = [];
      wrote = false;
    } in
    let i =
      loop-Inv h c force (h.clock db.calls) (pending_operations c) s
        (record {
          size = omega arith;
          apart = tt;
          ready = tt;
          seen = tt;
          tables = refl;
          conflicts = refl;
        })
        (omega arith) in
    record { limit = i.size; distinct = i.apart; sendable = i.ready }
