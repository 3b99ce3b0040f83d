-- ===== src/Engine/Push/Progress.antt =====
-- `pushPhase` of sync-engine.ts: a batch that is confirmed in part leaves a shorter outbox.
use trata.Prelude.{
  ℕ, ◌≡◌, ◌<◌, refl, ◌∙◌, inl, inr, String, Bool, true, false, ◌&&◌, ◌||◌, not, some, List, [], ◌∷◌,
  ◌++◌, arith, any, All, leb, length, is_some, str_eq, eq_iff, delete, Bool-cases, Option-cases,
}
use trata.Schema.{SyncOutboxRow, Row, op_of}
use trata.Db.{Db, Host, read_entity_row, update_entity_row}
use trata.Outbox.{
  PushConfirmation, has_op_id, pending_operations, op_before, coalesce_unsent_operations,
  apply_push_confirmations, remove_operations_for,
}
use trata.Outbox.Confirm.{is_confirmed, outbox-apply_push_confirmations}
use trata.Outbox.Shrinks.{
  Shrinks, Shrinks-refl, Shrinks-trans, Shrinks-delete, Shrinks-update, length-Shrinks_gone,
  any-Shrinks, coalesce-Shrinks, All-order_by,
}
use trata.Engine.{
  SyncPushOperation, SyncPushResultItem, PushStatus, applied, conflict, error, SelectedOp,
  push_batch_size,
}
use trata.Engine.Select.{
  Selection, is_seen, is_blocked, is_backing_off, is_upsert, visit_operation, mark_seen,
  select_loop, select_push_batch, send_operation, wire_of, wire_data, read_record_for_coalescing,
  set_error, freeze,
}
use trata.Engine.Push.{
  Applied, adopted_columns, server_state_of, code_is, handle_push_conflict, apply_result,
  apply_results, find_item, error_text,
}
use trata.Engine.Push.Outcome.{is_applied, wires}
use trata.Engine.Push.Results.{outbox-delete_wins}
use trata.Frame.{record_conflict-SameRecords}

abbrev HasOp : List SyncOutboxRow → String → Type 0
HasOp base i = any (has_op_id i) base ≡ true

All-snoc :
    (P : SelectedOp → Type 0) (xs : List SelectedOp) (y : SelectedOp)
    → All P xs
    → P y
    → All P (xs ++ y ∷ [])
All-snoc P [] y h k = (k, tt)
All-snoc P (x ∷ xs) y (h, hs) k = (h, All-snoc P xs y hs k)

-- The state of the selection: its outbox is what is left of the one that it began with, and what it
-- selected was there.
record FromOutbox (base : List SyncOutboxRow) (s : Selection) : Type 0 where
  shrinks : Shrinks base s.db.outbox
  there : All (λ x. HasOp base x.wire.op_id) s.selected

module _ (h : Host) (force : Bool) (now : ℕ) (base : List SyncOutboxRow) where
  send-FromOutbox :
      (o : SyncOutboxRow) (r : Row o.entity) (s : Selection)
      → HasOp base o.op_id
      → FromOutbox base s
      → FromOutbox base (send_operation h o r s)
  unfolding send_operation
  send-FromOutbox o r s own f =
      elim (Bool-cases (is_upsert o.op && not (is_some (wire_data o r)))) [
        | inl corrupt ↦
            rw (corrupt, send_operation)
              (record {
                shrinks =
                    Shrinks-trans f.shrinks
                      (Shrinks-update (has_op_id o.op_id) (set_error _) (λ p. refl) s.db.outbox);
                there = f.there;
              })
        | inr sound ↦
            rw (sound, send_operation)
              (record {
                shrinks =
                    Shrinks-trans f.shrinks
                      (Shrinks-update (has_op_id o.op_id) (freeze _ _ _) (λ p. refl) s.db.outbox);
                there =
                    All-snoc (λ x. HasOp base x.wire.op_id) s.selected
                      (record { op = o; wire = wire_of o r }) f.there own;
              })
      ]

  visit-FromOutbox :
      (o : SyncOutboxRow) (s : Selection)
      → HasOp base o.op_id
      → FromOutbox base s
      → FromOutbox base (visit_operation h force now o s)
  unfolding visit_operation
  visit-FromOutbox o s own f = elim (Bool-cases (is_blocked s.db o)) [
    | inl blocked ↦ rw (blocked, visit_operation) f
    | inr free ↦ elim (Option-cases (read_entity_row s.db o.entity o.entity_id)) [
      | inl vanished ↦
          rw (free, vanished, visit_operation)
            (record {
              shrinks = Shrinks-trans f.shrinks (Shrinks-delete (has_op_id o.op_id) s.db.outbox);
              there = f.there;
            })
      | inr (r, found) ↦ elim (Bool-cases (is_backing_off force now o)) [
        | inl waits ↦ rw (free, found, waits, visit_operation) f
        | inr due ↦ rw (free, found, due, visit_operation) (send-FromOutbox o r s own f)
      ]
    ]
  ]

  loop-FromOutbox :
      (os : List SyncOutboxRow) (s : Selection)
      → All (λ o. HasOp base o.op_id) os
      → FromOutbox base s
      → FromOutbox base (select_loop h force now os s)
  unfolding select_loop
  loop-FromOutbox [] s own f = f
  loop-FromOutbox (o ∷ os) s (own, rest) f = elim (Bool-cases (is_seen o s.seen)) [
    | inl seen ↦ rw (seen, select_loop) (loop-FromOutbox os s rest f)
    | inr unseen ↦
        let next = visit_operation h force now o (mark_seen o s) in
        let g =
          visit-FromOutbox o (mark_seen o s) own
            (record { shrinks = f.shrinks; there = f.there }) in
        elim (Bool-cases (leb push_batch_size (length next.selected))) [
          | inl full ↦ rw (unseen, full, select_loop) g
          | inr room ↦ rw (unseen, room, select_loop) (loop-FromOutbox os next rest g)
        ]
  ]

own_ids :
    (xs ys : List SyncOutboxRow)
    → ((k : String) → any (has_op_id k) xs ≡ true → any (has_op_id k) ys ≡ true)
    → All (λ o. HasOp ys o.op_id) xs
own_ids [] ys h = tt
own_ids (x ∷ xs) ys h = (
  h x.op_id (ground (arith, eq_iff x.op_id x.op_id)),
  own_ids xs ys (λ k there. h k (ground (arith, there))),
)

pub select-FromOutbox :
    (h : Host) (force : Bool) (db : Db)
    → Shrinks db.outbox (select_push_batch h force db).db.outbox
      × All (λ x. HasOp db.outbox x.wire.op_id) (select_push_batch h force db).selected
unfolding select_push_batch pending_operations
select-FromOutbox h force db =
    let coalesced = coalesce_unsent_operations (read_record_for_coalescing db) db in
    let s = coalesce-Shrinks (read_record_for_coalescing db) db in
    let f =
      loop-FromOutbox h force (h.clock db.calls) db.outbox (pending_operations coalesced) _
        (All-order_by (λ o. HasOp db.outbox o.op_id) op_before coalesced.outbox
          (own_ids coalesced.outbox db.outbox (λ k there. any-Shrinks k s there)))
        (record { shrinks = s; there = tt }) in
    (f.shrinks, f.there)

conflict-Shrinks :
    (h : Host) (w : SyncPushOperation) (r : SyncPushResultItem) (db : Db)
    → Shrinks db.outbox (handle_push_conflict h w r db).0.outbox
unfolding handle_push_conflict remove_operations_for update_entity_row
conflict-Shrinks h w r db =
    let state = server_state_of r in
    elim (Option-cases (adopted_columns w r state)) [
      | inr (c, adopts) ↦
          rw (adopts, handle_push_conflict) (Shrinks-delete (op_of w.entity w.id) db.outbox)
      | inl keeps ↦
          rw (keeps, handle_push_conflict)
            (elim (Bool-cases (code_is "SYNC_DELETED_CONFLICT" r.code || state.deleted)) [
              | inl gone ↦ rw gone (
                  rw
                    (outbox-delete_wins h w.entity w.id (some w.op_id) w.base_version state.version
                      db)
                    (Shrinks-delete (op_of w.entity w.id) db.outbox))
              | inr lives ↦
                  rw lives
                    (rw ((record_conflict-SameRecords h _ db).outbox) (Shrinks-refl db.outbox))
            ])
    ]

result-Shrinks :
    (h : Host) (batch : List SelectedOp) (r : SyncPushResultItem) (a : Applied)
    → Shrinks a.db.outbox (apply_result h batch r a).db.outbox
unfolding apply_result
result-Shrinks h batch r a = by_status r.status refl
  where
    by_status :
        (t : PushStatus) → r.status ≡ t → Shrinks a.db.outbox (apply_result h batch r a).db.outbox
    by_status applied q = rw (q, apply_result) (Shrinks-refl a.db.outbox)
    by_status error q =
        rw (q, apply_result)
          (Shrinks-update (has_op_id r.op_id) (set_error (error_text r)) (λ o. refl) a.db.outbox)
    by_status conflict q =
        rw (q, apply_result)
          (elim (Option-cases (find_item r.op_id batch)) [
            | inl absent ↦ rw absent (Shrinks-refl a.db.outbox)
            | inr (item, found) ↦ rw found (conflict-Shrinks h item.wire r a.db)
          ])

results-Shrinks :
    (h : Host) (batch : List SelectedOp) (rs : List SyncPushResultItem) (a : Applied)
    → Shrinks a.db.outbox (apply_results h batch rs a).db.outbox
unfolding apply_results
results-Shrinks h batch [] a = Shrinks-refl a.db.outbox
results-Shrinks h batch (r ∷ rs) a =
    Shrinks-trans (result-Shrinks h batch r a)
      (results-Shrinks h batch rs (apply_result h batch r a))

abbrev confirms : String → PushConfirmation → Bool
confirms i c = str_eq c.op_id i

abbrev applies : String → SyncPushResultItem → Bool
applies i r = is_applied r && str_eq r.op_id i

any-snoc :
    (i : String) (cs : List PushConfirmation) (c : PushConfirmation)
    → any (confirms i) (cs ++ c ∷ []) ≡ confirms i c || any (confirms i) cs
any-snoc i [] c = refl
any-snoc i (d ∷ cs) c = ground (arith, any-snoc i cs c)

confirmed_by :
    (h : Host) (batch : List SelectedOp) (i : String) (r : SyncPushResultItem) (a : Applied)
    → any (confirms i) (apply_result h batch r a).confirmations
      ≡ applies i r || any (confirms i) a.confirmations
unfolding apply_result
confirmed_by h batch i r a = by_status r.status refl
  where
    by_status :
        (s : PushStatus)
        → r.status ≡ s
        → any (confirms i) (apply_result h batch r a).confirmations
          ≡ applies i r || any (confirms i) a.confirmations
    by_status applied q = rw (q, apply_result) (any-snoc i a.confirmations _)
    by_status error q = rw (q, apply_result) refl
    by_status conflict q =
        rw (q, apply_result)
          (elim (Option-cases (find_item r.op_id batch)) [
            | inl absent ↦ rw absent refl
            | inr (item, found) ↦ rw found refl
          ])

confirmed_all :
    (h : Host) (batch : List SelectedOp) (i : String) (rs : List SyncPushResultItem) (a : Applied)
    → any (confirms i) (apply_results h batch rs a).confirmations
      ≡ any (applies i) rs || any (confirms i) a.confirmations
unfolding apply_results
confirmed_all h batch i [] a = refl
confirmed_all h batch i (r ∷ rs) a =
    confirmed_all h batch i rs (apply_result h batch r a)
    ∙ ground (arith, confirmed_by h batch i r a)

-- A result that is applied is of an operation that was sent.
abbrev pub AppliesSent : List SyncPushOperation → List SyncPushResultItem → Type 0
AppliesSent ops = All (λ r. is_applied r ≡ true → any (λ o. str_eq o.op_id r.op_id) ops ≡ true)

some_applied :
    (ops : List SyncPushOperation) (rs : List SyncPushResultItem)
    → AppliesSent ops rs
    → any is_applied rs ≡ true
    → (i : String) × (any (applies i) rs ≡ true) × (any (λ o. str_eq o.op_id i) ops ≡ true)
some_applied ops [] fair none_left = cc none_left
some_applied ops (r ∷ rs) (own, fair) some_left = elim (Bool-cases (is_applied r)) [
  | inl here ↦ (r.op_id, ground (arith, here, eq_iff r.op_id r.op_id), own here)
  | inr other ↦
      let (i, applied_one, sent) = some_applied ops rs fair (ground (arith, some_left, other)) in
      (i, ground (arith, applied_one), sent)
]

sent_there :
    (base : List SyncOutboxRow) (i : String) (batch : List SelectedOp)
    → All (λ x. HasOp base x.wire.op_id) batch
    → any (λ o. str_eq o.op_id i) (wires batch) ≡ true
    → HasOp base i
sent_there base i [] there sent = cc sent
sent_there base i (x ∷ xs) (own, there) sent = elim (Bool-cases (str_eq x.wire.op_id i)) [
  | inl here ↦ let is = (eq_iff x.wire.op_id i).0 here in rw is at own
  | inr other ↦ sent_there base i xs there (ground (arith, sent, other))
]

gone_after :
    (i : String) (cs : List PushConfirmation) (xs : List SyncOutboxRow)
    → any (confirms i) cs ≡ true
    → any (has_op_id i) (delete (is_confirmed cs) xs) ≡ false
unfolding delete
gone_after i cs [] confirmed = refl
gone_after i cs (x ∷ xs) confirmed = elim (Bool-cases (is_confirmed cs x)) [
  | inl gone ↦ rw gone (gone_after i cs xs confirmed)
  | inr stays ↦
      let other : str_eq x.op_id i ≡ false = apart cs confirmed stays in
      rw stays (ground (arith, other, gone_after i cs xs confirmed))
]
  where
    apart :
        (ds : List PushConfirmation)
        → any (confirms i) ds ≡ true
        → is_confirmed ds x ≡ false
        → str_eq x.op_id i ≡ false
    apart [] some_left stays = cc some_left
    apart (d ∷ ds) some_left stays =
        ground (arith, apart ds, eq_iff d.op_id i, eq_iff x.op_id i, eq_iff x.op_id d.op_id)

-- If an answer applies something, and only what was sent, the transaction over it leaves fewer
-- operations than the outbox had before the batch was selected.
pub settled_shorter :
    (h : Host) (base : List SyncOutboxRow) (batch : List SelectedOp) (rs : List SyncPushResultItem)
    (a : Applied)
    → Shrinks base a.db.outbox
    → All (λ x. any (has_op_id x.wire.op_id) base ≡ true) batch
    → AppliesSent (wires batch) rs
    → any is_applied rs ≡ true
    → let b = apply_results h batch rs a in
      length (apply_push_confirmations b.confirmations b.db).outbox < length base
settled_shorter h base batch rs a left there fair some_left =
    let b = apply_results h batch rs a in
    let (i, applied_one, sent) = some_applied (wires batch) rs fair some_left in
    let confirmed : any (confirms i) b.confirmations ≡ true =
      confirmed_all h batch i rs a ∙ ground (arith, applied_one) in
    rw (outbox-apply_push_confirmations b.confirmations b.db) (
      length-Shrinks_gone i
        (Shrinks-trans left (
          Shrinks-trans (results-Shrinks h batch rs a)
            (Shrinks-delete (is_confirmed b.confirmations) b.db.outbox)))
        (sent_there base i batch there sent) (gone_after i b.confirmations b.db.outbox confirmed))
