-- ===== src/Repositories/Queued.antt =====
-- packages/local-data/src/repositories: what the transactions of the local mutations leave.
use mathlib.Core.Option
use trata.Prelude.{
  is_some, ◌&&◌, ℕ, ◌+◌, ◌≡◌, refl, sym, ◌∙◌, ap, inl, inr, String, Bool, true, false, Option, none,
  some, [], ◌∷◌, arith, Bool-cases,
}
use trata.Prelude.Rows.{
  any-append, any-delete_self, first-append_skipped, first-delete_disjoint, All-every,
}
use trata.Json.{Json}
use trata.Schema.{SyncEntity, Row, SyncOutboxRow, op_of, delete_op}
use trata.Db.{
  Db, Host, read_entity_row, update_entity_row, insert_entity_row, delete_entity_row, is_deleted,
}
use trata.Db.Laws.{read-update_self, read-insert_self, read-delete_self, Other}
use trata.Outbox.{
  EnqueueOperationInput, op_row, enqueue_operation, remove_operations_for, has_sent_operations,
  is_sent,
}
use trata.Outbox.Queue.{op_of_elsewhere}
use trata.Frame.{
  has_operations, Touches, Touches-refl, Touches-trans, Touches-same, Touches-insert,
  Touches-update, Touches-delete, Touches-remove, Touches-enqueue, own_operation,
}
use trata.Frame.Settled.{IsSettled, touch-IsSettled}
use trata.Repositories.Values.{set_row, if_live}
use trata.Repositories.Actions.{
  after_id, counted, insert_row, change_row, is_unborn, buried, wipe_row, tombstone_row,
  delete_with_tombstone,
}

-- What a mutation of a record leaves: the row, an operation queued, and no other record touched.
pub record IsQueued (e : SyncEntity) (before : Db) (i : String) (row : Row e) (after : Db)
    : Type 0 where
  pub stored : read_entity_row after e i ≡ some row
  pub queued : has_operations after e i ≡ true
  pub touched : Touches e i before after

pub enqueued :
    (h : Host) (x : EnqueueOperationInput) (db : Db)
    → has_operations (enqueue_operation h x db) x.entity x.entity_id ≡ true
unfolding enqueue_operation
enqueued h x db =
    any-append (op_of x.entity x.entity_id) db.outbox (op_row h db.calls x ∷ [])
    ∙ ground (arith, own_operation h db.calls x)

-- A record after its removal: gone with its operations, or a tombstone whose deletion is queued.
abbrev pub IsRemoved : (e : SyncEntity) → Db → String → Row e → Bool → Type 0
IsRemoved e after i r true = (read_entity_row after e i ≡ none) × (has_operations after e i ≡ false)
IsRemoved e after i r false =
    (t : ℕ) × (read_entity_row after e i ≡ some (buried t r)) × (has_operations after e i ≡ true)

module _ (e : SyncEntity) where
  pub queued-IsSettled :
      {a b : Db} (i : String) (row : Row e) → IsQueued e a i row b → IsSettled a → IsSettled b
  queued-IsSettled i row q s = touch-IsSettled q.touched s (λ r found idle. cc (idle, q.queued))

  pub removed-IsSettled :
      {a b : Db} (i : String) (row : Row e) (unborn : Bool)
      → Touches e i a b
      → IsRemoved e b i row unborn
      → IsSettled a
      → IsSettled b
  removed-IsSettled i row true t (gone, _) s =
      touch-IsSettled t s (λ r found idle. cc (found, gone))
  removed-IsSettled i row false t (_, _, queued) s =
      touch-IsSettled t s (λ r found idle. cc (idle, queued))

  pub counted-Touches : (i : String) (db : Db) (n : ℕ) → Touches e i db (record db { calls = n })
  counted-Touches i db n = Touches-same e i (record { tables = refl; outbox = refl })

  pub Touches-after_id : (o : Option String) (db : Db) (i : String) → Touches e i db (after_id o db)
  Touches-after_id none db i = counted-Touches i db (db.calls + 1)
  Touches-after_id (some _) db i = counted-Touches i db db.calls

  pub read-after_id :
      (o : Option String) (db : Db) (i : String)
      → read_entity_row (after_id o db) e i ≡ read_entity_row db e i
  unfolding read_entity_row
  read-after_id none db i = refl
  read-after_id (some _) db i = refl

  pub live_found :
      (db : Db) (i : String) (r : Row e)
      → if_live (read_entity_row db e i) ≡ some r
      → read_entity_row db e i ≡ some r
  live_found db i r live = by_row (read_entity_row db e i) live
    where
      by_row : (o : Option (Row e)) → if_live o ≡ some r → o ≡ some r
      by_row none h = cc h
      by_row (some q) h = elim (Bool-cases (is_deleted q)) [
        | inl gone ↦ cc ((rw gone at h))
        | inr stays ↦ rw stays at h
      ]

  -- An insertion after calls of the host that leave the tables and the outbox alone.
  pub insert_later-IsQueued :
      (h : Host) (row : Row e) (payload : Json) (db begun : Db)
      → Touches e row.id db begun
      → read_entity_row begun e row.id ≡ none
      → IsQueued e db row.id row (insert_row h e row payload begun)
  unfolding insert_row
  insert_later-IsQueued h row payload db begun t free =
      let inserted = insert_entity_row e row begun in
      record {
        stored =
            unfold enqueue_operation read_entity_row in
            (read-insert_self e row.id begun row refl (unfold read_entity_row in free));
        queued = enqueued h _ inserted;
        touched =
            Touches-trans t (
              Touches-trans (Touches-insert e row.id begun row refl)
                (Touches-enqueue h _ inserted));
      }

  -- An insertion once the id is there.
  pub insert_now-IsQueued :
      (h : Host) (o : Option String) (row : Row e) (payload : Json) (db : Db)
      → read_entity_row db e row.id ≡ none
      → IsQueued e db row.id row (insert_row h e row payload (after_id o db))
  insert_now-IsQueued h o row payload db free =
      insert_later-IsQueued h row payload db (after_id o db) (Touches-after_id o db row.id)
        (read-after_id o db row.id ∙ free)

  -- An insertion after the id and a reading of the clock.
  pub insert-IsQueued :
      (h : Host) (o : Option String) (row : Row e) (payload : Json) (db : Db)
      → read_entity_row db e row.id ≡ none
      → IsQueued e db row.id row (insert_row h e row payload (counted (after_id o db)))
  insert-IsQueued h o row payload db free =
      let begun = after_id o db in
      let same : read_entity_row (counted begun) e row.id ≡ read_entity_row begun e row.id =
        unfold read_entity_row in refl in
      insert_later-IsQueued h row payload db (counted begun)
        (Touches-trans (Touches-after_id o db row.id)
          (counted-Touches row.id begun (counted begun).calls))
        (same ∙ (read-after_id o db row.id ∙ free))

  -- A change after calls of the host that leave the tables and the outbox alone.
  pub change_later-IsQueued :
      (h : Host) (i : String) (r next : Row e) (payload : Json) (db begun : Db)
      → Touches e i db begun
      → read_entity_row begun e i ≡ some r
      → next.id ≡ r.id
      → IsQueued e db i next (change_row h e i next payload begun)
  unfolding change_row
  change_later-IsQueued h i r next payload db begun t found same =
      let set = update_entity_row e i (set_row next) begun in
      let stored : read_entity_row set e i ≡ some next =
        read-update_self e i begun (set_row next) (λ q. refl)
        ∙ (ap (Option.map (set_row next)) found
            ∙ ap (λ (k : String). some (record next { id = k })) (sym same)) in
      record {
        stored = unfold enqueue_operation read_entity_row in stored;
        queued = enqueued h _ set;
        touched = Touches-trans t (
            Touches-trans (Touches-update e i begun (set_row next) (λ q. refl))
              (Touches-enqueue h _ set));
      }

  pub change-IsQueued :
      (h : Host) (i : String) (r next : Row e) (payload : Json) (db : Db)
      → read_entity_row db e i ≡ some r
      → next.id ≡ r.id
      → IsQueued e db i next (change_row h e i next payload db)
  change-IsQueued h i r next payload db found same =
      change_later-IsQueued h i r next payload db db (Touches-refl db) found same

  pub wipe-Touches : (i : String) (db : Db) → Touches e i db (wipe_row e i db)
  unfolding wipe_row
  wipe-Touches i db = Touches-trans (Touches-delete e i db) (Touches-remove e i _)

  pub tombstone_row-Touches :
      (h : Host) (i : String) (row : Row e) (db : Db) → Touches e i db (tombstone_row h e i row db)
  unfolding tombstone_row
  tombstone_row-Touches h i row db =
      Touches-trans (counted-Touches i db (db.calls + 1))
        (Touches-update e i _ (set_row (buried (h.clock db.calls) row)) (λ r. refl))

  pub delete-Touches :
      (h : Host) (i : String) (r : Row e) (payload : Json) (db : Db)
      → Touches e i db (delete_with_tombstone h e i r payload db)
  unfolding delete_with_tombstone
  delete-Touches h i r payload db = elim (Bool-cases (is_unborn e i r.server_version db)) [
    | inl unborn ↦ rw (unborn, delete_with_tombstone) (wipe-Touches i db)
    | inr born ↦
        rw (born, delete_with_tombstone)
          (Touches-trans (tombstone_row-Touches h i r db) (Touches-enqueue h _ _))
  ]

  pub delete-IsRemoved :
      (h : Host) (i : String) (r : Row e) (payload : Json) (db : Db)
      → read_entity_row db e i ≡ some r
      → IsRemoved e
          (delete_with_tombstone h e i r payload db)
          i
          r
          (is_unborn e i r.server_version db)
  unfolding delete_with_tombstone wipe_row tombstone_row
  delete-IsRemoved h i r payload db found = elim (Bool-cases (is_unborn e i r.server_version db)) [
    | inl unborn ↦
        rw (unborn, delete_with_tombstone)
          (
            unfold remove_operations_for read_entity_row in read-delete_self e i db,
            unfold remove_operations_for in
                any-delete_self (op_of e i) (delete_entity_row e i db).outbox,
          )
    | inr born ↦
        let stone = set_row (buried (h.clock db.calls) r) in
        let begun = counted db in
        let was : read_entity_row begun e i ≡ some r = unfold read_entity_row in found in
        let stored : read_entity_row (update_entity_row e i stone begun) e i
            ≡ some (buried (h.clock db.calls) r) =
          read-update_self e i begun stone (λ q. refl) ∙ ap (Option.map stone) was in
        rw (born, delete_with_tombstone)
          (h.clock db.calls, unfold enqueue_operation read_entity_row in stored, enqueued h _ _)
  ]

  -- A removal keeps the records without queued operations CLEAN, whatever is stored.
  pub delete-IsSettled :
      (h : Host) (i : String) (r : Row e) (payload : Json) (db : Db)
      → IsSettled db
      → IsSettled (delete_with_tombstone h e i r payload db)
  unfolding delete_with_tombstone wipe_row
  delete-IsSettled h i r payload db s =
      touch-IsSettled (delete-Touches h i r payload db) s
        (elim (Bool-cases (is_unborn e i r.server_version db)) [
          | inl unborn ↦
              rw (unborn, delete_with_tombstone)
                (λ q found idle.
                  let gone : read_entity_row (wipe_row e i db) e i ≡ none =
                    unfold remove_operations_for read_entity_row in read-delete_self e i db in
                  cc (found, gone))
          | inr born ↦
              rw (born, delete_with_tombstone)
                (λ q found idle. cc (
                  idle,
                  enqueued h
                      (record {
                        entity = e;
                        entity_id = i;
                        op = delete_op;
                        payload = payload;
                        base_version = r.server_version;
                      })
                      (tombstone_row h e i r db),
                ))
        ])

  -- The sent operations of another record are as they were.
  pub has_sent_operations_elsewhere :
      (h : Host) (i : String) (r : Row e) (payload : Json) (db : Db) (g : SyncEntity) (j : String)
      → Other e i g j
      → has_sent_operations g j (delete_with_tombstone h e i r payload db)
        ≡ has_sent_operations g j db
  unfolding delete_with_tombstone wipe_row tombstone_row has_sent_operations remove_operations_for
      enqueue_operation update_entity_row delete_entity_row
  has_sent_operations_elsewhere h i r payload db g j other =
      let p = λ (o : SyncOutboxRow). op_of g j o && is_sent o in
      elim (Bool-cases (is_unborn e i r.server_version db)) [
        | inl unborn ↦
            rw (unborn, delete_with_tombstone)
              (ap is_some (
                first-delete_disjoint p (op_of e i) db.outbox (
                  All-every (λ o own. ground (arith, op_of_elsewhere e i g j o other own))
                    db.outbox)))
        | inr born ↦
            rw (born, delete_with_tombstone)
              (ap is_some (first-append_skipped p _ db.outbox (ground arith)))
      ]
