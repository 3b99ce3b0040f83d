-- ===== src/Rebase/Union.antt =====
-- packages/local-data/src/sync/rebase.ts: the rows, the outbox and the metadata after a rebase.
use trata.Prelude.{
  ℕ, ◌≡◌, refl, sym, ◌∙◌, ap, inl, inr, String, false, Option, none, List, [], ◌∷◌, ◌++◌, map,
  arith, All, delete, eq_refl, Bool-cases,
}
use trata.Json.{Json, JsonText, encoded}
use trata.Schema.{
  SyncEntity, account, category, transaction, debtor, debt_operation, planned_payment,
  SyncOperationKind, upsert, Row, Tables, SyncOutboxRow, Timestamp, words,
}
use trata.Db.{Db, Host, is_deleted, get_table}
use trata.Catalog.{row_to_payload}
use trata.Outbox.{enqueue_operation, op_row}
use trata.Meta.{
  get_pull_cursor, set_pull_cursor, set_last_household, household_needs_rebase, get_last_household,
  set_meta_value, last_household_key, pull_cursor_key,
}
use trata.Meta.Keys.{get-set_meta, get-set_cursor}
use trata.Rebase.{
  survivors, surviving_tables, create_input, regenerate_as_creates, regenerate_all,
  rebase_local_data_for_household,
}
use mathlib.Core.List.{append_assoc}

-- What an operation says, without its id and its time.
pub record Said : Type 0 where
  pub entity : SyncEntity
  pub entity_id : String
  pub op : SyncOperationKind
  pub payload : JsonText Json
  pub base_version : ℕ
  pub sent_at : Option Timestamp
  pub attempts : ℕ
  pub last_error : Option String

abbrev pub said : SyncOutboxRow → Said
said o = record {
  entity = o.entity;
  entity_id = o.entity_id;
  op = o.op;
  payload = o.payload;
  base_version = o.base_version;
  sent_at = o.sent_at;
  attempts = o.attempts;
  last_error = o.last_error;
}

-- The fresh create of a row.
abbrev pub create_of : (e : SyncEntity) → Row e → Said
create_of e r = record {
  entity = e;
  entity_id = r.id;
  op = upsert;
  payload = encoded (row_to_payload e r);
  base_version = 0;
  sent_at = none;
  attempts = 0;
  last_error = none;
}

-- The creates of all the tables, parents before the rows that name them.
abbrev pub creates : Tables → List Said
creates t =
    (((((map (create_of account) t.accounts ++ map (create_of category) t.categories)
            ++ map (create_of transaction) t.transactions)
          ++ map (create_of debtor) t.debtors)
        ++ map (create_of debt_operation) t.debt_operations)
      ++ map (create_of planned_payment) t.planned_payments)

map-append :
    (xs : List SyncOutboxRow) (o : SyncOutboxRow)
    → map said (xs ++ o ∷ []) ≡ map said xs ++ said o ∷ []
map-append [] o = refl
map-append (x ∷ xs) o = ap (λ ys. said x ∷ ys) (map-append xs o)

-- What enqueueing the creates adds to a database.
record Enqueued (before after : Db) (more : List Said) : Type 0 where
  tables : after.tables ≡ before.tables
  conflicts : after.conflicts ≡ before.conflicts
  outbox : map said after.outbox ≡ map said before.outbox ++ more

Enqueued-trans :
    {a b c : Db} (xs ys : List Said) → Enqueued a b xs → Enqueued b c ys → Enqueued a c (xs ++ ys)
Enqueued-trans {a} xs ys p q = record {
  tables = q.tables ∙ p.tables;
  conflicts = q.conflicts ∙ p.conflicts;
  outbox = q.outbox ∙ ap (λ l. l ++ ys) p.outbox ∙ append_assoc (map said a.outbox) xs ys;
}

module _ (h : Host) where
  one-Enqueued :
      (e : SyncEntity) (r : Row e) (db : Db)
      → Enqueued db (enqueue_operation h (create_input e r) db) (create_of e r ∷ [])
  unfolding enqueue_operation
  one-Enqueued e r db = record {
    tables = refl;
    conflicts = refl;
    outbox = map-append db.outbox (op_row h db.calls (create_input e r));
  }

  append-nil : (xs : List Said) → xs ++ [] ≡ xs
  append-nil [] = refl
  append-nil (x ∷ xs) = ap (λ ys. x ∷ ys) (append-nil xs)

  regenerate-Enqueued :
      (e : SyncEntity) (rows : List (Row e)) (db : Db)
      → Enqueued db (regenerate_as_creates h e rows db) (map (create_of e) rows)
  unfolding regenerate_as_creates
  regenerate-Enqueued e [] db = record {
    tables = refl;
    conflicts = refl;
    outbox = sym (append-nil (map said db.outbox));
  }
  regenerate-Enqueued e (r ∷ rows) db =
      let queued = enqueue_operation h (create_input e r) db in
      Enqueued-trans (create_of e r ∷ []) (map (create_of e) rows) (one-Enqueued e r db)
        (regenerate-Enqueued e rows queued)

  all-Enqueued : (t : Tables) (db : Db) → Enqueued db (regenerate_all h t db) (creates t)
  unfolding regenerate_all
  all-Enqueued t db =
      Enqueued-trans _ _
        (Enqueued-trans _ _
          (Enqueued-trans _ _
            (Enqueued-trans _ _
              (Enqueued-trans _ _ (regenerate-Enqueued account t.accounts db)
                (regenerate-Enqueued category t.categories _))
              (regenerate-Enqueued transaction t.transactions _))
            (regenerate-Enqueued debtor t.debtors _))
          (regenerate-Enqueued debt_operation t.debt_operations _))
        (regenerate-Enqueued planned_payment t.planned_payments _)

-- A row that the server has never seen: no tombstone, and no confirmed version.
abbrev pub IsFresh : {e : SyncEntity} → Row e → Type 0
IsFresh r = (is_deleted r ≡ false) × (r.server_version ≡ 0)

survivors-IsFresh : {e : SyncEntity} (rows : List (Row e)) → All IsFresh (survivors rows)
unfolding delete
survivors-IsFresh [] = tt
survivors-IsFresh (r ∷ rows) = elim (Bool-cases (is_deleted r)) [
  | inl gone ↦ rw gone (survivors-IsFresh rows)
  | inr stays ↦ rw stays ((stays, refl), survivors-IsFresh rows)
]

tables-IsFresh : (e : SyncEntity) (t : Tables) → All IsFresh (get_table e (surviving_tables t))
tables-IsFresh account t = survivors-IsFresh t.accounts
tables-IsFresh category t = survivors-IsFresh t.categories
tables-IsFresh transaction t = survivors-IsFresh t.transactions
tables-IsFresh debtor t = survivors-IsFresh t.debtors
tables-IsFresh debt_operation t = survivors-IsFresh t.debt_operations
tables-IsFresh planned_payment t = survivors-IsFresh t.planned_payments

cursor_kept :
    (i : String) (db : Db) → get_pull_cursor (set_last_household i db) ≡ get_pull_cursor db
unfolding get_pull_cursor set_last_household
cursor_kept i db = rw (get-set_meta last_household_key pull_cursor_key (words i) db) refl

household_marked :
    (i : String) (db : Db) → household_needs_rebase (set_last_household i db) i ≡ false
unfolding household_needs_rebase get_last_household set_last_household
household_marked i db =
    rw (get-set_meta last_household_key last_household_key (words i) db, household_needs_rebase)
      (ground (arith, eq_refl i))

-- After a rebase every row is one that the new household's server has not seen, the outbox is
-- exactly one unsent base-0 create for each of them (accounts and categories first, and debtors
-- before their operations), no conflict is left, the pull starts over, and a second rebase is not
-- called for.
pub rebase_local_data_for_household_lem :
    (h : Host) (household : String) (db : Db)
    → let after = rebase_local_data_for_household h household db in
      ((e : SyncEntity) → All IsFresh (get_table e after.tables))
      × (map said after.outbox ≡ creates after.tables)
      × (after.conflicts ≡ [])
      × (get_pull_cursor after ≡ 0)
      × (household_needs_rebase after household ≡ false)
unfolding rebase_local_data_for_household
rebase_local_data_for_household_lem h household db =
    let t = surviving_tables db.tables in
    let cleared = record db { tables = t; outbox = []; conflicts = [] } in
    let q = all-Enqueued h t cleared in
    let queued = regenerate_all h t cleared in
    (
      unfold set_last_household set_pull_cursor set_meta_value in
          (λ e. rw q.tables (tables-IsFresh e db.tables)),
      unfold set_last_household set_pull_cursor set_meta_value in (rw q.tables q.outbox),
      unfold set_last_household set_pull_cursor set_meta_value in q.conflicts,
      cursor_kept household (set_pull_cursor 0 queued) ∙ get-set_cursor 0 queued,
      household_marked household (set_pull_cursor 0 queued),
    )
