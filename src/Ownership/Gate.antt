-- ===== src/Ownership/Gate.antt =====
-- packages/local-data/src/sync/ownership.ts: the gate before and after the owner changes.
use trata.Prelude.{
  ◌≡◌, ◌≢◌, refl, sym, ◌∙◌, ap, inl, inr, String, Bool, true, false, ◌||◌, Option, none, some, List,
  [], ◌∷◌, arith, str_eq, eq_iff, eq_refl, Bool-cases, Option-cases, delete, if◌then◌else◌,
}
use trata.Schema.{
  SyncEntity, account, category, transaction, debtor, debt_operation, planned_payment, MetaValue,
  words,
}
use trata.Db.{Db, read_entity_row}
use trata.Meta.{
  get_owner_user_id, set_owner_user_id, wipe_local_data, get_meta_value, set_meta_value,
  owner_user_id_key, is_wiped_key, lookup_meta, get_pull_cursor, get_last_household,
}
use trata.Meta.Keys.{get-set_meta}
use trata.Ownership.{pass, foreign_owner, ownership_gate_decision, adopt_unowned, rebind_owner}

get-set_owner : (u : String) (db : Db) → get_owner_user_id (set_owner_user_id u db) ≡ some u
unfolding get_owner_user_id set_owner_user_id
get-set_owner u db = rw (get-set_meta owner_user_id_key owner_user_id_key (words u) db) refl

adopt_cases :
    (u : String) (db : Db) (o : Option String)
    → get_owner_user_id db ≡ o
    → (ownership_gate_decision (get_owner_user_id (adopt_unowned u db)) u
        ≡ ownership_gate_decision (get_owner_user_id db) u)
      × (ownership_gate_decision (get_owner_user_id db) u ≡ pass
          → get_owner_user_id (adopt_unowned u db) ≡ some u)
unfolding adopt_unowned ownership_gate_decision
adopt_cases u db none q =
    rw (q, adopt_unowned)
      (rw (get-set_owner u db) (ground (arith, eq_refl u)), λ p. get-set_owner u db)
adopt_cases u db (some owner) q = elim (Bool-cases (str_eq owner "")) [
  | inl empty ↦
      rw (q, adopt_unowned, empty)
        (rw (get-set_owner u db) (ground (arith, eq_refl u)), λ p. get-set_owner u db)
  | inr named ↦ rw (q, adopt_unowned, named) (rw (q, named) refl, λ p. q ∙ ap some (owner_is p))
]
  where
    owner_is : (if str_eq owner u then pass else foreign_owner owner) ≡ pass → owner ≡ u
    owner_is p = ground (arith, eq_iff owner u)

refused :
    (u : String) (db : Db) (o : Option String)
    → get_owner_user_id db ≡ o
    → ownership_gate_decision (get_owner_user_id db) u ≢ pass
    → adopt_unowned u db ≡ db
unfolding adopt_unowned ownership_gate_decision
refused u db none q foreign = absurd (foreign (rw q refl))
refused u db (some owner) q foreign = elim (Bool-cases (str_eq owner "")) [
  | inl empty ↦ absurd (foreign (rw (q, empty) refl))
  | inr named ↦ rw (q, adopt_unowned, named)
]

-- For two users, the first of them of a non-empty id: adoption by the first leaves that user's own
-- pass or refusal as it was. If that user passes, that user is the owner afterwards and the other
-- one is refused, whoever passed before; if not, nothing changes.
pub adopt_unowned_lem :
    (u v : String) (db : Db)
    → u ≢ ""
    → u ≢ v
    → let after = adopt_unowned u db in
      (ownership_gate_decision (get_owner_user_id after) u
        ≡ ownership_gate_decision (get_owner_user_id db) u)
      × (ownership_gate_decision (get_owner_user_id db) u ≡ pass
          → (get_owner_user_id after ≡ some u)
            × (ownership_gate_decision (get_owner_user_id after) v ≡ foreign_owner u))
      × (ownership_gate_decision (get_owner_user_id db) u ≢ pass → after ≡ db)
adopt_unowned_lem u v db named other =
    let (same, owns) = adopt_cases u db (get_owner_user_id db) refl in
    (
      same,
      λ p. (
        owns p,
        rw (owns p) (
            unfold ownership_gate_decision in
            ground (arith, eq_iff u "", eq_iff u v, named, other)),
      ),
      refused u db (get_owner_user_id db) refl,
    )

lookup-wiped :
    (k : String) (m : List (String × MetaValue))
    → is_wiped_key k ≡ false
    → lookup_meta k (delete (λ e. is_wiped_key e.0) m) ≡ lookup_meta k m
unfolding lookup_meta delete
lookup-wiped k [] kept = refl
lookup-wiped k ((j, v) ∷ m) kept = elim (Bool-cases (str_eq j k)) [
  | inl hit ↦
      let is = (eq_iff j k).0 hit in
      let stays : is_wiped_key j ≡ false = rw is kept in rw stays (ground (arith, eq_refl k))
  | inr miss ↦ elim (Bool-cases (is_wiped_key j)) [
    | inl gone ↦ rw (gone, miss) (lookup-wiped k m kept)
    | inr stays ↦ rw (stays, miss) (lookup-wiped k m kept)
  ]
]

lookup-gone :
    (k : String) (m : List (String × MetaValue))
    → is_wiped_key k ≡ true
    → lookup_meta k (delete (λ e. is_wiped_key e.0) m) ≡ none
unfolding lookup_meta delete
lookup-gone k [] wiped = refl
lookup-gone k ((j, v) ∷ m) wiped = elim (Bool-cases (is_wiped_key j)) [
  | inl gone ↦ rw gone (lookup-gone k m wiped)
  | inr stays ↦
      let miss : str_eq j k ≡ false = ground (arith, wiped, stays, eq_iff j k) in
      rw (stays, miss) (lookup-gone k m wiped)
]

gone_meta :
    (u k : String) (db : Db)
    → is_wiped_key k ≡ true
    → str_eq owner_user_id_key k ≡ false
    → get_meta_value (set_owner_user_id u (wipe_local_data db)) k ≡ none
unfolding set_owner_user_id
gone_meta u k db wiped other =
    get-set_meta owner_user_id_key k (words u) (wipe_local_data db)
    ∙ (unfold get_meta_value wipe_local_data in rw other (lookup-gone k db.meta wiped))

no_rows : (e : SyncEntity) (i : String) (db : Db) → read_entity_row (wipe_local_data db) e i ≡ none
unfolding read_entity_row wipe_local_data trata.Prelude.first
no_rows account i db = refl
no_rows category i db = refl
no_rows transaction i db = refl
no_rows debtor i db = refl
no_rows debt_operation i db = refl
no_rows planned_payment i db = refl

kept_meta :
    (u k : String) (db : Db)
    → is_wiped_key k ≡ false
    → (if str_eq owner_user_id_key k then some (words u) else get_meta_value (wipe_local_data db) k)
      ≡ get_meta_value db k
unfolding get_meta_value wipe_local_data
kept_meta u k db kept = elim (Bool-cases (str_eq owner_user_id_key k)) [
  | inl own ↦
      let is = (eq_iff owner_user_id_key k).0 own in
      let clash : true ≡ false = ap is_wiped_key is ∙ kept in cc clash
  | inr other ↦ rw other (lookup-wiped k db.meta kept)
]

-- After a rebind the new owner passes and every other user meets a foreign owner (unless the
-- owner's id is the empty text); no row, no queued operation and no conflict of the former owner is
-- left, the pull cursor is at 0, no household and no time of a sync is known, and all other
-- metadata keeps its value.
pub rebind_owner_lem :
    (u v : String) (db : Db)
    → let after = rebind_owner u db in
      (ownership_gate_decision (get_owner_user_id after) u ≡ pass)
      × (u ≢ "" → u ≢ v → ownership_gate_decision (get_owner_user_id after) v ≡ foreign_owner u)
      × ((e : SyncEntity) (i : String) → read_entity_row after e i ≡ none)
      × (after.outbox ≡ [])
      × (after.conflicts ≡ [])
      × (get_pull_cursor after ≡ 0)
      × (get_last_household after ≡ none)
      × (get_meta_value after "last_synced_at" ≡ none)
      × ((k : String)
          → k ≢ "owner_user_id"
          → k ≢ "pull_cursor"
          → k ≢ "last_synced_at"
          → k ≢ "last_household"
          → get_meta_value after k ≡ get_meta_value db k)
unfolding rebind_owner ownership_gate_decision
rebind_owner_lem u v db =
    let wiped = wipe_local_data db in
    (
      rw (get-set_owner u wiped) (ground (arith, eq_refl u)),
      λ named other. rw (get-set_owner u wiped) (ground (arith, eq_iff u "", eq_iff u v)),
      λ e i. (unfold set_owner_user_id set_meta_value read_entity_row in no_rows e i db),
      (unfold set_owner_user_id set_meta_value wipe_local_data in refl),
      (unfold set_owner_user_id set_meta_value wipe_local_data in refl),
      (unfold get_pull_cursor in rw (gone_meta u "pull_cursor" db refl refl)),
      (unfold get_last_household in rw (gone_meta u "last_household" db refl refl)),
      gone_meta u "last_synced_at" db refl refl,
      λ k owner cursor synced household.
          let kept : is_wiped_key k ≡ false = ground (
            arith,
            eq_iff k "owner_user_id",
            eq_iff k "pull_cursor",
            eq_iff k "last_synced_at",
            eq_iff k "last_household",
          ) in
          let written : get_meta_value (set_owner_user_id u wiped) k
              ≡ (if str_eq owner_user_id_key k then some (words u) else get_meta_value wiped k) =
            unfold set_owner_user_id in get-set_meta owner_user_id_key k (words u) wiped in
          written ∙ kept_meta u k db kept,
    )
