-- ===== src/Db/Laws.antt =====
-- The statements on the entity tables: reading a record after a write to it or to another.
use mathlib.Core.Option
use mathlib.Core.Path.{subst}
use trata.Prelude.{
  ◌≡◌, ◌≢◌, refl, sym, ◌⊎◌, inl, inr, ◌∙◌, String, none, some, List, [], ◌∷◌, ◌++◌, arith, eq_iff,
  update, first, delete,
}
use trata.Schema.{
  SyncEntity, account, category, transaction, debtor, debt_operation, planned_payment, Row, Tables,
}
use trata.Db.{
  Db, get_table, set_table, has_id, read_entity_row, update_entity_row, insert_entity_row,
  delete_entity_row,
}

pub SyncEntity-discrete : Discrete SyncEntity
SyncEntity-discrete = hlevel

-- Another record than the one named by `e` and `i`.
abbrev pub Other : SyncEntity → String → SyncEntity → String → Type 0
Other e i g j = (e ≢ g) ⊎ (i ≢ j)

pub get-set_self :
    (e : SyncEntity) (rows : List (Row e)) (t : Tables) → get_table e (set_table e rows t) ≡ rows
get-set_self account rows t = refl
get-set_self category rows t = refl
get-set_self transaction rows t = refl
get-set_self debtor rows t = refl
get-set_self debt_operation rows t = refl
get-set_self planned_payment rows t = refl

pub get-set_ne :
    (e f : SyncEntity) (rows : List (Row e)) (t : Tables)
    → e ≢ f
    → get_table f (set_table e rows t) ≡ get_table f t
get-set_ne account account rows t h = absurd (h refl)
get-set_ne category category rows t h = absurd (h refl)
get-set_ne transaction transaction rows t h = absurd (h refl)
get-set_ne debtor debtor rows t h = absurd (h refl)
get-set_ne debt_operation debt_operation rows t h = absurd (h refl)
get-set_ne planned_payment planned_payment rows t h = absurd (h refl)
get-set_ne _ _ rows t h = refl

module _ {e : SyncEntity} (i : String) where
  -- The patched row is read back patched, when the patch keeps the id.
  first-update :
      (f : Row e → Row e) (rows : List (Row e))
      → ((r : Row e) → (f r).id ≡ r.id)
      → first (has_id i) (update (has_id i) f rows) ≡ Option.map f (first (has_id i) rows)
  unfolding first update
  first-update f [] keeps = refl
  first-update f (r ∷ rows) keeps = ground (arith, first-update f rows keeps, keeps r)

  first-update_ne :
      (j : String) (f : Row e → Row e) (rows : List (Row e))
      → ((r : Row e) → (f r).id ≡ r.id)
      → i ≢ j
      → first (has_id j) (update (has_id i) f rows) ≡ first (has_id j) rows
  unfolding first update
  first-update_ne j f [] keeps ne = refl
  first-update_ne j f (r ∷ rows) keeps ne =
      ground (arith, first-update_ne j f rows keeps ne, keeps r, eq_iff r.id i, eq_iff r.id j)

  first-delete : (rows : List (Row e)) → first (has_id i) (delete (has_id i) rows) ≡ none
  unfolding first delete
  first-delete [] = refl
  first-delete (r ∷ rows) = ground (arith, first-delete rows)

  first-delete_ne :
      (j : String) (rows : List (Row e))
      → i ≢ j
      → first (has_id j) (delete (has_id i) rows) ≡ first (has_id j) rows
  unfolding first delete
  first-delete_ne j [] ne = refl
  first-delete_ne j (r ∷ rows) ne =
      ground (arith, first-delete_ne j rows ne, eq_iff r.id i, eq_iff r.id j)

  first-append_ne :
      (r : Row e) (rows : List (Row e))
      → r.id ≢ i
      → first (has_id i) (rows ++ r ∷ []) ≡ first (has_id i) rows
  unfolding first
  first-append_ne r [] ne = ground (arith, eq_iff r.id i)
  first-append_ne r (s ∷ rows) ne = ground (arith, first-append_ne r rows ne)

  first-append_self :
      (r : Row e) (rows : List (Row e))
      → r.id ≡ i
      → first (has_id i) rows ≡ none
      → first (has_id i) (rows ++ r ∷ []) ≡ some r
  unfolding first
  first-append_self r [] same absent = ground (arith, eq_iff r.id i)
  first-append_self r (s ∷ rows) same absent = ground (arith, first-append_self r rows same)

module _ (e : SyncEntity) (i : String) (db : Db) where
  -- A table that agrees on every other id is read alike at every other record.
  module _ (rows : List (Row e))
      (agree : (j : String)
        → i ≢ j
        → first (has_id j) rows ≡ first (has_id j) (get_table e db.tables)) where
    read-set_id :
        (j : String)
        → i ≢ j
        → read_entity_row (record db { tables = set_table e rows db.tables }) e j
          ≡ read_entity_row db e j
    unfolding read_entity_row
    read-set_id j ne = rw get-set_self (agree j ne)

    read-set_entity :
        (g : SyncEntity) (j : String)
        → e ≢ g
        → read_entity_row (record db { tables = set_table e rows db.tables }) g j
          ≡ read_entity_row db g j
    unfolding read_entity_row
    read-set_entity g j ne = rw (get-set_ne e g rows db.tables ne)

    read-set_elsewhere :
        (g : SyncEntity) (j : String)
        → Other e i g j
        → read_entity_row (record db { tables = set_table e rows db.tables }) g j
          ≡ read_entity_row db g j
    read-set_elsewhere g j (inl ne) = read-set_entity g j ne
    read-set_elsewhere g j (inr ne) = elim (SyncEntity-discrete e g) [
      | yes p ↦
          subst
            (λ g.
              read_entity_row (record db { tables = set_table e rows db.tables }) g j
              ≡ read_entity_row db g j)
            p (read-set_id j ne)
      | no q ↦ read-set_entity g j q
    ]

  module _ (f : Row e → Row e) (keeps : (r : Row e) → (f r).id ≡ r.id) where
    pub read-update_self :
        read_entity_row (update_entity_row e i f db) e i ≡ Option.map f (read_entity_row db e i)
    unfolding read_entity_row update_entity_row
    read-update_self = rw get-set_self (first-update i f (get_table e db.tables) keeps)

    pub read-update_elsewhere :
        (g : SyncEntity) (j : String)
        → Other e i g j
        → read_entity_row (update_entity_row e i f db) g j ≡ read_entity_row db g j
    unfolding update_entity_row
    read-update_elsewhere =
        read-set_elsewhere _ (λ j ne. first-update_ne i j f (get_table e db.tables) keeps ne)

  pub read-delete_self : read_entity_row (delete_entity_row e i db) e i ≡ none
  unfolding read_entity_row delete_entity_row
  read-delete_self = rw get-set_self (first-delete i (get_table e db.tables))

  pub read-delete_elsewhere :
      (g : SyncEntity) (j : String)
      → Other e i g j
      → read_entity_row (delete_entity_row e i db) g j ≡ read_entity_row db g j
  unfolding delete_entity_row
  read-delete_elsewhere =
      read-set_elsewhere _ (λ j ne. first-delete_ne i j (get_table e db.tables) ne)

  module _ (r : Row e) (same : r.id ≡ i) where
    pub read-insert_self :
        read_entity_row db e i ≡ none → read_entity_row (insert_entity_row e r db) e i ≡ some r
    unfolding read_entity_row insert_entity_row
    read-insert_self absent =
        rw get-set_self (first-append_self i r (get_table e db.tables) same absent)

    pub read-insert_elsewhere :
        (g : SyncEntity) (j : String)
        → Other e i g j
        → read_entity_row (insert_entity_row e r db) g j ≡ read_entity_row db g j
    unfolding insert_entity_row
    read-insert_elsewhere =
        read-set_elsewhere _
          (λ j ne. first-append_ne j r (get_table e db.tables) (λ p. ne (sym same ∙ p)))
