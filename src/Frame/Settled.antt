-- ===== src/Frame/Settled.antt =====
-- The invariant of the sync columns: a record with no queued operation is CLEAN.
use trata.Prelude.{
  ◌≡◌, ◌≢◌, ◌∙◌, sym, ◌⊎◌, inl, inr, String, false, some, Bool-cases, str_eq, eq_iff,
}
use trata.Schema.{SyncEntity, Row}
use trata.Db.{Db, read_entity_row, IsClean}
use trata.Db.Laws.{Other, SyncEntity-discrete}
use trata.Frame.{has_operations, Touches, SameRecords, read-SameRecords, has_operations-SameRecords}
use mathlib.Core.Path.{subst}

pub record IsSettled (db : Db) : Type 0 where
  pub clean :
      (e : SyncEntity) (i : String) (r : Row e)
      → read_entity_row db e i ≡ some r
      → has_operations db e i ≡ false
      → IsClean r

-- What an operation owes for the record that it touches.
abbrev pub SettledAt : Db → SyncEntity → String → Type 0
SettledAt db e i =
    (r : Row e) → read_entity_row db e i ≡ some r → has_operations db e i ≡ false → IsClean r

same_text : (i j : String) → (i ≡ j) ⊎ (i ≢ j)
same_text i j = elim (Bool-cases (str_eq i j)) [
  | inl e ↦ inl ((eq_iff i j).0 e)
  | inr ne ↦ inr (λ p. cc (ne, (eq_iff i j).1 p))
]

pub which_record :
    (e : SyncEntity) (i : String) (g : SyncEntity) (j : String)
    → Other e i g j ⊎ ((e ≡ g) × (i ≡ j))
which_record e i g j = elim (SyncEntity-discrete e g) [
  | no q ↦ inl (inl q)
  | yes p ↦ elim (same_text i j) [ inl q ↦ inr (p, q) | inr q ↦ inl (inr q) ]
]

module _ {e : SyncEntity} {i : String} {a b : Db} (touch : Touches e i a b) (h : IsSettled a)
    (here : SettledAt b e i) where
  settled_at : (g : SyncEntity) (j : String) → SettledAt b g j
  settled_at g j = elim (which_record e i g j) [
    | inl o ↦ λ r found idle.
        h.clean g j r (sym (touch.rows g j o) ∙ found) (sym (touch.operations g j o) ∙ idle)
    | inr (p, q) ↦ subst (λ g. SettledAt b g j) p (subst (λ j. SettledAt b e j) q here)
  ]

  -- The record that an operation touches is all that has to be looked at.
  pub touch-IsSettled : IsSettled b
  touch-IsSettled = record { clean = settled_at }

pub same-IsSettled : {a b : Db} → SameRecords a b → IsSettled a → IsSettled b
same-IsSettled s h = record {
  clean = λ e i r found idle.
      h.clean e i r (sym (read-SameRecords s e i) ∙ found)
        (sym (has_operations-SameRecords s e i) ∙ idle);
}
