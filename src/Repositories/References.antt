-- ===== src/Repositories/References.antt =====
-- packages/local-data/src/repositories: the live rows that the repositories look up.
use trata.Prelude.{
  ◌≡◌, refl, is_some, any, inl, inr, Bool-cases, String, not, ◌&&◌, some, List, [], ◌∷◌, arith,
  first, str_eq, eq_iff,
}
use trata.Prelude.Rows.{first-passes}
use trata.Schema.{SyncEntity, Row}
use trata.Db.{has_id, is_deleted}
use trata.Repositories.Values.{find_live}

module _ {e : SyncEntity} (i : String) where
  -- Something is found exactly when some live row has the id.
  pub is_some-find_live :
      (rows : List (Row e))
      → is_some (find_live i rows) ≡ any (λ r. str_eq r.id i && not (is_some r.deleted_at)) rows
  unfolding find_live first
  is_some-find_live [] = refl
  is_some-find_live (x ∷ rows) = ground (arith, is_some-find_live rows)

  pub id-find_live : (rows : List (Row e)) (r : Row e) → find_live i rows ≡ some r → r.id ≡ i
  unfolding find_live
  id-find_live rows r h =
      (eq_iff r.id i).0
        (ground (arith, first-passes (λ (q : Row e). has_id i q && not (is_deleted q)) rows r h))

  -- A live row with the id is there, so a row with the id is.
  pub first-find_live :
      (rows : List (Row e)) (r : Row e)
      → find_live i rows ≡ some r
      → (q : Row e) × (first (has_id i) rows ≡ some q) × (q.id ≡ i)
  unfolding find_live first
  first-find_live [] r h = cc (h)
  first-find_live (x ∷ rows) r h = elim (Bool-cases (str_eq x.id i)) [
    | inl same ↦ (x, rw same, (eq_iff x.id i).0 same)
    | inr ne ↦
        let (q, found, own) = first-find_live rows r (rw ne at h) in (q, rw (ne, first) found, own)
  ]
