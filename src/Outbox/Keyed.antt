-- ===== src/Outbox/Keyed.antt =====
-- packages/local-data/src/outbox.ts: the ids of the operations, each of one record.
use trata.Prelude.{
  ◌≡◌, refl, sym, ◌∙◌, inl, inr, String, Bool, true, ◌&&◌, some, List, [], ◌∷◌, arith, any, All,
  eq_iff, first, delete, update, Bool-cases,
}
use trata.Prelude.Rows.{any-update_kept}
use trata.Schema.{SyncEntity, SyncOutboxRow, op_of}
use trata.Outbox.{has_op_id}
use trata.Outbox.Queue.{same_entity_refl}

-- An operation with id `k` is of the record.
abbrev pub SameKey : String → SyncEntity → String → SyncOutboxRow → Type 0
SameKey k e i p = has_op_id k p ≡ true → op_of e i p ≡ true

abbrev is_keyed_op : String → SyncEntity → String → SyncOutboxRow → Bool
is_keyed_op k e i o = has_op_id k o && op_of e i o

-- Operations with one id belong to one record.
pub record IsKeyed (outbox : List SyncOutboxRow) : Type 0 where
  pub keyed :
      (k : String) (e : SyncEntity) (i : String)
      → any (is_keyed_op k e i) outbox ≡ true
      → All (SameKey k e i) outbox

first-any :
    (k : String) (e : SyncEntity) (i : String) (o : SyncOutboxRow) (xs : List SyncOutboxRow)
    → first (has_op_id k) xs ≡ some o
    → op_of e i o ≡ true
    → any (is_keyed_op k e i) xs ≡ true
unfolding first
first-any k e i o [] found own = cc found
first-any k e i o (x ∷ xs) found own = elim (Bool-cases (has_op_id k x)) [
  | inl hit ↦
      let here : some x ≡ some o = rw hit at found in let is : x ≡ o = cc in rw (hit, is, own) refl
  | inr miss ↦ rw miss (first-any k e i o xs (rw miss at found) own)
]

pub found-SameKey :
    (k : String) (o : SyncOutboxRow) (xs : List SyncOutboxRow)
    → IsKeyed xs
    → first (has_op_id k) xs ≡ some o
    → All (SameKey k o.entity o.entity_id) xs
found-SameKey k o xs h found = h.keyed k o.entity o.entity_id (
    first-any k o.entity o.entity_id o xs found
      (ground (arith, same_entity_refl o.entity, eq_iff o.entity_id o.entity_id)))

All-delete :
    (P : SyncOutboxRow → Type 0) (q : SyncOutboxRow → Bool) (xs : List SyncOutboxRow)
    → All P xs
    → All P (delete q xs)
unfolding delete
All-delete P q [] h = tt
All-delete P q (x ∷ xs) (h, hs) = elim (Bool-cases (q x)) [
  | inl gone ↦ rw gone (All-delete P q xs hs)
  | inr stays ↦ rw stays (h, All-delete P q xs hs)
]

any-delete :
    (p q : SyncOutboxRow → Bool) (xs : List SyncOutboxRow)
    → any p (delete q xs) ≡ true
    → any p xs ≡ true
unfolding delete
any-delete p q [] h = h
any-delete p q (x ∷ xs) h = ground (arith, any-delete p q xs)

pub IsKeyed-delete :
    (q : SyncOutboxRow → Bool) (xs : List SyncOutboxRow) → IsKeyed xs → IsKeyed (delete q xs)
IsKeyed-delete q xs h = record {
  keyed = λ k e i some_op.
      All-delete (SameKey k e i) q xs (h.keyed k e i (any-delete (is_keyed_op k e i) q xs some_op));
}

-- What an update of an operation has to keep: its id and its record.
pub record KeepsKey (f : SyncOutboxRow → SyncOutboxRow) : Type 0 where
  pub op_id : (o : SyncOutboxRow) → (f o).op_id ≡ o.op_id
  pub entity : (o : SyncOutboxRow) → (f o).entity ≡ o.entity
  pub entity_id : (o : SyncOutboxRow) → (f o).entity_id ≡ o.entity_id

All-update :
    (k : String) (e : SyncEntity) (i : String) (q : SyncOutboxRow → Bool)
    (f : SyncOutboxRow → SyncOutboxRow)
    → KeepsKey f
    → (xs : List SyncOutboxRow) → All (SameKey k e i) xs
    → All (SameKey k e i) (update q f xs)
unfolding update
All-update k e i q f keeps [] h = tt
All-update k e i q f keeps (x ∷ xs) (h, hs) = elim (Bool-cases (q x)) [
  | inl hit ↦ rw hit (
    λ own. rw (keeps.entity x, keeps.entity_id x) (h (rw (keeps.op_id x) at own)),
    All-update k e i q f keeps xs hs,
  )
  | inr miss ↦ rw miss (h, All-update k e i q f keeps xs hs)
]

pub IsKeyed-update :
    (q : SyncOutboxRow → Bool) (f : SyncOutboxRow → SyncOutboxRow) (xs : List SyncOutboxRow)
    → KeepsKey f
    → IsKeyed xs
    → IsKeyed (update q f xs)
IsKeyed-update q f xs keeps h = record {
  keyed = λ k e i some_op. All-update k e i q f keeps xs (
      h.keyed k e i (
        sym (
          any-update_kept (is_keyed_op k e i) q f xs
            (λ x. rw (keeps.op_id x, keeps.entity x, keeps.entity_id x) refl))
        ∙ some_op));
}
