-- ===== src/Outbox/Shrinks.antt =====
-- packages/local-data/src/outbox.ts: an outbox from which operations leave and to which none come.
use trata.Prelude.{
  ◌≡◌, refl, ◌∙◌, inl, inr, String, Bool, true, false, not, List, [], ◌∷◌, arith, any, All, delete,
  update, select, insert_by, order_by, length, ◌<◌, ◌≤◌, Bool-cases, Option-cases,
}
use trata.Schema.{SyncOutboxRow}
use trata.Db.{Db}
use trata.Outbox.{
  has_op_id, in_ops, merged, Group, ReadRecord, CurrentRecord, coalesce_group, coalesce_groups,
  coalesce_unsent_operations, group_operations, op_before, is_sent,
}

-- The operations of the second outbox are of the first one, in its order; each may be rewritten but
-- for its id.
pub data Shrinks : List SyncOutboxRow → List SyncOutboxRow → Type 0 where
  empty : Shrinks [] []
  dropped : (x : SyncOutboxRow) {xs ys : List SyncOutboxRow} → Shrinks xs ys → Shrinks (x ∷ xs) ys
  kept :
      (x y : SyncOutboxRow) {xs ys : List SyncOutboxRow}
      → y.op_id ≡ x.op_id
      → Shrinks xs ys
      → Shrinks (x ∷ xs) (y ∷ ys)

pub Shrinks-refl : (xs : List SyncOutboxRow) → Shrinks xs xs
Shrinks-refl [] = empty
Shrinks-refl (x ∷ xs) = kept x x refl (Shrinks-refl xs)

pub Shrinks-trans : {xs ys zs : List SyncOutboxRow} → Shrinks xs ys → Shrinks ys zs → Shrinks xs zs
Shrinks-trans (dropped x s) t = dropped x (Shrinks-trans s t)
Shrinks-trans empty empty = empty
Shrinks-trans (kept x y e s) (dropped y2 t) = dropped x (Shrinks-trans s t)
Shrinks-trans (kept x y e s) (kept y2 z f t) = kept x z (f ∙ e) (Shrinks-trans s t)

pub Shrinks-delete : (p : SyncOutboxRow → Bool) (xs : List SyncOutboxRow) → Shrinks xs (delete p xs)
unfolding delete
Shrinks-delete p [] = empty
Shrinks-delete p (x ∷ xs) = elim (Bool-cases (p x)) [
  | inl gone ↦ rw gone (dropped x (Shrinks-delete p xs))
  | inr stays ↦ rw stays (kept x x refl (Shrinks-delete p xs))
]

pub Shrinks-update :
    (p : SyncOutboxRow → Bool) (f : SyncOutboxRow → SyncOutboxRow)
    → ((o : SyncOutboxRow) → (f o).op_id ≡ o.op_id)
    → (xs : List SyncOutboxRow) → Shrinks xs (update p f xs)
unfolding update
Shrinks-update p f keeps [] = empty
Shrinks-update p f keeps (x ∷ xs) = elim (Bool-cases (p x)) [
  | inl hit ↦ rw hit (kept x (f x) (keeps x) (Shrinks-update p f keeps xs))
  | inr miss ↦ rw miss (kept x x refl (Shrinks-update p f keeps xs))
]

pub length-Shrinks : {xs ys : List SyncOutboxRow} → Shrinks xs ys → length ys ≤ length xs
length-Shrinks empty = omega arith
length-Shrinks (dropped x s) = omega (arith, length-Shrinks s)
length-Shrinks (kept x y e s) = omega (arith, length-Shrinks s)

-- Where an id is gone, there are fewer operations.
pub length-Shrinks_gone :
    (k : String) {xs ys : List SyncOutboxRow}
    → Shrinks xs ys
    → any (has_op_id k) xs ≡ true
    → any (has_op_id k) ys ≡ false
    → length ys < length xs
length-Shrinks_gone k empty was gone = cc was
length-Shrinks_gone k (dropped x s) was gone = omega (arith, length-Shrinks s)
length-Shrinks_gone k (kept x y {xs} {ys} e s) was gone =
    let same : has_op_id k y ≡ has_op_id k x = rw e refl in
    let fewer = length-Shrinks_gone k s (ground (arith, was, gone, same)) (ground (arith, gone)) in
    omega (arith, fewer)

-- An id that is there was there before.
pub any-Shrinks :
    (k : String) {xs ys : List SyncOutboxRow}
    → Shrinks xs ys
    → any (has_op_id k) ys ≡ true
    → any (has_op_id k) xs ≡ true
any-Shrinks k empty there = there
any-Shrinks k (dropped x s) there = ground (arith, any-Shrinks k s there)
any-Shrinks k (kept x y e s) there =
    let same : has_op_id k y ≡ has_op_id k x = rw e refl in ground (arith, same, any-Shrinks k s)

merged-keeps : (r : CurrentRecord) (o : SyncOutboxRow) → (merged r o).op_id ≡ o.op_id
merged-keeps r o = ground arith

coalesce_group-Shrinks :
    (read : ReadRecord) (g : Group) (outbox : List SyncOutboxRow)
    → Shrinks outbox (coalesce_group read g outbox)
unfolding coalesce_group
coalesce_group-Shrinks read g outbox = by_ops g.ops refl
  where
    by_ops : (os : List SyncOutboxRow) → g.ops ≡ os → Shrinks outbox (coalesce_group read g outbox)
    by_ops [] q = rw (q, coalesce_group) (Shrinks-refl outbox)
    by_ops (o ∷ []) q = rw (q, coalesce_group) (Shrinks-refl outbox)
    by_ops (o ∷ o2 ∷ more) q = elim (Option-cases (read o.entity o.entity_id)) [
      | inl gone ↦ rw (q, coalesce_group) (rw gone (Shrinks-delete (in_ops (o ∷ o2 ∷ more)) outbox))
      | inr (r, there) ↦
          rw (q, coalesce_group)
            (rw there (
              Shrinks-trans (Shrinks-update (has_op_id o.op_id) (merged r) (merged-keeps r) outbox)
                (Shrinks-delete (in_ops (o2 ∷ more)) _)))
    ]

coalesce_groups-Shrinks :
    (read : ReadRecord) (gs : List Group) (outbox : List SyncOutboxRow)
    → Shrinks outbox (coalesce_groups read gs outbox)
unfolding coalesce_groups
coalesce_groups-Shrinks read [] outbox = Shrinks-refl outbox
coalesce_groups-Shrinks read (g ∷ gs) outbox =
    Shrinks-trans (coalesce_group-Shrinks read g outbox)
      (coalesce_groups-Shrinks read gs (coalesce_group read g outbox))

pub coalesce-Shrinks :
    (read : ReadRecord) (db : Db) → Shrinks db.outbox (coalesce_unsent_operations read db).outbox
unfolding coalesce_unsent_operations
coalesce-Shrinks read db =
    coalesce_groups-Shrinks read
      (group_operations [] (order_by op_before (select (λ o. not (is_sent o)) db.outbox))) db.outbox

module _ (P : SyncOutboxRow → Type 0) (before : SyncOutboxRow → SyncOutboxRow → Bool) where
  All-insert_by :
      (x : SyncOutboxRow) (ys : List SyncOutboxRow) → P x → All P ys → All P (insert_by before x ys)
  unfolding insert_by
  All-insert_by x [] h hs = (h, tt)
  All-insert_by x (y ∷ ys) h (k, ks) = elim (Bool-cases (before x y)) [
    | inl first ↦ rw first (h, (k, ks))
    | inr later ↦ rw later (k, All-insert_by x ys h ks)
  ]

  pub All-order_by : (xs : List SyncOutboxRow) → All P xs → All P (order_by before xs)
  unfolding order_by
  All-order_by [] h = tt
  All-order_by (x ∷ xs) (h, hs) = All-insert_by x (order_by before xs) h (All-order_by xs hs)
