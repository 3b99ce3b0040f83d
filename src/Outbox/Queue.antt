-- ===== src/Outbox/Queue.antt =====
-- packages/local-data/src/outbox.ts: to which record an operation belongs.
use trata.Prelude.{◌≡◌, inl, inr, String, true, false, arith, eq_iff}
use trata.Schema.{SyncEntity, entity_code, same_entity, SyncOutboxRow, op_of}
use trata.Db.Laws.{Other}

pub entity_code-injective : (e g : SyncEntity) → entity_code e ≡ entity_code g → e ≡ g
entity_code-injective e g h = ground arith

pub same_entity_refl : (e : SyncEntity) → same_entity e e ≡ true
same_entity_refl e = ground arith

-- An operation belongs to one record.
pub op_of_elsewhere :
    (e : SyncEntity) (i : String) (g : SyncEntity) (j : String) (o : SyncOutboxRow)
    → Other e i g j
    → op_of e i o ≡ true
    → op_of g j o ≡ false
op_of_elsewhere e i g j o (inl ne) h = ground (arith, entity_code-injective e g)
op_of_elsewhere e i g j o (inr ne) h = ground (arith, eq_iff o.entity_id i, eq_iff o.entity_id j)
