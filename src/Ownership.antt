-- ===== src/Ownership.antt =====
-- packages/local-data/src/sync/ownership.ts and offline-gate.ts: whose database this is, and the
-- gate that blocks the transport of a development build.
pub mod Gate
use trata.Prelude.{String, Bool, true, false, ◌||◌, Option, none, some, str_eq, if◌then◌else◌}
use trata.Schema.{MetaValue, words}
use trata.Db.{Db}
use trata.Meta.{
  get_owner_user_id, set_owner_user_id, wipe_local_data, get_meta_value, set_meta_value, as_words,
}

pub data OwnershipGateDecision : Type 0 where
  pass : OwnershipGateDecision
  foreign_owner : String → OwnershipGateDecision

-- `ownershipGateDecision`; the empty text is falsy.
unfoldable pub ownership_gate_decision : Option String → String → OwnershipGateDecision
ownership_gate_decision none user = pass
ownership_gate_decision (some owner) user =
    if str_eq owner "" || str_eq owner user then pass else foreign_owner owner

-- `!getOwnerUserId(db)`.
abbrev pub is_unowned : Option String → Bool
is_unowned none = true
is_unowned (some owner) = str_eq owner ""

unfoldable pub adopt_unowned : String → Db → Db
adopt_unowned user db = if is_unowned (get_owner_user_id db) then set_owner_user_id user db else db

unfoldable pub rebind_owner : String → Db → Db
rebind_owner user db = set_owner_user_id user (wipe_local_data db)

abbrev pub offline_gate_key : String
offline_gate_key = "dev_offline_gate"

abbrev pub text_is : String → Option String → Bool
text_is s none = false
text_is s (some t) = str_eq t s

unfoldable pub is_offline_gate_enabled : Db → Bool
is_offline_gate_enabled db = text_is "1" (as_words (get_meta_value db offline_gate_key))

unfoldable pub set_offline_gate : Bool → Db → Db
set_offline_gate enabled = set_meta_value offline_gate_key (words (if enabled then "1" else "0"))
