-- ===== src/Meta.antt =====
-- packages/local-data/src/sync/sync-meta.ts: the key/value metadata, the pull cursor and the wipe.
-- `device_id` and the offline gate's key are other texts, which the wipe leaves alone.
pub mod Keys
use trata.Prelude.{
  ℕ, String, Bool, true, false, not, ◌||◌, Option, none, some, List, [], ◌∷◌, str_eq, delete,
  if◌then◌else◌,
}
use trata.Schema.{MetaValue, words, decimal, Tables}
use trata.Db.{Db}

abbrev pub owner_user_id_key : String
owner_user_id_key = "owner_user_id"

abbrev pub pull_cursor_key : String
pull_cursor_key = "pull_cursor"

abbrev pub last_household_key : String
last_household_key = "last_household"

abbrev pub last_synced_at_key : String
last_synced_at_key = "last_synced_at"

unfoldable pub lookup_meta : String → List (String × MetaValue) → Option MetaValue
lookup_meta k [] = none
lookup_meta k ((j, v) ∷ m) = if str_eq j k then some v else lookup_meta k m

-- `insert ... onConflictDoUpdate` on the primary key.
unfoldable pub upsert_meta :
    String → MetaValue → List (String × MetaValue) → List (String × MetaValue)
upsert_meta k v [] = (k, v) ∷ []
upsert_meta k v ((j, w) ∷ m) = if str_eq j k then (j, v) ∷ m else (j, w) ∷ upsert_meta k v m

unfoldable pub get_meta_value : Db → String → Option MetaValue
unfolding lookup_meta
get_meta_value db k = lookup_meta k db.meta

unfoldable pub set_meta_value : String → MetaValue → Db → Db
unfolding upsert_meta
set_meta_value k v db = record db { meta = upsert_meta k v db.meta }

-- A value read as a text. The keys that hold numbers are never read so.
abbrev pub as_words : Option MetaValue → Option String
as_words (some (words s)) = some s
as_words _ = none

unfoldable pub get_owner_user_id : Db → Option String
get_owner_user_id db = as_words (get_meta_value db owner_user_id_key)

unfoldable pub set_owner_user_id : String → Db → Db
set_owner_user_id u = set_meta_value owner_user_id_key (words u)

-- A missing cursor, and one that `parseInt` cannot read, count as 0.
abbrev pub as_cursor : Option MetaValue → ℕ
as_cursor (some (decimal n)) = n
as_cursor _ = 0

unfoldable pub get_pull_cursor : Db → ℕ
get_pull_cursor db = as_cursor (get_meta_value db pull_cursor_key)

unfoldable pub set_pull_cursor : ℕ → Db → Db
set_pull_cursor n = set_meta_value pull_cursor_key (decimal n)

unfoldable pub get_last_household : Db → Option String
get_last_household db = as_words (get_meta_value db last_household_key)

unfoldable pub set_last_household : String → Db → Db
set_last_household i = set_meta_value last_household_key (words i)

unfoldable pub household_needs_rebase : Db → String → Bool
unfolding get_last_household
household_needs_rebase db current = elim (get_last_household db) [
  | none ↦ false
  | some last ↦ not (str_eq last current)
]

abbrev pub is_wiped_key : String → Bool
is_wiped_key k =
    str_eq k owner_user_id_key
    || (str_eq k pull_cursor_key || (str_eq k last_synced_at_key || str_eq k last_household_key))

abbrev pub no_tables : Tables
no_tables = record {
  accounts = [];
  categories = [];
  transactions = [];
  debtors = [];
  debt_operations = [];
  planned_payments = [];
}

-- `wipeLocalDataInTx` and `wipeLocalData`.
unfoldable pub wipe_local_data : Db → Db
wipe_local_data db = record db {
  tables = no_tables;
  outbox = [];
  conflicts = [];
  meta = delete (λ m. is_wiped_key m.0) db.meta;
}
