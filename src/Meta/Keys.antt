-- ===== src/Meta/Keys.antt =====
-- packages/local-data/src/sync/sync-meta.ts: reading after a write.
use trata.Prelude.{ℕ, ◌≡◌, refl, String, some, List, [], ◌∷◌, arith, str_eq, eq_iff, if◌then◌else◌}
use trata.Schema.{MetaValue, decimal}
use trata.Db.{Db}
use trata.Meta.{
  lookup_meta, upsert_meta, get_meta_value, set_meta_value, get_pull_cursor, set_pull_cursor,
  pull_cursor_key,
}

lookup-upsert :
    (k j : String) (v : MetaValue) (m : List (String × MetaValue))
    → lookup_meta j (upsert_meta k v m) ≡ (if str_eq k j then some v else lookup_meta j m)
unfolding lookup_meta upsert_meta
lookup-upsert k j v [] = refl
lookup-upsert k j v ((i, held) ∷ m) =
    ground (arith, lookup-upsert k j v m, eq_iff i j, eq_iff i k, eq_iff k j)

pub get-set_meta :
    (k j : String) (v : MetaValue) (db : Db)
    → get_meta_value (set_meta_value k v db) j
      ≡ (if str_eq k j then some v else get_meta_value db j)
unfolding get_meta_value set_meta_value
get-set_meta k j v db = lookup-upsert k j v db.meta

pub get-set_cursor : (n : ℕ) (db : Db) → get_pull_cursor (set_pull_cursor n db) ≡ n
unfolding get_pull_cursor set_pull_cursor
get-set_cursor n db = rw (get-set_meta pull_cursor_key pull_cursor_key (decimal n) db)
