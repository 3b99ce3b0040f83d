-- ===== src/Repositories/Values.antt =====
-- packages/local-data/src/repositories: the errors, outcomes, ids and rows that the local
-- repositories share.
use package.text.Mathlib.Text.{is_lt}
use Prim.Native.Char.{code}
use Prim.Native.String.{compare as compare_text}
use trata.Prelude.{
  ℕ, String, Bool, false, not, ◌&&◌, ◌||◌, Option, none, some, List, leb, ltb, ◌==◌, any, first,
  or_else, str_eq, if◌then◌else◌,
}
use trata.Prelude.Int.{ℤ, pos, ltb_ℤ}
use trata.Json.{Json, as_int}
use trata.Schema.{SyncEntity, Row}
use trata.Db.{Db, has_id, is_deleted}

-- The errors that a mutation throws, by their class; `range_error` is what
-- `toISOString` throws at an invalid date, and `constraint_error` what an insertion throws at a
-- primary key that is taken.
pub data Rejection : Type 0 where
  invalid_payload_error already_exists_error not_found_error version_conflict_error : Rejection
  referential_integrity_error unknown_references_error range_error constraint_error : Rejection

-- A mutation that throws leaves the database as it is.
pub data Outcome (A : Type 0) : Type 0 where
  rejected : Rejection → Outcome A
  done : A → Db → Outcome A

-- White space and line terminators, which `trim` removes at both ends.
abbrev is_space_code : ℕ → Bool
is_space_code c =
    (leb 9 c && leb c 13)
    || (c == 32
        || (c == 160
            || (c == 5760
                || ((leb 8192 c && leb c 8202)
                    || (c == 8232
                        || (c == 8233
                            || (c == 8239 || (c == 8287 || (c == 12288 || c == 65279)))))))))

trim_start : String → String
trim_start String.[] = String.[]
trim_start (String.◌∷◌ c s) = if is_space_code (code c) then trim_start s else String.◌∷◌ c s

trim_end : String → String
trim_end String.[] = String.[]
trim_end (String.◌∷◌ c s) =
    let rest = trim_end s in
    if str_eq rest "" && is_space_code (code c) then String.[] else String.◌∷◌ c rest

unfoldable pub trim : String → String
unfolding trim_start trim_end
trim s = trim_end (trim_start s)

abbrev pub is_id : String → Option String → Bool
is_id i none = false
is_id i (some j) = str_eq j i

abbrev pub if_live : {e : SyncEntity} → Option (Row e) → Option (Row e)
if_live none = none
if_live (some r) = if is_deleted r then none else some r

-- `set(next)` on the row with the id: every column but the id, which is the same.
abbrev pub set_row : {e : SyncEntity} → Row e → Row e → Row e
set_row next r = record next { id = r.id }

-- `row.name === name`, live and not excepted: another record has the name.
abbrev pub has_duplicate :
    {e : SyncEntity} → (Row e → String) → List (Row e) → String → Option String → Bool
has_duplicate name_of rows name except =
    any (λ r. not (is_deleted r) && (str_eq (name_of r) name && not (is_id r.id except))) rows

-- `order by createdAt, id`; the rows have a creation time.
abbrev pub older_first : {e : SyncEntity} → Row e → Row e → Bool
older_first a b =
    ltb (or_else a.created_at 0) (or_else b.created_at 0)
    || (or_else a.created_at 0 == or_else b.created_at 0 && is_lt (compare_text a.id b.id))

-- `!text`: an empty text is falsy.
abbrev pub is_empty : String → Bool
is_empty s = str_eq s ""

-- `!Number.isSafeInteger(amount) || amount < 1`, of an amount that the caller gives.
unfoldable pub positive_amount : Json → Option ℤ
positive_amount v = elim (as_int (some v)) [
  | none ↦ none
  | some n ↦ if ltb_ℤ n (pos 1) then none else some n
]

-- A live row by its id, `where(and(eq(id, ...), isNull(deletedAt)))`.
unfoldable pub find_live : {e : SyncEntity} → String → List (Row e) → Option (Row e)
find_live i = first (λ r. has_id i r && not (is_deleted r))

-- An amount that may be left out: `none` is a bad one.
unfoldable pub optional_amount : Option Json → Option (Option ℤ)
optional_amount none = some none
optional_amount (some v) = elim (positive_amount v) [ none ↦ none | some n ↦ some (some n) ]
