-- ===== src/Repositories/Transactions/Reading.antt =====
-- packages/local-data/src/repositories/transaction.ts: `getAll`, `getById`, `query` and `listPage`.
-- A cursor is the decimal text of an offset, which stands here as the number that `parseInt` reads
-- back.
use package.text.Mathlib.Text.{is_lt}
use Prim.Native.String.{◌++◌, compare as compare_text}
use trata.Prelude.{
  ℕ, ◌+◌, String, Bool, true, not, ◌&&◌, ◌||◌, Option, none, some, List, map, select, order_by,
  length, take, drop, or_else, ltb, ◌==◌, str_eq, if◌then◌else◌,
}
use trata.Json.{Json}
use trata.Schema.{transaction, Row}
use trata.Db.{Db, Host, read_entity_row, is_deleted}
use trata.Repositories.Values.{is_id, is_empty, if_live}
use trata.Repositories.Transactions.{to_transaction}

-- `TransactionQuery`, without its limit.
pub record Filters : Type 0 where
  pub type : Option String
  pub account_id : Option String
  pub category_id : Option String
  pub from_date : Option String
  pub to_date : Option String

-- A filter that is left out or falsy passes every row.
abbrev pub when_given : (String → Bool) → Option String → Bool
when_given test none = true
when_given test (some s) = is_empty s || test s

-- `buildFilters`: the texts of the times sort as they are.
unfoldable pub matches_filters : Filters → Row transaction → Bool
matches_filters f r =
    not (is_deleted r)
    && (when_given (λ s. str_eq r.columns.type s) f.type
        && (when_given
              (λ s.
                is_id s r.columns.account_id
                || (is_id s r.columns.from_account_id || is_id s r.columns.to_account_id))
              f.account_id
            && (when_given (λ s. is_id s r.columns.category_id) f.category_id
                && (when_given (λ s. not (is_lt (compare_text r.columns.occurred_at s))) f.from_date
                    && when_given
                        (λ s.
                          not (is_lt (compare_text (s ++ "T23:59:59.999Z") r.columns.occurred_at)))
                        f.to_date))))

-- `orderBy(desc(occurredAt), desc(id))`.
abbrev pub latest_first : Row transaction → Row transaction → Bool
latest_first a b =
    is_lt (compare_text b.columns.occurred_at a.columns.occurred_at)
    || (str_eq a.columns.occurred_at b.columns.occurred_at && is_lt (compare_text b.id a.id))

-- `orderedQuery`.
unfoldable pub ordered_query : Filters → Db → List (Row transaction)
unfolding matches_filters
ordered_query f db = order_by latest_first (select (matches_filters f) db.tables.transactions)

abbrev pub no_filters : Filters
no_filters = record {
  type = none;
  account_id = none;
  category_id = none;
  from_date = none;
  to_date = none;
}

-- `getAll`.
unfoldable pub get_transactions : Host → Db → List Json
unfolding ordered_query
get_transactions h db = map (to_transaction h) (ordered_query no_filters db)

-- `getById`.
unfoldable pub get_transaction_by_id : Host → String → Db → Option Json
get_transaction_by_id h i db = elim (if_live (read_entity_row db transaction i)) [
  | none ↦ none
  | some r ↦ some (to_transaction h r)
]

-- `query`; a limit of 0 is none.
unfoldable pub query_transactions : Host → Filters → Option ℕ → Db → List Json
unfolding ordered_query
query_transactions h f limit db =
    let all = ordered_query f db in
    map (to_transaction h) (if or_else limit 0 == 0 then all else take (or_else limit 0) all)

-- `PAGE_SIZE`.
abbrev pub page_size : ℕ
page_size = 100

pub record Page : Type 0 where
  pub transactions : List (Row transaction)
  pub next_cursor : Option ℕ

-- `listPage` on the filtered, sorted rows.
unfoldable pub page_of : Option ℕ → Option ℕ → List (Row transaction) → Page
page_of limit cursor all =
    let start = or_else cursor 0 in
    let slice = take (or_else limit page_size) (drop start all) in
    let next = start + length slice in
    record { transactions = slice; next_cursor = if ltb next (length all) then some next else none }

-- `listPage`, its rows before `toTransaction`.
unfoldable pub list_page : Filters → Option ℕ → Option ℕ → Db → Page
unfolding page_of ordered_query
list_page f limit cursor db = page_of limit cursor (ordered_query f db)
