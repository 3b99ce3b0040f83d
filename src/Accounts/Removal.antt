-- ===== src/Accounts/Removal.antt =====
-- packages/local-data/src/repositories/account.ts: what `remove` leaves.
use trata.Prelude.{
  any, select, is_some, str_eq, not, ◌&&◌, ◌≡◌, String, Bool, true, false, ◌||◌, none, some, [],
}
use trata.Schema.{account, transaction, planned_payment, Row}
use trata.Db.{Db, read_entity_row}
use trata.Repositories.Values.{
  not_found_error, referential_integrity_error, Outcome, rejected, done, if_live, is_id,
}
use trata.Repositories.Actions.{is_unborn}
use trata.Repositories.Queued.{IsRemoved}

-- A live transaction that is no adjustment names the account, on either side.
abbrev pub names_account : String → Row transaction → Bool
names_account i t =
    not (is_some t.deleted_at)
    && (not (str_eq t.columns.type "adjustment")
        && (is_id i t.columns.account_id
            || (is_id i t.columns.from_account_id || is_id i t.columns.to_account_id)))

-- A live plan pays from the account.
abbrev pub pays_from : String → Row planned_payment → Bool
pays_from i p = str_eq p.columns.account_id i && not (is_some p.deleted_at)

abbrev pub is_in_use : Db → String → Bool
is_in_use db i =
    any (names_account i) db.tables.transactions || any (pays_from i) db.tables.planned_payments

-- A live adjustment of the account.
abbrev pub adjusts : String → Row transaction → Bool
adjusts i t =
    is_id i t.columns.account_id
    && (str_eq t.columns.type "adjustment" && not (is_some t.deleted_at))

-- What `remove` answers.
abbrev pub RemoveAnswer : String → Db → Outcome Unit → Type 0
RemoveAnswer i db (rejected not_found_error) = if_live (read_entity_row db account i) ≡ none
RemoveAnswer i db (rejected referential_integrity_error) = is_in_use db i ≡ true
RemoveAnswer i db (rejected _) = ⊥
RemoveAnswer i db (done _ after) =
    (r : Row account) × (if_live (read_entity_row db account i) ≡ some r)
    × (is_in_use db i ≡ false)
    × IsRemoved account after i r (is_unborn account i r.server_version db)
    × (select (adjusts i) after.tables.transactions ≡ [])
