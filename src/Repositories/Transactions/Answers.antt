-- ===== src/Repositories/Transactions/Answers.antt =====
-- packages/local-data/src/repositories/transaction.ts: what the repository of transactions answers.
use trata.Prelude.{
  ◌≡◌, refl, sym, ◌∙◌, ap, ◌⊎◌, inl, inr, String, none, some, Option-cases, or_else,
}
use trata.Schema.{transaction, Row}
use trata.Db.{Db, Host, read_entity_row}
use trata.Frame.Settled.{IsSettled}
use trata.Repositories.Values.{
  Rejection, invalid_payload_error, already_exists_error, Outcome, rejected, done,
}
use trata.Repositories.Actions.{after_id, counted, insert_row}
use trata.Repositories.Queued.{IsQueued, queued-IsSettled, read-after_id, insert-IsQueued}
use trata.Repositories.Transactions.{
  to_transaction, CreateTransactionPayload, Checked, check_transaction, new_transaction,
  settle_references, create_transaction_row, create_transaction,
}
use trata.Repositories.Transactions.References.{IsReferred, settle_references-IsReferred}
use mathlib.Core.Path.{subst}

pub sum_cases : {A B : Type 0} (x : A ⊎ B) → ((a : A) × (x ≡ inl a)) ⊎ ((b : B) × (x ≡ inr b))
sum_cases (inl a) = inl (a, refl)
sum_cases (inr b) = inr (b, refl)

abbrev pub transaction_id : Host → CreateTransactionPayload → Db → String
transaction_id h p db = or_else p.id (h.generate_id db.calls)

-- The database when `create` validates.
abbrev pub begun : CreateTransactionPayload → Db → Db
begun p db = after_id p.id db

abbrev pub create_references :
    Host → CreateTransactionPayload → Checked → Db → Rejection ⊎ Row transaction
create_references h p c db =
    settle_references (begun p db) none p.destination_amount none
      (new_transaction h (transaction_id h p db) p c (begun p db))

-- What `create` answers.
abbrev pub CreateTransactionAnswer :
    Host → CreateTransactionPayload → Db → Outcome (Row transaction) → Type 0
CreateTransactionAnswer h p db (rejected why) =
    ((why ≡ invalid_payload_error) × (check_transaction h p ≡ none))
    ⊎ (((why ≡ already_exists_error)
          × ((r : Row transaction) × (read_entity_row db transaction (transaction_id h p db)
                ≡ some r)))
        ⊎ ((c : Checked) × (check_transaction h p ≡ some c)
            × (create_references h p c db ≡ inl why)))
CreateTransactionAnswer h p db (done row after) =
    (c : Checked) × (check_transaction h p ≡ some c)
    × (read_entity_row db transaction (transaction_id h p db) ≡ none)
    × IsReferred (begun p db) none (new_transaction h (transaction_id h p db) p c (begun p db)) row
    × IsQueued transaction db (transaction_id h p db) row after
    × IsSettled after

create_transaction_row-CreateTransactionAnswer :
    (h : Host) (p : CreateTransactionPayload) (c : Checked) (db : Db)
    → IsSettled db
    → check_transaction h p ≡ some c
    → CreateTransactionAnswer h p db
        (create_transaction_row h (transaction_id h p db) p c (begun p db))
unfolding create_transaction_row
create_transaction_row-CreateTransactionAnswer h p c db s good =
    let i = transaction_id h p db in
    elim (Option-cases (read_entity_row (begun p db) transaction i)) [
      | inr (r, taken) ↦
          rw (taken, create_transaction_row)
            (inr (inl (refl, (r, sym (read-after_id transaction p.id db i) ∙ taken))))
      | inl free ↦
          let fresh = sym (read-after_id transaction p.id db i) ∙ free in
          elim (sum_cases (create_references h p c db)) [
            | inl (why, bad) ↦ rw (free, create_transaction_row) (rw bad (inr (inr (c, good, bad))))
            | inr (row, fits) ↦
                let r =
                  settle_references-IsReferred (begun p db) none p.destination_amount none
                    (new_transaction h i p c (begun p db)) row fits in
                let own : row.id ≡ i = ap (λ (t : Row transaction). t.id) r.same in
                let stored =
                  insert-IsQueued transaction h p.id row (to_transaction h row) db
                    (ap (read_entity_row db transaction) own ∙ fresh) in
                let queued =
                  subst
                    (λ k.
                      IsQueued transaction db k row (
                        insert_row h transaction row (to_transaction h row) (counted (begun p db))))
                    own stored in
                rw (free, create_transaction_row)
                  (rw fits (c, good, fresh, r, queued, queued-IsSettled transaction i row queued s))
          ]
    ]

pub create_transaction_lem :
    (h : Host) (p : CreateTransactionPayload) (db : Db)
    → IsSettled db
    → CreateTransactionAnswer h p db (create_transaction h p db)
unfolding create_transaction
create_transaction_lem h p db s = elim (Option-cases (check_transaction h p)) [
  | inl bad ↦ rw (bad, create_transaction) (inl (refl, bad))
  | inr (c, good) ↦
      rw (good, create_transaction) (create_transaction_row-CreateTransactionAnswer h p c db s good)
]
