-- ===== src/Catalog/RoundTrip.antt =====
-- packages/local-data/src/sync/sync-data.ts: from one device's row over the wire to another's.
use trata.Prelude.{
  ◌≡◌, ◌≢◌, refl, ◌⊎◌, inl, inr, String, List, Option, none, some, arith, str_eq, ◌>>=◌,
  if◌then◌else◌,
}
use trata.Prelude.Int.{ℤ}
use trata.Json.{Fields, num, text, property, as_string, as_int, as_calendar_day, one_of, required}
use trata.Schema.{
  SyncEntity, account, category, transaction, debtor, debt_operation, planned_payment, Columns, Row,
}
use trata.Catalog.Readers.{
  direction_values, debt_kind_values, planned_type_values, regularity_values, confirm_mode_values,
  reminder_values, at_least_one, nonzero,
}
use trata.Catalog.Payload.{row_to_payload}
use trata.Catalog.Wire.{object_to_sync_data, payload_to_sync_data}
use trata.Catalog.Patch.{sync_data_to_row_patch}

-- The columns of a row as the wire carries them: a category loses its local slug and an empty
-- archive mark, and a transaction the references that its type does not have.
abbrev pub wire_columns : (e : SyncEntity) → Columns e → Columns e
wire_columns category c = record c { archived_at = required c.archived_at; slug = none }
wire_columns transaction c =
    if str_eq c.type "transfer"
    then record c { account_id = none; category_id = none }
    else if str_eq c.type "adjustment"
    then record c {
      category_id = none;
      from_account_id = none;
      to_account_id = none;
      destination_amount = none;
    }
    else record c { from_account_id = none; to_account_id = none; destination_amount = none }
wire_columns _ c = c

account_trip :
    (r : Row account) (d : Fields)
    → payload_to_sync_data account (row_to_payload account r) ≡ some d
    → sync_data_to_row_patch account d ≡ some (wire_columns account r.columns)
unfolding payload_to_sync_data row_to_payload object_to_sync_data sync_data_to_row_patch property
    as_string as_int one_of
account_trip r d h = ground arith

category_trip :
    (r : Row category) (d : Fields)
    → payload_to_sync_data category (row_to_payload category r) ≡ some d
    → sync_data_to_row_patch category d ≡ some (wire_columns category r.columns)
unfolding payload_to_sync_data row_to_payload object_to_sync_data sync_data_to_row_patch property
    as_string as_int one_of required
category_trip r d h = ground arith

debtor_trip :
    (r : Row debtor) (d : Fields)
    → payload_to_sync_data debtor (row_to_payload debtor r) ≡ some d
    → sync_data_to_row_patch debtor d ≡ some (wire_columns debtor r.columns)
unfolding payload_to_sync_data row_to_payload object_to_sync_data sync_data_to_row_patch property
    as_string as_int one_of
debtor_trip r d h = ground arith

-- A reader of a known value gives that value or refuses.
abbrev Guarded : {A : Type 0} → Option A → A → Type 0
Guarded o a = (o ≡ none) ⊎ (o ≡ some a)

one_of-Guarded : (vs : List String) (s : String) → Guarded (one_of vs (some s)) s
unfolding one_of
one_of-Guarded vs s = ground arith

required-Guarded : (s : String) → Guarded (required (some s)) s
unfolding required
required-Guarded s = ground arith

amount-Guarded : (z : ℤ) → Guarded (at_least_one (as_int (some (num z)))) z
unfolding as_int
amount-Guarded z = ground arith

delta-Guarded : (z : ℤ) → Guarded (nonzero (as_int (some (num z)))) z
unfolding as_int
delta-Guarded z = ground arith

day-Guarded : (s : String) → Guarded (required (as_calendar_day (some (text s)))) s
unfolding required as_calendar_day
day-Guarded s = ground arith

-- A refused field refuses the whole payload; otherwise the rest of the chain is left to compare.
through :
    {A B C : Type 0} (o : Option A) (a : A) (f : A → Option B) (g k : B → Option C)
    → Guarded o a
    → (o ≡ some a → (f a >>= g) ≡ (f a >>= k))
    → ((o >>= f) >>= g) ≡ ((o >>= f) >>= k)
through none a f g k _ _ = refl
through (some b) a f g k (inl e) _ = cc
through (some b) a f g k (inr e) h = let e' : b ≡ a = cc in rw e' (h e)

debt_operation_chain :
    (r : Row debt_operation)
    → (payload_to_sync_data debt_operation (row_to_payload debt_operation r)
        >>= sync_data_to_row_patch debt_operation)
      ≡ (payload_to_sync_data debt_operation (row_to_payload debt_operation r) >>= λ _.
          some r.columns)
unfolding payload_to_sync_data row_to_payload object_to_sync_data property as_string
debt_operation_chain r = through _ _ _ _ k (required-Guarded r.columns.debtor_id) λ h1.
    through _ _ _ _ k (one_of-Guarded direction_values r.columns.direction) λ h2.
      through _ _ _ _ k (one_of-Guarded debt_kind_values r.columns.kind) λ h3.
        through _ _ _ _ k (amount-Guarded r.columns.amount) λ h4.
          elim (required-Guarded r.columns.occurred_at) [
            | inl refused ↦ simp refused
            | inr h5 ↦ unfold sync_data_to_row_patch property as_string in simp (h1, h2, h3, h4, h5)
          ]
  where
    k : Fields → Option (Columns debt_operation)
    k _ = some r.columns

planned_payment_chain :
    (r : Row planned_payment)
    → (payload_to_sync_data planned_payment (row_to_payload planned_payment r)
        >>= sync_data_to_row_patch planned_payment)
      ≡ (payload_to_sync_data planned_payment (row_to_payload planned_payment r) >>= λ _.
          some r.columns)
unfolding payload_to_sync_data row_to_payload object_to_sync_data property as_string
planned_payment_chain r =
    through _ _ _ _ k (one_of-Guarded planned_type_values r.columns.type) λ h1.
      through _ _ _ _ k (amount-Guarded r.columns.amount) λ h2.
        through _ _ _ _ k (required-Guarded r.columns.account_id) λ h3.
          through _ _ _ _ k (required-Guarded r.columns.category_id) λ h4.
            through _ _ _ _ k (day-Guarded r.columns.next_due) λ h5.
              through _ _ _ _ k (day-Guarded r.columns.anchor_date) λ h6.
                through _ _ _ _ k (one_of-Guarded regularity_values r.columns.regularity) λ h7.
                  through _ _ _ _ k (one_of-Guarded confirm_mode_values r.columns.confirm_mode)
                    λ h8. elim (one_of-Guarded reminder_values r.columns.reminder) [
                      | inl refused ↦ simp refused
                      | inr h9 ↦
                          unfold sync_data_to_row_patch property as_string in
                          simp (h1, h2, h3, h4, h5, h6, h7, h8, h9)
                    ]
  where
    k : Fields → Option (Columns planned_payment)
    k _ = some r.columns

chained :
    {A B : Type 0} (o : Option A) (f : A → Option B) (b : B) (a : A)
    → (o >>= f) ≡ (o >>= λ _. some b)
    → o ≡ some a
    → f a ≡ some b
chained none f b a same is = cc is
chained (some x) f b a same is = let e : x ≡ a = cc in rw (← e) same

-- Wire data that a device sends of a row, of any kind but a transaction, another device's pull
-- reads as the row's own columns, but for the local slug and an empty archive mark of a category.
pub sync_data_to_row_patch_lem :
    (e : SyncEntity) (r : Row e) (d : Fields)
    → e ≢ transaction
    → payload_to_sync_data e (row_to_payload e r) ≡ some d
    → sync_data_to_row_patch e d ≡ some (wire_columns e r.columns)
sync_data_to_row_patch_lem account r d n h = account_trip r d h
sync_data_to_row_patch_lem category r d n h = category_trip r d h
sync_data_to_row_patch_lem transaction r d n h = absurd (n refl)
sync_data_to_row_patch_lem debtor r d n h = debtor_trip r d h
sync_data_to_row_patch_lem debt_operation r d n h =
    chained (payload_to_sync_data debt_operation (row_to_payload debt_operation r))
      (sync_data_to_row_patch debt_operation) r.columns d (debt_operation_chain r) h
sync_data_to_row_patch_lem planned_payment r d n h =
    chained (payload_to_sync_data planned_payment (row_to_payload planned_payment r))
      (sync_data_to_row_patch planned_payment) r.columns d (planned_payment_chain r) h
