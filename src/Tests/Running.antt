-- ===== src/Tests/Running.antt =====
-- The run policy, and a restore, at small states.
use trata.Prelude.{◌≡◌, refl, true, false, some, [], ◌∷◌}
use trata.Prelude.Int.{pos}
use trata.Json.{encoded, object, field, none_left, text, num, property, as_string}
use trata.Schema.{SyncConflictRow}
use trata.Db.{Db}
use trata.RunPolicy.{Policy, checked, initial, notify_session_boundary, timer_fires, run_now}
use trata.RunPolicy.Steps.{boundary, timer_ends, here, next}
use trata.RunPolicy.Safety.{IsSound, RunsGated, Reach-RunsGated}
use trata.Conflicts.{parsed_local_state}
use trata.Conflicts.Subject.{conflict_subject}
use trata.Tests.{cash_conflict}
use trata.Tests.Shop.{shop_db}

abbrev foreground : Policy
foreground = notify_session_boundary (initial true)

timer_set : foreground.timer ≡ some 0
unfolding notify_session_boundary
timer_set = refl

Reach-RunsGated_example : IsSound foreground × RunsGated foreground (timer_fires true foreground)
Reach-RunsGated_example =
    Reach-RunsGated true true (next here (boundary (initial true)))
      (timer_ends foreground 0 timer_set)

-- A refresh that waits for the household check.
abbrev waiting_policy : Policy
waiting_policy = record (initial true) {
  check_in_flight = true;
  waiting = checked false ∷ checked true ∷ [];
}

asks_first :
    run_now true false (initial true)
    ≡ record (initial true) { check_in_flight = true; waiting = checked false ∷ [] }
unfolding run_now
asks_first = refl

-- A deleted account whose local state is kept by the conflict.
abbrev lost_cash : SyncConflictRow
lost_cash = record cash_conflict {
  local_state = encoded (
      object (
        field "name" (text "Old cash")
          (field "currency" (text "EUR") (field "openingBalance" (num (pos 5)) none_left))));
}

abbrev lost_db : Db
lost_db = record shop_db { conflicts = lost_cash ∷ [] }

-- The conflict is shown under the name in its local state.
subject_of_lost : conflict_subject lost_cash ≡ "Old cash"
unfolding conflict_subject parsed_local_state as_string property
subject_of_lost = refl
