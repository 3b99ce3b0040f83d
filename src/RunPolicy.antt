-- ===== src/RunPolicy.antt =====
-- packages/local-data/src/sync/run-policy.ts: when the engine runs. The closure's variables are the
-- record Policy, with the app's auth state, the calls that wait for a household check, and the calls
-- of the engine, latest first. A check is a promise of the app: it settles by a step of its own, and
-- the calls that waited for it then go on one by one.
pub mod Steps
pub mod Safety
pub mod Liveness
use trata.Prelude.{
  ℕ, suc, ◌+◌, String, Bool, true, false, not, ◌||◌, Option, none, some, List, [], ◌∷◌, ◌++◌,
  if◌then◌else◌,
}

-- A call of `gatedRun` behind an await: parked behind an open check (with its `recheck`), or behind
-- the check that it asked for.
pub data Waiter : Type 0 where
  parked : Bool → Bool → Waiter
  checked : Bool → Waiter

-- `timer` is the delay of the debounce timer; `released` are the waiters whose check has settled.
pub record Policy : Type 0 where
  pub disposed : Bool
  pub timer : Option ℕ
  pub needs_household_check : Bool
  pub household_current : Bool
  pub check_in_flight : Bool
  pub waiting : List Waiter
  pub released : List Waiter
  pub authenticated : Bool
  pub runs : List Bool
  pub resumes : ℕ

-- `createSyncRunPolicy`.
abbrev pub initial : Bool → Policy
initial authenticated = record {
  disposed = false;
  timer = none;
  needs_household_check = true;
  household_current = false;
  check_in_flight = false;
  waiting = [];
  released = [];
  authenticated = authenticated;
  runs = [];
  resumes = 0;
}

-- `POST_MUTATION_DEBOUNCE_MS`.
abbrev pub post_mutation_debounce_ms : ℕ
post_mutation_debounce_ms = 2500

abbrev local_data_query_key_roots : List (List String)
local_data_query_key_roots =
    ("transactions" ∷ [])
    ∷ ("accounts" ∷ [])
    ∷ ("categories" ∷ [])
    ∷ ("debtors" ∷ [])
    ∷ ("debt-operations" ∷ [])
    ∷ ("planned-payments" ∷ [])
    ∷ []

-- The keys that `onRunComplete` invalidates.
unfoldable pub completed_keys : Bool → List (List String)
completed_keys wrote =
    if wrote then ("sync" ∷ []) ∷ local_data_query_key_roots else ("sync" ∷ []) ∷ []

-- `engine.run({ force })`.
abbrev pub engine_run : Bool → Policy → Policy
engine_run force p = record p { runs = force ∷ p.runs }

-- `runHouseholdCheck` with a gate: an open check is joined.
abbrev pub ask : Bool → Policy → Policy
ask force p = record p { check_in_flight = true; waiting = p.waiting ++ checked force ∷ [] }

module _ (has_gate : Bool) where
  -- `gatedRun` behind its first await; without a gate the check passes at once.
  unfoldable pub proceed : Bool → Bool → Policy → Policy
  proceed recheck force p =
      if not (recheck || not p.household_current)
      then engine_run force p
      else if has_gate
      then ask force p
      else engine_run force (record p { household_current = true; needs_household_check = false })

  -- `gatedRun`.
  unfoldable pub gated_run : Bool → Bool → Policy → Policy
  unfolding proceed
  gated_run recheck force p =
      if p.disposed || not p.authenticated
      then p
      else if p.check_in_flight
      then record p { waiting = p.waiting ++ parked recheck force ∷ [] }
      else proceed recheck force p

  -- A waiter goes on, by the value of `householdCurrent` then.
  unfoldable pub go_on : Waiter → Policy → Policy
  unfolding proceed
  go_on (parked recheck force) p = proceed recheck force p
  go_on (checked force) p = if p.household_current then engine_run force p else p

  -- The timer's callback.
  unfoldable pub timer_fires : Policy → Policy
  unfolding gated_run
  timer_fires p = gated_run p.needs_household_check false (record p { timer = none })

  -- `notifyAuthChange`.
  unfoldable pub notify_auth_change : Bool → Policy → Policy
  unfolding gated_run
  notify_auth_change authenticated p =
      if not authenticated
      then record p { household_current = false; needs_household_check = true }
      else gated_run true false (record p { resumes = p.resumes + 1 })

  -- `runNow`.
  unfoldable pub run_now : Bool → Policy → Policy
  unfolding gated_run
  run_now force p = gated_run false force p

abbrev mark_recheck : Bool → Policy → Policy
mark_recheck recheck p = if recheck then record p { needs_household_check = true } else p

-- `schedule`: a timer that is set is replaced.
unfoldable pub schedule : ℕ → Bool → Policy → Policy
schedule delay recheck p =
    let q = mark_recheck recheck p in
    if not q.authenticated then q else record q { timer = some delay }

-- `notifySessionBoundary`.
unfoldable pub notify_session_boundary : Policy → Policy
unfolding schedule
notify_session_boundary p = schedule 0 true p

-- `notifyLocalMutation`.
unfoldable pub notify_local_mutation : Policy → Policy
unfolding schedule
notify_local_mutation p = schedule post_mutation_debounce_ms false p

-- The household check settles: it resolves, or it rejects.
unfoldable pub settle_check : Bool → Policy → Policy
settle_check resolved p = record p {
  check_in_flight = false;
  household_current = resolved;
  needs_household_check = not resolved;
  waiting = [];
  released = p.released ++ p.waiting;
}

-- `dispose`.
unfoldable pub dispose : Policy → Policy
dispose p = record p { disposed = true; timer = none }
