-- ===== src/RunPolicy/Safety.antt =====
-- run-policy.ts: no step runs the engine without a household that is current, and no waiter is left
-- behind without a check.
use trata.Prelude.{
  ◌≡◌, refl, ◌⊎◌, inl, inr, Bool, true, false, not, ◌||◌, List, [], ◌∷◌, ℕ, arith, if_holds, none,
  ◌+◌,
}
use trata.RunPolicy.{
  post_mutation_debounce_ms, Policy, Waiter, parked, checked, initial, proceed, gated_run, go_on,
  timer_fires, notify_auth_change, run_now, schedule, notify_session_boundary,
  notify_local_mutation, settle_check, dispose,
}
use trata.RunPolicy.Steps.{
  Step, auth_changes, auth_change_is_notified, boundary, mutation, refresh, timer_ends,
  check_settles, waiter_goes_on, disposal, Reach, here, next,
}

-- No run, or one run, and the household is current then.
abbrev pub RunsGated : Policy → Policy → Type 0
RunsGated p q =
    (q.runs ≡ p.runs) ⊎ ((force : Bool) × (q.runs ≡ force ∷ p.runs) × (q.household_current ≡ true))

-- Who waits has a check to wait for.
abbrev pub HasCheck : Bool → List Waiter → Type 0
HasCheck true ws = Unit {0}
HasCheck false ws = ws ≡ []

pub record IsSound (p : Policy) : Type 0 where
  pub rechecks : (p.household_current || p.needs_household_check) ≡ true
  pub waits : HasCheck p.check_in_flight p.waiting

has_check :
    (p : Policy) → p.check_in_flight ≡ true → (ws : List Waiter) → HasCheck p.check_in_flight ws
has_check p checks ws = rw checks tt

module _ (has_gate : Bool) where
  proceed-RunsGated : (r f : Bool) (p : Policy) → RunsGated p (proceed has_gate r f p)
  unfolding proceed
  proceed-RunsGated r f p =
      if_holds (RunsGated p) (not (r || not p.household_current)) _ _
        (λ current. inr (f, refl, ground (arith, current)))
        (λ stale.
          if_holds (RunsGated p) has_gate _ _ (λ gate. inl refl) (λ pass. inr (f, refl, refl)))

  proceed-IsSound : (r f : Bool) (p : Policy) → IsSound p → IsSound (proceed has_gate r f p)
  unfolding proceed
  proceed-IsSound r f p s =
      if_holds IsSound (not (r || not p.household_current)) _ _
        (λ current. record { rechecks = s.rechecks; waits = s.waits })
        (λ stale.
          if_holds IsSound has_gate _ _ (λ gate. record { rechecks = s.rechecks; waits = tt })
            (λ pass. record { rechecks = refl; waits = s.waits }))

  gated_run-RunsGated : (r f : Bool) (p : Policy) → RunsGated p (gated_run has_gate r f p)
  unfolding gated_run
  gated_run-RunsGated r f p =
      if_holds (RunsGated p) (p.disposed || not p.authenticated) _ _ (λ skipped. inl refl)
        (λ starts.
          if_holds (RunsGated p) p.check_in_flight _ _ (λ checks. inl refl)
            (λ free. proceed-RunsGated r f p))

  gated_run-IsSound : (r f : Bool) (p : Policy) → IsSound p → IsSound (gated_run has_gate r f p)
  unfolding gated_run
  gated_run-IsSound r f p s =
      if_holds IsSound (p.disposed || not p.authenticated) _ _ (λ skipped. s)
        (λ starts.
          if_holds IsSound p.check_in_flight _ _
            (λ checks. record { rechecks = s.rechecks; waits = has_check p checks _ })
            (λ free. proceed-IsSound r f p s))

  go_on-RunsGated : (w : Waiter) (p : Policy) → RunsGated p (go_on has_gate w p)
  unfolding go_on
  go_on-RunsGated (parked r f) p = proceed-RunsGated r f p
  go_on-RunsGated (checked f) p =
      if_holds (RunsGated p) p.household_current _ _ (λ current. inr (f, refl, current))
        (λ stale. inl refl)

  go_on-IsSound : (w : Waiter) (p : Policy) → IsSound p → IsSound (go_on has_gate w p)
  unfolding go_on
  go_on-IsSound (parked r f) p s = proceed-IsSound r f p s
  go_on-IsSound (checked f) p s =
      if_holds IsSound p.household_current _ _
        (λ current. record { rechecks = s.rechecks; waits = s.waits }) (λ stale. s)

  auth-RunsGated : (b : Bool) (p : Policy) → RunsGated p (notify_auth_change has_gate b p)
  unfolding notify_auth_change
  auth-RunsGated true p = gated_run-RunsGated true false (record p { resumes = p.resumes + 1 })
  auth-RunsGated false p = inl refl

  auth-IsSound : (b : Bool) (p : Policy) → IsSound p → IsSound (notify_auth_change has_gate b p)
  unfolding notify_auth_change
  auth-IsSound true p s =
      gated_run-IsSound true false (record p { resumes = p.resumes + 1 })
        (record { rechecks = s.rechecks; waits = s.waits })
  auth-IsSound false p s = record { rechecks = refl; waits = s.waits }

  schedule-RunsGated : (n : ℕ) (r : Bool) (p : Policy) → RunsGated p (schedule n r p)
  unfolding schedule
  schedule-RunsGated n true p =
      if_holds (RunsGated p) (not p.authenticated) _ _ (λ out. inl refl) (λ signed. inl refl)
  schedule-RunsGated n false p =
      if_holds (RunsGated p) (not p.authenticated) _ _ (λ out. inl refl) (λ signed. inl refl)

  schedule-IsSound : (n : ℕ) (r : Bool) (p : Policy) → IsSound p → IsSound (schedule n r p)
  unfolding schedule
  schedule-IsSound n true p s =
      let marked : (p.household_current || true) ≡ true = ground arith in
      if_holds IsSound (not p.authenticated) _ _
        (λ out. record { rechecks = marked; waits = s.waits })
        (λ signed. record { rechecks = marked; waits = s.waits })
  schedule-IsSound n false p s =
      if_holds IsSound (not p.authenticated) _ _ (λ out. s)
        (λ signed. record { rechecks = s.rechecks; waits = s.waits })

  -- A step runs the engine once at most, and only while the household is current.
  pub Step-RunsGated : {p q : Policy} → Step has_gate p q → RunsGated p q
  unfolding run_now timer_fires notify_session_boundary notify_local_mutation settle_check dispose
  Step-RunsGated (auth_changes p b) = inl refl
  Step-RunsGated (auth_change_is_notified p b) = auth-RunsGated b p
  Step-RunsGated (boundary p) = schedule-RunsGated 0 true p
  Step-RunsGated (mutation p) = schedule-RunsGated post_mutation_debounce_ms false p
  Step-RunsGated (refresh p f) = gated_run-RunsGated false f p
  Step-RunsGated (timer_ends p n set) =
      gated_run-RunsGated p.needs_household_check false (record p { timer = none })
  Step-RunsGated (check_settles p b checks) = inl refl
  Step-RunsGated (waiter_goes_on p w ws waits) = go_on-RunsGated w (record p { released = ws })
  Step-RunsGated (disposal p) = inl refl

  Step-IsSound : {p q : Policy} → Step has_gate p q → IsSound p → IsSound q
  unfolding run_now timer_fires notify_session_boundary notify_local_mutation settle_check dispose
  Step-IsSound (auth_changes p b) s = record { rechecks = s.rechecks; waits = s.waits }
  Step-IsSound (auth_change_is_notified p b) s = auth-IsSound b p s
  Step-IsSound (boundary p) s = schedule-IsSound 0 true p s
  Step-IsSound (mutation p) s = schedule-IsSound post_mutation_debounce_ms false p s
  Step-IsSound (refresh p f) s = gated_run-IsSound false f p s
  Step-IsSound (timer_ends p n set) s =
      gated_run-IsSound p.needs_household_check false (record p { timer = none })
        (record { rechecks = s.rechecks; waits = s.waits })
  Step-IsSound (check_settles p b checks) s = record { rechecks = either b; waits = refl }
    where
      either : (b : Bool) → (b || not b) ≡ true
      either true = refl
      either false = refl
  Step-IsSound (waiter_goes_on p w ws waits) s =
      go_on-IsSound w (record p { released = ws })
        (record { rechecks = s.rechecks; waits = s.waits })
  Step-IsSound (disposal p) s = record { rechecks = s.rechecks; waits = s.waits }

  Reach-IsSound : {p q : Policy} → IsSound p → Reach has_gate p q → IsSound q
  Reach-IsSound s here = s
  Reach-IsSound s (next r st) = Step-IsSound st (Reach-IsSound s r)

  -- From the start, whatever the app notifies, the timer and the checks do and in what order the
  -- waiters go on: a household that is not current is checked before the next scheduled run, who
  -- waits has a check to wait for, and each further step runs the engine once at most and only
  -- while the household is current.
  pub Reach-RunsGated :
      {q r : Policy} (authenticated : Bool)
      → Reach has_gate (initial authenticated) q
      → Step has_gate q r
      → IsSound q × RunsGated q r
  Reach-RunsGated authenticated reach step =
      (Reach-IsSound (record { rechecks = refl; waits = refl }) reach, Step-RunsGated step)
