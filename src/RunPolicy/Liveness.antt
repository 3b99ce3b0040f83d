-- ===== src/RunPolicy/Liveness.antt =====
-- run-policy.ts: every call that waits for the household check runs the engine once checks resolve.
use trata.Prelude.{◌≡◌, ◌⊎◌, Bool, true, false, List, [], ◌∷◌, ℕ, ◌+◌, All, length}
use trata.RunPolicy.{Policy, Waiter, parked, checked, go_on, settle_check}

-- From one state to another by checks that resolve and released calls that go on, in any order and
-- with no notification between.
pub data Undisturbed (p : Policy) : Policy → Type 0 where
  still : Undisturbed p p
  resolves :
      {q : Policy}
      → Undisturbed p q
      → q.check_in_flight ≡ true
      → Undisturbed p (settle_check true q)
  goes_on :
      {q : Policy} (w : Waiter) (ws : List Waiter)
      → Undisturbed p q
      → q.released ≡ w ∷ ws
      → Undisturbed p (go_on true w (record q { released = ws }))

-- Behind the check that it asked for.
abbrev is_checked : Waiter → Bool
is_checked (checked _) = true
is_checked (parked _ _) = false

abbrev AreChecked : List Waiter → Type 0
AreChecked = All (λ w. is_checked w ≡ true)

-- Waiters that go on while the household is current ask for a check, or run the engine.
record IsDraining (p : Policy) : Type 0 where
  current : p.household_current ≡ true
  asked : AreChecked p.waiting
  checks : (p.waiting ≡ []) ⊎ (p.check_in_flight ≡ true)

-- One waiter: how the calls and the waiters change.
record GoesOn (p q : Policy) : Type 0 where
  draining : IsDraining q
  left : q.released ≡ p.released
  counts : length q.runs + length q.waiting ≡ length p.runs + length p.waiting + 1

-- All released waiters, one after the other.
record IsDrained (p : Policy) (n : ℕ) (q : Policy) : Type 0 where
  reached : Undisturbed p q
  draining : IsDraining q
  left : q.released ≡ []
  counts : length q.runs + length q.waiting ≡ length p.runs + length p.waiting + n

-- After the first check has resolved: nobody is lost, and nobody stops for a stale household.
record IsUnderWay (p q : Policy) : Type 0 where
  draining : IsDraining q
  kept :
      length q.runs + length q.waiting + length q.released
      ≡ length p.runs + length p.waiting + length p.released
