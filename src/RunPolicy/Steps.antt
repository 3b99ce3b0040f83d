-- ===== src/RunPolicy/Steps.antt =====
-- run-policy.ts as a step relation: the app's notifications, the timer, the check and the waiters in
-- any order.
use trata.Prelude.{◌≡◌, Bool, true, some, ℕ, List, ◌∷◌}
use trata.RunPolicy.{
  Policy, Waiter, go_on, timer_fires, notify_auth_change, run_now, notify_session_boundary,
  notify_local_mutation, settle_check, dispose,
}

module _ (has_gate : Bool) where
  pub data Step : Policy → Policy → Type 0 where
    auth_changes : (p : Policy) (b : Bool) → Step p (record p { authenticated = b })
    auth_change_is_notified : (p : Policy) (b : Bool) → Step p (notify_auth_change has_gate b p)
    boundary : (p : Policy) → Step p (notify_session_boundary p)
    mutation : (p : Policy) → Step p (notify_local_mutation p)
    refresh : (p : Policy) (force : Bool) → Step p (run_now has_gate force p)
    timer_ends : (p : Policy) (n : ℕ) → p.timer ≡ some n → Step p (timer_fires has_gate p)
    check_settles : (p : Policy) (b : Bool) → p.check_in_flight ≡ true → Step p (settle_check b p)
    waiter_goes_on :
        (p : Policy) (w : Waiter) (ws : List Waiter)
        → p.released ≡ w ∷ ws
        → Step p (go_on has_gate w (record p { released = ws }))
    disposal : (p : Policy) → Step p (dispose p)

  -- What happens in some order of steps.
  pub data Reach (p : Policy) : Policy → Type 0 where
    here : Reach p p
    next : {q r : Policy} → Reach p q → Step q r → Reach p r
