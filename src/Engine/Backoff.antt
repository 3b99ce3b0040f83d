-- ===== src/Engine/Backoff.antt =====
-- packages/local-data/src/sync/sync-engine.ts, `backoffDelayMs`.
use trata.Prelude.{ℕ, zero, suc, ◌-◌, ◌*◌, ◌^◌, ◌≤◌, ◌≡◌, min, arith}
use trata.Engine.{backoff_delay_ms, backoff_cap_ms}
use native.Mathlib.Nat.{pow-suc}

doubles : (n : ℕ) → 2 ^ suc n ≡ 2 ^ n * 2
doubles n = pow-suc 2 n

one-le-pow : (n : ℕ) → 1 ≤ 2 ^ n
one-le-pow zero = omega arith
one-le-pow (suc n) = omega (arith, one-le-pow n, doubles n)

-- Every delay lies between five seconds and fifteen minutes.
delay_bounds : (n : ℕ) → (5000 ≤ backoff_delay_ms n) × (backoff_delay_ms n ≤ 900000)
unfolding backoff_delay_ms
delay_bounds n = omega (arith, one-le-pow (n - 1))

-- From the first attempt on a delay never shrinks, and each is twice the one before it, up to the cap.
delay_growth :
    (n : ℕ)
    → (backoff_delay_ms (suc n) ≤ backoff_delay_ms (suc (suc n)))
      × (backoff_delay_ms (suc (suc n)) ≡ min (2 * backoff_delay_ms (suc n)) backoff_cap_ms)
unfolding backoff_delay_ms
delay_growth n =
    let e : suc (suc n) - 1 ≡ suc n = omega arith in
    let e' : suc n - 1 ≡ n = omega arith in
    rw (e, e') (omega (arith, doubles n), omega (arith, doubles n))

-- Every delay lies between five seconds and fifteen minutes; from the first attempt on a delay
-- never shrinks, and each is twice the one before it, up to the cap.
pub backoff_delay_ms_lem :
    (n : ℕ)
    → ((5000 ≤ backoff_delay_ms n) × (backoff_delay_ms n ≤ 900000))
      × (backoff_delay_ms (suc n) ≤ backoff_delay_ms (suc (suc n)))
      × (backoff_delay_ms (suc (suc n)) ≡ min (2 * backoff_delay_ms (suc n)) backoff_cap_ms)
backoff_delay_ms_lem n = (delay_bounds n, (delay_growth n).0, (delay_growth n).1)
