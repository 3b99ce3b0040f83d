-- ===== src/Engine/Push/Termination.antt =====
-- The loop of `pushPhase` in sync-engine.ts returns, against a server that applies only what it is
-- sent, while the app does not write.
use trata.Prelude.{
  ℕ, zero, suc, ◌+◌, ◌<◌, ◌≤◌, ◌≡◌, refl, ◌∙◌, Bool, true, false, Option, some, List, [], ◌∷◌, any,
  arith, length,
}
use trata.Db.{Db, Host}
use trata.Engine.{
  SyncPushOperation, SyncPushResultItem, Reply, answered, unauthorized, failed, Network, Cycle,
  SelectedOp, Reports,
}
use trata.Engine.Select.{select_push_batch}
use trata.Engine.Push.{
  Applied, settle, push_reply, push_round, push_phase, Round, clean_end, aborted, again, await,
}
use trata.Engine.Push.Outcome.{
  is_applied, wires, selecting, confirmed_some, again_confirmed, RoundEnds, round-RoundEnds,
}
use trata.Engine.Push.Progress.{AppliesSent, select-FromOutbox, settled_shorter}

-- From request `k` on the app does not write while a request is out, and an answer applies only
-- operations of the batch that it answers.
pub record IsFairPush (net : Network) (k : ℕ) : Type 0 where
  pub unwritten : (j : ℕ) (db : Db) → k ≤ j → net.meanwhile j db ≡ db
  pub answers :
      (j : ℕ) (ops : List SyncPushOperation) (rs : List SyncPushResultItem)
      → k ≤ j
      → net.push j ops ≡ answered rs
      → AppliesSent ops rs

-- The loop returns, with any fuel from some on.
pub record PushReturns (h : Host) (net : Network) (force : Bool) (c : Cycle) : Type 0 where
  pub rounds : ℕ
  pub final : Cycle
  pub clean : Bool
  pub returns : (m : ℕ) → rounds ≤ m → push_phase m h net force c ≡ some (final, clean)
  pub later : c.request ≤ final.request
  pub asked : clean ≡ false → c.request + 1 ≤ final.request
  pub reports : Reports c → Reports final
  pub unpaused : clean ≡ true → final.paused ≡ c.paused

module _ (h : Host) (net : Network) (force : Bool) where
  one_round :
      (c : Cycle)
      → ((push_round h net force c).1 ≡ again
          → PushReturns h net force (push_round h net force c).0)
      → PushReturns h net force c
  unfolding push_phase
  one_round c more = by_round (push_round h net force c).1 refl
    where
      ends : RoundEnds c (suc c.request) (push_round h net force c)
      ends = round-RoundEnds h net force c (suc c.request) (λ same. absurd (omega (arith, same)))

      first_round :
          (m : ℕ) (x : Round) (b : Bool)
          → (push_round h net force c).1 ≡ x
          → 1 ≤ m
          → (x ≡ clean_end → push_phase m h net force c ≡ some ((push_round h net force c).0, true))
            × (x ≡ aborted
                → push_phase m h net force c ≡ some ((push_round h net force c).0, false))
      first_round zero x b q one = absurd (omega (arith, one))
      first_round (suc m) x b q one =
          (λ is. rw (q ∙ is, push_phase) refl, λ is. rw (q ∙ is, push_phase) refl)

      next_round :
          (n m : ℕ) (out : Option (Cycle × Bool))
          → (push_round h net force c).1 ≡ again
          → ((m : ℕ) → n ≤ m → push_phase m h net force (push_round h net force c).0 ≡ out)
          → suc n ≤ m
          → push_phase m h net force c ≡ out
      next_round n zero out q rest le = absurd (omega (arith, le))
      next_round n (suc m) out q rest le = rw (q, push_phase) (rest m (omega (arith, le)))

      by_round : (x : Round) → (push_round h net force c).1 ≡ x → PushReturns h net force c
      by_round clean_end q = record {
        rounds = 1;
        final = (push_round h net force c).0;
        clean = true;
        returns = λ m one. (first_round m clean_end true q one).0 refl;
        later = ends.later;
        asked = λ t. cc t;
        reports = ends.reports;
        unpaused = λ t. ends.unpaused (λ s. cc (q, s));
      }
      by_round aborted q = record {
        rounds = 1;
        final = (push_round h net force c).0;
        clean = false;
        returns = λ m one. (first_round m aborted false q one).1 refl;
        later = ends.later;
        asked = λ t. ends.asked (λ s. cc (q, s));
        reports = ends.reports;
        unpaused = λ t. cc t;
      }
      by_round again q =
          let rest = more q in
          record {
            rounds = suc rest.rounds;
            final = rest.final;
            clean = rest.clean;
            returns = λ m le. next_round rest.rounds m _ q rest.returns le;
            later = omega (arith, ends.later, rest.later);
            asked = λ t. omega (arith, ends.later, rest.asked t);
            reports = λ p. rest.reports (ends.reports p);
            unpaused = λ t. rest.unpaused t ∙ ends.unpaused (λ s. cc (q, s));
          }

  module _ (k : ℕ) (fair : IsFairPush net k) where
    -- A round that goes on leaves fewer operations.
    round_shorter :
        (c : Cycle)
        → k ≤ c.request
        → (push_round h net force c).1 ≡ again
        → length (push_round h net force c).0.db.outbox < length c.db.outbox
    unfolding push_round push_reply settle
    round_shorter c late more = by_batch (select_push_batch h force c.db).selected refl
      where
        by_reply :
            (x : SelectedOp) (xs : List SelectedOp) (r : Reply (List SyncPushResultItem))
            → (select_push_batch h force c.db).selected ≡ x ∷ xs
            → net.push c.request (wires (x ∷ xs)) ≡ r
            → (push_reply h (x ∷ xs) r (await net (selecting h force c))).1 ≡ again
            → length (push_reply h (x ∷ xs) r (await net (selecting h force c))).0.db.outbox
              < length c.db.outbox
        by_reply x xs unauthorized batch reply goes = cc goes
        by_reply x xs failed batch reply goes = cc goes
        by_reply x xs (answered rs) batch reply goes =
            let s = select_push_batch h force c.db in
            let d = await net (selecting h force c) in
            let (left, there) = select-FromOutbox h force c.db in
            let a : Applied = record {
              db = d.db;
              confirmations = [];
              conflicts = 0;
              wrote = d.wrote;
            } in
            let confirmed = again_confirmed _ goes in
            let some_left : any is_applied rs ≡ true =
              ground (arith, confirmed_some h (x ∷ xs) rs a, confirmed) in
            settled_shorter h c.db.outbox (x ∷ xs) rs a
              (rw (fair.unwritten c.request s.db late) left) (rw batch at there)
              (fair.answers c.request (wires (x ∷ xs)) rs late reply) some_left

        by_batch :
            (xs : List SelectedOp)
            → (select_push_batch h force c.db).selected ≡ xs
            → length (push_round h net force c).0.db.outbox < length c.db.outbox
        by_batch [] q = cc (rw (q, push_round) at more)
        by_batch (x ∷ xs) q =
            rw (q, push_round)
              (by_reply x xs (net.push c.request (wires (x ∷ xs))) q refl
                (rw (q, push_round) at more))

    late_PushReturns :
        (l : ℕ) (c : Cycle) → k ≤ c.request → length c.db.outbox ≤ l → PushReturns h net force c
    late_PushReturns zero c late short =
        one_round c (λ more. absurd (omega (arith, round_shorter c late more, short)))
    late_PushReturns (suc l) c late short = one_round c (λ more.
        late_PushReturns l (push_round h net force c).0
          (omega (
            arith,
            late,
            (round-RoundEnds h net force c (suc c.request)
                (λ same. absurd (omega (arith, same)))).later,
          ))
          (omega (arith, short, round_shorter c late more)))

    early_PushReturns : (t : ℕ) (c : Cycle) → k ≤ c.request + t → PushReturns h net force c
    early_PushReturns zero c late =
        late_PushReturns (length c.db.outbox) c (omega (arith, late)) (omega arith)
    early_PushReturns (suc t) c late = one_round c (λ more.
        let ends =
          round-RoundEnds h net force c (suc c.request) (λ same. absurd (omega (arith, same))) in
        early_PushReturns t (push_round h net force c).0
          (omega (arith, late, ends.asked (λ s. cc (more, s)))))

    -- The push loop returns.
    pub push_phase-PushReturns : (c : Cycle) → PushReturns h net force c
    push_phase-PushReturns c = early_PushReturns k c (omega arith)
