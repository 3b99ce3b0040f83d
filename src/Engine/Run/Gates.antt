-- ===== src/Engine/Run/Gates.antt =====
-- `run` of sync-engine.ts: the gates in front of a cycle, the queued rerun, and the fuel.
use trata.Prelude.{
  ℕ, zero, suc, ◌+◌, ◌≤◌, ◌≡◌, refl, sym, ◌∙◌, ap, inl, inr, Bool, true, false, not, ◌&&◌, ◌||◌,
  Option, some, arith, max, Bool-cases,
}
use trata.Schema.{SyncEntity}
use trata.Db.{Host}
use trata.Engine.{Network, Cycle, completed, paused_run, Reports, is_paused}
use trata.Engine.Push.Termination.{IsFairPush, push_phase-PushReturns}
use trata.Engine.Pull.Termination.{IsFairPull, pull_phase-PullReturns}
use trata.Engine.Run.{Engine, RunResult, empty_outcome, start_cycle, stamp_synced, run_cycle, run}

-- What holds from request `k` on: while a request is out the app does not write, and nobody calls
-- `run`; an answer applies only operations of its batch; and the pages go on in a log that ends.
pub record IsFair (net : Network) (k end_of_log : ℕ) : Type 0 where
  pub push : IsFairPush net k
  pub pull : IsFairPull net k end_of_log
  pub alone : (j : ℕ) → k ≤ j → net.called_again j ≡ false

stamped :
    (h : Host) (c : Cycle)
    → ((stamp_synced h c).request ≡ c.request)
      × ((stamp_synced h c).paused ≡ c.paused)
      × ((stamp_synced h c).outcome ≡ c.outcome)
stamped h c = (ground arith, ground arith, ground arith)

stamped-Reports : (h : Host) (c : Cycle) → Reports c → Reports (stamp_synced h c)
stamped-Reports h c r =
    let (_, paused, outcome) = stamped h c in
    paused ∙ r ∙ ap (λ o. is_paused o.status) (sym outcome)

-- A cycle returns, with any fuel from some on, after one request or more, and its outcome says
-- whether the engine paused.
record CycleReturns (h : Host) (knows : SyncEntity → Bool) (net : Network) (force : Bool)
    (c : Cycle) : Type 0 where
  rounds : ℕ
  final : Cycle
  returns : (m : ℕ) → rounds ≤ m → run_cycle m h knows net force c ≡ some final
  asked : c.request + 1 ≤ final.request
  agrees : Reports final

-- The engine after a run that was neither paused nor on its way: idle, nothing queued, and paused
-- exactly when the outcome says so.
abbrev Idle : RunResult → Type 0
Idle r =
    (r.engine.running ≡ false)
    × (r.engine.rerun_queued ≡ false)
    × (r.engine.paused ≡ is_paused r.outcome.status)

record RunReturns (h : Host) (knows : SyncEntity → Bool) (net : Network) (force : Bool) (g : Engine)
    : Type 0 where
  rounds : ℕ
  result : RunResult
  returns : (m : ℕ) → rounds ≤ m → run m h knows net force g ≡ some result
  idle : Idle result

module _ (h : Host) (knows : SyncEntity → Bool) (net : Network) (k end_of_log : ℕ)
    (fair : IsFair net k end_of_log) where
  run_cycle-CycleReturns :
      (force : Bool) (c : Cycle) → Reports c → c.paused ≡ false → CycleReturns h knows net force c
  unfolding run_cycle
  run_cycle-CycleReturns force c reports unpaused =
      let p = push_phase-PushReturns h net force k fair.push c in
      elim (Bool-cases p.clean) [
        | inr aborted ↦ record {
          rounds = p.rounds;
          final = stamp_synced h p.final;
          returns = λ m le. rw (p.returns m le, run_cycle) (rw aborted refl);
          asked = omega (arith, p.asked aborted, (stamped h p.final).0);
          agrees = stamped-Reports h p.final (p.reports reports);
        }
        | inl went ↦
            let goes : p.final.paused ≡ false = p.unpaused went ∙ unpaused in
            let q = pull_phase-PullReturns h knows net k end_of_log fair.pull p.final in
            record {
              rounds = max p.rounds q.rounds;
              final = stamp_synced h q.final;
              returns = λ m le.
                  rw (p.returns m (omega (arith, le)), run_cycle)
                    (rw (went, goes) (rw (q.returns m (omega (arith, le))) refl));
              asked = omega (arith, p.later, q.asked, (stamped h q.final).0);
              agrees = stamped-Reports h q.final (q.reports (p.reports reports));
            }
      ]

  -- The engine after a cycle.
  abbrev after_cycle : Cycle → Engine
  after_cycle c = record {
    db = c.db;
    running = false;
    rerun_queued = false;
    paused = c.paused;
    request = c.request;
  }

  -- Another cycle follows.
  abbrev runs_again : Engine → Cycle → Bool
  runs_again g c = (g.rerun_queued || net.called_again c.request) && not c.paused

  one_cycle :
      (force : Bool) (g : Engine)
      → g.paused ≡ false
      → g.running ≡ false
      → ((c : Cycle)
          → g.request + 1 ≤ c.request
          → runs_again g c ≡ true
          → RunReturns h knows net false (after_cycle c))
      → RunReturns h knows net force g
  unfolding run
  one_cycle force g unpaused still more =
      let cycle = run_cycle-CycleReturns force (start_cycle g) refl refl in
      elim (Bool-cases (runs_again g cycle.final)) [
        | inr done ↦ record {
          rounds = suc cycle.rounds;
          result = record { engine = after_cycle cycle.final; outcome = cycle.final.outcome };
          returns = λ m le. last_cycle m cycle.rounds cycle.final cycle.returns done le;
          idle = (refl, refl, cycle.agrees);
        }
        | inl again ↦
            let rest = more cycle.final cycle.asked again in
            record {
              rounds = suc (max cycle.rounds rest.rounds);
              result = rest.result;
              returns = λ m le.
                  next_cycle m cycle.rounds rest.rounds cycle.final _ cycle.returns again
                    rest.returns le;
              idle = rest.idle;
            }
      ]
    where
      last_cycle :
          (m n : ℕ) (c : Cycle)
          → ((j : ℕ) → n ≤ j → run_cycle j h knows net force (start_cycle g) ≡ some c)
          → runs_again g c ≡ false
          → suc n ≤ m
          → run m h knows net force g
            ≡ some (record { engine = after_cycle c; outcome = c.outcome })
      last_cycle zero n c ran done le = absurd (omega (arith, le))
      last_cycle (suc m) n c ran done le =
          rw (unpaused, still, ran (suc m) (omega (arith, le)), run) (rw done refl)

      next_cycle :
          (m n j : ℕ) (c : Cycle) (out : Option RunResult)
          → ((i : ℕ) → n ≤ i → run_cycle i h knows net force (start_cycle g) ≡ some c)
          → runs_again g c ≡ true
          → ((i : ℕ) → j ≤ i → run i h knows net false (after_cycle c) ≡ out)
          → suc (max n j) ≤ m
          → run m h knows net force g ≡ out
      next_cycle zero n j c out ran again rest le = absurd (omega (arith, le))
      next_cycle (suc m) n j c out ran again rest le =
          rw (unpaused, still, ran (suc m) (omega (arith, le)), run)
            (rw again (rest m (omega (arith, le))))

  unqueued-RunReturns :
      (t : ℕ) (force : Bool) (g : Engine)
      → g.paused ≡ false
      → g.running ≡ false
      → g.rerun_queued ≡ false
      → k ≤ g.request + t
      → RunReturns h knows net force g
  unqueued-RunReturns zero force g unpaused still unqueued late =
      one_cycle force g unpaused still (λ c asked again.
        let called : net.called_again c.request ≡ true = ground (arith, again, unqueued) in
        cc (called, fair.alone c.request (omega (arith, late, asked))))
  unqueued-RunReturns (suc t) force g unpaused still unqueued late =
      one_cycle force g unpaused still (λ c asked again.
        unqueued-RunReturns t false (after_cycle c) (ground (arith, again)) refl refl
          (omega (arith, late, asked)))

  idle-RunReturns :
      (force : Bool) (g : Engine)
      → g.paused ≡ false
      → g.running ≡ false
      → RunReturns h knows net force g
  idle-RunReturns force g unpaused still = one_cycle force g unpaused still (λ c asked again.
      unqueued-RunReturns k false (after_cycle c) (ground (arith, again)) refl refl (omega arith))

-- What a call answers, by the two flags of the engine that it finds.
abbrev pub RunAnswer : Bool → Bool → Engine → RunResult → Type 0
RunAnswer true running g r = r ≡ record { engine = g; outcome = empty_outcome paused_run }
RunAnswer false true g r =
    r ≡ record { engine = record g { rerun_queued = true }; outcome = empty_outcome completed }
RunAnswer false false g r =
    (r.engine.running ≡ false)
    × (r.engine.rerun_queued ≡ false)
    × (r.engine.paused ≡ is_paused r.outcome.status)

gated :
    (h : Host) (knows : SyncEntity → Bool) (net : Network) (force : Bool) (g : Engine)
    → g.paused ≡ true
    → (m : ℕ) → 1 ≤ m
    → run m h knows net force g ≡ some (record { engine = g; outcome = empty_outcome paused_run })
unfolding run
gated h knows net force g paused zero one = absurd (omega (arith, one))
gated h knows net force g paused (suc m) one = simp (paused, run)

queued :
    (h : Host) (knows : SyncEntity → Bool) (net : Network) (force : Bool) (g : Engine)
    → g.paused ≡ false
    → g.running ≡ true
    → (m : ℕ) → 1 ≤ m
    → run m h knows net force g
      ≡ some
          (record { engine = record g { rerun_queued = true }; outcome = empty_outcome completed })
unfolding run
queued h knows net force g goes busy zero one = absurd (omega (arith, one))
queued h knows net force g goes busy (suc m) one = simp (goes, busy, run)

-- Given that from some request on the app neither writes nor calls `run` while a request is out,
-- that an answer applies only operations of the batch that it answers, and that each next cursor
-- moves on in a log that ends: a call of `run` returns, with the same result for any fuel from some
-- on, on an engine in whatever state. A paused engine answers "paused" and an engine on its way
-- queues one rerun, both without a cycle; an idle one runs its cycles and is idle again, with
-- nothing queued, and paused exactly when the outcome says so.
pub run-returns :
    (h : Host) (knows : SyncEntity → Bool) (net : Network) (k end_of_log : ℕ)
    → IsFair net k end_of_log
    → (force : Bool) (g : Engine)
    → (n : ℕ) × (r : RunResult) × ((m : ℕ) → n ≤ m → run m h knows net force g ≡ some r)
      × RunAnswer g.paused g.running g r
run-returns h knows net k end_of_log fair force g = elim (Bool-cases g.paused) [
  | inl paused ↦ (1, _, gated h knows net force g paused, simp paused refl)
  | inr goes ↦ elim (Bool-cases g.running) [
    | inl busy ↦ (1, _, queued h knows net force g goes busy, simp (goes, busy) refl)
    | inr still ↦
        let run_it = idle-RunReturns h knows net k end_of_log fair force g goes still in
        (run_it.rounds, run_it.result, run_it.returns, simp (goes, still) run_it.idle)
  ]
]
