-- ===== src/Tests/Syncing.antt =====
-- The engine's loops at the sample network.
use trata.Engine.Push.Progress.{AppliesSent}
use trata.Prelude.{ℕ, ◌<◌, ◌==◌, List, ◌*◌, ◌≤◌, ◌≡◌, refl, false, some, [], ◌∷◌, arith, min, All}
use trata.Meta.{get_pull_cursor}
use trata.Engine.{
  backoff_delay_ms, backoff_cap_ms, SyncPushOperation, SyncPushResultItem, SyncPullPage, answered,
}
use trata.Engine.Backoff.{backoff_delay_ms_lem}
use trata.Engine.Select.{select_push_batch}
use trata.Engine.Select.Batch.{IsBatch, coalesced_db, select_push_batch-IsBatch}
use trata.Engine.Push.{push_phase}
use trata.Engine.Push.Outcome.{PushEnds, push_phase-ends}
use trata.Engine.Pull.{apply_page, pull_phase}
use trata.Engine.Pull.Phase.{IsPageAfter, PullEnds, cursor-apply_page, pull_phase-ends}
use trata.Engine.Run.{RunResult, run}
use trata.Engine.Run.Gates.{IsFair, RunAnswer, run-returns}
use trata.Tests.{host, dirty_db, tombstone_page, cash_tombstone, everything, network, engine, cycle}

ordered_page : IsPageAfter 5 tombstone_page
ordered_page = record { ordered = (omega arith, tt); ahead = λ n q. cc q }

unsent :
    (j : ℕ) (ops : List SyncPushOperation) (rs : List SyncPushResultItem)
    → 3 ≤ j
    → network.push j ops ≡ answered rs
    → AppliesSent ops rs
unsent j ops rs late q =
    let other : (j == 0) ≡ false = ground arith in
    let e : answered [] ≡ answered rs = rw other at q in let is : [] ≡ rs = cc in rw (← is) tt

last_pages :
    (j m n : ℕ) (page : SyncPullPage)
    → 3 ≤ j
    → network.pull j m ≡ answered page
    → page.next_cursor ≡ some n
    → (m < n) × (n ≤ 0)
last_pages j m n page late q next = let is : tombstone_page ≡ page = cc in cc (rw (← is) at next)

network-IsFair : IsFair network 3 0
network-IsFair = record {
  push = record { unwritten = λ j db late. refl; answers = unsent };
  pull = record { pages = last_pages };
  alone = λ j late. ground arith;
}

select_push_batch-IsBatch_example :
    IsBatch (coalesced_db dirty_db) false 1000 (select_push_batch host false dirty_db).selected
select_push_batch-IsBatch_example = select_push_batch-IsBatch host false dirty_db

push_phase-ends_example :
    PushEnds host network false 1 (push_phase 2 host network false cycle) cycle
push_phase-ends_example =
    push_phase-ends host network false 2 cycle 1 (λ ops. refl) (omega arith) (omega arith)

pull_phase-ends_example :
    PullEnds host everything network 0 (pull_phase 1 host everything network cycle) cycle
pull_phase-ends_example =
    pull_phase-ends host everything network 1 cycle 0 (λ cursor. refl) (omega arith) (omega arith)

cursor-apply_page_example :
    (5 ≤ get_pull_cursor (apply_page host everything 5 tombstone_page cycle).db)
    × All
        (λ ch. ch.seq ≤ get_pull_cursor (apply_page host everything 5 tombstone_page cycle).db)
        (cash_tombstone ∷ [])
cursor-apply_page_example = cursor-apply_page host everything 5 tombstone_page cycle ordered_page

run-returns_example :
    (n : ℕ) × (r : RunResult) × ((m : ℕ)
      → n ≤ m
      → run m host everything network false engine ≡ some r)
    × RunAnswer false false engine r
run-returns_example = run-returns host everything network 3 0 network-IsFair false engine

backoff_delay_ms_lem_example :
    ((5000 ≤ backoff_delay_ms 4) × (backoff_delay_ms 4 ≤ 900000))
    × (backoff_delay_ms 5 ≤ backoff_delay_ms 6)
    × (backoff_delay_ms 6 ≡ min (2 * backoff_delay_ms 5) backoff_cap_ms)
backoff_delay_ms_lem_example = backoff_delay_ms_lem 4
