-- ===== src/Engine/Pull/Termination.antt =====
-- The loop of `pullPhase` in sync-engine.ts returns, against a server whose pages go on in a log that
-- ends.
use trata.Prelude.{
  ℕ, zero, suc, ◌+◌, ◌<◌, ◌≤◌, ◌≡◌, refl, ◌∙◌, inl, inr, Bool, true, Option, none, some, arith,
  or_else, Option-cases,
}
use trata.Schema.{SyncEntity}
use trata.Db.{Host}
use trata.Meta.{get_pull_cursor}
use trata.Meta.Keys.{get-set_cursor}
use trata.Engine.{
  SyncPullPage, Reply, answered, unauthorized, failed, Network, Cycle, Reports, paused_run,
}
use trata.Engine.Pull.{apply_page, last_seq, pull_phase}
use trata.Engine.Pull.Phase.{asking}

-- From request `k` on, a page's next cursor is past the cursor it was asked for with, and not past
-- the end of the log.
pub record IsFairPull (net : Network) (k end_of_log : ℕ) : Type 0 where
  pub pages :
      (j m n : ℕ) (page : SyncPullPage)
      → k ≤ j
      → net.pull j m ≡ answered page
      → page.next_cursor ≡ some n
      → (m < n) × (n ≤ end_of_log)

stop_at : (o : Option ℕ) (x y : Option Cycle) → o ≡ none → (elim o [ none ↦ x | some _ ↦ y ]) ≡ x
stop_at none x y e = refl
stop_at (some n) x y e = cc e

go_at :
    (o : Option ℕ) (k : ℕ) (x y : Option Cycle)
    → o ≡ some k
    → (elim o [ none ↦ x | some _ ↦ y ]) ≡ y
go_at none k x y e = cc e
go_at (some n) k x y e = refl

-- The loop returns, with any fuel from some on.
pub record PullReturns (h : Host) (knows : SyncEntity → Bool) (net : Network) (c : Cycle)
    : Type 0 where
  pub rounds : ℕ
  pub final : Cycle
  pub returns : (m : ℕ) → rounds ≤ m → pull_phase m h knows net c ≡ some final
  pub asked : c.request + 1 ≤ final.request
  pub reports : Reports c → Reports final

module _ (h : Host) (knows : SyncEntity → Bool) (net : Network) where
  abbrev after_page : Cycle → SyncPullPage → Cycle
  after_page c page = apply_page h knows (get_pull_cursor c.db) page (asking net c)

  after_page_lem :
      (c : Cycle) (page : SyncPullPage) (n : ℕ)
      → page.next_cursor ≡ some n
      → (get_pull_cursor (after_page c page).db ≡ n)
        × ((after_page c page).request ≡ c.request + 1)
        × (Reports c → Reports (after_page c page))
  unfolding apply_page
  after_page_lem c page n next = (
    get-set_cursor (or_else page.next_cursor (last_seq (get_pull_cursor c.db) page.changes)) _
        ∙ rw next refl,
    refl,
    λ p. p,
  )

  page_lem :
      (c : Cycle) (page : SyncPullPage)
      → ((after_page c page).request ≡ c.request + 1) × (Reports c → Reports (after_page c page))
  unfolding apply_page
  page_lem c page = (refl, λ p. p)

  one_page :
      (c : Cycle)
      → ((page : SyncPullPage) (n : ℕ)
          → net.pull c.request (get_pull_cursor c.db) ≡ answered page
          → page.next_cursor ≡ some n
          → PullReturns h knows net (after_page c page))
      → PullReturns h knows net c
  unfolding pull_phase
  one_page c more = by_reply (net.pull c.request (get_pull_cursor c.db)) refl
    where
      cut_off :
          (m : ℕ)
          → net.pull c.request (get_pull_cursor c.db) ≡ failed
          → 1 ≤ m
          → pull_phase m h knows net c ≡ some (asking net c)
      cut_off zero q one = absurd (omega (arith, one))
      cut_off (suc m) q one = rw (q, pull_phase) refl

      refusal :
          (m : ℕ)
          → net.pull c.request (get_pull_cursor c.db) ≡ unauthorized
          → 1 ≤ m
          → pull_phase m h knows net c ≡ pull_phase 1 h knows net c
      refusal zero q one = absurd (omega (arith, one))
      refusal (suc m) q one = rw (q, pull_phase) refl

      last_one :
          (m : ℕ) (page : SyncPullPage)
          → net.pull c.request (get_pull_cursor c.db) ≡ answered page
          → page.next_cursor ≡ none
          → 1 ≤ m
          → pull_phase m h knows net c ≡ some (after_page c page)
      last_one zero page q last one = absurd (omega (arith, one))
      last_one (suc m) page q last one = rw (q, pull_phase) (stop_at page.next_cursor _ _ last)

      next_one :
          (n m k : ℕ) (page : SyncPullPage) (out : Option Cycle)
          → net.pull c.request (get_pull_cursor c.db) ≡ answered page
          → page.next_cursor ≡ some k
          → ((m : ℕ) → n ≤ m → pull_phase m h knows net (after_page c page) ≡ out)
          → suc n ≤ m
          → pull_phase m h knows net c ≡ out
      next_one n zero k page out q next rest le = absurd (omega (arith, le))
      next_one n (suc m) k page out q next rest le =
          rw (q, pull_phase) (go_at page.next_cursor k _ _ next ∙ rest m (omega (arith, le)))

      by_reply :
          (r : Reply SyncPullPage)
          → net.pull c.request (get_pull_cursor c.db) ≡ r
          → PullReturns h knows net c
      by_reply failed q = record {
        rounds = 1;
        final = asking net c;
        returns = λ m one. cut_off m q one;
        asked = omega arith;
        reports = λ p. p;
      }
      by_reply unauthorized q = record {
        rounds = 1;
        final = record (asking net c) {
          paused = true;
          outcome = record c.outcome { status = paused_run };
        };
        returns = λ m one. refusal m q one ∙ rw (q, pull_phase) refl;
        asked = omega arith;
        reports = λ p. refl;
      }
      by_reply (answered page) q = elim (Option-cases page.next_cursor) [
        | inl last ↦ record {
          rounds = 1;
          final = after_page c page;
          returns = λ m one. last_one m page q last one;
          asked = omega (arith, (page_lem c page).0);
          reports = (page_lem c page).1;
        }
        | inr (n, next) ↦
            let rest = more page n q next in
            let (_, one, reports) = after_page_lem c page n next in
            record {
              rounds = suc rest.rounds;
              final = rest.final;
              returns = λ m le. next_one rest.rounds m n page _ q next rest.returns le;
              asked = omega (arith, one, rest.asked);
              reports = λ p. rest.reports (reports p);
            }
      ]

  module _ (k end_of_log : ℕ) (fair : IsFairPull net k end_of_log) where
    late_PullReturns :
        (l : ℕ) (c : Cycle)
        → k ≤ c.request
        → end_of_log ≤ get_pull_cursor c.db + l
        → PullReturns h knows net c
    late_PullReturns zero c late near = one_page c (λ page n q next.
        absurd
          (omega (arith, fair.pages c.request (get_pull_cursor c.db) n page late q next, near)))
    late_PullReturns (suc l) c late near = one_page c (λ page n q next.
        let (cursor, one, _) = after_page_lem c page n next in
        let moves = fair.pages c.request (get_pull_cursor c.db) n page late q next in
        late_PullReturns l (after_page c page) (omega (arith, late, one))
          (omega (arith, near, cursor, moves)))

    early_PullReturns : (t : ℕ) (c : Cycle) → k ≤ c.request + t → PullReturns h knows net c
    early_PullReturns zero c late =
        late_PullReturns end_of_log c (omega (arith, late)) (omega arith)
    early_PullReturns (suc t) c late = one_page c (λ page n q next.
        let (_, one, _) = after_page_lem c page n next in
        early_PullReturns t (after_page c page) (omega (arith, late, one)))

    -- The pull loop returns.
    pub pull_phase-PullReturns : (c : Cycle) → PullReturns h knows net c
    pull_phase-PullReturns c = early_PullReturns k c (omega arith)
