-- ===== src/Engine/Pull/Phase.antt =====
-- The loop of `pullPhase` in sync-engine.ts: the cursor and the fuel.
use trata.Prelude.{
  ℕ, zero, suc, ◌+◌, ◌≤◌, ◌≡◌, refl, Bool, true, Option, none, some, List, [], ◌∷◌, arith, or_else,
  All, Option-cases, inl, inr, ◌≢◌,
}
use trata.Schema.{SyncEntity}
use trata.Db.{Host}
use trata.Meta.{get_pull_cursor}
use trata.Meta.Keys.{get-set_cursor}
use trata.Engine.{
  SyncChangeItem, SyncPullPage, Reports, Reply, answered, unauthorized, failed, Network, Cycle,
  paused_run,
}
use trata.Engine.Pull.{apply_page, last_seq, pull_phase}

-- The seqs of the changes never go back, from `cursor` on.
abbrev pub Ascending : ℕ → List SyncChangeItem → Type 0
Ascending cursor [] = Unit
Ascending cursor (ch ∷ chs) = (cursor ≤ ch.seq) × Ascending ch.seq chs

-- What the server owes for a page asked for at `cursor`.
pub record IsPageAfter (cursor : ℕ) (page : SyncPullPage) : Type 0 where
  pub ordered : Ascending cursor page.changes
  pub ahead :
      (n : ℕ) → page.next_cursor ≡ some n → (cursor ≤ n) × All (λ ch. ch.seq ≤ n) page.changes

last_seq-Ascending :
    (cursor : ℕ) (chs : List SyncChangeItem) → Ascending cursor chs → cursor ≤ last_seq cursor chs
last_seq-Ascending cursor [] h = omega arith
last_seq-Ascending cursor (ch ∷ chs) (h, hs) = omega (arith, h, last_seq-Ascending ch.seq chs hs)

Ascending-All :
    (m cursor : ℕ) (chs : List SyncChangeItem)
    → last_seq cursor chs ≤ m
    → Ascending cursor chs
    → All (λ ch. ch.seq ≤ m) chs
Ascending-All m cursor [] le h = tt
Ascending-All m cursor (ch ∷ chs) le (h, hs) =
    (omega (arith, last_seq-Ascending ch.seq chs hs, le), Ascending-All m ch.seq chs le hs)

-- After a page the stored cursor covers the seq of every change of the page and has not gone back,
-- given that the server orders its page.
pub cursor-apply_page :
    (h : Host) (knows : SyncEntity → Bool) (cursor : ℕ) (page : SyncPullPage) (c : Cycle)
    → IsPageAfter cursor page
    → (cursor ≤ get_pull_cursor (apply_page h knows cursor page c).db)
      × All (λ ch. ch.seq ≤ get_pull_cursor (apply_page h knows cursor page c).db) page.changes
unfolding apply_page
cursor-apply_page h knows cursor page c is =
    rw (get-set_cursor (or_else page.next_cursor (last_seq cursor page.changes)) _)
      (by_next page.next_cursor is.ahead)
  where
    by_next :
        (o : Option ℕ)
        → ((n : ℕ) → o ≡ some n → (cursor ≤ n) × All (λ ch. ch.seq ≤ n) page.changes)
        → (cursor ≤ or_else o (last_seq cursor page.changes))
          × All (λ ch. ch.seq ≤ or_else o (last_seq cursor page.changes)) page.changes
    by_next none ahead = (
      last_seq-Ascending cursor page.changes is.ordered,
      Ascending-All (last_seq cursor page.changes) cursor page.changes (omega arith) is.ordered,
    )
    by_next (some n) ahead = ahead n refl

-- The reply ends the loop: a failure, or a page without a next cursor.
abbrev pub EndsPull : Reply SyncPullPage → Type 0
EndsPull (answered page) = page.next_cursor ≡ none
EndsPull unauthorized = Unit
EndsPull failed = Unit

-- The request is out, and the app may write meanwhile.
abbrev pub asking : Network → Cycle → Cycle
asking net c = record c { db = net.meanwhile c.request c.db; request = c.request + 1 }

-- From one cycle to another by the requests of a pull: each page with a next cursor is applied and
-- followed by a request at the cursor that it left; the first reply of any other kind is the last.
pub data Pulls (h : Host) (knows : SyncEntity → Bool) (net : Network) : Cycle → Cycle → Type 0 where
  last_page :
      (c : Cycle) (page : SyncPullPage)
      → net.pull c.request (get_pull_cursor c.db) ≡ answered page
      → page.next_cursor ≡ none
      → Pulls h knows net c (apply_page h knows (get_pull_cursor c.db) page (asking net c))
  refused :
      (c : Cycle)
      → net.pull c.request (get_pull_cursor c.db) ≡ unauthorized
      → Pulls h knows net c (record (asking net c) {
        paused = true;
        outcome = record c.outcome { status = paused_run };
      })
  cut :
      (c : Cycle)
      → net.pull c.request (get_pull_cursor c.db) ≡ failed
      → Pulls h knows net c (asking net c)
  next_page :
      (c c' : Cycle) (page : SyncPullPage) (m : ℕ)
      → net.pull c.request (get_pull_cursor c.db) ≡ answered page
      → page.next_cursor ≡ some m
      → Pulls h knows net (apply_page h knows (get_pull_cursor c.db) page (asking net c)) c'
      → Pulls h knows net c c'

-- The loop returns what its requests, up to the first whose reply ends it, make of the cycle: one
-- request or more, none after number `k`; and a pause is reported in the outcome.
abbrev pub PullEnds : Host → (SyncEntity → Bool) → Network → ℕ → Option Cycle → Cycle → Type 0
PullEnds h knows net k result c =
    (c' : Cycle) × (result ≡ some c')
    × (c.request + 1 ≤ c'.request)
    × (Reports c → Reports c')
    × (c'.request ≤ k + 1)
    × Pulls h knows net c c'

-- Request number `k` ends the loop, at whatever cursor it is sent.
abbrev pub EndsPullAt : Network → ℕ → Type 0
EndsPullAt net k = (m : ℕ) → EndsPull (net.pull k m)

module _ (h : Host) (knows : SyncEntity → Bool) (net : Network) where
  pull_reply-ends :
      (n : ℕ) (c : Cycle) (k : ℕ)
      → c.request ≤ k
      → k + 1 ≤ c.request + suc n
      → ((d : Cycle)
          → d.request ≡ c.request + 1
          → d.request ≤ k
          → PullEnds h knows net k (pull_phase n h knows net d) d)
      → (r : Reply SyncPullPage) → (c.request ≡ k → EndsPull r)
      → net.pull c.request (get_pull_cursor c.db) ≡ r
      → PullEnds h knows net k (pull_phase (suc n) h knows net c) c
  unfolding pull_phase apply_page
  pull_reply-ends n c k before enough more failed ends q =
      rw (q, pull_phase) (_, refl, omega arith, (λ p. p), omega (arith, before), cut c q)
  pull_reply-ends n c k before enough more unauthorized ends q =
      rw (q, pull_phase) (_, refl, omega arith, (λ p. refl), omega (arith, before), refused c q)
  pull_reply-ends n c k before enough more (answered page) ends q =
      rw (q, pull_phase)
        (elim (Option-cases page.next_cursor) [
          | inl last ↦
              rw last
                (_, refl, omega arith, (λ p. p), omega (arith, before), last_page c page q last)
          | inr (m, next) ↦
              let out = record c { db = net.meanwhile c.request c.db; request = c.request + 1 } in
              let reached : c.request ≢ k = λ same. cc (ends same, next) in
              let d = apply_page h knows (get_pull_cursor c.db) page out in
              let (c', ran, later, reports, within, pulls) =
                more d refl (omega (arith, before, reached)) in
              rw next (
                c',
                ran,
                omega (arith, later),
                (λ p. reports p),
                within,
                next_page c c' page m q next pulls,
              )
        ])

  -- If the reply to request `k` ends the loop at whatever cursor, and the fuel reaches it (`n`
  -- rounds reach request `c.request + n`), then the loop returns: it has applied each page with a
  -- next cursor and asked again at the cursor that the page left, up to the first reply that is no
  -- such page, with request `k` at the latest; and a pause is reported.
  pub pull_phase-ends :
      (n : ℕ) (c : Cycle) (k : ℕ)
      → EndsPullAt net k
      → c.request ≤ k
      → k + 1 ≤ c.request + n
      → PullEnds h knows net k (pull_phase n h knows net c) c
  pull_phase-ends zero c k ends before enough = absurd (omega (arith, before, enough))
  pull_phase-ends (suc n) c k ends before enough =
      pull_reply-ends n c k before enough
        (λ d one reaches. pull_phase-ends n d k ends reaches (omega (arith, one, enough)))
        (net.pull c.request (get_pull_cursor c.db)) (λ same. rw same (ends (get_pull_cursor c.db)))
        refl
