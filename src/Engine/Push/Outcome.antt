-- ===== src/Engine/Push/Outcome.antt =====
-- The loop of `pushPhase` in sync-engine.ts: its rounds and the fuel.
use trata.Prelude.{
  ℕ, zero, suc, ◌+◌, ◌≤◌, ◌≡◌, ◌≢◌, refl, ◌∙◌, inl, inr, Bool, true, false, ◌||◌, Option, some,
  List, [], ◌∷◌, ◌++◌, map, arith, any, if◌then◌else◌, Option-cases,
}
use trata.Db.{Host}
use trata.Engine.{
  SyncPushOperation, SyncPushResultItem, PushStatus, applied, conflict, error, Reply, answered,
  unauthorized, failed, Network, Cycle, SelectedOp, Reports,
}
use trata.Engine.Select.{select_push_batch}
use trata.Engine.Push.{
  Applied, apply_result, apply_results, find_item, has_some, settle, push_reply, push_round,
  push_phase, Round, clean_end, aborted, again, await, pause,
}

abbrev pub is_applied : SyncPushResultItem → Bool
is_applied r = elim r.status [ applied ↦ true | conflict ↦ false | error ↦ false ]

has_some-append {ℓ} : {A : Type ℓ} (xs : List A) (y : A) → has_some (xs ++ y ∷ []) ≡ true
has_some-append [] y = refl
has_some-append (x ∷ xs) y = refl

confirmed_one :
    (h : Host) (batch : List SelectedOp) (r : SyncPushResultItem) (a : Applied)
    → has_some (apply_result h batch r a).confirmations ≡ is_applied r || has_some a.confirmations
unfolding apply_result
confirmed_one h batch r a = by_status r.status refl
  where
    by_status :
        (s : PushStatus)
        → r.status ≡ s
        → has_some (apply_result h batch r a).confirmations
          ≡ is_applied r || has_some a.confirmations
    by_status applied q = rw (q, apply_result) (has_some-append a.confirmations _)
    by_status error q = rw (q, apply_result) refl
    by_status conflict q =
        rw (q, apply_result)
          (elim (Option-cases (find_item r.op_id batch)) [
            | inl absent ↦ rw absent refl
            | inr (item, found) ↦ rw found refl
          ])

-- A batch has confirmations exactly when one of the answer's results is an applied one.
pub confirmed_some :
    (h : Host) (batch : List SelectedOp) (rs : List SyncPushResultItem) (a : Applied)
    → has_some (apply_results h batch rs a).confirmations
      ≡ any is_applied rs || has_some a.confirmations
unfolding apply_results
confirmed_some h batch [] a = refl
confirmed_some h batch (r ∷ rs) a =
    confirmed_some h batch rs (apply_result h batch r a) ∙ ground (arith, confirmed_one h batch r a)

-- The reply ends the loop: a failure, or an answer that applies nothing.
abbrev pub EndsPush : Reply (List SyncPushResultItem) → Type 0
EndsPush (answered results) = any is_applied results ≡ false
EndsPush unauthorized = Unit
EndsPush failed = Unit

-- Request number `k` ends the loop, whatever it sends.
abbrev pub EndsPushAt : Network → ℕ → Type 0
EndsPushAt net k = (ops : List SyncPushOperation) → EndsPush (net.push k ops)

-- A round of one request, or of none when there is nothing to send.
pub record RoundEnds (c : Cycle) (k : ℕ) (out : Cycle × Round) : Type 0 where
  pub later : c.request ≤ out.0.request
  pub single : out.0.request ≤ c.request + 1
  pub asked : out.1 ≢ clean_end → c.request + 1 ≤ out.0.request
  pub unpaused : out.1 ≢ aborted → out.0.paused ≡ c.paused
  pub goes_on : out.1 ≡ again → c.request ≢ k
  pub reports : Reports c → Reports out.0

-- The cycle after a batch is selected.
abbrev pub selecting : Host → Bool → Cycle → Cycle
selecting h force c =
    let s = select_push_batch h force c.db in record c { db = s.db; wrote = c.wrote || s.wrote }

abbrev pub wires : List SelectedOp → List SyncPushOperation
wires = map (λ i. i.wire)

-- The transaction over the answer to a batch.
abbrev pub settled :
    Host → Network → Bool → List SelectedOp → List SyncPushResultItem → Cycle → Cycle
settled h net force batch rs c = (settle h batch rs (await net (selecting h force c))).0

-- From one cycle to another by the batches of a push, and whether it ends cleanly: while a batch can
-- be selected and its answer applies something, the answer is settled and the next batch is selected.
pub data Pushes (h : Host) (net : Network) (force : Bool) : Cycle → Cycle → Bool → Type 0 where
  nothing_to_send :
      (c : Cycle)
      → (select_push_batch h force c.db).selected ≡ []
      → Pushes h net force c (selecting h force c) true
  nothing_applied :
      (c : Cycle) (x : SelectedOp) (xs : List SelectedOp) (rs : List SyncPushResultItem)
      → (select_push_batch h force c.db).selected ≡ x ∷ xs
      → net.push c.request (wires (x ∷ xs)) ≡ answered rs
      → any is_applied rs ≡ false
      → Pushes h net force c (settled h net force (x ∷ xs) rs c) true
  refused :
      (c : Cycle) (x : SelectedOp) (xs : List SelectedOp)
      → (select_push_batch h force c.db).selected ≡ x ∷ xs
      → net.push c.request (wires (x ∷ xs)) ≡ unauthorized
      → Pushes h net force c (pause (x ∷ xs) (await net (selecting h force c))) false
  cut :
      (c : Cycle) (x : SelectedOp) (xs : List SelectedOp)
      → (select_push_batch h force c.db).selected ≡ x ∷ xs
      → net.push c.request (wires (x ∷ xs)) ≡ failed
      → Pushes h net force c (await net (selecting h force c)) false
  next_batch :
      (c c' : Cycle) (clean : Bool) (x : SelectedOp) (xs : List SelectedOp)
      (rs : List SyncPushResultItem)
      → (select_push_batch h force c.db).selected ≡ x ∷ xs
      → net.push c.request (wires (x ∷ xs)) ≡ answered rs
      → any is_applied rs ≡ true
      → Pushes h net force (settled h net force (x ∷ xs) rs c) c' clean
      → Pushes h net force c c' clean

-- What a finished loop returns: what its batches make of the cycle, none sent after request `k`; a
-- pause is reported, and an aborted loop made a request.
abbrev pub PushEnds : Host → Network → Bool → ℕ → Option (Cycle × Bool) → Cycle → Type 0
PushEnds h net force k result c =
    (c' : Cycle) × (clean : Bool) × (result ≡ some (c', clean))
    × (c.request ≤ c'.request)
    × (clean ≡ false → c.request + 1 ≤ c'.request)
    × (Reports c → Reports c')
    × (clean ≡ true → c'.paused ≡ c.paused)
    × (c'.request ≤ k + 1)
    × Pushes h net force c c' clean

-- How one round goes on.
record RoundPushes (h : Host) (net : Network) (force : Bool) (c : Cycle) (out : Cycle × Round)
    : Type 0 where
  stops : out.1 ≡ clean_end → Pushes h net force c out.0 true
  aborts : out.1 ≡ aborted → Pushes h net force c out.0 false
  repeats :
      out.1 ≡ again
      → (c' : Cycle) (clean : Bool) → Pushes h net force out.0 c' clean
      → Pushes h net force c c' clean

pub again_confirmed : (b : Bool) → (if b then again else clean_end) ≡ again → b ≡ true
again_confirmed true more = refl
again_confirmed false more = cc more

stopped_unconfirmed : (b : Bool) → (if b then again else clean_end) ≡ clean_end → b ≡ false
stopped_unconfirmed false stop = refl
stopped_unconfirmed true stop = cc stop

not_aborted : (b : Bool) → (if b then again else clean_end) ≡ aborted → ⊥
not_aborted true stop = cc stop
not_aborted false stop = cc stop

module _ (h : Host) (net : Network) (force : Bool) where
  settle-RoundPushes :
      (x : SelectedOp) (xs : List SelectedOp) (rs : List SyncPushResultItem) (c : Cycle)
      → (select_push_batch h force c.db).selected ≡ x ∷ xs
      → net.push c.request (wires (x ∷ xs)) ≡ answered rs
      → RoundPushes h net force c (settle h (x ∷ xs) rs (await net (selecting h force c)))
  unfolding settle
  settle-RoundPushes x xs rs c batch reply =
      let d = await net (selecting h force c) in
      let a =
        apply_results h (x ∷ xs) rs
          (record { db = d.db; confirmations = []; conflicts = 0; wrote = d.wrote }) in
      let some_confirmed : has_some a.confirmations ≡ any is_applied rs || false =
        confirmed_some h (x ∷ xs) rs _ in
      record {
        stops = λ stop.
            let unconfirmed = stopped_unconfirmed (has_some a.confirmations) stop in
            nothing_applied c x xs rs batch reply (ground (arith, some_confirmed, unconfirmed));
        aborts = λ stop. absurd (not_aborted (has_some a.confirmations) stop);
        repeats = λ more c' clean rest.
            let confirmed = again_confirmed (has_some a.confirmations) more in
            next_batch c c' clean x xs rs batch reply (ground (arith, some_confirmed, confirmed))
              rest;
      }

  reply-RoundPushes :
      (x : SelectedOp) (xs : List SelectedOp) (c : Cycle) (r : Reply (List SyncPushResultItem))
      → (select_push_batch h force c.db).selected ≡ x ∷ xs
      → net.push c.request (wires (x ∷ xs)) ≡ r
      → RoundPushes h net force c (push_reply h (x ∷ xs) r (await net (selecting h force c)))
  unfolding push_reply
  reply-RoundPushes x xs c (answered rs) batch reply = settle-RoundPushes x xs rs c batch reply
  reply-RoundPushes x xs c unauthorized batch reply = record {
    stops = λ stop. cc stop;
    aborts = λ stop. refused c x xs batch reply;
    repeats = λ more c' clean rest. cc more;
  }
  reply-RoundPushes x xs c failed batch reply = record {
    stops = λ stop. cc stop;
    aborts = λ stop. cut c x xs batch reply;
    repeats = λ more c' clean rest. cc more;
  }

  round-RoundPushes : (c : Cycle) → RoundPushes h net force c (push_round h net force c)
  unfolding push_round
  round-RoundPushes c = by_batch (select_push_batch h force c.db).selected refl
    where
      by_batch :
          (xs : List SelectedOp)
          → (select_push_batch h force c.db).selected ≡ xs
          → RoundPushes h net force c (push_round h net force c)
      by_batch [] q =
          rw (q, push_round)
            (record {
              stops = λ stop. nothing_to_send c q;
              aborts = λ stop. cc stop;
              repeats = λ more c' clean rest. cc more;
            })
      by_batch (x ∷ xs) q =
          rw (q, push_round) (reply-RoundPushes x xs c (net.push c.request (wires (x ∷ xs))) q refl)

  settle-RoundEnds :
      (batch : List SelectedOp) (rs : List SyncPushResultItem) (c d : Cycle) (k : ℕ)
      → d.request ≡ c.request + 1
      → (Reports c → Reports d)
      → d.paused ≡ c.paused
      → (c.request ≡ k → any is_applied rs ≡ false)
      → RoundEnds c k (settle h batch rs d)
  unfolding settle
  settle-RoundEnds batch rs c d k one reports flag ends =
      let a =
        apply_results h batch rs
          (record { db = d.db; confirmations = []; conflicts = 0; wrote = d.wrote }) in
      let some_confirmed : has_some a.confirmations ≡ any is_applied rs || false =
        confirmed_some h batch rs _ in
      record {
        later = omega (arith, one);
        single = omega (arith, one);
        asked = λ n. omega (arith, one);
        unpaused = λ n. flag;
        goes_on = λ more same.
            let yes_some = again_confirmed (has_some a.confirmations) more in
            let nothing = ends same in ground (arith, some_confirmed, yes_some, nothing);
        reports = reports;
      }

  reply-RoundEnds :
      (batch : List SelectedOp) (c d : Cycle) (k : ℕ)
      → d.request ≡ c.request + 1
      → (Reports c → Reports d)
      → d.paused ≡ c.paused
      → (r : Reply (List SyncPushResultItem)) → (c.request ≡ k → EndsPush r)
      → RoundEnds c k (push_reply h batch r d)
  unfolding push_reply
  reply-RoundEnds batch c d k one reports flag (answered rs) ends =
      settle-RoundEnds batch rs c d k one reports flag ends
  reply-RoundEnds batch c d k one reports flag unauthorized ends = record {
    later = omega (arith, one);
    single = omega (arith, one);
    asked = λ n. omega (arith, one);
    unpaused = λ n. absurd (n refl);
    goes_on = λ more. cc more;
    reports = λ p. refl;
  }
  reply-RoundEnds batch c d k one reports flag failed ends = record {
    later = omega (arith, one);
    single = omega (arith, one);
    asked = λ n. omega (arith, one);
    unpaused = λ n. flag;
    goes_on = λ more. cc more;
    reports = reports;
  }

  pub round-RoundEnds :
      (c : Cycle) (k : ℕ)
      → (c.request ≡ k → EndsPushAt net k)
      → RoundEnds c k (push_round h net force c)
  unfolding push_round
  round-RoundEnds c k ends = by_batch (select_push_batch h force c.db).selected refl
    where
      by_batch :
          (xs : List SelectedOp)
          → (select_push_batch h force c.db).selected ≡ xs
          → RoundEnds c k (push_round h net force c)
      by_batch [] q =
          rw (q, push_round)
            (record {
              later = omega arith;
              single = omega arith;
              asked = λ n. absurd (n refl);
              unpaused = λ n. refl;
              goes_on = λ more. cc more;
              reports = λ p. p;
            })
      by_batch (x ∷ xs) q =
          rw (q, push_round)
            (reply-RoundEnds (x ∷ xs) c _ k refl (λ p. p) refl
              (net.push c.request (map (λ i. i.wire) (x ∷ xs))) (λ same. rw same (ends same _)))

  round-PushEnds :
      (n : ℕ) (c : Cycle) (k : ℕ) (x : Round)
      → (push_round h net force c).1 ≡ x
      → RoundEnds c k (push_round h net force c)
      → c.request ≤ k
      → ((d : Cycle)
          → d.request ≤ k
          → c.request + 1 ≤ d.request
          → PushEnds h net force k (push_phase n h net force d) d)
      → PushEnds h net force k (push_phase (suc n) h net force c) c
  unfolding push_phase
  round-PushEnds n c k clean_end q r before more =
      rw (q, push_phase)
        (
          _,
          true,
          refl,
          r.later,
          (λ t. cc t),
          r.reports,
          (λ t. r.unpaused (λ s. cc (q, s))),
          omega (arith, r.single, before),
          (round-RoundPushes c).stops q,
        )
  round-PushEnds n c k aborted q r before more =
      rw (q, push_phase)
        (
          _,
          false,
          refl,
          r.later,
          (λ t. r.asked (λ s. cc (q, s))),
          r.reports,
          (λ t. cc t),
          omega (arith, r.single, before),
          (round-RoundPushes c).aborts q,
        )
  round-PushEnds n c k again q r before more =
      let d = (push_round h net force c).0 in
      let asked = r.asked (λ s. cc (q, s)) in
      let past = r.goes_on q in
      let (c', clean, ran, later, _, reports, flag, within, pushes) =
        more d (omega (arith, before, past, r.single)) asked in
      rw (q, push_phase)
        (
          c',
          clean,
          ran,
          omega (arith, asked, later),
          (λ t. omega (arith, asked, later)),
          (λ p. reports (r.reports p)),
          (λ t. flag t ∙ r.unpaused (λ s. cc (q, s))),
          within,
          (round-RoundPushes c).repeats q c' clean pushes,
        )

  -- If the reply to request `k` ends the loop whatever it sends, and the fuel reaches it (`n`
  -- rounds reach request `c.request + n`), then the push loop returns: it has settled each batch
  -- whose answer applies something and gone on to the next one, up to the first batch that is
  -- empty, refused, cut off or answered without anything applied, with request `k` at the latest; a
  -- pause is reported.
  pub push_phase-ends :
      (n : ℕ) (c : Cycle) (k : ℕ)
      → EndsPushAt net k
      → c.request ≤ k
      → k + 1 ≤ c.request + n
      → PushEnds h net force k (push_phase n h net force c) c
  push_phase-ends zero c k ends before enough = absurd (omega (arith, before, enough))
  push_phase-ends (suc n) c k ends before enough =
      round-PushEnds n c k (push_round h net force c).1 refl (round-RoundEnds c k (λ same. ends))
        before
        (λ d reaches asked. push_phase-ends n d k ends reaches (omega (arith, enough, asked)))
