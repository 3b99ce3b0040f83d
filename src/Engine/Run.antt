-- ===== src/Engine/Run.antt =====
-- `run` and `resume` of sync-engine.ts: one cycle at a time, and one more when `run` was called
-- while a cycle was on its way. The fuel bounds the rounds of each loop and the cycles.
pub mod Gates
use trata.Prelude.{
  ℕ, zero, suc, ◌+◌, String, Bool, true, false, not, ◌&&◌, ◌||◌, Option, none, some, if◌then◌else◌,
}
use trata.Schema.{SyncEntity, instant}
use trata.Db.{Db, Host}
use trata.Meta.{set_meta_value, last_synced_at_key}
use trata.Engine.{Network, RunStatus, completed, paused_run, SyncRunOutcome, Cycle}
use trata.Engine.Push.{push_phase}
use trata.Engine.Pull.{pull_phase}

-- The variables of the closure; `request` numbers the requests of all the cycles.
pub record Engine : Type 0 where
  pub db : Db
  pub running : Bool
  pub rerun_queued : Bool
  pub paused : Bool
  pub request : ℕ

abbrev pub empty_outcome : RunStatus → SyncRunOutcome
empty_outcome s = record { status = s; pushed = 0; pulled = 0; conflicts = 0 }

-- What `run` resolves to, and the closure after it.
pub record RunResult : Type 0 where
  pub engine : Engine
  pub outcome : SyncRunOutcome

abbrev pub start_cycle : Engine → Cycle
start_cycle g = record {
  db = g.db;
  paused = false;
  wrote = false;
  outcome = empty_outcome completed;
  request = g.request;
}

-- `if (!paused) setMetaValue(db, LAST_SYNCED_AT_KEY, ...)`.
abbrev pub stamp_synced : Host → Cycle → Cycle
stamp_synced h c = if c.paused then c else record c {
  db =
      set_meta_value last_synced_at_key (instant (h.clock c.db.calls))
        (record c.db { calls = c.db.calls + 1 });
}

-- The `try` block: push, pull after a clean push, and the stamp.
unfoldable pub run_cycle : ℕ → Host → (SyncEntity → Bool) → Network → Bool → Cycle → Option Cycle
run_cycle n h knows net force c = elim (push_phase n h net force c) [
  | none ↦ none
  | some (pushed, clean) ↦
      if clean && not pushed.paused
      then (elim (pull_phase n h knows net pushed) [
        | none ↦ none
        | some pulled ↦ some (stamp_synced h pulled)
      ])
      else some (stamp_synced h pushed)
]

-- `run` on fuel.
unfoldable pub run : ℕ → Host → (SyncEntity → Bool) → Network → Bool → Engine → Option RunResult
run zero h knows net force g = none
run (suc n) h knows net force g = elim g.paused [
  | true ↦ some (record { engine = g; outcome = empty_outcome paused_run })
  | false ↦ elim g.running [
    | true ↦
        some
          (record { engine = record g { rerun_queued = true }; outcome = empty_outcome completed })
    | false ↦ elim (run_cycle (suc n) h knows net force (start_cycle g)) [
      | none ↦ none
      | some c ↦
          let g' : Engine = record {
            db = c.db;
            running = false;
            rerun_queued = false;
            paused = c.paused;
            request = c.request;
          } in
          elim ((g.rerun_queued || net.called_again c.request) && not c.paused) [
            | true ↦ run n h knows net false g'
            | false ↦ some (record { engine = g'; outcome = c.outcome })
          ]
    ]
  ]
]

-- `resume`.
unfoldable pub resume : Engine → Engine
resume g = record g { paused = false }
