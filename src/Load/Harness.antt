-- ===== src/Load/Harness.antt =====
-- The start and the stop of the workers of `LoadHarness` in posttrade/loadtest/load_harness.py, and
-- `run_ramp` between them. The measuring of a step is a parameter.
use post_trade_reconciliatio.Prelude.{
  ℕ, Bool, Option, none, some, List, [], ◌∷◌, ◌++◌, if◌then◌else◌,
}
use post_trade_reconciliatio.Prelude.Str.{Str, str}
use post_trade_reconciliatio.Prelude.Show.{show}
use post_trade_reconciliatio.Workers.Pool.{range_from}
use post_trade_reconciliatio.Load.{StepResult, Measured, after_step}

-- The processes of the harness, and those that it has terminated and then joined. A join gives up
-- after ten seconds, so a process may outlive it.
pub record LoadHarness : Type 0 where
  pub worker_pool_size : ℕ
  pub workers : List Str
  pub terminated : List Str
  pub joined : List Str

abbrev pub worker_name : ℕ → Str
worker_name i = str "loadtest-worker-" ++ show i

-- A call that returns, or raises, on the harness that it leaves.
pub data Call : Type 0 where
  done failed : LoadHarness → Call

-- The loop of `start_workers`, from the i-th process on; `starts` is whether a process starts.
unfoldable pub start_each : (ℕ → Bool) → List ℕ → LoadHarness → Call
start_each starts [] h = done h
start_each starts (i ∷ is) h =
    let rest = start_each starts is (record h { workers = h.workers ++ worker_name i ∷ [] }) in
    if starts i then rest else failed h

-- `start_workers`; the consumer of the bootstrap may raise.
unfoldable pub start_workers : Bool → (ℕ → Bool) → LoadHarness → Call
unfolding start_each
start_workers connects starts h =
    if connects then start_each starts (range_from 0 h.worker_pool_size) h else failed h

-- `stop_workers`
unfoldable pub stop_workers : LoadHarness → LoadHarness
stop_workers h = record h {
  terminated = h.terminated ++ h.workers;
  joined = h.joined ++ h.workers;
  workers = [];
}

module _ {S : Type 0} (measure : LoadHarness → ℕ → S → Option Measured × S) where
  abbrev pub ramp_steps : LoadHarness → List ℕ → S → Option (List StepResult) × S
  ramp_steps h [] s = (some [], s)
  ramp_steps h (rate ∷ rates) s = after_step rate (measure h rate s) (ramp_steps h rates)

  -- What follows the start, which is outside of the `try`; the workers are stopped however the loop
  -- ends.
  abbrev pub after_start : List ℕ → S → Call → (Option (List StepResult) × S) × LoadHarness
  after_start rates s (failed h) = ((none, s), h)
  after_start rates s (done h) = (ramp_steps h rates s, stop_workers h)

  -- `run_ramp`
  unfoldable pub run_ramp :
      Bool → (ℕ → Bool) → LoadHarness → List ℕ → S → (Option (List StepResult) × S) × LoadHarness
  unfolding start_workers stop_workers
  run_ramp connects starts h rates s = after_start rates s (start_workers connects starts h)
