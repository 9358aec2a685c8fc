-- ===== src/Load/Tests.antt =====
-- A ramp whose second step does not catch up, a grace loop of two lagging, and two batches.
use post_trade_reconciliatio.Prelude.{
  ℕ, ◌+◌, ◌*◌, ◌≡◌, refl, true, Option, some, List, [], ◌∷◌, length, ltb, if◌then◌else◌, arith,
}
use post_trade_reconciliatio.Prelude.Int.{pos, ◌≤ℤ◌}
use post_trade_reconciliatio.Prelude.Str.{str}
use post_trade_reconciliatio.Ingest.Numbering.{IsNumbered}
use post_trade_reconciliatio.Workers.Pool.{range_from}
use post_trade_reconciliatio.Load.{
  Measured, run_step, Round, grace_loop, Publisher, publish_process,
}
use post_trade_reconciliatio.Load.Harness.{LoadHarness, run_ramp}
use post_trade_reconciliatio.Load.Ramp.{Ramps, IsStopped, pool_starts, run_ramp-Ramps}
use post_trade_reconciliatio.Load.Grace.{EndsIn, grace_loop-EndsIn}
use post_trade_reconciliatio.Load.Publish.{as_ingestor, Succeeds, publish_process-IsNumbered}

-- The system keeps up with less than 500 messages per second.
abbrev keeps_up : LoadHarness → ℕ → ℕ → Option Measured × ℕ
keeps_up h rate n = (
  some (record {
    elapsed = pos 8_000_000;
    produced = (rate * 8, []);
    grace_samples = [];
    lag_at_step_end = if ltb rate 500 then 0 else 1;
    lag_after_grace = if ltb rate 500 then 0 else 1;
  }),
  n + 1,
)

abbrev harness : LoadHarness
harness = record { worker_pool_size = 2; workers = str "old" ∷ []; terminated = []; joined = [] }

abbrev rates : List ℕ
rates = 100 ∷ 500 ∷ 1_000 ∷ []

run_ramp-Ramps_example :
    Ramps rates (run_ramp keeps_up true (λ i. true) harness rates 0).0
    × IsStopped
        (pool_starts true (λ i. true) (range_from 0 2))
        harness
        (run_ramp keeps_up true (λ i. true) harness rates 0).1
run_ramp-Ramps_example = run_ramp-Ramps keeps_up true (λ i. true) harness rates 0

-- The ramp stops after its second step.
runs_two : (run_ramp keeps_up true (λ i. true) harness rates 0).0.1 ≡ 2
unfolding run_ramp run_step
runs_two = refl

abbrev lagging : ℕ → Round
lagging i = record { tested = pos (i * 500_000); sampled = pos (i * 500_000); lag = 3 }

lagging-sleep : (i : ℕ) → pos (i * 500_000) ≤ℤ (lagging i).tested
lagging-sleep i = omega arith

grace_loop-EndsIn_example : EndsIn 2 (grace_loop (pos 1_000_000) (pos 0) 7 lagging 0 3)
grace_loop-EndsIn_example =
    grace_loop-EndsIn (pos 1_000_000) (pos 0) 7 lagging lagging-sleep 2 (omega arith)

abbrev idle : Publisher
idle = record { cycle = []; seqs = []; published = 0; stream = [] }

idle-IsNumbered : IsNumbered (as_ingestor idle)
idle-IsNumbered = record { next = λ symbol. omega arith; numbers = λ symbol. refl; total = refl }

publish_process-IsNumbered_example :
    Succeeds
      (λ q.
        IsNumbered (as_ingestor q)
        × (length q.stream ≡ q.published)
        × (q.published ≡ idle.published + 3 * length (pos 0 ∷ pos 1 ∷ [])))
      (publish_process (str "LOAD-A" ∷ str "LOAD-B" ∷ []) 3 (pos 0 ∷ pos 1 ∷ []) idle)
publish_process-IsNumbered_example =
    publish_process-IsNumbered (str "LOAD-A") (str "LOAD-B" ∷ []) 3 (pos 0 ∷ pos 1 ∷ []) idle
      idle-IsNumbered refl
