-- ===== src/Simulate/Runs.antt =====
-- `run` of simulate/trade_book_simulator.py over the batches that its reads return.
use post_trade_reconciliatio.Prelude.{
  ℕ, ◌+◌, Bool, true, false, ◌&&◌, Option, none, some, List, [], ◌∷◌, ◌++◌, if◌then◌else◌, leb,
}
use post_trade_reconciliatio.Prelude.Str.{Str}
use post_trade_reconciliatio.Models.{Tick}
use post_trade_reconciliatio.Storage.Ticks.{TickStore}
use post_trade_reconciliatio.Simulate.{Simulator, Draws, handle}

-- A message of a read, with the draws made while it is handled.
pub record Delivery : Type 0 where
  pub message_id : Str
  pub tick : Tick
  pub draws : Draws

-- A run: the simulator, the ids acked so far, oldest first, and whether the loop has ended.
pub record Run (S : Type 0) : Type 0 where
  pub sim : Simulator S
  pub acked : List Str
  pub ended : Bool

-- `limit is not None and n >= limit`
abbrev pub reached : Option ℕ → ℕ → Bool
reached none n = false
reached (some limit) n = leb limit n

module _ {S : Type 0} (store : TickStore S) (max_fills max_idle_reads : Option ℕ) where
  unfoldable pub run_message : Delivery → Run S → Run S
  unfolding handle
  run_message m r =
      let sim = handle store m.tick m.draws r.sim in
      record {
        sim = sim;
        acked = r.acked ++ m.message_id ∷ [];
        ended = m.draws.trades && reached max_fills sim.fills_emitted;
      }

  unfoldable pub run_batch : List Delivery → Run S → Run S
  unfolding run_message
  run_batch [] r = r
  run_batch (m ∷ ms) r =
      let r' = run_message m r in let rest = run_batch ms r' in if r'.ended then r' else rest

  -- The loop over what the reads return; where the list ends the loop still waits.
  unfoldable pub run_reads : ℕ → List (List Delivery) → Run S → Run S
  unfolding run_batch
  run_reads idle [] r = r
  run_reads idle ([] ∷ reads) r =
      let rest = run_reads (idle + 1) reads r in
      if reached max_idle_reads (idle + 1) then record r { ended = true } else rest
  run_reads idle ((m ∷ ms) ∷ reads) r =
      let r' = run_batch (m ∷ ms) r in
      let rest = run_reads 0 reads r' in if r'.ended then r' else rest

  -- `run`
  unfoldable pub run : List (List Delivery) → Simulator S → Run S
  unfolding run_reads
  run reads s = run_reads 0 reads (record { sim = s; acked = []; ended = false })
