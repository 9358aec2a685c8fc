-- ===== src/Workers.antt =====
-- workers/worker.py and workers/worker_pool.py: `run_worker` over what its reads return, and the
-- pool's results.
pub mod Batches
pub mod Progress
pub mod Pool
mod Tests
use post_trade_reconciliatio.Prelude.{
  ℕ, ◌+◌, ◌-◌, Bool, true, false, Option, none, some, List, [], ◌∷◌, ◌++◌, map, is_empty, length,
  take, leb, ltb, if◌then◌else◌,
}
use post_trade_reconciliatio.Prelude.Str.{Str}
use post_trade_reconciliatio.Models.{Tick}
use post_trade_reconciliatio.Storage.Ticks.{TickStore}
use post_trade_reconciliatio.Queue.{ConsumedMessage, ack_batch}

-- The loop goes on, has ended, or has raised.
pub data Status : Type 0 where
  going ended raised : Status

-- The local state of `run_worker`, with the store's state and the XACK calls of its consumer.
pub record Worker (S : Type 0) : Type 0 where
  pub store : S
  pub acks : List (List Str)
  pub processed : ℕ
  pub idle_reads : ℕ
  pub status : Status

-- What a read returns, or none if it raises, as where an entry fails validation; and whether a signal
-- has set `running` to False before the next test of it.
pub record Read : Type 0 where
  pub messages : Option (List ConsumedMessage)
  pub stop : Bool

-- `limit is not None and n >= limit`
abbrev pub at_limit : Option ℕ → ℕ → Bool
at_limit none n = false
at_limit (some limit) n = leb limit n

-- The messages of a read that are kept.
abbrev pub batch_of : Option ℕ → ℕ → List ConsumedMessage → List ConsumedMessage
batch_of none processed messages = messages
batch_of (some max_messages) processed messages =
    if ltb max_messages (processed + length messages)
    then take (max_messages - processed) messages
    else messages

-- `running`, after a signal or at a limit.
abbrev pub next_status : Bool → Bool → Status
next_status stop full = if stop then ended else if full then ended else going

abbrev pub start : {S : Type 0} → S → Worker S
start store = record { store = store; acks = []; processed = 0; idle_reads = 0; status = going }

-- The worker after the next rounds, if there are any.
abbrev pub while_going : {S : Type 0} → Status → Worker S → Worker S → Worker S
while_going going rest w = rest
while_going ended rest w = w
while_going raised rest w = w

module _ {S : Type 0} (tick_store : TickStore S) (max_messages max_idle_reads : Option ℕ)
    (consumer_name : Str) where
  -- What follows a read. `batch[0]` of the log line raises for an empty batch.
  unfoldable pub handle_read : Bool → List ConsumedMessage → Worker S → Worker S
  unfolding ack_batch
  handle_read stop messages w =
      if is_empty messages
      then (record w {
        idle_reads = w.idle_reads + 1;
        status = next_status stop (at_limit max_idle_reads (w.idle_reads + 1));
      })
      else let batch = batch_of max_messages w.processed messages in
        let (written, store) =
          tick_store.write_ticks_batch (map (λ m. m.tick) batch) (some consumer_name) w.store in
        let processed = w.processed + length batch in
        record {
          store = store;
          acks = ack_batch (map (λ m. m.message_id) batch) w.acks;
          processed = processed;
          idle_reads = 0;
          status =
              if is_empty batch then raised else next_status stop (at_limit max_messages processed);
        }

  abbrev pub round_of : Bool → Option (List ConsumedMessage) → Worker S → Worker S
  round_of stop none w = record w { status = raised }
  round_of stop (some messages) w = handle_read stop messages w

  -- One round of the loop; a read that raises ends the worker.
  unfoldable pub round : Read → Worker S → Worker S
  unfolding handle_read
  round r w = round_of r.stop r.messages w

  -- `while running`; where the list of reads ends the worker still waits.
  unfoldable pub rounds : List Read → Worker S → Worker S
  unfolding round
  rounds [] w = w
  rounds (r ∷ reads) w =
      let w' = round r w in let rest = rounds reads w' in while_going w'.status rest w'

  -- `run_worker`
  unfoldable pub run_worker : List Read → S → Worker S
  unfolding rounds
  run_worker reads store = rounds reads (start store)
