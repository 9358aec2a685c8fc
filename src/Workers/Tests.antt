-- ===== src/Workers/Tests.antt =====
-- A worker with three messages at most, over two reads of two; and a pool of three.
use post_trade_reconciliatio.Prelude.{
  ℕ, ◌≡◌, refl, false, none, some, List, [], ◌∷◌, arith, if◌then◌else◌, ℕ_discrete,
}
use post_trade_reconciliatio.Prelude.Int.{pos}
use post_trade_reconciliatio.Prelude.Str.{Str, str, str_eq, same, Str-discrete}
use post_trade_reconciliatio.Prelude.Dict.{lookup}
use post_trade_reconciliatio.Prelude.Sorting.{stable_sort}
use post_trade_reconciliatio.Models.{Tick, simulated}
use post_trade_reconciliatio.Storage.Ticks.Timescale
use post_trade_reconciliatio.Queue.{ConsumedMessage, ack_batch}
use post_trade_reconciliatio.Workers.{Read, raised, start, run_worker}
use post_trade_reconciliatio.Workers.Progress.{IsRun, run_worker-IsRun}
use post_trade_reconciliatio.Workers.Pool.{collect}

abbrev tick : ℕ → Tick
tick sequence = record {
  symbol = str "BTC-USD";
  sequence = sequence;
  price = pos 100;
  size = none;
  side = none;
  exchange = simulated;
  channel = str "ticker";
  exchange_timestamp = pos 0;
  ingest_timestamp = pos 1;
}

abbrev message : ℕ → ConsumedMessage
message n = record { message_id = n ∷ []; tick = tick n }

abbrev reads : List Read
reads =
    (record { messages = some (message 1 ∷ message 2 ∷ []); stop = false })
    ∷ (record { messages = some []; stop = false })
    ∷ (record { messages = some (message 3 ∷ message 4 ∷ []); stop = false })
    ∷ []

run_worker-IsRun_example :
    IsRun stable_sort
      (some 3)
      (some 9)
      (str "worker-0")
      reads
      (start [])
      (run_worker (Timescale.store stable_sort) (some 3) (some 9) (str "worker-0") reads [])
run_worker-IsRun_example =
    run_worker-IsRun stable_sort (some 3) (some 9) (str "worker-0") reads [] (omega arith)

-- The fourth message is neither written nor acked.
acks_three :
    (run_worker (Timescale.store stable_sort) (some 3) (some 9) (str "worker-0") reads []).acks
    ≡ ((1 ∷ []) ∷ (2 ∷ []) ∷ []) ∷ ((3 ∷ []) ∷ []) ∷ []
unfolding run_worker ack_batch
acks_three = refl

-- With `max_messages=0` the log line of the first read raises.
raises_at_zero :
    (run_worker (Timescale.store stable_sort) (some 0) none (str "worker-0") reads []).status
    ≡ raised
unfolding run_worker
raises_at_zero = refl

abbrev result : Str → ℕ
result name = if same name (str "worker-1") then 7 else 4

-- The dict has what each worker that has ended returned.
collects :
    lookup (str "worker-1") (collect result (str "worker-2" ∷ str "worker-1" ∷ []) []) ≡ some 7
unfolding collect Str-discrete ℕ_discrete
collects = refl
