-- ===== src/Simulate/Concrete.antt =====
-- A concrete run of simulate/trade_book_simulator.py: two messages, the second with a planted drift.
use post_trade_reconciliatio.Prelude.{ℕ, ◌*◌, refl, true, false, Option, none, some, [], arith}
use post_trade_reconciliatio.Prelude.Int.{pos}
use post_trade_reconciliatio.Prelude.Str.{Str, str, Str-discrete}
use post_trade_reconciliatio.Prelude.Sorting.{stable_sort}
use post_trade_reconciliatio.Models.{Tick, BreakType, position_drift, simulated}
use post_trade_reconciliatio.Storage.Book.{empty_book, write_position, fill_row}
use post_trade_reconciliatio.Storage.Ticks.{TickStore, Table}
use post_trade_reconciliatio.Storage.Ticks.Timescale
use post_trade_reconciliatio.Reconcile.Concrete.{btc}
use post_trade_reconciliatio.Simulate.{Simulator, Draws, fresh, handle}
use post_trade_reconciliatio.Simulate.Recorded.{IsReachable, starts, handles}

abbrev pub tick_at : ℕ → ℕ → Tick
tick_at sequence price = record {
  symbol = btc;
  sequence = sequence;
  price = pos price;
  size = none;
  side = none;
  exchange = simulated;
  channel = str "ticker";
  exchange_timestamp = pos (sequence * 1_000_000);
  ingest_timestamp = pos (sequence * 1_000_000);
}

abbrev pub draws : Str → Option BreakType → Draws
draws fill_id anomaly = record {
  trades = true;
  quantity = pos 50_000_000;
  fill_id = fill_id;
  anomaly = anomaly;
  is_later = true;
  drift_size = pos 1_000_000;
  drift_up = false;
  start_idx = 1;
  gap_length = 2;
}

abbrev pub store : TickStore Table
store = Timescale.store stable_sort

abbrev pub after_two : Simulator Table
after_two =
    handle store (tick_at 2 101) (draws (str "b") (some position_drift))
      (handle store (tick_at 1 100) (draws (str "a") none) (fresh empty_book []))

pub after_two-IsReachable : IsReachable store after_two
unfolding handle Str-discrete write_position fill_row
after_two-IsReachable =
    handles (tick_at 2 101) (draws (str "b") (some position_drift))
      (handles (tick_at 1 100) (draws (str "a") none) (starts []) refl (omega arith)) refl
      (omega arith)
