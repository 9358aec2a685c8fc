-- ===== src/Storage/Ticks.antt =====
-- storage/timeseries_store.py: the `TickStore` protocol and its two stores over a table of ticks.
-- `ORDER BY` is the parameter `sql`.
-- A column's type acts on the values that it keeps: NUMERIC keeps a Decimal, DOUBLE rounds it.
pub mod Timescale
pub mod Duckdb
pub mod Laws
pub mod Agree
use post_trade_reconciliatio.Prelude.{
  ℕ, Bool, true, false, not, ◌&&◌, Option, none, some, List, [], ◌∷◌, ◌++◌, map, if◌then◌else◌,
  filter, any, length, is_empty,
}
use mathlib.Core.Option
use post_trade_reconciliatio.Prelude.Str.{Str, same, str_eq, nat_eq}
use post_trade_reconciliatio.Prelude.Sorting.{SortBy}
use post_trade_reconciliatio.Models.{Decimal, DateTime, Tick, side_value, exchange_value}
use post_trade_reconciliatio.Storage.Rows.{TickRow}
use post_trade_reconciliatio.Storage.Book.{in_range}

-- The methods of the protocol that write or count, over a store's state `S`; a method that writes
-- returns the new state.
pub record TickWrites (S : Type 0) : Type 0 where
  pub write_tick : Tick → Option Str → S → S
  pub write_ticks_batch : List Tick → Option Str → S → ℕ × S
  pub count : S → ℕ
  pub delete_sequences : Str → List ℕ → S → List ℕ × S

-- The protocol, of a store whose read gives times with a zone, as the reconciler needs to subtract the
-- times of fills from them.
pub record TickStore (S : Type 0) : Type 0 where
  pub write_tick : Tick → Option Str → S → S
  pub write_ticks_batch : List Tick → Option Str → S → ℕ × S
  pub count : S → ℕ
  pub delete_sequences : Str → List ℕ → S → List ℕ × S
  pub read_ticks_df : Str → DateTime → DateTime → S → List TickRow

abbrev pub writes_of : {S : Type 0} → TickStore S → TickWrites S
writes_of store = record {
  write_tick = store.write_tick;
  write_ticks_batch = store.write_ticks_batch;
  count = store.count;
  delete_sequences = store.delete_sequences;
}

abbrev pub Table : Type 0
Table = List TickRow

-- The values of the INSERT and of a COPY row.
unfoldable pub tick_row : (Decimal → Decimal) → Tick → Option Str → TickRow
tick_row column tick worker = record {
  time = tick.exchange_timestamp;
  symbol = tick.symbol;
  sequence = tick.sequence;
  price = column tick.price;
  size = Option.map column tick.size;
  side = Option.map side_value tick.side;
  exchange = exchange_value tick.exchange;
  channel = tick.channel;
  ingest_time = tick.ingest_timestamp;
  worker = worker;
}

-- `symbol = … AND sequence = ANY(…)`
abbrev pub is_listed : Str → List ℕ → TickRow → Bool
is_listed symbol sequences r = same r.symbol symbol && any (same r.sequence) sequences

abbrev pub sequences_of : Table → List ℕ
sequences_of = map (λ r. r.sequence)

-- The SELECT of `read_ticks_df`.
unfoldable pub select_ticks : SortBy → Str → DateTime → DateTime → Table → List TickRow
select_ticks sql symbol start end t =
    sql.sort_by TickRow (λ r. r.time) (filter (λ r. in_range symbol start end r.symbol r.time) t)
