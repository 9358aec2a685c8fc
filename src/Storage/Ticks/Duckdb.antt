-- ===== src/Storage/Ticks/Duckdb.antt =====
-- storage/timeseries_store.py, `DuckDBTickStore`. DOUBLE columns keep `float(x)`, the parameter
-- `to_double`, for a price or size `x`. A TIMESTAMP column keeps the wall clock of the session's zone
-- and no zone, so that its times are not those that TIMESTAMPTZ gives, and no row of this store is a
-- row of a `TickStore`.
use mathlib.Core.List.{Perm}
use mathlib.Core.Option
use post_trade_reconciliatio.Prelude.{
  ℕ, ◌≡◌, Bool, not, ◌&&◌, Option, List, [], ◌∷◌, ◌++◌, map, if◌then◌else◌, filter, any, length,
  is_empty,
}
use post_trade_reconciliatio.Prelude.Int.{ℤ}
use post_trade_reconciliatio.Prelude.Str.{Str, same, str_eq, nat_eq}
use post_trade_reconciliatio.Prelude.Sorting.{SortBy}
use post_trade_reconciliatio.Models.{Tick, Decimal, DateTime, side_value, exchange_value}
use post_trade_reconciliatio.Storage.Book.{in_range}
use post_trade_reconciliatio.Storage.Ticks.{TickWrites}

-- A time without a zone, in microseconds of its wall clock.
pub record LocalTime : Type 0 where
  pub clock : ℤ

-- What the store relies on of its DuckDB session: the casts between TIMESTAMPTZ and TIMESTAMP, which
-- are inverse where the zone repeats no hour, as UTC, and the order of a SELECT without ORDER BY.
pub record Session : Type 1 where
  pub local : DateTime → LocalTime
  pub instant : LocalTime → DateTime
  pub instant-local : (t : DateTime) → instant (local t) ≡ t
  pub scan : List ℕ → List ℕ
  pub scan_perm : (sequences : List ℕ) → Perm (scan sequences) sequences

pub record LocalRow : Type 0 where
  pub time : LocalTime
  pub symbol : Str
  pub sequence : ℕ
  pub price : Decimal
  pub size : Option Decimal
  pub side : Option Str
  pub exchange : Str
  pub channel : Str
  pub ingest_time : LocalTime
  pub worker : Option Str

abbrev pub LocalTable : Type 0
LocalTable = List LocalRow

-- `symbol = ? AND sequence IN (…)`
abbrev pub is_listed : Str → List ℕ → LocalRow → Bool
is_listed symbol sequences r = same r.symbol symbol && any (same r.sequence) sequences

-- DELETE … WHERE symbol = ? AND sequence IN (…)
unfoldable pub delete_rows : Str → List ℕ → LocalTable → LocalTable
delete_rows symbol sequences = filter (λ r. not (is_listed symbol sequences r))

module _ (to_double : Decimal → Decimal) (session : Session) where
  -- SELECT sequence … WHERE symbol = ? AND sequence IN (…)
  unfoldable pub select_sequences : Str → List ℕ → LocalTable → List ℕ
  select_sequences symbol sequences t =
      session.scan (map (λ r. r.sequence) (filter (is_listed symbol sequences) t))

  unfoldable pub delete_sequences : Str → List ℕ → LocalTable → List ℕ × LocalTable
  unfolding select_sequences delete_rows
  delete_sequences symbol sequences t =
      if is_empty sequences
      then ([], t)
      else let deleted = select_sequences symbol sequences t in
        (deleted, delete_rows symbol sequences t)

  -- The values of the INSERT.
  abbrev pub row : Option Str → Tick → LocalRow
  row worker tick = record {
    time = session.local tick.exchange_timestamp;
    symbol = tick.symbol;
    sequence = tick.sequence;
    price = to_double tick.price;
    size = Option.map to_double tick.size;
    side = Option.map side_value tick.side;
    exchange = exchange_value tick.exchange;
    channel = tick.channel;
    ingest_time = session.local tick.ingest_timestamp;
    worker = worker;
  }

  unfoldable pub write_tick : Tick → Option Str → LocalTable → LocalTable
  write_tick tick worker t = t ++ row worker tick ∷ []

  -- `executemany` inserts the rows one after another.
  unfoldable pub insert_rows : List LocalRow → LocalTable → LocalTable
  insert_rows [] t = t
  insert_rows (r ∷ rows) t = insert_rows rows (t ++ r ∷ [])

  unfoldable pub write_ticks_batch : List Tick → Option Str → LocalTable → ℕ × LocalTable
  unfolding insert_rows
  write_ticks_batch ticks worker t =
      if is_empty ticks then (0, t) else (length ticks, insert_rows (map (row worker) ticks) t)

  abbrev pub writes : TickWrites LocalTable
  writes = record {
    write_tick = write_tick;
    write_ticks_batch = write_ticks_batch;
    count = length;
    delete_sequences = delete_sequences;
  }

  -- `read_ticks_df`: a bound has a zone, so the column is cast to TIMESTAMPTZ for it.
  unfoldable pub read_ticks_df : SortBy → Str → DateTime → DateTime → LocalTable → List LocalRow
  read_ticks_df sql symbol start end t =
      sql.sort_by LocalRow (λ r. r.time.clock)
        (filter (λ r. in_range symbol start end r.symbol (session.instant r.time)) t)
