-- ===== src/Storage/Ticks/Timescale.antt =====
-- storage/timeseries_store.py, `TimescaleTickStore`: NUMERIC columns keep a Decimal as it is.
use post_trade_reconciliatio.Prelude.{
  ℕ, not, Option, List, [], ◌∷◌, ◌++◌, map, if◌then◌else◌, filter, length, is_empty,
}
use post_trade_reconciliatio.Prelude.Str.{Str}
use post_trade_reconciliatio.Prelude.Sorting.{SortBy}
use post_trade_reconciliatio.Models.{Tick}
use post_trade_reconciliatio.Storage.Rows.{TickRow}
use post_trade_reconciliatio.Storage.Ticks.{
  TickStore, Table, tick_row, is_listed, sequences_of, select_ticks,
}

abbrev pub row : Option Str → Tick → TickRow
row worker tick = tick_row (λ x. x) tick worker

unfoldable pub write_tick : Tick → Option Str → Table → Table
write_tick tick worker t = t ++ row worker tick ∷ []

-- One COPY for the batch.
unfoldable pub write_ticks_batch : List Tick → Option Str → Table → ℕ × Table
write_ticks_batch ticks worker t =
    if is_empty ticks then (0, t) else (length ticks, t ++ map (row worker) ticks)

-- DELETE … RETURNING sequence
unfoldable pub delete_sequences : Str → List ℕ → Table → List ℕ × Table
delete_sequences symbol sequences t = if is_empty sequences then ([], t) else (
  sequences_of (filter (is_listed symbol sequences) t),
  filter (λ r. not (is_listed symbol sequences r)) t,
)

abbrev pub store : SortBy → TickStore Table
store sql = record {
  write_tick = write_tick;
  write_ticks_batch = write_ticks_batch;
  count = length;
  delete_sequences = delete_sequences;
  read_ticks_df = select_ticks sql;
}
