-- ===== src/Storage/Tests.antt =====
-- The stores of src/posttrade/storage on small tables.
use mathlib.Core.List.{Perm, Nodup, Nodup-nil}
use mathlib.Core.List.Perm
use post_trade_reconciliatio.Prelude.{
  ℕ, ◌*◌, ◌≡◌, refl, false, ◌||◌, none, some, List, [], ◌∷◌, map, any,
}
use post_trade_reconciliatio.Prelude.Int.{pos}
use post_trade_reconciliatio.Prelude.Str.{Str, str, same, str_eq}
use post_trade_reconciliatio.Prelude.Sorting.{stable_sort}
use post_trade_reconciliatio.Models.{Tick, Fill, Decimal, buy, simulated}
use post_trade_reconciliatio.Storage.Book.{empty_book, has_fill}
use post_trade_reconciliatio.Storage.Keys.{ids, write_fills, write_fills-keys}
use post_trade_reconciliatio.Storage.Ticks.{Table}
use post_trade_reconciliatio.Storage.Ticks.Timescale
use post_trade_reconciliatio.Storage.Ticks.Duckdb
use post_trade_reconciliatio.Storage.Ticks.Duckdb.{Session}
use post_trade_reconciliatio.Storage.Ticks.Agree.{
  Call, write, write_batch, delete, count_rows, store_all, read_ticks_df-store_all,
}

abbrev eth : Str
eth = str "ETH-USD"

abbrev tick : ℕ → Tick
tick sequence = record {
  symbol = eth;
  sequence = sequence;
  price = pos 210_000_000_001;
  size = none;
  side = some buy;
  exchange = simulated;
  channel = str "ticker";
  exchange_timestamp = pos (sequence * 1_000_000);
  ingest_timestamp = pos (sequence * 1_000_000);
}

abbrev table : Table
table = map (Timescale.row none) (tick 1 ∷ tick 2 ∷ tick 3 ∷ tick 2 ∷ [])

-- A rounding that loses the price.
abbrev to_zero : Decimal → Decimal
to_zero x = pos 0

abbrev calls : List Call
calls =
    write (tick 7) (some (str "worker-1"))
    ∷ write_batch (tick 8 ∷ []) none
    ∷ delete eth (2 ∷ 7 ∷ [])
    ∷ count_rows
    ∷ []

-- A session in UTC, whose SELECT gives the rows in the order of the table.
abbrev utc : Session
utc = record {
  local = λ t. record { clock = t };
  instant = λ t. t.clock;
  instant-local = λ t. refl;
  scan = λ sequences. sequences;
  scan_perm = λ sequences. Perm.refl sequences;
}

read_ticks_df-store_all_example :
    Perm
      (Duckdb.read_ticks_df to_zero utc stable_sort eth
        (pos 0)
        (pos 2_000_000)
        (store_all to_zero utc table))
      (store_all to_zero utc
        ((Timescale.store stable_sort).read_ticks_df eth (pos 0) (pos 2_000_000) table))
read_ticks_df-store_all_example =
    read_ticks_df-store_all to_zero utc stable_sort eth (pos 0) (pos 2_000_000) table

abbrev fill : Str → Fill
fill id = record {
  fill_id = id;
  order_id = str "sim-order-1";
  symbol = eth;
  sequence = 1;
  price = pos 210_000_000_000;
  quantity = pos 10_000_000;
  side = buy;
  timestamp = pos 0;
  is_planted_anomaly = false;
  anomaly_type = none;
}

abbrev fills : List Fill
fills = fill (str "a") ∷ fill (str "b") ∷ fill (str "a") ∷ []

write_fills-keys_example :
    Nodup (ids (write_fills fills empty_book))
    × ((k : Str)
        → has_fill k (write_fills fills empty_book).fills
          ≡ has_fill k empty_book.fills || any (λ f. same f.fill_id k) fills)
write_fills-keys_example = write_fills-keys fills empty_book Nodup-nil
