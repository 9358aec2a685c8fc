-- ===== src/Reconcile/Tests.antt =====
-- A concrete pandas and a small book, on which the properties of reconcile/reconciler.py are used.
use mathlib.Core.List.{mem-cons_self, mem-cons_of_mem}
use post_trade_reconciliatio.Prelude.{
  ℕ, ◌≡◌, ◌≢◌, refl, true, false, not, none, some, List, [], ◌∷◌, arith, count, if◌then◌else◌, map,
  ℕ_discrete,
}
use post_trade_reconciliatio.Prelude.Int.{pos, ◌+ℤ◌, ◌-ℤ◌}
use post_trade_reconciliatio.Prelude.Str.{Str, Str-discrete, str, str_eq, nat_eq}
use post_trade_reconciliatio.Prelude.Sorting.{stable_sort}
use post_trade_reconciliatio.Prelude.Distinct.{is_distinct-Nodup}
use post_trade_reconciliatio.Models.{Break, unmatched_fill, position_drift}
use post_trade_reconciliatio.Storage.Rows.{FillRow, PositionRow, TickRow}
use post_trade_reconciliatio.Storage.Book.{Book}
use post_trade_reconciliatio.Reconcile.{
  default_reconciler, find_unmatched_fills, find_position_drift, find_sequence_gaps,
}
use post_trade_reconciliatio.Reconcile.Specification.{
  is_matched, unmatched_spec, drift_spec, covers, is_missing,
}
use post_trade_reconciliatio.Reconcile.Drift.Runs.{IsBook}
use post_trade_reconciliatio.Reconcile.Drift.{find_position_drift_lem}
use post_trade_reconciliatio.Reconcile.Unmatched.{find_unmatched_fills_lem}
use post_trade_reconciliatio.Reconcile.Gaps.{find_sequence_gaps_lem}
use post_trade_reconciliatio.Reconcile.Flags.{flagged}
use post_trade_reconciliatio.Reconcile.Windows.{
  breaks, ticks_of, reconcile_symbol_exact, reconcile_symbol_margin,
}
use post_trade_reconciliatio.Reconcile.History.{reconcile_symbol_forgets}
use post_trade_reconciliatio.Reconcile.Concrete.{frames, btc}

abbrev fill : Str → ℕ → ℕ → ℕ → FillRow
fill id sequence quantity time = record {
  fill_id = id;
  order_id = str "sim-order-1";
  symbol = btc;
  sequence = sequence;
  price = pos 10_000_000_000;
  quantity = pos quantity;
  side = str "buy";
  time = pos time;
  is_planted_anomaly = false;
  anomaly_type = none;
}

abbrev tick : ℕ → ℕ → TickRow
tick sequence time = record {
  time = pos time;
  symbol = btc;
  sequence = sequence;
  price = pos 10_000_000_000;
  size = none;
  side = none;
  exchange = str "coinbase";
  channel = str "ticker";
  ingest_time = pos time;
  worker = none;
}

abbrev position : Str → ℕ → ℕ → PositionRow
position id quantity time = record {
  symbol = btc;
  time = pos time;
  quantity = pos quantity;
  avg_price = pos 10_000_000_000;
  last_fill_id = some id;
}

-- Fill "b" is the later one, though its row comes first.
abbrev fills : List FillRow
fills = fill (str "b") 2 300_000 20_000_000 ∷ fill (str "a") 1 200_000 10_000_000 ∷ []

abbrev ticks : List TickRow
ticks = tick 1 10_000_000 ∷ tick 5 11_000_000 ∷ tick 2 12_000_000 ∷ []

find_unmatched_fills_lem_example :
    find_unmatched_fills frames default_reconciler btc fills ticks
    ≡ unmatched_spec btc (pos 5_000_000) fills ticks
find_unmatched_fills_lem_example =
    find_unmatched_fills_lem frames default_reconciler btc fills ticks

fills-IsBook : IsBook fills
unfolding Str-discrete ℕ_discrete
fills-IsBook = record {
  ids = is_distinct-Nodup (map (λ f. f.fill_id) fills) refl;
  sequences = is_distinct-Nodup (map (λ f. f.sequence) fills) refl;
}

abbrev positions : List PositionRow
positions = position (str "b") 500_000 20_000_000 ∷ position (str "a") 300_000 10_000_000 ∷ []

find_position_drift_lem_example :
    find_position_drift frames default_reconciler btc fills positions
    ≡ drift_spec btc (pos 100) fills positions
find_position_drift_lem_example =
    find_position_drift_lem frames default_reconciler btc fills positions fills-IsBook

-- Sequences 3 and 4 are missing.
find_sequence_gaps_lem_example :
    (bs : List Break) × (find_sequence_gaps frames btc ticks ≡ some bs)
    × ((n : ℕ) → count (λ b. covers n b.detail) bs ≡ (if is_missing ticks n then 1 else 0))
find_sequence_gaps_lem_example = find_sequence_gaps_lem frames btc ticks

abbrev book : Book
book = record { fills = fills; positions = positions; planted_anomalies = []; next_id = 1 }

reconcile_symbol_exact_example :
    (bs : List Break) × (breaks stable_sort frames default_reconciler btc
        (pos 9_000_000)
        (pos 21_000_000)
        book
        ticks
      ≡ some bs)
    × (flagged unmatched_fill (str "b") bs
        ≡ not
            (is_matched (pos 5_000_000) (ticks_of btc ticks) (fill (str "b") 2 300_000 20_000_000)))
reconcile_symbol_exact_example =
    reconcile_symbol_exact stable_sort frames default_reconciler btc (pos 9_000_000)
      (pos 21_000_000) book ticks (fill (str "b") 2 300_000 20_000_000) fills-IsBook.ids
      mem-cons_self refl (omega arith) (omega arith) (omega arith)

-- The range begins at 15 s, so ticks are read from 10 s; the fill of 10 s has a tick at 8 s.
abbrev early_tick : List TickRow
early_tick = tick 1 8_000_000 ∷ tick 2 16_000_000 ∷ []

reconcile_symbol_margin_example :
    (bs : List Break) × (breaks stable_sort frames default_reconciler btc
        (pos 15_000_000)
        (pos 21_000_000)
        book
        early_tick
      ≡ some bs)
    × (flagged unmatched_fill (str "a") bs
        ≢ not (
            is_matched
              (pos 5_000_000)
              (ticks_of btc early_tick)
              (fill (str "a") 1 200_000 10_000_000)))
unfolding Str-discrete ℕ_discrete ◌-ℤ◌ ◌+ℤ◌
reconcile_symbol_margin_example =
    reconcile_symbol_margin stable_sort frames default_reconciler btc (pos 15_000_000)
      (pos 21_000_000) book early_tick (fill (str "a") 1 200_000 10_000_000) fills-IsBook.ids
      (mem-cons_of_mem _ mem-cons_self) refl (omega arith) (omega arith) refl refl

-- The range begins at 16 s, so fill "a" of 10 s is not read, and the position after "b" is right.
reconcile_symbol_forgets_example :
    (bs : List Break) × (breaks stable_sort frames default_reconciler btc
        (pos 16_000_000)
        (pos 21_000_000)
        book
        ticks
      ≡ some bs)
    × (flagged position_drift (str "b") bs ≡ true)
unfolding Str-discrete ℕ_discrete ◌-ℤ◌ ◌+ℤ◌
reconcile_symbol_forgets_example =
    reconcile_symbol_forgets stable_sort frames default_reconciler btc (pos 16_000_000)
      (pos 21_000_000) book ticks (fill (str "b") 2 300_000 20_000_000)
      (position (str "b") 500_000 20_000_000) fills-IsBook mem-cons_self refl mem-cons_self refl
      refl refl (omega arith)

abbrev eth : Str
eth = str "ETH-USD"
