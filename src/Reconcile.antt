-- ===== src/Reconcile.antt =====
-- reconcile/reconciler.py: `Reconciler` and its three searches for breaks.
--
-- A DataFrame is the list of its rows. What the searches call of pandas is the parameter `Pandas`.
pub mod Frames
pub mod Specification
pub mod Unmatched
pub mod Drift
pub mod Gaps
pub mod Flags
pub mod Windows
pub mod History
pub mod Whole
pub mod Symbols
pub mod Concrete
mod Tests
use mathlib.Core.List.{zip}
use post_trade_reconciliatio.Prelude.{
  ℕ, suc, ◌+◌, ◌-◌, Bool, true, false, ◌||◌, Option, none, some, List, [], ◌∷◌, ◌++◌, map,
  if◌then◌else◌, is_empty, ltb,
}
use post_trade_reconciliatio.Prelude.Int.{ℤ, pos, ◌+ℤ◌, ◌-ℤ◌, neg, ltb_ℤ, abs}
use post_trade_reconciliatio.Prelude.Str.{Str, str, same, str_eq, nat_eq}
use post_trade_reconciliatio.Prelude.Dict.{Dict, keys, lookup, update}
use post_trade_reconciliatio.Prelude.Sorting.{SortBy, sorted}
use post_trade_reconciliatio.Models.{
  DateTime, TimeDelta, Decimal, Break, BreakType, Detail, unmatched_fill, position_drift,
  sequence_gap, no_observed_tick, position_differs, missing_ticks,
}
use post_trade_reconciliatio.Storage.Rows.{FillRow, PositionRow, TickRow}
use post_trade_reconciliatio.Storage.Book.{Book, read_fills_df, read_positions_df}
use post_trade_reconciliatio.Storage.Ticks.{TickStore}
use Frames.{Pandas}

pub record Reconciler : Type 0 where
  pub tick_match_window : TimeDelta
  pub position_drift_tolerance : Decimal

-- The defaults of `__init__`: 5 seconds, and 0.000001.
abbrev pub default_reconciler : Reconciler
default_reconciler = record {
  tick_match_window = pos 5_000_000;
  position_drift_tolerance = pos 100;
}

-- `None` where there is no tick; `nearest_delta is None or nearest_delta > window`.
abbrev pub too_far : TimeDelta → Option TimeDelta → Bool
too_far window none = true
too_far window (some delta) = ltb_ℤ window delta

abbrev pub unmatched_break : Str → TimeDelta → FillRow → Break
unmatched_break symbol window fill = record {
  break_type = unmatched_fill;
  symbol = symbol;
  detected_at = fill.time;
  detail = no_observed_tick fill.fill_id fill.time window;
  related_fill_id = some fill.fill_id;
  related_sequence = none;
}

abbrev pub drift_break : Str → PositionRow → Str → Decimal → Break
drift_break symbol pos_row fill_id expected = record {
  break_type = position_drift;
  symbol = symbol;
  detected_at = pos_row.time;
  detail = position_differs pos_row.quantity expected (abs (pos_row.quantity -ℤ expected)) fill_id;
  related_fill_id = some fill_id;
  related_sequence = none;
}

abbrev pub gap_break : Str → ℕ → ℕ → DateTime → Break
gap_break symbol prev curr time = record {
  break_type = sequence_gap;
  symbol = symbol;
  detected_at = time;
  detail = missing_ticks symbol prev curr (curr - prev - 1);
  related_fill_id = none;
  related_sequence = some (prev + 1);
}

-- `Decimal(str(qty)) if side == "buy" else -Decimal(str(qty))`
abbrev pub signed_quantity : FillRow → Decimal
signed_quantity fill = if same fill.side (str "buy") then fill.quantity else neg fill.quantity

-- `expected_by_fill.get(fill_id)`, where `fill_id` may be None.
abbrev pub expected_at : Dict Str Decimal → Option Str → Option (Str × Decimal)
expected_at expected none = none
expected_at expected (some fill_id) = elim (lookup fill_id expected) [
  | none ↦ none
  | some e ↦ some (fill_id, e)
]

abbrev pub drift_of : Str → Decimal → PositionRow → Option (Str × Decimal) → List Break → List Break
drift_of symbol tolerance p none rest = rest
drift_of symbol tolerance p (some (fill_id, expected)) rest =
    if ltb_ℤ tolerance (abs (p.quantity -ℤ expected))
    then drift_break symbol p fill_id expected ∷ rest
    else rest

unfoldable pub drift_loop : Str → Decimal → Dict Str Decimal → List PositionRow → List Break
drift_loop symbol tolerance expected [] = []
drift_loop symbol tolerance expected (p ∷ positions) =
    drift_of symbol tolerance p (expected_at expected p.last_fill_id)
      (drift_loop symbol tolerance expected positions)

-- The loop over `pairwise(seqs)`. `seq_time[curr]` raises on a missing key: `none`.
unfoldable pub gap_loop : Str → Dict ℕ DateTime → ℕ → List ℕ → Option (List Break)
gap_loop symbol seq_time prev [] = some []
gap_loop symbol seq_time prev (curr ∷ seqs) = elim (gap_loop symbol seq_time curr seqs) [
  | none ↦ none
  | some rest ↦
      if ltb 1 (curr - prev)
      then (elim (lookup curr seq_time) [
        | none ↦ none
        | some time ↦ some (gap_break symbol prev curr time ∷ rest)
      ])
      else some rest
]

abbrev pub pairwise_gaps : Str → Dict ℕ DateTime → List ℕ → Option (List Break)
pairwise_gaps symbol seq_time [] = some []
pairwise_gaps symbol seq_time (prev ∷ seqs) = gap_loop symbol seq_time prev seqs

module _ (pd : Pandas) where
  unfoldable pub nearest_delta : List DateTime → DateTime → Option TimeDelta
  nearest_delta tick_times fill_time =
      if is_empty tick_times
      then none
      else some (pd.series_min (map (λ t. abs (t -ℤ fill_time)) tick_times))

  unfoldable pub unmatched_loop : Str → TimeDelta → List DateTime → List FillRow → List Break
  unfolding nearest_delta
  unmatched_loop symbol window tick_times [] = []
  unmatched_loop symbol window tick_times (fill ∷ fills) =
      let rest = unmatched_loop symbol window tick_times fills in
      if too_far window (nearest_delta tick_times fill.time)
      then unmatched_break symbol window fill ∷ rest
      else rest

  -- `_find_unmatched_fills`
  unfoldable pub find_unmatched_fills : Reconciler → Str → List FillRow → List TickRow → List Break
  unfolding unmatched_loop
  find_unmatched_fills r symbol fills_df ticks_df =
      if is_empty fills_df
      then []
      else unmatched_loop symbol r.tick_match_window (map (λ t. t.time) ticks_df) fills_df

  -- The expected position after each fill, in the order of execution.
  unfoldable pub expected_by_fill : List FillRow → Dict Str Decimal
  expected_by_fill fills_df =
      let fills_sorted = pd.sort_values FillRow (λ f. f.sequence) fills_df in
      update []
        (zip (map (λ f. f.fill_id) fills_sorted) (pd.cumsum (map signed_quantity fills_sorted)))

  -- `_find_position_drift`
  unfoldable pub find_position_drift :
      Reconciler → Str → List FillRow → List PositionRow → List Break
  unfolding drift_loop expected_by_fill
  find_position_drift r symbol fills_df positions_df =
      if is_empty fills_df || is_empty positions_df
      then []
      else drift_loop symbol r.position_drift_tolerance (expected_by_fill fills_df) positions_df

  -- `dict(zip(df["sequence"], df["time"]))`
  unfoldable pub sequence_times : List TickRow → Dict ℕ DateTime
  sequence_times ticks_df =
      let df = pd.sort_values TickRow (λ t. t.sequence) ticks_df in
      update [] (zip (map (λ t. t.sequence) df) (map (λ t. t.time) df))

  -- `_find_sequence_gaps`
  unfoldable pub find_sequence_gaps : Str → List TickRow → Option (List Break)
  unfolding gap_loop sequence_times sorted
  find_sequence_gaps symbol ticks_df =
      if is_empty ticks_df
      then some []
      else let seq_time = sequence_times ticks_df in
        pairwise_gaps symbol seq_time (sorted (keys seq_time))

-- `symbol`'s rows: fills and ticks from the range widened by the window, positions from the range.
module _ (sql : SortBy) (pd : Pandas) {S : Type 0} (tick_store : TickStore S) where
  -- `reconcile_symbol`
  unfoldable pub reconcile_symbol :
      Reconciler → Book → S → Str → DateTime → DateTime → Option (List Break)
  reconcile_symbol r book ticks symbol start end =
      let w = r.tick_match_window in
      let fills_df = read_fills_df sql book symbol (start -ℤ w) (end +ℤ w) in
      let ticks_df = tick_store.read_ticks_df symbol (start -ℤ w) (end +ℤ w) ticks in
      let positions_df = read_positions_df sql book symbol start end in
      let unmatched = find_unmatched_fills pd r symbol fills_df ticks_df in
      let drift = find_position_drift pd r symbol fills_df positions_df in
      elim (find_sequence_gaps pd symbol ticks_df) [
        | none ↦ none
        | some gaps ↦ some (unmatched ++ drift ++ gaps)
      ]

  -- `reconcile_all`
  unfoldable pub reconcile_all :
      Reconciler → Book → S → List Str → DateTime → DateTime → Option (List Break)
  reconcile_all r book ticks [] start end = some []
  reconcile_all r book ticks (symbol ∷ symbols) start end =
      elim (reconcile_symbol r book ticks symbol start end) [
        | none ↦ none
        | some breaks ↦ elim (reconcile_all r book ticks symbols start end) [
          | none ↦ none
          | some rest ↦ some (breaks ++ rest)
        ]
      ]
