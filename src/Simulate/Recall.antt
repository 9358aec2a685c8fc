-- ===== src/Simulate/Recall.antt =====
-- The drifts that reconcile/reconciler.py reports against those that
-- simulate/trade_book_simulator.py has planted, fill by fill.
use mathlib.Core.List.{Mem, mem-cons_self, mem-cons_of_mem, Nodup}
use post_trade_reconciliatio.Prelude.{
  ◌≡◌, refl, sym, ap, ◌∙◌, Bool, false, ◌&&◌, Option, none, some, List, [], ◌∷◌, map, filter,
  filter-filter, any, arith, All, All-map, inl, inr, Bool-cases,
}
use post_trade_reconciliatio.Prelude.Int.{pos, ◌≤ℤ◌, ◌<ℤ◌}
use post_trade_reconciliatio.Prelude.Str.{Str, Str-discrete, same, str_eq}
use post_trade_reconciliatio.Models.{BreakType, unmatched_fill, position_drift, sequence_gap}
use post_trade_reconciliatio.Storage.Rows.{FillRow, PositionRow}
use post_trade_reconciliatio.Storage.Ticks.{TickStore}
use post_trade_reconciliatio.Reconcile.{Reconciler, find_position_drift}
use post_trade_reconciliatio.Reconcile.Frames.{Pandas}
use post_trade_reconciliatio.Reconcile.Flags.{any_unique}
use post_trade_reconciliatio.Simulate.{Simulator}
use post_trade_reconciliatio.Simulate.Nets.{of_symbol}
use post_trade_reconciliatio.Simulate.Consistent.{IsRecorded}
use post_trade_reconciliatio.Simulate.Recorded.{IsReachable, IsReachable-IsConsistent}
use post_trade_reconciliatio.Simulate.Found.{
  is_drift, has_drift, has_planted_drift, positions_of, fill_of-recorded,
  find_position_drift-finds_planted,
}
use post_trade_reconciliatio.Simulate.Positions.{
  is_recorded, recorded_ids, position_ids, IsReachable-IsPaired,
}

-- A drift of the symbol was planted with the fill.
abbrev drifts : Str → FillRow → Bool
drifts symbol f = same f.symbol symbol && is_drift f.anomaly_type

abbrev drifts_id : Str → List FillRow → Option Str → Bool
drifts_id symbol fills none = false
drifts_id symbol fills (some id) = any (λ g. drifts symbol g && same g.fill_id id) fills

drift-recorded : (kind : Option BreakType) → is_recorded kind ≡ false → is_drift kind ≡ false
drift-recorded none e = refl
drift-recorded (some unmatched_fill) e = refl
drift-recorded (some position_drift) e = ground arith
drift-recorded (some sequence_gap) e = refl

module _ (symbol : Str) (fills : List FillRow) (ids : Nodup (map (λ f. f.fill_id) fills)) where
  by_position :
      (positions : List PositionRow)
      → All (IsRecorded fills) positions
      → map
          (λ p. p.last_fill_id)
          (filter (has_planted_drift (of_symbol symbol fills)) (positions_of symbol positions))
        ≡ filter (drifts_id symbol fills) (position_ids positions)
  by_position [] h = refl
  by_position (p ∷ positions) h =
      let k = h.0 in
      let unique = any_unique (drifts symbol) fills k.fill ids k.stored in
      elim (Str-discrete p.symbol symbol) [
        | yes e ↦
            let planted = ap has_drift (fill_of-recorded fills ids symbol p k e) in
            ground (arith, planted, unique, k.is_last, k.is_symbols, by_position positions h.1)
        | no e ↦ ground (arith, unique, k.is_last, k.is_symbols, by_position positions h.1)
      ]

  by_fill :
      (some_fills : List FillRow)
      → All (λ f. Mem f fills) some_fills
      → filter (drifts_id symbol fills) (recorded_ids some_fills)
        ≡ map (λ f. some f.fill_id) (filter (drifts symbol) some_fills)
  by_fill [] h = refl
  by_fill (f ∷ some_fills) h =
      let unique = any_unique (drifts symbol) fills f ids h.0 in
      elim (Bool-cases (is_recorded f.anomaly_type)) [
        | inl e ↦ ground (arith, e, unique, by_fill some_fills h.1)
        | inr e ↦ ground (arith, e, drift-recorded f.anomaly_type e, by_fill some_fills h.1)
      ]

All-mem : (fills : List FillRow) → All (λ f. Mem f fills) fills
All-mem [] = tt
All-mem (f ∷ fills) = (mem-cons_self, All-map fills (λ g m. mem-cons_of_mem f m) (All-mem fills))

-- In every state that a new simulator reaches from an empty book with new fill ids and drifts of at
-- least 0.01, the drift search over all of a symbol's fills and positions, with a tolerance from 0
-- and below 0.01, flags exactly the fills that a drift was planted with, each once and in the order
-- of the fills.
pub find_position_drift-flags_planted :
    {S : Type 0} (store : TickStore S) (s : Simulator S) (pd : Pandas) (r : Reconciler)
    (symbol : Str)
    → IsReachable store s
    → pos 0 ≤ℤ r.position_drift_tolerance
    → r.position_drift_tolerance <ℤ pos 1_000_000
    → map
        (λ b. b.related_fill_id)
        (find_position_drift pd r symbol
          (of_symbol symbol s.book.fills)
          (positions_of symbol s.book.positions))
      ≡ map
          (λ f. some f.fill_id)
          (filter (λ f. is_drift f.anomaly_type) (of_symbol symbol s.book.fills))
find_position_drift-flags_planted store s pd r symbol reachable lo hi =
    let h = IsReachable-IsConsistent store s reachable in
    let fills = s.book.fills in
    find_position_drift-finds_planted store s pd r symbol reachable lo hi
    ∙ by_position symbol fills h.ids s.book.positions h.recorded
    ∙ ap (filter (drifts_id symbol fills)) (IsReachable-IsPaired store s reachable)
    ∙ by_fill symbol fills h.ids fills (All-mem fills)
    ∙ ap (map (λ f. some f.fill_id)) (
        sym (
          filter-filter (λ f. is_drift f.anomaly_type) (λ (f : FillRow). same f.symbol symbol)
            fills))
