-- ===== src/Simulate/Found.antt =====
-- reconcile/reconciler.py on a book that simulate/trade_book_simulator.py has written: the drift
-- search against the planted drifts.
use mathlib.Core.List.{Mem, Mem-prop, mem-cons, mem-cons_of_mem, Nodup, Nodup-cons}
use mathlib.Core.Logic.Or
use post_trade_reconciliatio.Prelude.{
  ◌≡◌, refl, ap, ◌∙◌, Bool, true, false, Option, none, some, List, [], ◌∷◌, map, arith, All, filter,
  inl, inr, Bool-cases, mem-filter,
}
use post_trade_reconciliatio.Prelude.Int.{pos, ◌+ℤ◌, ◌-ℤ◌, ◌≤ℤ◌, ◌<ℤ◌, ltb_ℤ, abs, int_laws}
use post_trade_reconciliatio.Prelude.Str.{Str, Str-discrete, same, str_eq}
use post_trade_reconciliatio.Models.{
  Decimal, BreakType, unmatched_fill, position_drift, sequence_gap,
}
use post_trade_reconciliatio.Storage.Rows.{FillRow, PositionRow}
use post_trade_reconciliatio.Storage.Ticks.{TickStore}
use post_trade_reconciliatio.Reconcile.{Reconciler, find_position_drift}
use post_trade_reconciliatio.Reconcile.Frames.{Pandas}
use post_trade_reconciliatio.Reconcile.Specification.{position_at, fill_of, drift_spec}
use post_trade_reconciliatio.Reconcile.Drift.Runs.{IsBook, mem-fill_with}
use post_trade_reconciliatio.Reconcile.Drift.{find_position_drift_lem}
use post_trade_reconciliatio.Simulate.{Simulator}
use post_trade_reconciliatio.Simulate.Nets.{of_symbol}
use post_trade_reconciliatio.Simulate.Consistent.{Core, IsError, IsRecorded, IsConsistent}
use post_trade_reconciliatio.Simulate.Recorded.{IsReachable, IsReachable-IsConsistent}

-- A drift was planted with the fill.
abbrev pub is_drift : Option BreakType → Bool
is_drift none = false
is_drift (some unmatched_fill) = false
is_drift (some position_drift) = true
is_drift (some sequence_gap) = false

abbrev pub has_drift : Option FillRow → Bool
has_drift none = false
has_drift (some f) = is_drift f.anomaly_type

-- A drift was planted with the fill that the position row names.
abbrev pub has_planted_drift : List FillRow → PositionRow → Bool
has_planted_drift fills p = has_drift (fill_of p.last_fill_id fills)

abbrev pub positions_of : Str → List PositionRow → List PositionRow
positions_of symbol = filter (λ p. same p.symbol symbol)

mem-of_filter :
    (q : FillRow → Bool) (x : Str) (fills : List FillRow)
    → Mem x (map (λ f. f.fill_id) (filter q fills))
    → Mem x (map (λ f. f.fill_id) fills)
mem-of_filter q x [] m = m
mem-of_filter q x (f ∷ fills) m = elim (Bool-cases (q f)) [
  | inl e ↦
      let split : Mem x (f.fill_id ∷ map (λ g. g.fill_id) (filter q fills)) = rw e at m in
      Or.elim Mem-prop (mem-cons.0 split) (λ here. mem-cons.1 (Or.inl here))
        (λ later. mem-cons_of_mem f.fill_id (mem-of_filter q x fills later))
  | inr e ↦
      let later : Mem x (map (λ g. g.fill_id) (filter q fills)) = rw e at m in
      mem-cons_of_mem f.fill_id (mem-of_filter q x fills later)
]

Nodup-filter :
    (q : FillRow → Bool) (fills : List FillRow)
    → Nodup (map (λ f. f.fill_id) fills)
    → Nodup (map (λ f. f.fill_id) (filter q fills))
Nodup-filter q [] h = h
Nodup-filter q (f ∷ fills) h =
    let (new, rest) = Nodup-cons.0 h in
    elim (Bool-cases (q f)) [
      | inl e ↦
          rw e (
            Nodup-cons.1
              ((λ m. new (mem-of_filter q f.fill_id fills m)), Nodup-filter q fills rest))
      | inr e ↦ rw e (Nodup-filter q fills rest)
    ]

-- What the test of the tolerance makes of a planted error.
exceeds :
    (tolerance q x error : Decimal) (kind : Option BreakType)
    → pos 0 ≤ℤ tolerance
    → tolerance <ℤ pos 1_000_000
    → q ≡ x +ℤ error
    → IsError kind error
    → ltb_ℤ tolerance (abs (q -ℤ x)) ≡ is_drift kind
exceeds tolerance q x error none lo hi e k = grind (arith, int_laws)
exceeds tolerance q x error (some unmatched_fill) lo hi e k = grind (arith, int_laws)
exceeds tolerance q x error (some position_drift) lo hi e k = grind (arith, int_laws)
exceeds tolerance q x error (some sequence_gap) lo hi e k = grind (arith, int_laws)

module _ (fills : List FillRow) (ids : Nodup (map (λ f. f.fill_id) fills)) (symbol : Str) where
  -- The fill of a recorded position is found by its id among the symbol's fills.
  pub fill_of-recorded :
      (p : PositionRow) (k : IsRecorded fills p)
      → p.symbol ≡ symbol
      → fill_of p.last_fill_id (of_symbol symbol fills) ≡ some k.fill
  fill_of-recorded p k e =
      let symbols : same k.fill.symbol symbol ≡ true = ground (arith, k.is_symbols) in
      ap (λ o. fill_of o (of_symbol symbol fills)) k.is_last
      ∙ mem-fill_with (of_symbol symbol fills) k.fill
          (Nodup-filter (λ f. same f.symbol symbol) fills ids)
          (mem-filter (λ (f : FillRow). same f.symbol symbol) k.fill fills k.stored symbols)

  module _ (tolerance : Decimal) (lo : pos 0 ≤ℤ tolerance) (hi : tolerance <ℤ pos 1_000_000) where
    drift_spec-finds :
        (positions : List PositionRow)
        → All (IsRecorded fills) positions
        → map
            (λ b. b.related_fill_id)
            (drift_spec symbol tolerance (of_symbol symbol fills) (positions_of symbol positions))
          ≡ map
              (λ p. p.last_fill_id)
              (filter (has_planted_drift (of_symbol symbol fills)) (positions_of symbol positions))
    drift_spec-finds [] h = refl
    drift_spec-finds (p ∷ positions) h = elim (Str-discrete p.symbol symbol) [
      | yes e ↦
          let k = h.0 in
          let fs = of_symbol symbol fills in
          let is_symbol : same p.symbol symbol ≡ true = ground arith in
          let at = position_at fs k.fill.sequence in
          let off =
            exceeds tolerance p.quantity at k.error k.fill.anomaly_type lo hi
              (k.quantity ∙ ap (λ s. position_at (of_symbol s fills) k.fill.sequence +ℤ k.error) e)
              k.planted in
          rw (is_symbol, fill_of-recorded p k e, off)
            (ground (arith, k.is_last, drift_spec-finds positions h.1))
      | no e ↦ ground (arith, drift_spec-finds positions h.1)
    ]

pub of_symbol-IsBook :
    {c : Core} (symbol : Str) → IsConsistent c → IsBook (of_symbol symbol c.fills)
of_symbol-IsBook {c = c} symbol h = record {
  ids = Nodup-filter (λ f. same f.symbol symbol) c.fills h.ids;
  sequences = h.sequences symbol;
}

-- In every state that the simulator reaches (new fill ids, drifts of at least 0.01), the drift
-- search over all of a symbol's fills and positions, with a tolerance from 0 and below 0.01, flags
-- the fills of exactly the positions that a drift was planted in, in their order.
pub find_position_drift-finds_planted :
    {S : Type 0} (store : TickStore S) (s : Simulator S) (pd : Pandas) (r : Reconciler)
    (symbol : Str)
    → IsReachable store s
    → pos 0 ≤ℤ r.position_drift_tolerance
    → r.position_drift_tolerance <ℤ pos 1_000_000
    → map
        (λ b. b.related_fill_id)
        (find_position_drift pd r symbol
          (of_symbol symbol s.book.fills)
          (positions_of symbol s.book.positions))
      ≡ map
          (λ p. p.last_fill_id)
          (filter
            (has_planted_drift (of_symbol symbol s.book.fills))
            (positions_of symbol s.book.positions))
find_position_drift-finds_planted store s pd r symbol reachable lo hi =
    let h = IsReachable-IsConsistent store s reachable in
    let book = s.book in
    rw
      (find_position_drift_lem pd r symbol (of_symbol symbol book.fills)
        (positions_of symbol book.positions) (of_symbol-IsBook symbol h))
      (drift_spec-finds book.fills h.ids symbol r.position_drift_tolerance lo hi book.positions
        h.recorded)
