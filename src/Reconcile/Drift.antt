-- ===== src/Reconcile/Drift.antt =====
-- `_find_position_drift` of reconcile/reconciler.py against its specification.
pub mod Runs
use mathlib.Core.List.{
  zip, Perm, Mem, Nodup, Nodup-cons, mem-cons, not-mem-nil, mem-cons_self, mem-cons_of_mem,
  mem-map_of_mem,
}
use mathlib.Core.List.Perm
use mathlib.Core.Logic.Or
use post_trade_reconciliatio.Prelude.{
  ℕ, ◌≤◌, ◌<◌, ◌≡◌, ◌≢◌, refl, sym, ap, subst, ◌∙◌, Bool, true, false, not, ◌&&◌, ◌||◌, Option,
  none, some, List, [], ◌∷◌, ◌++◌, map, arith, any, any-map, All, filter, leb, if◌then◌else◌,
  Bool-cases, inl, inr, Option-cases,
}
use post_trade_reconciliatio.Prelude.Int.{ℤ, pos, ◌+ℤ◌, ◌≤ℤ◌, sum, int_laws}
use post_trade_reconciliatio.Prelude.Str.{Str, Str-discrete, same, str_eq}
use post_trade_reconciliatio.Prelude.Dict.{
  Dict, keys, lookup, insert, update, lookup-update_absent, keys-zip,
}
use post_trade_reconciliatio.Prelude.Sorting.{IsSortedBy}
use post_trade_reconciliatio.Prelude.Rearranged.{any-perm, sum_where-perm}
use post_trade_reconciliatio.Models.{Decimal, Break}
use post_trade_reconciliatio.Storage.Rows.{FillRow, PositionRow}
use post_trade_reconciliatio.Reconcile.{
  Reconciler, signed_quantity, expected_by_fill, expected_at, drift_of, drift_loop,
  find_position_drift,
}
use Runs.{
  IsBook, IsRun, sorted-IsRun, fill_with-none, keys-entries, entries, lookup-entries, fill_with-mem,
  mem-fill_with,
}
use post_trade_reconciliatio.Reconcile.Frames.{Pandas, running_sums}
use post_trade_reconciliatio.Reconcile.Specification.{
  position_at, fill_with, fill_of, drift_spec_of, drift_spec,
}

module _ (pd : Pandas) where
  abbrev in_order : List FillRow → List FillRow
  in_order fills = pd.sort_values FillRow (λ f. f.sequence) fills

  in_order-perm : (fills : List FillRow) → Perm (in_order fills) fills
  in_order-perm fills = pd.sort_values_perm FillRow (λ f. f.sequence) fills

  in_order-IsBook : (fills : List FillRow) → IsBook fills → IsBook (in_order fills)
  in_order-IsBook fills b = record {
    ids = Perm.nodup (Perm.map (λ f. f.fill_id) (Perm.symm (in_order-perm fills))) b.ids;
    sequences =
        Perm.nodup (Perm.map (λ f. f.sequence) (Perm.symm (in_order-perm fills))) b.sequences;
  }

  fill_with-in_order :
      (k : Str) (fills : List FillRow) (f : FillRow)
      → IsBook fills
      → fill_with k fills ≡ some f
      → fill_with k (in_order fills) ≡ some f
  fill_with-in_order k fills f b e =
      let (m, at) = fill_with-mem k fills f e in
      rw (← at) (
        mem-fill_with (in_order fills) f (in_order-IsBook fills b).ids
          ((Perm.mem_iff (Perm.symm (in_order-perm fills))).0 m))

  -- The dict gives each fill the net quantity of the fills executed up to it.
  pub lookup-expected_by_fill :
      (k : Str) (fills : List FillRow) (f : FillRow)
      → IsBook fills
      → fill_with k fills ≡ some f
      → lookup k (expected_by_fill pd fills) ≡ some (position_at fills f.sequence)
  unfolding expected_by_fill
  lookup-expected_by_fill k fills f b e =
      let run =
        sorted-IsRun (in_order fills) (pd.sort_values_sorted FillRow _ fills)
          (in_order-IsBook fills b) in
      let kept : position_at (in_order fills) f.sequence ≡ position_at fills f.sequence =
        sum_where-perm signed_quantity (λ g. leb g.sequence f.sequence) (in_order-perm fills) in
      let value : pos 0 +ℤ position_at (in_order fills) f.sequence ≡ position_at fills f.sequence =
        rw kept (omega int_laws) in
      rw (pd.cumsum_lem (map signed_quantity (in_order fills))) (
        lookup-entries k (pos 0) (in_order fills) [] f run (fill_with-in_order k fills f b e)
        ∙ ap some value)

  lookup-expected_by_fill-none :
      (k : Str) (fills : List FillRow)
      → fill_with k fills ≡ none
      → lookup k (expected_by_fill pd fills) ≡ none
  unfolding expected_by_fill
  lookup-expected_by_fill-none k fills e =
      rw (pd.cumsum_lem (map signed_quantity (in_order fills))) (
        lookup-update_absent k (entries (pos 0) (in_order fills)) [] (
          rw (keys-entries (pos 0) (in_order fills)) (
            any-map (λ g. g.fill_id) (same k) (in_order fills)
            ∙ any-perm (λ g. same k g.fill_id) (in_order-perm fills)
            ∙ sym (any-map (λ g. g.fill_id) (same k) fills)
            ∙ fill_with-none k fills e)))

  drift_of-spec :
      (symbol : Str) (tolerance : Decimal) (fills : List FillRow) (p : PositionRow)
      (id : Option Str) (rest : List Break)
      → IsBook fills
      → drift_of symbol tolerance p (expected_at (expected_by_fill pd fills) id) rest
        ≡ drift_spec_of symbol tolerance fills p (fill_of id fills) ++ rest
  drift_of-spec symbol tolerance fills p none rest b = refl
  drift_of-spec symbol tolerance fills p (some k) rest b = elim (Option-cases (fill_with k fills)) [
    | inl e ↦ ground (arith, lookup-expected_by_fill-none k fills e)
    | inr (f, e) ↦
        ground (arith, lookup-expected_by_fill k fills f b e, (fill_with-mem k fills f e).1)
  ]

  drift_loop-spec :
      (symbol : Str) (tolerance : Decimal) (fills : List FillRow) (positions : List PositionRow)
      → IsBook fills
      → drift_loop symbol tolerance (expected_by_fill pd fills) positions
        ≡ drift_spec symbol tolerance fills positions
  unfolding drift_loop
  drift_loop-spec symbol tolerance fills [] b = refl
  drift_loop-spec symbol tolerance fills (p ∷ positions) b =
      rw (drift_loop-spec symbol tolerance fills positions b) (
        drift_of-spec symbol tolerance fills p p.last_fill_id
          (drift_spec symbol tolerance fills positions) b)

  drift_spec-nil :
      (symbol : Str) (tolerance : Decimal) (positions : List PositionRow)
      → drift_spec symbol tolerance [] positions ≡ []
  drift_spec-nil symbol tolerance [] = refl
  drift_spec-nil symbol tolerance (p ∷ positions) =
      ground (arith, drift_spec-nil symbol tolerance positions)

  -- If no fill id and no sequence stands twice, the drift breaks are, for each position row in
  -- turn: one if its fill is there and the recorded quantity differs from the net quantity of the
  -- fills executed up to that fill by more than the tolerance; none otherwise. The order of the
  -- fills' rows, and so their timestamps, does not matter.
  pub find_position_drift_lem :
      (r : Reconciler) (symbol : Str) (fills : List FillRow) (positions : List PositionRow)
      → IsBook fills
      → find_position_drift pd r symbol fills positions
        ≡ drift_spec symbol r.position_drift_tolerance fills positions
  unfolding find_position_drift
  find_position_drift_lem r symbol [] positions b =
      sym (drift_spec-nil symbol r.position_drift_tolerance positions)
  find_position_drift_lem r symbol (f ∷ fills) [] b = refl
  find_position_drift_lem r symbol (f ∷ fills) (p ∷ positions) b =
      drift_loop-spec symbol r.position_drift_tolerance (f ∷ fills) (p ∷ positions) b
