-- ===== src/Reconcile/Unmatched.antt =====
-- `_find_unmatched_fills` of reconcile/reconciler.py against its specification.
use mathlib.Core.List.{Mem, not-mem-nil, mem-cons}
use mathlib.Core.Logic.Or
use post_trade_reconciliatio.Prelude.{
  ◌≡◌, refl, sym, ◌∙◌, Bool, true, false, not, List, [], ◌∷◌, map, arith, any, any-map, All,
  Bool-cases, inl, inr,
}
use post_trade_reconciliatio.Prelude.Int.{ℤ, ◌-ℤ◌, ◌≤ℤ◌, abs, leb_ℤ}
use post_trade_reconciliatio.Prelude.Str.{Str}
use post_trade_reconciliatio.Models.{TimeDelta}
use post_trade_reconciliatio.Storage.Rows.{FillRow, TickRow}
use post_trade_reconciliatio.Reconcile.{
  Reconciler, too_far, nearest_delta, unmatched_loop, find_unmatched_fills,
}
use post_trade_reconciliatio.Reconcile.Frames.{Pandas}
use post_trade_reconciliatio.Reconcile.Specification.{is_matched, unmatched_spec}

-- A lower bound above the window: nothing lies within it.
any_below_bound :
    (w m : ℤ) (ds : List ℤ)
    → All (λ d. m ≤ℤ d) ds
    → leb_ℤ m w ≡ false
    → any (λ d. leb_ℤ d w) ds ≡ false
any_below_bound w m [] h far = refl
any_below_bound w m (d ∷ ds) h far = ground (arith, any_below_bound w m ds h.1)

Bool-set : IsSet Bool
Bool-set = hlevel

any_of_mem : (w m : ℤ) (ds : List ℤ) → Mem m ds → leb_ℤ m w ≡ true → any (λ d. leb_ℤ d w) ds ≡ true
any_of_mem w m [] h near = absurd (not-mem-nil h)
any_of_mem w m (d ∷ ds) h near =
    Or.elim (Bool-set _ _) (mem-cons.0 h) (λ e. rw (← e) (ground arith))
      (λ t. ground (arith, any_of_mem w m ds t near))

module _ (pd : Pandas) where
  -- The minimum passes the test exactly when some item does.
  series_min-any :
      (w d : ℤ) (ds : List ℤ) → any (λ x. leb_ℤ x w) (d ∷ ds) ≡ leb_ℤ (pd.series_min (d ∷ ds)) w
  series_min-any w d ds = elim (Bool-cases (leb_ℤ (pd.series_min (d ∷ ds)) w)) [
    | inl near ↦ any_of_mem w _ (d ∷ ds) (pd.series_min_mem d ds) near ∙ sym near
    | inr far ↦ any_below_bound w _ (d ∷ ds) (pd.series_min_le (d ∷ ds)) far ∙ sym far
  ]

  too_far-nearest_delta :
      (w : TimeDelta) (ticks : List TickRow) (f : FillRow)
      → too_far w (nearest_delta pd (map (λ t. t.time) ticks) f.time) ≡ not (is_matched w ticks f)
  unfolding nearest_delta
  too_far-nearest_delta w [] f = refl
  too_far-nearest_delta w (t ∷ ticks) f = ground (
    arith,
    series_min-any w (abs (t.time -ℤ f.time))
        (map (λ x. abs (x -ℤ f.time)) (map (λ r. r.time) ticks)),
    any-map (λ x. abs (x -ℤ f.time)) (λ x. leb_ℤ x w) (map (λ r. r.time) ticks),
    any-map (λ (r : TickRow). r.time) (λ x. leb_ℤ (abs (x -ℤ f.time)) w) ticks,
  )

  unmatched_loop-spec :
      (symbol : Str) (w : TimeDelta) (ticks : List TickRow) (fills : List FillRow)
      → unmatched_loop pd symbol w (map (λ t. t.time) ticks) fills
        ≡ unmatched_spec symbol w fills ticks
  unfolding unmatched_loop
  unmatched_loop-spec symbol w ticks [] = refl
  unmatched_loop-spec symbol w ticks (f ∷ fills) =
      rw (too_far-nearest_delta w ticks f, unmatched_loop-spec symbol w ticks fills) (ground arith)

  -- The unmatched-fill breaks are one for each fill that no tick matches within the window, in the
  -- order of the fills, also where there are no fills or no ticks.
  pub find_unmatched_fills_lem :
      (r : Reconciler) (symbol : Str) (fills : List FillRow) (ticks : List TickRow)
      → find_unmatched_fills pd r symbol fills ticks
        ≡ unmatched_spec symbol r.tick_match_window fills ticks
  unfolding find_unmatched_fills
  find_unmatched_fills_lem r symbol [] ticks = refl
  find_unmatched_fills_lem r symbol (f ∷ fills) ticks =
      unmatched_loop-spec symbol r.tick_match_window ticks (f ∷ fills)
