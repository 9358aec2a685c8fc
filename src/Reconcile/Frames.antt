-- ===== src/Reconcile/Frames.antt =====
-- What reconcile/reconciler.py calls of pandas, with the documented behaviour that it relies on.
use mathlib.Core.List.{Perm, Mem}
use post_trade_reconciliatio.Prelude.{ℕ, ◌≡◌, List, [], ◌∷◌, All}
use post_trade_reconciliatio.Prelude.Int.{ℤ, pos, ◌+ℤ◌, ◌≤ℤ◌}
use post_trade_reconciliatio.Prelude.Sorting.{IsSortedBy}

-- The sums of the prefixes, from a start.
abbrev pub running_sums : ℤ → List ℤ → List ℤ
running_sums acc [] = []
running_sums acc (x ∷ xs) = (acc +ℤ x) ∷ running_sums (acc +ℤ x) xs

pub record Pandas : Type 1 where
  -- `df.sort_values("sequence")`
  pub sort_values : (A : Type 0) → (A → ℕ) → List A → List A
  pub sort_values_perm : (A : Type 0) (key : A → ℕ) (xs : List A) → Perm (sort_values A key xs) xs
  pub sort_values_sorted :
      (A : Type 0) (key : A → ℕ) (xs : List A)
      → IsSortedBy (λ a. pos (key a)) (sort_values A key xs)
  -- `series.min()` of a series that is not empty
  pub series_min : List ℤ → ℤ
  pub series_min_le : (xs : List ℤ) → All (λ y. series_min xs ≤ℤ y) xs
  pub series_min_mem : (x : ℤ) (xs : List ℤ) → Mem (series_min (x ∷ xs)) (x ∷ xs)
  -- `series.cumsum()`
  pub cumsum : List ℤ → List ℤ
  pub cumsum_lem : (xs : List ℤ) → cumsum xs ≡ running_sums (pos 0) xs
