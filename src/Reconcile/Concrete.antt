-- ===== src/Reconcile/Concrete.antt =====
-- A concrete pandas, which meets the interface of Reconcile/Frames.
use mathlib.Core.List.{Mem, Mem-prop, mem-cons, mem-cons_self, mem-cons_of_mem}
use mathlib.Core.Logic.Or
use post_trade_reconciliatio.Prelude.{
  refl, ◌∙◌, inl, inr, Bool-cases, List, [], ◌∷◌, arith, All, if◌then◌else◌,
}
use post_trade_reconciliatio.Prelude.Int.{ℤ, pos, ◌≤ℤ◌, leb_ℤ}
use post_trade_reconciliatio.Prelude.Str.{Str, str, str_eq, nat_eq}
use post_trade_reconciliatio.Prelude.Sorting.{
  insertion_sort, insertion_sort-perm, insertion_sort-sorted,
}
use post_trade_reconciliatio.Reconcile.Frames.{Pandas, running_sums}

lesser : ℤ → ℤ → ℤ
lesser a b = if leb_ℤ a b then a else b

least_from : ℤ → List ℤ → ℤ
least_from m [] = m
least_from m (x ∷ xs) = least_from (lesser m x) xs

least_from-le : (m : ℤ) (xs : List ℤ) → (least_from m xs ≤ℤ m) × All (λ y. least_from m xs ≤ℤ y) xs
unfolding least_from lesser
least_from-le m [] = (omega arith, tt)
least_from-le m (x ∷ xs) =
    let (below, all) = least_from-le (lesser m x) xs in (ground arith, (ground arith, all))

least_from-mem : (m : ℤ) (xs : List ℤ) → Mem (least_from m xs) (m ∷ xs)
unfolding least_from lesser
least_from-mem m [] = mem-cons_self
least_from-mem m (x ∷ xs) =
    Or.elim Mem-prop (mem-cons.0 (least_from-mem (lesser m x) xs))
      (λ here. elim (Bool-cases (leb_ℤ m x)) [
        | inl e ↦ mem-cons.1 (Or.inl (here ∙ ground arith))
        | inr e ↦ mem-cons_of_mem m (mem-cons.1 (Or.inl (here ∙ ground arith)))
      ])
      (λ later. mem-cons_of_mem m (mem-cons_of_mem x later))

pub least : List ℤ → ℤ
least [] = pos 0
least (x ∷ xs) = least_from x xs

pub least-le : (xs : List ℤ) → All (λ y. least xs ≤ℤ y) xs
unfolding least
least-le [] = tt
least-le (x ∷ xs) = least_from-le x xs

pub least-mem : (x : ℤ) (xs : List ℤ) → Mem (least (x ∷ xs)) (x ∷ xs)
unfolding least
least-mem x xs = least_from-mem x xs

abbrev pub frames : Pandas
frames = record {
  sort_values = λ A key. insertion_sort A (λ a. pos (key a));
  sort_values_perm = λ A key. insertion_sort-perm A (λ a. pos (key a));
  sort_values_sorted = λ A key. insertion_sort-sorted A (λ a. pos (key a));
  series_min = least;
  series_min_le = least-le;
  series_min_mem = least-mem;
  cumsum = running_sums (pos 0);
  cumsum_lem = λ xs. refl;
}

abbrev pub btc : Str
btc = str "BTC-USD"
