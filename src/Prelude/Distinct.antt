-- ===== src/Prelude/Distinct.antt =====
-- Lists without repetitions, as a test and as the library's `Nodup`.
use mathlib.Core.HLevel.{⊥_prop}
use mathlib.Core.List.{
  List, [], ◌∷◌, ◌++◌, perm_append_singleton, Mem, Nodup, Nodup-cons, Nodup-nil, mem-cons,
  mem-cons_of_mem, not-mem-nil,
}
use mathlib.Core.List.Perm
use mathlib.Core.Logic.Or
use mathlib.Core.Bool.{Bool, true, false, not, ◌&&◌}
use mathlib.Core.Path.{◌≡◌, refl}
use native.Mathlib.Omega.{arith}
use post_trade_reconciliatio.Prelude.Lists.{any}
use post_trade_reconciliatio.Prelude.Str.{Eq, same}

pub Nodup-snoc : {A : Type 0} (x : A) (xs : List A) → Nodup xs → ¬ Mem x xs → Nodup (xs ++ x ∷ [])
Nodup-snoc x xs h new = Perm.nodup (Perm.symm (perm_append_singleton x xs)) (Nodup-cons.1 (new, h))

module _ {ℓ} {A : Type ℓ} ⦃e : Eq A⦄ where
  abbrev pub is_distinct : List A → Bool
  is_distinct [] = true
  is_distinct (x ∷ xs) = not (any (same x) xs) && is_distinct xs

  -- A test by `==` fails for a value that is not in the list, and only for such.
  pub any-same_absent : (k : A) (xs : List A) → ¬ Mem k xs → any (same k) xs ≡ false
  any-same_absent k [] h = refl
  any-same_absent k (x ∷ xs) h = ground (
    arith,
    any-same_absent k xs (λ m. h (mem-cons_of_mem x m)),
    λ (p : k ≡ x). h (mem-cons.1 (Or.inl p)),
  )

  pub not-mem_of_any : (k : A) (xs : List A) → any (same k) xs ≡ false → ¬ Mem k xs
  not-mem_of_any k [] h m = not-mem-nil m
  not-mem_of_any k (x ∷ xs) h m =
      Or.elim ⊥_prop (mem-cons.0 m) (λ p. ground arith) (not-mem_of_any k xs (ground arith))

  pub is_distinct-Nodup : (xs : List A) → is_distinct xs ≡ true → Nodup xs
  is_distinct-Nodup [] h = Nodup-nil
  is_distinct-Nodup (x ∷ xs) h =
      Nodup-cons.1 (not-mem_of_any x xs (ground arith), is_distinct-Nodup xs (ground arith))
