-- ===== src/Prelude/Rearranged.antt =====
-- What does not depend on the order of a list's items.
use mathlib.Core.List.{Perm, Permᴰ}
use mathlib.Core.Logic.{∥∥₁_elim}
use mathlib.Core.Bool.{Bool}
use mathlib.Core.Path.{◌≡◌, refl, ap, ◌∙◌}
use mathlib.Core.List.{List, map}
use native.Mathlib.Omega.{arith}
use post_trade_reconciliatio.Prelude.Lists.{any, filter}
use post_trade_reconciliatio.Prelude.Int.{ℤ, sum, int_laws}

ℤ-set : IsSet ℤ
ℤ-set = hlevel

Bool-set : IsSet Bool
Bool-set = hlevel

module _ {A : Type 0} (p : A → Bool) where
  any-permᴰ : {xs ys : List A} → Permᴰ xs ys → any p xs ≡ any p ys
  any-permᴰ Permᴰ.nil = refl
  any-permᴰ (Permᴰ.cons e h) = ground (arith, any-permᴰ h, ap p e)
  any-permᴰ (Permᴰ.swap d e) = ground (arith, ap p d, ap p e)
  any-permᴰ (Permᴰ.trans g h) = any-permᴰ g ∙ any-permᴰ h

  -- A test for some item.
  pub any-perm : {xs ys : List A} → Perm xs ys → any p xs ≡ any p ys
  any-perm h = ∥∥₁_elim h (Bool-set _ _) any-permᴰ

module _ {A : Type 0} (f : A → ℤ) (p : A → Bool) where
  sum_where-permᴰ :
      {xs ys : List A} → Permᴰ xs ys → sum (map f (filter p xs)) ≡ sum (map f (filter p ys))
  sum_where-permᴰ Permᴰ.nil = refl
  sum_where-permᴰ (Permᴰ.cons e h) = rw e (grind (int_laws, sum_where-permᴰ h))
  sum_where-permᴰ (Permᴰ.swap d e) = rw (d, e) (grind int_laws)
  sum_where-permᴰ (Permᴰ.trans g h) = sum_where-permᴰ g ∙ sum_where-permᴰ h

  -- A sum over the items that pass a test.
  pub sum_where-perm :
      {xs ys : List A} → Perm xs ys → sum (map f (filter p xs)) ≡ sum (map f (filter p ys))
  sum_where-perm h = ∥∥₁_elim h (ℤ-set _ _) sum_where-permᴰ
