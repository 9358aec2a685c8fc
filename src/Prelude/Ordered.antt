-- ===== src/Prelude/Ordered.antt =====
-- Python's `sorted` for any order that a test gives, and the order of texts.
use mathlib.Core.Path.{◌≡◌, refl}
use mathlib.Core.Bool.{Bool, true, false, ◌||◌}
use mathlib.Core.List.{List, [], ◌∷◌}
use Prim.Native.Nat.{◌+◌}
use native.Mathlib.Omega.{arith}
use post_trade_reconciliatio.Prelude.Tests.{if◌then◌else◌, ltb, ◌==◌}
use post_trade_reconciliatio.Prelude.Lists.{count, any, All}
use post_trade_reconciliatio.Prelude.Str.{Str}

-- `s <= t` of texts, by code points.
abbrev pub leb_str : Str → Str → Bool
leb_str [] t = true
leb_str (c ∷ s) [] = false
leb_str (c ∷ s) (d ∷ t) = let rest = leb_str s t in if c == d then rest else ltb c d

module _ {A : Type 0} (leb : A → A → Bool) where
  abbrev put_in_order : A → List A → List A
  put_in_order x [] = x ∷ []
  put_in_order x (y ∷ ys) = let rest = put_in_order x ys in if leb x y then x ∷ y ∷ ys else y ∷ rest

  unfoldable pub sorted_by : List A → List A
  sorted_by [] = []
  sorted_by (x ∷ xs) = put_in_order x (sorted_by xs)

  count-put_in_order :
      (p : A → Bool) (x : A) (ys : List A)
      → count p (put_in_order x ys) ≡ (if p x then 1 else 0) + count p ys
  count-put_in_order p x [] = refl
  count-put_in_order p x (y ∷ ys) = ground (arith, count-put_in_order p x ys)

  -- Sorting keeps every item as often as it stands in the list.
  pub count-sorted_by : (p : A → Bool) (xs : List A) → count p (sorted_by xs) ≡ count p xs
  unfolding sorted_by
  count-sorted_by p [] = refl
  count-sorted_by p (x ∷ xs) =
      ground (arith, count-put_in_order p x (sorted_by xs), count-sorted_by p xs)

  any-put_in_order :
      (p : A → Bool) (x : A) (ys : List A) → any p (put_in_order x ys) ≡ (p x || any p ys)
  any-put_in_order p x [] = refl
  any-put_in_order p x (y ∷ ys) = ground (arith, any-put_in_order p x ys)

  pub any-sorted_by : (p : A → Bool) (xs : List A) → any p (sorted_by xs) ≡ any p xs
  unfolding sorted_by
  any-sorted_by p [] = refl
  any-sorted_by p (x ∷ xs) = ground (arith, any-put_in_order p x (sorted_by xs), any-sorted_by p xs)

  All-put_in_order {κ} :
      (P : A → Type κ) (x : A) (ys : List A) → P x → All P ys → All P (put_in_order x ys)
  All-put_in_order P x [] h hs = (h, tt)
  All-put_in_order P x (y ∷ ys) h hs = ground (arith, All-put_in_order P x ys h hs.1)

  pub All-sorted_by {κ} : (P : A → Type κ) (xs : List A) → All P xs → All P (sorted_by xs)
  unfolding sorted_by
  All-sorted_by P [] h = tt
  All-sorted_by P (x ∷ xs) h = All-put_in_order P x (sorted_by xs) h.0 (All-sorted_by P xs h.1)
