-- ===== src/Prelude/Members.antt =====
-- Tests that hold for the same items of two lists.
use mathlib.Core.Path.{◌≡◌, sym, ap, subst}
use mathlib.Core.Bool.{Bool, true}
use mathlib.Core.List.{List, [], ◌∷◌}
use mathlib.Core.Logic.{inl, inr}
use native.Mathlib.Omega.{arith}
use post_trade_reconciliatio.Prelude.Tests.{Bool-cases}
use post_trade_reconciliatio.Prelude.Lists.{any, All}
use post_trade_reconciliatio.Prelude.Str.{Eq, same}

module _ {A : Type 0} ⦃e : Eq A⦄ where
  -- An item that passes a test.
  pub any-found :
      (p : A → Bool) (xs : List A)
      → any p xs ≡ true
      → (a : A) × (p a ≡ true) × (any (same a) xs ≡ true)
  any-found p [] h = ground arith
  any-found p (x ∷ xs) h = elim (Bool-cases (p x)) [
    | inl px ↦ (x, px, ground arith)
    | inr px ↦ let (a, pa, m) = any-found p xs (ground arith) in (a, pa, ground arith)
  ]

  pub any-of_member :
      (p : A → Bool) (a : A) (xs : List A) → any (same a) xs ≡ true → p a ≡ true → any p xs ≡ true
  any-of_member p a [] m h = m
  any-of_member p a (x ∷ xs) m h = ground (arith, any-of_member p a xs, λ (s : a ≡ x). ap p s)

  any_mono :
      (p : A → Bool) (xs ys : List A)
      → ((a : A) → any (same a) xs ≡ any (same a) ys)
      → any p xs ≡ true
      → any p ys ≡ true
  any_mono p xs ys h any_xs =
      let (a, pa, m) = any-found p xs any_xs in any-of_member p a ys (ground (arith, h a)) pa

  -- Lists with the same items answer every test alike.
  pub any-same_items :
      (p : A → Bool) (xs ys : List A)
      → ((a : A) → any (same a) xs ≡ any (same a) ys)
      → any p xs ≡ any p ys
  any-same_items p xs ys h = ground (arith, any_mono p xs ys h, any_mono p ys xs (λ a. sym (h a)))

  -- What holds of every item that is found holds of all.
  pub All-of_any {κ} :
      (P : A → Type κ) (xs : List A) → ((a : A) → any (same a) xs ≡ true → P a) → All P xs
  All-of_any P [] h = tt
  All-of_any P (x ∷ xs) h = (h x (ground arith), All-of_any P xs (λ a m. h a (ground arith)))

  pub All-item {κ} :
      (P : A → Type κ) (a : A) (xs : List A) → All P xs → any (same a) xs ≡ true → P a
  All-item P a [] h m = ground arith
  All-item P a (x ∷ xs) h m = elim (e.dec a x) [
    | yes s ↦ subst P (sym s) h.0
    | no s ↦ All-item P a xs h.1 (ground arith)
  ]
