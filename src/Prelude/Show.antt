-- ===== src/Prelude/Show.antt =====
-- The decimal digits of a number, as an f-string or `str` writes them.
use Prim.Native.Nat.{ℕ, zero, suc, ◌+◌, ◌-◌, ◌*◌, ◌/◌, ◌%◌, ◌<◌}
use mathlib.Core.Path.{◌≡◌, refl, ap, ◌∙◌}
use mathlib.Core.Logic.{inl, inr}
use native.Mathlib.Omega.{arith}
use mathlib.Core.List.{[], ◌∷◌}
use post_trade_reconciliatio.Prelude.Tests.{ltb, Bool-cases, if◌then◌else◌}
use post_trade_reconciliatio.Prelude.Str.{Str, str}

-- One round for each digit: `n + 1` rounds are enough for `n`.
show_rounds : ℕ → ℕ → Str → Str
show_rounds zero n rest = rest
show_rounds (suc rounds) n rest =
    let more = show_rounds rounds (n / 10) ((48 + n % 10) ∷ rest) in
    if ltb n 10 then (48 + n) ∷ rest else more

unfoldable pub show : ℕ → Str
unfolding show_rounds
show n = show_rounds (suc n) n []

show_number : show 1_205 ≡ str "1205"
unfolding show
show_number = refl

-- The number of digits, behind those of `acc`.
abbrev pub value : ℕ → Str → ℕ
value acc [] = acc
value acc (c ∷ digits) = value (acc * 10 + (c - 48)) digits

value-show_rounds :
    (rounds n : ℕ) (rest : Str) → n < rounds → value 0 (show_rounds rounds n rest) ≡ value n rest
unfolding show_rounds
value-show_rounds zero n rest h = ground (arith, h)
value-show_rounds (suc rounds) n rest h = elim (Bool-cases (ltb n 10)) [
  | inl e ↦ rw e (let d : 0 * 10 + (48 + n - 48) ≡ n = omega arith in ap (λ k. value k rest) d)
  | inr e ↦
      let d : (n / 10) * 10 + (48 + n % 10 - 48) ≡ n = omega arith in
      rw e (
        value-show_rounds rounds (n / 10) ((48 + n % 10) ∷ rest) (ground (arith, e, h))
        ∙ ap (λ k. value k rest) d)
]

-- The digits of a number are read as the number.
pub value-show : (n : ℕ) → value 0 (show n) ≡ n
unfolding show
value-show n = value-show_rounds (suc n) n [] (omega arith)
