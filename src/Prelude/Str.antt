-- ===== src/Prelude/Str.antt =====
-- Python's `str`, a list of code points, and equality of keys as an instance.
use Prim.Native.Nat.{ℕ}
use Prim.Native.Char.{code}
use Prim.Native.String.{String}
use mathlib.Core.Path.{◌≡◌, refl}
use mathlib.Core.Bool.{Bool, true, false, ◌&&◌, ◌||◌}
use mathlib.Core.List.{List, [], ◌∷◌}
use native.Mathlib.Decide.{ℕ_discrete}

abbrev pub Str : Type 0
Str = List ℕ

unfoldable pub Str-discrete : Discrete Str
unfolding ℕ_discrete
Str-discrete = hlevel ℕ_discrete

-- A text literal.
abbrev pub str : String → Str
str String.[] = []
str (String.◌∷◌ c s) = code c ∷ str s

-- A type whose values can be keys: they are compared by `==`.
pub record Eq {ℓ} (A : Type ℓ) : Type ℓ where
  pub dec : Discrete A

instance abbrev pub str_eq : Eq Str
str_eq = record { dec = Str-discrete }

instance abbrev pub nat_eq : Eq ℕ
nat_eq = record { dec = ℕ_discrete }

-- `a == b`
abbrev pub same {ℓ} : {A : Type ℓ} ⦃e : Eq A⦄ → A → A → Bool
same ⦃e⦄ a b = elim (e.dec a b) [ yes _ ↦ true | no _ ↦ false ]

-- `s.startswith(prefix)`
abbrev pub starts_with : Str → Str → Bool
starts_with [] s = true
starts_with (c ∷ prefix) [] = false
starts_with (c ∷ prefix) (d ∷ s) = same c d && starts_with prefix s

abbrev is_nil : Str → Bool
is_nil [] = true
is_nil (c ∷ s) = false

-- `sub in s`
abbrev pub has_text : Str → Str → Bool
has_text sub [] = is_nil sub
has_text sub (c ∷ s) = starts_with sub (c ∷ s) || has_text sub s

same_literals : same (str "ETH-USD") (str "BTC-USD") ≡ false
unfolding Str-discrete
same_literals = refl
