-- ===== src/Prelude/Limits.antt =====
-- An optional limit on a count, such as Python's `max_messages: int | None`.
use Prim.Native.Nat.{ℕ, ◌≤◌, ◌<◌}
use mathlib.Core.Option.{Option, none, some}
use native.Mathlib.Omega.{arith}

-- The count may still grow.
abbrev pub IsBelow : Option ℕ → ℕ → Type 0
IsBelow none n = Unit
IsBelow (some limit) n = n < limit

abbrev pub IsWithin : Option ℕ → ℕ → Type 0
IsWithin none n = Unit
IsWithin (some limit) n = n ≤ limit

pub below-IsWithin : (limit : Option ℕ) (n : ℕ) → IsBelow limit n → IsWithin limit n
below-IsWithin none n below = tt
below-IsWithin (some limit) n below = omega arith
