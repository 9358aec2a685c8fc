-- ===== src/Prelude/Split.antt =====
-- Python's `split` and `join` of a text on one character.
use mathlib.Core.Path.{◌≡◌, refl, ap, ◌∙◌}
use mathlib.Core.Bool.{Bool, false, ◌&&◌, ◌||◌}
use mathlib.Core.List.{List, [], ◌∷◌, ◌++◌, append_assoc}
use Prim.Native.Nat.{ℕ}
use native.Mathlib.Omega.{arith}
use post_trade_reconciliatio.Prelude.Tests.{if◌then◌else◌, leb}
use native.Mathlib.Decide.{ℕ_discrete}
use post_trade_reconciliatio.Prelude.Lists.{any, All}
use post_trade_reconciliatio.Prelude.Str.{Str, same, nat_eq, starts_with}

-- `c in s`
abbrev pub has_char : ℕ → Str → Bool
has_char c = any (same c)

-- A character before the first part.
abbrev pub push_char : ℕ → List Str → List Str
push_char d [] = (d ∷ []) ∷ []
push_char d (part ∷ parts) = (d ∷ part) ∷ parts

-- `s.split(c)`
unfoldable pub split : ℕ → Str → List Str
split c [] = [] ∷ []
split c (d ∷ s) = let rest = split c s in if same c d then [] ∷ rest else push_char d rest

-- `s.split(c, 1)`
unfoldable pub split_once : ℕ → Str → List Str
split_once c [] = [] ∷ []
split_once c (d ∷ s) =
    let rest = split_once c s in if same c d then [] ∷ s ∷ [] else push_char d rest

-- `c.join(parts)`
unfoldable pub join : ℕ → List Str → Str
join c [] = []
join c (part ∷ []) = part
join c (part ∷ other ∷ parts) = part ++ c ∷ join c (other ∷ parts)

pub split-part : (c : ℕ) (part : Str) → has_char c part ≡ false → split c part ≡ part ∷ []
unfolding split
split-part c [] h = refl
split-part c (d ∷ part) h = ground (arith, split-part c part)

pub split-append :
    (c : ℕ) (part s : Str) → has_char c part ≡ false → split c (part ++ c ∷ s) ≡ part ∷ split c s
unfolding split
split-append c [] s h = ground arith
split-append c (d ∷ part) s h = ground (arith, split-append c part s)

pub split_once-append :
    (c : ℕ) (part s : Str) → has_char c part ≡ false → split_once c (part ++ c ∷ s) ≡ part ∷ s ∷ []
unfolding split_once
split_once-append c [] s h = ground arith
split_once-append c (d ∷ part) s h = ground (arith, split_once-append c part s)

-- Parts without the character are read back from the text that joins them.
pub split-join :
    (c : ℕ) (part : Str) (parts : List Str)
    → All (λ p. has_char c p ≡ false) (part ∷ parts)
    → split c (join c (part ∷ parts)) ≡ part ∷ parts
unfolding join
split-join c part [] h = split-part c part h.0
split-join c part (other ∷ parts) h =
    rw (split-append c part (join c (other ∷ parts)) h.0)
      (ap (◌∷◌ part) (split-join c other parts h.1))

-- The line boundaries of `str.splitlines`, as code points.
abbrev pub is_break : ℕ → Bool
is_break c =
    (leb 10 c && leb c 13)
    || ((leb 28 c && leb c 30) || (same c 133 || (same c 8_232 || same c 8_233)))

abbrev pub has_break : Str → Bool
has_break = any is_break

abbrev drop_first : List Str → List Str
drop_first [] = []
drop_first (l ∷ ls) = ls

-- `s.splitlines()`; a carriage return and a line feed are one boundary.
unfoldable pub splitlines : Str → List Str
splitlines [] = []
splitlines (c ∷ s) =
    let rest = splitlines s in
    if is_break c
    then [] ∷ (if same c 13 && starts_with (10 ∷ []) s then drop_first rest else rest)
    else push_char c rest

splitlines-line :
    (line s : Str) → has_break line ≡ false → splitlines (line ++ 10 ∷ s) ≡ line ∷ splitlines s
unfolding splitlines ℕ_discrete
splitlines-line [] s h = refl
splitlines-line (c ∷ line) s h = ground (arith, splitlines-line line s)

-- Lines that are joined by line feeds, with one at the end, are read back if none has a boundary.
pub splitlines-join :
    (line : Str) (lines : List Str)
    → All (λ l. has_break l ≡ false) (line ∷ lines)
    → splitlines (join 10 (line ∷ lines) ++ 10 ∷ []) ≡ line ∷ lines
unfolding join splitlines
splitlines-join line [] h = splitlines-line line [] h.0
splitlines-join line (other ∷ lines) h =
    ap splitlines (append_assoc line (10 ∷ join 10 (other ∷ lines)) (10 ∷ []))
    ∙ splitlines-line line (join 10 (other ∷ lines) ++ 10 ∷ []) h.0
    ∙ ap (◌∷◌ line) (splitlines-join other lines h.1)
