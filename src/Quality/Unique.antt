-- ===== src/Quality/Unique.antt =====
-- When the rows of the silver files have no key twice.
use mathlib.Core.List.{map-append}
use post_trade_reconciliatio.Prelude.{
  ℕ, zero, suc, ◌+◌, ◌<◌, ◌≡◌, refl, sym, ap, ◌∙◌, Bool, true, false, not, ◌&&◌, ◌||◌, List, [],
  ◌∷◌, ◌++◌, map, any, any-append, any-map, is_empty, length, if◌then◌else◌, arith,
}
use post_trade_reconciliatio.Prelude.Str.{Str, str_eq, nat_eq, same}
use post_trade_reconciliatio.Prelude.Distinct.{is_distinct}
use post_trade_reconciliatio.Prelude.Members.{any-found, any-of_member}
use post_trade_reconciliatio.Models.{Tick}
use post_trade_reconciliatio.Ingest.Numbering.{range_from, ticks_of}
use post_trade_reconciliatio.Silver.{Files}
use post_trade_reconciliatio.Silver.Numbered.{AreNumbered, HoldNumbered}
use post_trade_reconciliatio.Quality.{Key, key_eq, key_of, rows_of}

-- The symbol has a row.
abbrev pub has_symbol : Str → List Tick → Bool
has_symbol symbol = any (λ t. same t.symbol symbol)

-- Some symbol has rows in two of the files.
abbrev pub shares_symbol : Files → Bool
shares_symbol [] = false
shares_symbol (f ∷ files) =
    any (λ t. has_symbol t.symbol (rows_of files)) f.1 || shares_symbol files

same-key :
    (symbol : Str) (k : ℕ) (t : Tick)
    → same (symbol, k) (key_of t) ≡ (same t.symbol symbol && same k t.sequence)
same-key symbol k t = ground (
  arith,
  λ (e : (symbol, k) ≡ key_of t). ap (λ x. x.0) e,
  λ (e : (symbol, k) ≡ key_of t). ap (λ x. x.1) e,
  λ (s : t.symbol ≡ symbol) (n : k ≡ t.sequence). keys_agree (sym s) n,
)
  where
    keys_agree : symbol ≡ t.symbol → k ≡ t.sequence → (symbol, k) ≡ key_of t
    keys_agree s n = cc (s, n)

key-sequences :
    (symbol : Str) (k : ℕ) (ticks : List Tick)
    → any (same (symbol, k)) (map key_of ticks)
      ≡ any (same k) (map (λ t. t.sequence) (ticks_of symbol ticks))
key-sequences symbol k [] = refl
key-sequences symbol k (t ∷ ticks) =
    ground (arith, same-key symbol k t, key-sequences symbol k ticks)

has_symbol-ticks_of :
    (symbol : Str) (ticks : List Tick)
    → has_symbol symbol ticks ≡ not (is_empty (ticks_of symbol ticks))
has_symbol-ticks_of symbol [] = refl
has_symbol-ticks_of symbol (t ∷ ticks) = ground (arith, has_symbol-ticks_of symbol ticks)

first_number :
    (xs : List Tick)
    → map (λ t. t.sequence) xs ≡ range_from 1 (length xs)
    → any (same 1) (map (λ t. t.sequence) xs) ≡ not (is_empty xs)
first_number [] h = refl
first_number (x ∷ xs) h = ground (arith, h)

-- A numbered file has a symbol's rows exactly if it has its first.
first_key :
    (symbol : Str) (ticks : List Tick)
    → AreNumbered ticks
    → any (same (symbol, 1)) (map key_of ticks) ≡ has_symbol symbol ticks
first_key symbol ticks h =
    key-sequences symbol 1 ticks
    ∙ first_number (ticks_of symbol ticks) (h symbol)
    ∙ sym (has_symbol-ticks_of symbol ticks)

first_keys :
    (symbol : Str) (files : Files)
    → HoldNumbered files
    → any (same (symbol, 1)) (map key_of (rows_of files)) ≡ has_symbol symbol (rows_of files)
first_keys symbol [] h = refl
first_keys symbol (f ∷ files) h =
    rw
      (
        map-append _ f.1 (rows_of files),
        any-append (same (symbol, 1)) (map key_of f.1) (map key_of (rows_of files)),
        any-append (λ t. same t.symbol symbol) f.1 (rows_of files),
        first_key symbol f.1 h.0,
        first_keys symbol files h.1,
      )
      refl

is_distinct-append :
    (xs ys : List Key)
    → is_distinct (xs ++ ys)
      ≡ (is_distinct xs && (is_distinct ys && not (any (λ x. any (same x) ys) xs)))
is_distinct-append [] ys = ground arith
is_distinct-append (x ∷ xs) ys = ground (arith, is_distinct-append xs ys, any-append (same x) xs ys)

any-pointwise :
    {A : Type 0} (p q : A → Bool) (xs : List A)
    → ((x : A) → p x ≡ true → q x ≡ true)
    → any p xs ≡ true
    → any q xs ≡ true
any-pointwise p q [] h m = m
any-pointwise p q (x ∷ xs) h m = ground (arith, h x, any-pointwise p q xs h)

-- A key that is in the files is the key of a symbol that is.
key-has_symbol :
    (t : Tick) (ticks : List Tick)
    → any (same (key_of t)) (map key_of ticks) ≡ true
    → has_symbol t.symbol ticks ≡ true
key-has_symbol t [] h = h
key-has_symbol t (u ∷ ticks) h =
    ground (arith, same-key t.symbol t.sequence u, key-has_symbol t ticks)

keys-symbols :
    (f ticks : List Tick)
    → any (λ k. any (same k) (map key_of ticks)) (map key_of f) ≡ true
    → any (λ t. has_symbol t.symbol ticks) f ≡ true
keys-symbols f ticks h =
    any-pointwise (λ t. any (same (key_of t)) (map key_of ticks)) (λ t. has_symbol t.symbol ticks) f
      (λ t. key-has_symbol t ticks)
      (sym (any-map key_of (λ k. any (same k) (map key_of ticks)) f) ∙ h)

symbols-has_symbol :
    (symbol : Str) (f : List Tick) → any (same symbol) (map (λ t. t.symbol) f) ≡ has_symbol symbol f
symbols-has_symbol symbol [] = refl
symbols-has_symbol symbol (t ∷ f) = ground (
  arith,
  symbols-has_symbol symbol f,
  λ (e : symbol ≡ t.symbol). sym e,
  λ (e : t.symbol ≡ symbol). sym e,
)

symbols-keys :
    (f : List Tick) (files : Files)
    → AreNumbered f
    → HoldNumbered files
    → any (λ t. has_symbol t.symbol (rows_of files)) f ≡ true
    → any (λ k. any (same k) (map key_of (rows_of files))) (map key_of f) ≡ true
symbols-keys f files h hs m =
    let (symbol, there, own) =
      any-found (λ s. has_symbol s (rows_of files)) (map (λ t. t.symbol) f)
        (any-map (λ t. t.symbol) (λ s. has_symbol s (rows_of files)) f ∙ m) in
    any-of_member (λ k. any (same k) (map key_of (rows_of files))) (symbol, 1) (map key_of f)
      (first_key symbol f h ∙ sym (symbols-has_symbol symbol f) ∙ own)
      (first_keys symbol files hs ∙ there)

-- Each symbol's rows are numbered on from its own number.
abbrev AreNumberedFrom : (Str → ℕ) → List Tick → Type 0
AreNumberedFrom i ticks =
    (symbol : Str)
    → map (λ t. t.sequence) (ticks_of symbol ticks)
      ≡ range_from (i symbol) (length (ticks_of symbol ticks))

range_from-above : (k i n : ℕ) → k < i → any (same k) (range_from i n) ≡ false
range_from-above k i zero h = refl
range_from-above k i (suc n) h = ground (arith, range_from-above k (i + 1) n, h)

module _ (t : Tick) (ticks : List Tick) (i : Str → ℕ) (h : AreNumberedFrom i (t ∷ ticks)) where
  next_number : Str → ℕ
  next_number symbol = if same t.symbol symbol then i symbol + 1 else i symbol

  head-number : t.sequence ≡ i t.symbol
  head-number = ground (arith, h t.symbol)

  tail-AreNumberedFrom : AreNumberedFrom next_number ticks
  unfolding next_number
  tail-AreNumberedFrom symbol = ground (arith, h symbol)

  head-new : any (same (key_of t)) (map key_of ticks) ≡ false
  unfolding next_number
  head-new =
      key-sequences t.symbol t.sequence ticks
      ∙ ap (any (same t.sequence)) (tail-AreNumberedFrom t.symbol)
      ∙ range_from-above t.sequence (next_number t.symbol) (length (ticks_of t.symbol ticks))
          (ground (arith, head-number))

numbered-is_distinct :
    (i : Str → ℕ) (ticks : List Tick)
    → AreNumberedFrom i ticks
    → is_distinct (map key_of ticks) ≡ true
numbered-is_distinct i [] h = refl
numbered-is_distinct i (t ∷ ticks) h = ground (
  arith,
  head-new t ticks i h,
  numbered-is_distinct (next_number t ticks i h) ticks (tail-AreNumberedFrom t ticks i h),
)

-- Over files whose rows are numbered, the keys are unique exactly if no symbol has rows in two of
-- the files.
pub is_distinct-shares_symbol :
    (files : Files)
    → HoldNumbered files
    → is_distinct (map key_of (rows_of files)) ≡ not (shares_symbol files)
is_distinct-shares_symbol [] h = refl
is_distinct-shares_symbol (f ∷ files) h =
    ap is_distinct (map-append _ f.1 (rows_of files))
    ∙ is_distinct-append (map key_of f.1) (map key_of (rows_of files))
    ∙ ground (
      arith,
      numbered-is_distinct (λ s. 1) f.1 h.0,
      is_distinct-shares_symbol files h.1,
      keys-symbols f.1 (rows_of files),
      symbols-keys f.1 files h.0 h.1,
    )
