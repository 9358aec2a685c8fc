-- ===== src/Scale/Columns.antt =====
-- The columns of dataeng/scale/generate_dataset.py, and what of them belongs to a symbol and a date.
use mathlib.Core.List.{append-nil, append_assoc}
use native.Mathlib.Nat.{mul_assoc, suc-mul, add_comm}
use post_trade_reconciliatio.Prelude.{
  ℕ, zero, suc, ◌+◌, ◌-◌, ◌*◌, ◌≡◌, ◌≢◌, refl, ap, sym, ◌∙◌, Bool, ◌&&◌, List, [], ◌∷◌, ◌++◌, map,
  length, length-append, length-map, if◌then◌else◌, leb, ltb, drop, arith,
}
use post_trade_reconciliatio.Prelude.Str.{Str, str_eq, nat_eq, same}
use post_trade_reconciliatio.Prelude.Show.{show, value, value-show}
use post_trade_reconciliatio.Workers.Pool.{range_from}
use post_trade_reconciliatio.Scale.{replicate, each_repeated, repeated, symbol_name}

pub suc_times : (n m : ℕ) → suc n * m ≡ m + n * m
suc_times n m = suc-mul n m ∙ add_comm (n * m) m

pub length-replicate : {A : Type 0} (n : ℕ) (x : A) → length (replicate n x) ≡ n
length-replicate zero x = refl
length-replicate (suc n) x = ap suc (length-replicate n x)

replicate_add :
    {A : Type 0} (m n : ℕ) (x : A) → replicate (m + n) x ≡ replicate m x ++ replicate n x
replicate_add zero n x = let e : 0 + n ≡ n = omega arith in ap (λ k. replicate k x) e
replicate_add (suc m) n x =
    let e : suc m + n ≡ suc (m + n) = omega arith in
    ap (λ k. replicate k x) e ∙ ap (◌∷◌ x) (replicate_add m n x)

pub repeated_add :
    {A : Type 0} (m n : ℕ) (xs : List A) → repeated (m + n) xs ≡ repeated m xs ++ repeated n xs
repeated_add zero n xs = let e : 0 + n ≡ n = omega arith in ap (λ k. repeated k xs) e
repeated_add (suc m) n xs =
    let e : suc m + n ≡ suc (m + n) = omega arith in
    ap (λ k. repeated k xs) e
    ∙ ap (λ ys. xs ++ ys) (repeated_add m n xs)
    ∙ sym (append_assoc xs (repeated m xs) (repeated n xs))

pub length-each_repeated :
    {A : Type 0} (n : ℕ) (xs : List A) → length (each_repeated n xs) ≡ length xs * n
length-each_repeated n [] = omega arith
length-each_repeated n (x ∷ xs) =
    length-append (replicate n x) (each_repeated n xs)
    ∙ rw (length-replicate n x, length-each_repeated n xs) (sym (suc_times (length xs) n))

pub length-repeated : {A : Type 0} (n : ℕ) (xs : List A) → length (repeated n xs) ≡ n * length xs
length-repeated zero xs = omega arith
length-repeated (suc n) xs =
    length-append xs (repeated n xs) ∙ rw (length-repeated n xs) (sym (suc_times n (length xs)))

pub length-range_from : (i n : ℕ) → length (range_from i n) ≡ n
length-range_from i zero = refl
length-range_from i (suc n) = ap suc (length-range_from (i + 1) n)

value-padded : (n : ℕ) (digits : Str) → value 0 (replicate n b'0' ++ digits) ≡ value 0 digits
value-padded zero digits = refl
value-padded (suc n) digits = value-padded n digits

value-symbol_name : (i : ℕ) → value 0 (drop 4 (symbol_name i)) ≡ i
value-symbol_name i = value-padded (3 - length (show i)) (show i) ∙ value-show i

pub symbol_name-injective : (i j : ℕ) → symbol_name i ≡ symbol_name j → i ≡ j
symbol_name-injective i j e =
    sym (value-symbol_name i) ∙ ap (λ name. value 0 (drop 4 name)) e ∙ value-symbol_name j

-- The sequence numbers in the places of a symbol and a date.
abbrev pub sequences_at : Str → ℕ → List Str → List ℕ → List ℕ → List ℕ
sequences_at s d (x ∷ xs) (y ∷ ys) (z ∷ zs) =
    if same x s && same y d then z ∷ sequences_at s d xs ys zs else sequences_at s d xs ys zs
sequences_at s d xs ys zs = []

pub sequences_at-append :
    (s : Str) (d : ℕ) (xs xs' : List Str) (ys ys' zs zs' : List ℕ)
    → length ys ≡ length xs
    → length zs ≡ length xs
    → sequences_at s d (xs ++ xs') (ys ++ ys') (zs ++ zs')
      ≡ sequences_at s d xs ys zs ++ sequences_at s d xs' ys' zs'
sequences_at-append s d [] xs' [] ys' [] zs' e f = refl
sequences_at-append s d (x ∷ xs) xs' (y ∷ ys) ys' (z ∷ zs) zs' e f =
    ground
      (arith, sequences_at-append s d xs xs' ys ys' zs zs' (omega (arith, e)) (omega (arith, f)))
sequences_at-append s d [] xs' (y ∷ ys) ys' zs zs' e f = ground (arith, e)
sequences_at-append s d [] xs' [] ys' (z ∷ zs) zs' e f = ground (arith, f)
sequences_at-append s d (x ∷ xs) xs' [] ys' zs zs' e f = ground (arith, e)
sequences_at-append s d (x ∷ xs) xs' (y ∷ ys) ys' [] zs' e f = ground (arith, f)

-- In the rows of another symbol there is none.
pub sequences_at-other :
    (s x : Str) (d n : ℕ) (ys zs : List ℕ) → x ≢ s → sequences_at s d (replicate n x) ys zs ≡ []
sequences_at-other s x d zero ys zs h = refl
sequences_at-other s x d (suc n) [] zs h = refl
sequences_at-other s x d (suc n) (y ∷ ys) [] h = refl
sequences_at-other s x d (suc n) (y ∷ ys) (z ∷ zs) h =
    ground (arith, sequences_at-other s x d n ys zs h)

-- The rows of the symbol with one date.
sequences_at-date :
    (s : Str) (d y : ℕ) (zs : List ℕ)
    → sequences_at s d (replicate (length zs) s) (replicate (length zs) y) zs
      ≡ (if same y d then zs else [])
sequences_at-date s d y [] = ground arith
sequences_at-date s d y (z ∷ zs) = ground (arith, sequences_at-date s d y zs)

sequences_at-none : (s : Str) (d : ℕ) (xs : List Str) (zs : List ℕ) → sequences_at s d xs [] zs ≡ []
sequences_at-none s d [] zs = refl
sequences_at-none s d (x ∷ xs) zs = refl

-- A number of a range.
abbrev pub is_in : ℕ → ℕ → ℕ → Bool
is_in i n k = leb i k && ltb k (i + n)

-- The rows of the symbol.
pub sequences_at-symbol :
    (s : Str) (start k i n : ℕ) (zs : List ℕ)
    → sequences_at s
        (start + k)
        (replicate (n * length zs) s)
        (each_repeated (length zs) (map (λ d. start + d) (range_from i n)))
        (repeated n zs)
      ≡ (if is_in i n k then zs else [])
sequences_at-symbol s start k i zero zs =
    sequences_at-none s (start + k) (replicate (0 * length zs) s) [] ∙ ground arith
sequences_at-symbol s start k i (suc n) zs =
    let more = map (λ d. start + d) (range_from (i + 1) n) in
    let r = length zs in
    let e : suc n * r ≡ r + n * r = suc_times n r in
    ap
      (λ m.
        sequences_at s (start + k) (replicate m s) (replicate r (start + i) ++ each_repeated r more)
          (zs ++ repeated n zs))
      e
    ∙ rw (replicate_add r (n * r) s) (
        sequences_at-append s (start + k) (replicate r s) (replicate (n * r) s)
          (replicate r (start + i)) (each_repeated r more) zs (repeated n zs)
          (length-replicate r (start + i) ∙ sym (length-replicate r s)) (sym (length-replicate r s))
        ∙ rw
            (
              sequences_at-date s (start + k) (start + i) zs,
              sequences_at-symbol s start k (i + 1) n zs,
            )
            (ground (arith, append-nil zs)))

-- The dates of the rows of one symbol.
abbrev pub date_column : ℕ → ℕ → ℕ → List ℕ
date_column start n_days rows = each_repeated rows (map (λ d. start + d) (range_from 0 n_days))

pub length-date_column : (start n rows : ℕ) → length (date_column start n rows) ≡ n * rows
length-date_column start n rows =
    length-each_repeated rows (map (λ d. start + d) (range_from 0 n))
    ∙ ap (λ k. k * rows) (length-map (range_from 0 n) (λ d. start + d) ∙ length-range_from 0 n)

pub length-date_columns :
    (start m n rows : ℕ) → length (repeated m (date_column start n rows)) ≡ m * (n * rows)
length-date_columns start m n rows =
    length-repeated m (date_column start n rows) ∙ ap (λ k. m * k) (length-date_column start n rows)

pub length-symbol_column :
    (m n rows : ℕ)
    → length (each_repeated (n * rows) (map symbol_name (range_from 0 m))) ≡ m * (n * rows)
length-symbol_column m n rows =
    length-each_repeated (n * rows) (map symbol_name (range_from 0 m))
    ∙ ap (λ k. k * (n * rows)) (length-map (range_from 0 m) symbol_name ∙ length-range_from 0 m)

pub length-sequence_column :
    (m n rows : ℕ) (zs : List ℕ) → length zs ≡ rows → length (repeated (m * n) zs) ≡ m * (n * rows)
length-sequence_column m n rows zs e =
    length-repeated (m * n) zs ∙ ap (λ k. m * n * k) e ∙ mul_assoc m n rows
