-- ===== src/Prelude/Sorting.antt =====
-- Sorting: Python's `sorted` on integers, and the sorts of the services and libraries that
-- the program calls (`ORDER BY`, `DataFrame.sort_values`) as an interface.
use mathlib.Core.List.{Perm}
use mathlib.Core.List.Perm
use mathlib.Core.Bool.{Bool, ◌||◌}
use post_trade_reconciliatio.Prelude.Tests.{if◌then◌else◌, leb}
use post_trade_reconciliatio.Prelude.Lists.{any, All}
use post_trade_reconciliatio.Prelude.Int.{ℤ, ◌≤ℤ◌, leb_ℤ}
use Prim.Native.Nat.{ℕ, ◌≤◌}
use mathlib.Core.Path.{◌≡◌, refl}
use mathlib.Core.List.{List, [], ◌∷◌}
use native.Mathlib.Omega.{arith}

-- The rows stand in ascending order of a key.
abbrev pub IsSortedBy {ℓ} : {A : Type ℓ} → (A → ℤ) → List A → Type 0
IsSortedBy key [] = Unit
IsSortedBy key (x ∷ xs) = All (λ y. key x ≤ℤ key y) xs × IsSortedBy key xs

-- Sorting rows by a key: the rows are kept, and they are in order. How ties are broken is open.
pub record SortBy : Type 1 where
  pub sort_by : (A : Type 0) → (A → ℤ) → List A → List A
  pub sort_by_perm : (A : Type 0) (key : A → ℤ) (xs : List A) → Perm (sort_by A key xs) xs
  pub sort_by_sorted : (A : Type 0) (key : A → ℤ) (xs : List A) → IsSortedBy key (sort_by A key xs)

unfoldable pub insert_by : (A : Type 0) → (A → ℤ) → A → List A → List A
insert_by A key x [] = x ∷ []
insert_by A key x (y ∷ ys) = if leb_ℤ (key x) (key y) then x ∷ y ∷ ys else y ∷ insert_by A key x ys

unfoldable pub insertion_sort : (A : Type 0) → (A → ℤ) → List A → List A
unfolding insert_by
insertion_sort A key [] = []
insertion_sort A key (x ∷ xs) = insert_by A key x (insertion_sort A key xs)

insert_by-perm :
    (A : Type 0) (key : A → ℤ) (x : A) (ys : List A) → Perm (insert_by A key x ys) (x ∷ ys)
unfolding insert_by
insert_by-perm A key x [] = Perm.refl _
insert_by-perm A key x (y ∷ ys) = ground (
  arith,
  Perm.refl (x ∷ y ∷ ys),
  Perm.trans (Perm.cons y (insert_by-perm A key x ys)) (Perm.swap x y ys),
)

pub insertion_sort-perm :
    (A : Type 0) (key : A → ℤ) (xs : List A) → Perm (insertion_sort A key xs) xs
unfolding insertion_sort
insertion_sort-perm A key [] = Perm.refl []
insertion_sort-perm A key (x ∷ xs) =
    Perm.trans (insert_by-perm A key x (insertion_sort A key xs))
      (Perm.cons x (insertion_sort-perm A key xs))

All-insert_by :
    (A : Type 0) (key : A → ℤ) (b : ℤ) (x : A) (ys : List A)
    → b ≤ℤ key x
    → All (λ y. b ≤ℤ key y) ys
    → All (λ y. b ≤ℤ key y) (insert_by A key x ys)
unfolding insert_by
All-insert_by A key b x [] h hs = (h, tt)
All-insert_by A key b x (y ∷ ys) h hs = ground (arith, All-insert_by A key b x ys h hs.1)

All-le_trans :
    (A : Type 0) (key : A → ℤ) (b c : ℤ) (ys : List A)
    → b ≤ℤ c
    → All (λ y. c ≤ℤ key y) ys
    → All (λ y. b ≤ℤ key y) ys
All-le_trans A key b c [] h hs = tt
All-le_trans A key b c (y ∷ ys) h hs = (omega arith, All-le_trans A key b c ys h hs.1)

insert_by-sorted :
    (A : Type 0) (key : A → ℤ) (x : A) (ys : List A)
    → IsSortedBy key ys
    → IsSortedBy key (insert_by A key x ys)
unfolding insert_by
insert_by-sorted A key x [] h = (tt, tt)
insert_by-sorted A key x (y ∷ ys) h = ground (
  arith,
  All-le_trans A key (key x) (key y) ys,
  insert_by-sorted A key x ys h.1,
  All-insert_by A key (key y) x ys,
)

pub insertion_sort-sorted :
    (A : Type 0) (key : A → ℤ) (xs : List A) → IsSortedBy key (insertion_sort A key xs)
unfolding insertion_sort
insertion_sort-sorted A key [] = tt
insertion_sort-sorted A key (x ∷ xs) =
    insert_by-sorted A key x (insertion_sort A key xs) (insertion_sort-sorted A key xs)

-- A stable sort meets the interface.
abbrev pub stable_sort : SortBy
stable_sort = record {
  sort_by = insertion_sort;
  sort_by_perm = insertion_sort-perm;
  sort_by_sorted = insertion_sort-sorted;
}

-- `sorted(xs)` of integers.
abbrev insert_sorted : ℕ → List ℕ → List ℕ
insert_sorted x [] = x ∷ []
insert_sorted x (y ∷ ys) = if leb x y then x ∷ y ∷ ys else y ∷ insert_sorted x ys

unfoldable pub sorted : List ℕ → List ℕ
sorted [] = []
sorted (x ∷ xs) = insert_sorted x (sorted xs)

any-insert_sorted :
    (p : ℕ → Bool) (x : ℕ) (ys : List ℕ) → any p (insert_sorted x ys) ≡ (p x || any p ys)
any-insert_sorted p x [] = refl
any-insert_sorted p x (y ∷ ys) = ground (arith, any-insert_sorted p x ys)

pub any-sorted : (p : ℕ → Bool) (xs : List ℕ) → any p (sorted xs) ≡ any p xs
unfolding sorted
any-sorted p [] = refl
any-sorted p (x ∷ xs) = ground (arith, any-insert_sorted p x (sorted xs), any-sorted p xs)

-- The numbers never fall along the list.
abbrev pub IsAscending : List ℕ → Type 0
IsAscending [] = Unit
IsAscending (x ∷ xs) = All (λ y. x ≤ y) xs × IsAscending xs

All-insert_sorted :
    (b x : ℕ) (ys : List ℕ) → b ≤ x → All (λ y. b ≤ y) ys → All (λ y. b ≤ y) (insert_sorted x ys)
All-insert_sorted b x [] h hs = (h, tt)
All-insert_sorted b x (y ∷ ys) h hs = ground (arith, All-insert_sorted b x ys h hs.1)

All-le_mono : (b c : ℕ) (ys : List ℕ) → b ≤ c → All (λ y. c ≤ y) ys → All (λ y. b ≤ y) ys
All-le_mono b c [] h hs = tt
All-le_mono b c (y ∷ ys) h hs = (omega arith, All-le_mono b c ys h hs.1)

insert_sorted-IsAscending :
    (x : ℕ) (ys : List ℕ) → IsAscending ys → IsAscending (insert_sorted x ys)
insert_sorted-IsAscending x [] h = (tt, tt)
insert_sorted-IsAscending x (y ∷ ys) h =
    ground (arith, All-le_mono x y ys, insert_sorted-IsAscending x ys h.1, All-insert_sorted y x ys)

pub sorted-IsAscending : (xs : List ℕ) → IsAscending (sorted xs)
unfolding sorted
sorted-IsAscending [] = tt
sorted-IsAscending (x ∷ xs) = insert_sorted-IsAscending x (sorted xs) (sorted-IsAscending xs)

All-insert_sorted_of {κ} :
    (P : ℕ → Type κ) (x : ℕ) (ys : List ℕ) → P x → All P ys → All P (insert_sorted x ys)
All-insert_sorted_of P x [] h hs = (h, tt)
All-insert_sorted_of P x (y ∷ ys) h hs = ground (arith, All-insert_sorted_of P x ys h hs.1)

-- What holds of all items holds of all the sorted ones.
pub All-sorted {κ} : (P : ℕ → Type κ) (xs : List ℕ) → All P xs → All P (sorted xs)
unfolding sorted
All-sorted P [] h = tt
All-sorted P (x ∷ xs) h = All-insert_sorted_of P x (sorted xs) h.0 (All-sorted P xs h.1)
