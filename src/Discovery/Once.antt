-- ===== src/Discovery/Once.antt =====
-- The set that dataeng/discovery.py returns has each partition once.
use post_trade_reconciliatio.Prelude.{
  ◌+◌, ◌≡◌, refl, ap, Bool, ◌||◌, Option, none, some, List, [], ◌∷◌, ◌++◌, foldl, any, any-append,
  count, filter, is_empty, if◌then◌else◌, arith, Bool-cases, inl, inr,
}
use post_trade_reconciliatio.Prelude.Str.{Str, str, str_eq, nat_eq, same, starts_with}
use post_trade_reconciliatio.Prelude.Split.{split}
use post_trade_reconciliatio.Discovery.{
  Partition, partition_eq, add, read_parts, add_named, discover_bronze_partitions,
}

-- Each item stands once in the list that holds the set.
abbrev pub HasOnce : List Partition → Type 0
HasOnce ps = (p : Partition) → count (same p) ps ≡ (if any (same p) ps then 1 else 0)

count-snoc :
    (p : Partition → Bool) (xs : List Partition) (q : Partition)
    → count p (xs ++ q ∷ []) ≡ count p xs + (if p q then 1 else 0)
count-snoc p [] q = omega arith
count-snoc p (x ∷ xs) q = omega (arith, count-snoc p xs q)

pub add-HasOnce : (q : Partition) (found : List Partition) → HasOnce found → HasOnce (add q found)
add-HasOnce q found h p = elim (Bool-cases (any (same q) found)) [
  | inl e ↦ rw e (h p)
  | inr e ↦ rw e (
      ground (
        arith,
        h p,
        count-snoc (same p) found q,
        any-append (same p) found (q ∷ []),
        λ (s : p ≡ q). ap (λ x. any (same x) found) s,
      ))
]

add_named-HasOnce :
    (r : Option Str × Option Str) (found : List Partition)
    → HasOnce found
    → HasOnce (add_named r found)
add_named-HasOnce (none, date) found h = h
add_named-HasOnce (some symbol, none) found h = h
add_named-HasOnce (some symbol, some date) found h =
    elim (Bool-cases (is_empty symbol || is_empty date)) [
      | inl e ↦ rw e h
      | inr e ↦ rw e (add-HasOnce (symbol, date) found h)
    ]

foldl-HasOnce :
    (keys : List Str) (found : List Partition)
    → HasOnce found
    → HasOnce (foldl (λ f key. add_named (read_parts (split b'/' key) (none, none)) f) found keys)
foldl-HasOnce [] found h = h
foldl-HasOnce (key ∷ keys) found h =
    foldl-HasOnce keys _ (add_named-HasOnce (read_parts (split b'/' key) (none, none)) found h)

pub discover_bronze_partitions-HasOnce :
    (keys : List Str) → HasOnce (discover_bronze_partitions keys)
unfolding discover_bronze_partitions
discover_bronze_partitions-HasOnce keys =
    foldl-HasOnce (filter (starts_with (str "ticks/")) keys) [] (λ p. refl)
