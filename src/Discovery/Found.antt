-- ===== src/Discovery/Found.antt =====
-- What dataeng/discovery.py finds of the keys that dataeng/bronze/bronze_writer.py puts.
use mathlib.Core.List.{append_assoc}
use post_trade_reconciliatio.Prelude.{
  ◌≡◌, refl, ap, ◌∙◌, Bool, false, ◌||◌, Option, none, some, List, [], ◌∷◌, ◌++◌, foldl, any,
  any-append, is_empty, arith, Bool-cases, inl, inr, ℕ_discrete,
}
use post_trade_reconciliatio.Prelude.Str.{Str, str, same, str_eq, nat_eq, starts_with}
use post_trade_reconciliatio.Prelude.Split.{
  has_char, split, split-part, split-append, split_once-append,
}
use post_trade_reconciliatio.Bronze.{partition_key}
use post_trade_reconciliatio.Discovery.{
  Partition, Partition-discrete, partition_eq, add, read_parts, add_named,
}

-- The key names the partition.
abbrev pub names : Partition → Str → Bool
names p key = any (same p) (add_named (read_parts (split b'/' key) (none, none)) [])

any-add :
    (p q : Partition) (found : List Partition)
    → any (same p) (add q found) ≡ (any (same p) found || same p q)
any-add p q found = elim (Bool-cases (any (same q) found)) [
  | inl e ↦ rw e (elim (Partition-discrete p q) [
    | yes s ↦ ground (arith, ap (λ x. any (same x) found) s)
    | no s ↦ ground arith
  ])
  | inr e ↦ rw (e, any-append (same p) found (q ∷ [])) (ground arith)
]

any-add_named :
    (p : Partition) (r : Option Str × Option Str) (found : List Partition)
    → any (same p) (add_named r found) ≡ (any (same p) found || any (same p) (add_named r []))
any-add_named p (none, date) found = ground arith
any-add_named p (some symbol, none) found = ground arith
any-add_named p (some symbol, some date) found =
    elim (Bool-cases (is_empty symbol || is_empty date)) [
      | inl e ↦ rw e (ground arith)
      | inr e ↦ rw (e, any-add p (symbol, date) found) (ground arith)
    ]

-- A partition is found exactly if the key of some listed object names it.
pub any-found :
    (p : Partition) (object_keys : List Str) (found : List Partition)
    → any
        (same p)
        (foldl (λ f key. add_named (read_parts (split b'/' key) (none, none)) f) found object_keys)
      ≡ (any (same p) found || any (names p) object_keys)
any-found p [] found = ground arith
any-found p (key ∷ object_keys) found =
    let named = read_parts (split b'/' key) (none, none) in
    any-found p object_keys (add_named named found) ∙ ground (arith, any-add_named p named found)

-- A part of a text that names neither a symbol nor a date.
abbrev pub IsPlain : Str → Type 0
IsPlain name =
    (has_char b'/' name ≡ false)
    × (starts_with (str "symbol=") name ≡ false)
    × (starts_with (str "date=") name ≡ false)

-- A value that can stand between two slashes.
abbrev pub IsValue : Str → Type 0
IsValue s = (has_char b'/' s ≡ false) × (is_empty s ≡ false)

abbrev pub object_key : Str → Str → Str
object_key partition name = partition ++ b'/' ∷ name

split-object_key :
    (symbol date hour name : Str)
    → has_char b'/' symbol ≡ false
    → has_char b'/' date ≡ false
    → has_char b'/' hour ≡ false
    → has_char b'/' name ≡ false
    → split b'/' (object_key (partition_key symbol date hour) name)
      ≡ str "ticks"
        ∷ (str "symbol=" ++ symbol)
        ∷ (str "date=" ++ date)
        ∷ (str "hour=" ++ hour)
        ∷ name
        ∷ []
unfolding ℕ_discrete
split-object_key symbol date hour name s d h n =
    ap (split b'/') (shape ∙ refl)
    ∙ split-append b'/' (str "ticks") (from_symbol) refl
    ∙ ap (◌∷◌ (str "ticks")) (split-append b'/' (str "symbol=" ++ symbol) from_date s)
    ∙ ap (λ r. str "ticks" ∷ (str "symbol=" ++ symbol) ∷ r)
        (split-append b'/' (str "date=" ++ date) from_hour d)
    ∙ ap (λ r. str "ticks" ∷ (str "symbol=" ++ symbol) ∷ (str "date=" ++ date) ∷ r)
        (split-append b'/' (str "hour=" ++ hour) name h
          ∙ ap (◌∷◌ (str "hour=" ++ hour)) (split-part b'/' name n))
  where
    from_hour : Str
    from_hour = (str "hour=" ++ hour) ++ b'/' ∷ name

    from_date : Str
    from_date = (str "date=" ++ date) ++ b'/' ∷ from_hour

    from_symbol : Str
    from_symbol = (str "symbol=" ++ symbol) ++ b'/' ∷ from_date

    shape : object_key (partition_key symbol date hour) name ≡ str "ticks" ++ b'/' ∷ from_symbol
    shape = simp append_assoc

read-object_key :
    (symbol date hour name : Str)
    → IsValue symbol
    → IsValue date
    → has_char b'/' hour ≡ false
    → IsPlain name
    → read_parts (split b'/' (object_key (partition_key symbol date hour) name)) (none, none)
      ≡ (some symbol, some date)
unfolding ℕ_discrete
read-object_key symbol date hour name s d h n =
    ap (λ ps. read_parts ps (none, none)) (split-object_key symbol date hour name s.0 d.0 h n.0)
    ∙ rw
        (
          split_once-append b'=' (str "symbol") symbol refl,
          split_once-append b'=' (str "date") date refl,
          n.1,
          n.2,
        )
        refl

-- The key of an object that the writer puts names its symbol and its date, and nothing else.
pub names-object_key :
    (p : Partition) (symbol date hour name : Str)
    → IsValue symbol
    → IsValue date
    → has_char b'/' hour ≡ false
    → IsPlain name
    → names p (object_key (partition_key symbol date hour) name) ≡ same p (symbol, date)
names-object_key p symbol date hour name s d h n =
    ap (λ r. any (same p) (add_named r [])) (read-object_key symbol date hour name s d h n)
    ∙ ground (arith, s.1, d.1)
