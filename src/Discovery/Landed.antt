-- ===== src/Discovery/Landed.antt =====
-- What dataeng/discovery.py finds after a run of dataeng/bronze/bronze_writer.py.
use post_trade_reconciliatio.Prelude.{
  ℕ, ◌+◌, ◌≡◌, refl, sym, ap, ◌∙◌, Bool, true, false, ◌||◌, not, List, [], ◌∷◌, ◌++◌, map, any, All,
  filter, is_empty, arith, ℕ_discrete,
}
use post_trade_reconciliatio.Prelude.Str.{Str, str, same, str_eq, nat_eq, starts_with}
use post_trade_reconciliatio.Prelude.Split.{has_char}
use post_trade_reconciliatio.Prelude.Members.{any-same_items, All-of_any, All-item}
use post_trade_reconciliatio.Bronze.{Writer, partition_key, flush_all, new_writer}
use post_trade_reconciliatio.Bronze.Landing.{
  Op, append_line, due, all, do_ops, lines_of, added, appended_to,
}
use post_trade_reconciliatio.Bronze.Flushed.{HasLines-flushed, flush_all-lines_of}
use post_trade_reconciliatio.Discovery.{Partition, partition_eq, discover_bronze_partitions}
use post_trade_reconciliatio.Discovery.Found.{
  names, any-found, IsPlain, IsValue, object_key, names-object_key,
}

-- The keys of the bucket's objects; the i-th ends with the i-th name.
abbrev pub object_keys : (ℕ → Str) → ℕ → List (Str × List Str) → List Str
object_keys name i [] = []
object_keys name i (o ∷ bucket) = object_key o.0 (name i) ∷ object_keys name (i + 1) bucket

-- The text of a partition whose symbol and date can be read back.
abbrev IsKey : Str → Type 0
IsKey q =
    (symbol : Str) × (date : Str) × (hour : Str) × (q ≡ partition_key symbol date hour)
    × IsValue symbol
    × IsValue date
    × (has_char b'/' hour ≡ false)

-- The symbol and the date of an appended line are not empty and have no slash.
abbrev pub IsClean : Op → Type 0
IsClean (append_line symbol line date hour now) =
    IsValue symbol × IsValue date × (has_char b'/' hour ≡ false)
IsClean (due now) = Unit
IsClean all = Unit

-- A line is appended for the symbol and the date.
abbrev pub is_append_of : Partition → Op → Bool
is_append_of p (append_line symbol line date hour now) = same p (symbol, date)
is_append_of p (due now) = false
is_append_of p all = false

abbrev partitions : List Op → List Str
partitions [] = []
partitions (append_line symbol line date hour now ∷ ops) =
    partition_key symbol date hour ∷ partitions ops
partitions (due now ∷ ops) = partitions ops
partitions (all ∷ ops) = partitions ops

pub keys-lines_of :
    (q : Str) (bucket : List (Str × List Str))
    → All (λ o. is_empty o.1 ≡ false) bucket
    → any (same q) (map (λ o. o.0) bucket) ≡ not (is_empty (lines_of q bucket))
keys-lines_of q [] h = refl
keys-lines_of q ((k, []) ∷ bucket) h = ground (arith, h.0)
keys-lines_of q ((k, l ∷ ls) ∷ bucket) h = ground (arith, keys-lines_of q bucket h.1)

any-added :
    (q k line : Str) (found : Bool) (ls : List Str)
    → found ≡ not (is_empty ls)
    → (same q k || found) ≡ not (is_empty (added q k line ++ ls))
any-added q k line found ls h = ground (arith, h, λ (e : q ≡ k). sym e, λ (e : k ≡ q). sym e)

partitions-appended_to :
    (q : Str) (ops : List Op) → any (same q) (partitions ops) ≡ not (is_empty (appended_to q ops))
partitions-appended_to q [] = refl
partitions-appended_to q (append_line symbol line date hour now ∷ ops) =
    any-added q (partition_key symbol date hour) line (any (same q) (partitions ops)) _
      (partitions-appended_to q ops)
partitions-appended_to q (due now ∷ ops) = partitions-appended_to q ops
partitions-appended_to q (all ∷ ops) = partitions-appended_to q ops

partitions-IsKey : (ops : List Op) → All IsClean ops → All IsKey (partitions ops)
partitions-IsKey [] h = tt
partitions-IsKey (append_line symbol line date hour now ∷ ops) h =
    ((symbol, date, hour, refl, h.0.0, h.0.1, h.0.2), partitions-IsKey ops h.1)
partitions-IsKey (due now ∷ ops) h = partitions-IsKey ops h.1
partitions-IsKey (all ∷ ops) h = partitions-IsKey ops h.1

module _ (name : ℕ → Str) (plain : (i : ℕ) → IsPlain (name i)) (p : Partition) where
  names-any_name :
      (q : Str) (i : ℕ)
      → IsKey q
      → names p (object_key q (name i)) ≡ names p (object_key q (name 0))
  names-any_name q i (symbol, date, hour, e, s, d, h) =
      ap (λ k. names p (object_key k (name i))) e
      ∙ names-object_key p symbol date hour (name i) s d h (plain i)
      ∙ sym (names-object_key p symbol date hour (name 0) s d h (plain 0))
      ∙ ap (λ k. names p (object_key k (name 0))) (sym e)

  listed : (q : Str) (i : ℕ) → IsKey q → starts_with (str "ticks/") (object_key q (name i)) ≡ true
  unfolding ℕ_discrete
  listed q i (symbol, date, hour, e, s, d, h) =
      ap (λ k. starts_with (str "ticks/") (object_key k (name i))) e ∙ refl

  any-object_keys :
      (i : ℕ) (bucket : List (Str × List Str))
      → All IsKey (map (λ o. o.0) bucket)
      → any (names p) (filter (starts_with (str "ticks/")) (object_keys name i bucket))
        ≡ any (λ q. names p (object_key q (name 0))) (map (λ o. o.0) bucket)
  any-object_keys i [] h = refl
  any-object_keys i (o ∷ bucket) h =
      rw (listed o.0 i h.0, names-any_name o.0 i h.0, any-object_keys (i + 1) bucket h.1) refl

  any-partitions :
      (ops : List Op)
      → All IsClean ops
      → any (λ q. names p (object_key q (name 0))) (partitions ops) ≡ any (is_append_of p) ops
  any-partitions [] h = refl
  any-partitions (append_line symbol line date hour now ∷ ops) h =
      rw
        (
          names-object_key p symbol date hour (name 0) h.0.0 h.0.1 h.0.2 (plain 0),
          any-partitions ops h.1,
        )
        refl
  any-partitions (due now ∷ ops) h = any-partitions ops h.1
  any-partitions (all ∷ ops) h = any-partitions ops h.1

  -- After a run of a bronze writer over an empty bucket that ends by flushing everything, the
  -- discovery finds a symbol and a date exactly if some line was appended for them, whatever the
  -- objects are called, if the symbols and the dates are not empty and have no slash.
  pub discover_bronze_partitions-appended :
      (max_lines max_seconds : ℕ) (ops : List Op)
      → All IsClean ops
      → any (same p) (
          discover_bronze_partitions
            (object_keys name 0 (flush_all (do_ops ops (new_writer max_lines max_seconds))).bucket))
        ≡ any (is_append_of p) ops
  unfolding discover_bronze_partitions
  discover_bronze_partitions-appended max_lines max_seconds ops clean =
      any-found p (filter (starts_with (str "ticks/")) (object_keys name 0 bucket)) []
      ∙ any-object_keys 0 bucket
          (All-of_any IsKey stored (λ q m. found_key q (ground (arith, m, alike q))))
      ∙ any-same_items (λ q. names p (object_key q (name 0))) stored (partitions ops) alike
      ∙ any-partitions ops clean
    where
      started : Writer
      started = new_writer max_lines max_seconds

      bucket : List (Str × List Str)
      bucket = (flush_all (do_ops ops started)).bucket

      stored : List Str
      stored = map (λ o. o.0) bucket

      alike : (q : Str) → any (same q) stored ≡ any (same q) (partitions ops)
      alike q =
          keys-lines_of q bucket (HasLines-flushed ops started tt)
          ∙ ap (λ ls. not (is_empty ls)) (flush_all-lines_of q ops started)
          ∙ sym (partitions-appended_to q ops)

      found_key : (q : Str) → any (same q) (partitions ops) ≡ true → IsKey q
      found_key q m = All-item IsKey q (partitions ops) (partitions-IsKey ops clean) m
