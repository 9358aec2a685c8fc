-- ===== src/Discovery/Tests.antt =====
-- A run of the bronze writer over two symbols, and what is discovered of it.
use post_trade_reconciliatio.Prelude.{ℕ, ◌≡◌, refl, List, [], ◌∷◌, any, All, ℕ_discrete}
use post_trade_reconciliatio.Prelude.Str.{Str, str, str_eq, same, Str-discrete}
use post_trade_reconciliatio.Prelude.Split.{split, split_once}
use post_trade_reconciliatio.Bronze.{append, flush_all, flush_due, new_writer}
use post_trade_reconciliatio.Bronze.Landing.{Op, append_line, due, do_ops}
use post_trade_reconciliatio.Discovery.{
  Partition, Partition-discrete, partition_eq, discover_bronze_partitions,
}
use post_trade_reconciliatio.Discovery.Found.{IsPlain}
use post_trade_reconciliatio.Discovery.Landed.{
  object_keys, IsClean, is_append_of, discover_bronze_partitions-appended,
}

abbrev name : ℕ → Str
name i = str "0a.ndjson"

name-IsPlain : (i : ℕ) → IsPlain (name i)
unfolding ℕ_discrete
name-IsPlain i = (refl, refl, refl)

abbrev ops : List Op
ops =
    append_line (str "BTC-USD") (str "b1") (str "2024-01-02") (str "03") 0
    ∷ append_line (str "ETH-USD") (str "e1") (str "2024-01-02") (str "03") 1
    ∷ due 11
    ∷ append_line (str "BTC-USD") (str "b2") (str "2024-01-02") (str "04") 12
    ∷ []

ops-IsClean : All IsClean ops
unfolding ℕ_discrete
ops-IsClean = (
  ((refl, refl), (refl, refl), refl),
  (((refl, refl), (refl, refl), refl), (tt, (((refl, refl), (refl, refl), refl), tt))),
)

abbrev eth : Partition
eth = (str "ETH-USD", str "2024-01-02")

discover_bronze_partitions-appended_example :
    any (same eth) (
      discover_bronze_partitions
        (object_keys name 0 (flush_all (do_ops ops (new_writer 200 10))).bucket))
    ≡ any (is_append_of eth) ops
discover_bronze_partitions-appended_example =
    discover_bronze_partitions-appended name name-IsPlain eth 200 10 ops ops-IsClean

-- Three objects are put, of two partitions.
discovers_two :
    discover_bronze_partitions
      (object_keys name 0 (flush_all (do_ops ops (new_writer 200 10))).bucket)
    ≡ (str "BTC-USD", str "2024-01-02") ∷ eth ∷ []
unfolding discover_bronze_partitions append flush_all flush_due split split_once Partition-discrete
    Str-discrete ℕ_discrete
discovers_two = refl
