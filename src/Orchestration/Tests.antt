-- ===== src/Orchestration/Tests.antt =====
-- Two evaluations of the sensor while a partition comes, and a replay of two partitions.
use post_trade_reconciliatio.Prelude.{
  ◌≡◌, refl, none, List, [], ◌∷◌, any, count, All, is_empty, if◌then◌else◌, arith, ℕ_discrete,
}
use post_trade_reconciliatio.Prelude.Int.{pos}
use post_trade_reconciliatio.Prelude.Str.{Str, str, same, Str-discrete}
use post_trade_reconciliatio.Prelude.Split.{split, split_once, join}
use post_trade_reconciliatio.Prelude.Ordered.{sorted_by}
use post_trade_reconciliatio.Ingest.Concrete.{decimal, fromisoformat, loads, started}
use post_trade_reconciliatio.Silver.{Files}
use post_trade_reconciliatio.Discovery.{Partition, Partition-discrete, partition_eq}
use post_trade_reconciliatio.Discovery.Once.{HasOnce, add-HasOnce}
use post_trade_reconciliatio.Orchestration.{
  Parts-discrete, evaluations, replay_all_bronze_partitions_op,
}
use post_trade_reconciliatio.Orchestration.Requests.{IsSeparable, Grows, evaluations-once}
use post_trade_reconciliatio.Orchestration.Dirs.{IsNamed}
use post_trade_reconciliatio.Orchestration.Replay.{
  EndsReplayed, replay_all_bronze_partitions_op-EndsReplayed,
}

abbrev btc : Partition
btc = (str "BTC-USD", str "2024-01-02")

abbrev eth : Partition
eth = (str "ETH-USD", str "2024-01-02")

abbrev times : List (List Partition)
times = (eth ∷ []) ∷ (eth ∷ btc ∷ []) ∷ []

both-HasOnce : HasOnce (eth ∷ btc ∷ [])
unfolding Partition-discrete Str-discrete ℕ_discrete
both-HasOnce = add-HasOnce btc (eth ∷ []) (λ p. ground arith)

times-HasOnce : All HasOnce times
times-HasOnce = ((λ p. ground arith), (both-HasOnce, tt))

times-IsSeparable : All (All IsSeparable) times
unfolding ℕ_discrete
times-IsSeparable = (((refl, refl, refl), tt), (((refl, refl, refl), ((refl, refl, refl), tt)), tt))

times-Grows : Grows [] times
times-Grows = ((λ p m. ground arith), ((λ p m. ground arith), tt))

evaluations-once_example :
    count (same btc) (evaluations none times) ≡ (if any (any (same btc)) times then 1 else 0)
evaluations-once_example = evaluations-once btc times times-HasOnce times-IsSeparable times-Grows

-- The first evaluation requests one partition, the second the other.
requests_each : evaluations none times ≡ eth ∷ btc ∷ []
unfolding evaluations sorted_by split split_once join Parts-discrete Partition-discrete Str-discrete
    ℕ_discrete
requests_each = refl

abbrev bucket : List (Str × List Str)
bucket =
    (str "ticks/symbol=ETH-USD/date=2024-01-02/hour=03", str "p7" ∷ str "p8" ∷ [])
    ∷ (str "ticks/symbol=BTC-USD/date=2024-01-02/hour=03", str "p9" ∷ [])
    ∷ []

abbrev stale : Files
stale = (str "/ticks/symbol=BTC-USD/date=2024-01-02", []) ∷ []

both-IsNamed : All IsNamed (eth ∷ btc ∷ [])
unfolding ℕ_discrete
both-IsNamed = ((refl, refl), ((refl, refl), tt))

replay_all_bronze_partitions_op-EndsReplayed_example :
    EndsReplayed decimal fromisoformat loads
      (pos 5)
      started
      is_empty
      []
      bucket
      (eth ∷ btc ∷ [])
      stale
      (replay_all_bronze_partitions_op decimal fromisoformat loads
        (pos 5)
        started
        is_empty
        []
        bucket
        (eth ∷ btc ∷ [])
        stale)
replay_all_bronze_partitions_op-EndsReplayed_example =
    replay_all_bronze_partitions_op-EndsReplayed decimal fromisoformat loads (pos 5) started
      is_empty [] bucket (eth ∷ btc ∷ []) stale both-IsNamed
