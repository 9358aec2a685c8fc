-- ===== src/Orchestration.antt =====
-- dataeng/orchestration: what the sensor requests of the partitions that are discovered
-- (sensors.py) and what the replay makes of them (jobs.py). Dagster calls them; a cursor is the
-- text that it keeps between two evaluations, or none before the first.
pub mod Requests
pub mod Dirs
pub mod Replay
mod Tests
use post_trade_reconciliatio.Prelude.{
  ℕ, Bool, true, false, not, Option, none, some, List, [], ◌∷◌, ◌++◌, map, filter, any, is_empty,
  length, if◌then◌else◌,
}
use post_trade_reconciliatio.Prelude.Str.{Str, Str-discrete, Eq, str_eq, same}
use post_trade_reconciliatio.Prelude.Split.{split, split_once, join}
use post_trade_reconciliatio.Prelude.Ordered.{leb_str, sorted_by}
use post_trade_reconciliatio.Models.{Decimal, DateTime}
use post_trade_reconciliatio.Ingest.{Number, Loaded, Message, Result, returns, raises, Ingestor}
use post_trade_reconciliatio.Silver.{SilverTransformResult, Files, transform_symbol_date}
use post_trade_reconciliatio.Discovery.{Partition}

unfoldable pub Parts-discrete : Discrete (List Str)
unfolding Str-discrete
Parts-discrete = hlevel Str-discrete

instance abbrev pub parts_eq : Eq (List Str)
parts_eq = record { dec = Parts-discrete }

-- `(s, d) <= (t, e)` of tuples of texts.
abbrev pub leb_partition : Partition → Partition → Bool
leb_partition p q = if same p.0 q.0 then leb_str p.1 q.1 else leb_str p.0 q.0

-- The tuples of the pairs in the cursor.
abbrev pub seen : Option Str → List (List Str)
seen none = []
seen (some cursor) =
    if is_empty cursor
    then []
    else map (split_once b'|') (filter (λ pair. not (is_empty pair)) (split b',' cursor))

abbrev pub was_seen : Option Str → Partition → Bool
was_seen cursor p = any (same (p.0 ∷ p.1 ∷ [])) (seen cursor)

-- The cursor that is left: the available partitions, in the order of the set.
unfoldable pub new_cursor : List Partition → Str
new_cursor available = join b',' (map (λ p. p.0 ++ b'|' ∷ p.1) available)

-- `new_bronze_partition_sensor`: the partition keys that it requests, and the cursor.
unfoldable pub new_bronze_partition_sensor : Option Str → List Partition → List Partition × Str
unfolding new_cursor
new_bronze_partition_sensor cursor available = (
  sorted_by leb_partition (filter (λ p. not (was_seen cursor p)) available),
  new_cursor available,
)

-- The requests of evaluations one after the other, each with what is available then.
unfoldable pub evaluations : Option Str → List (List Partition) → List Partition
unfolding new_bronze_partition_sensor
evaluations cursor [] = []
evaluations cursor (available ∷ later) =
    let (requests, left) = new_bronze_partition_sensor cursor available in
    requests ++ evaluations (some left) later

-- What a transform leaves is what the next one starts from.
abbrev pub next_files :
    Result (SilverTransformResult × Files) → (Files → Result Files) → Result Files
next_files raises f = raises
next_files (returns (result, files)) f = f files

abbrev pub counted : ℕ → Result Files → Result (ℕ × Files)
counted n raises = raises
counted n (returns files) = returns (n, files)

module _ (decimal : Str → Number) (fromisoformat : Str → Option DateTime) (loads : Str → Loaded)
    (now : DateTime) (ingestor : Ingestor) (is_blank : Str → Bool) (output_dir : Str)
    (bucket : List (Str × List Str)) where
  -- `silver_ticks`, for one partition key.
  unfoldable pub silver_ticks : Partition → Files → Result (SilverTransformResult × Files)
  silver_ticks (symbol, date) files =
      transform_symbol_date decimal fromisoformat loads now ingestor is_blank symbol date output_dir
        bucket files

  abbrev pub replay_each : List Partition → Files → Result Files
  replay_each [] files = returns files
  replay_each ((symbol, date) ∷ partitions) files =
      next_files
        (transform_symbol_date decimal fromisoformat loads now ingestor is_blank symbol date
          output_dir bucket files)
        (replay_each partitions)

  -- `replay_all_bronze_partitions_op`, over what is discovered.
  unfoldable pub replay_all_bronze_partitions_op : List Partition → Files → Result (ℕ × Files)
  replay_all_bronze_partitions_op partitions files =
      counted (length partitions) (replay_each (sorted_by leb_partition partitions) files)
