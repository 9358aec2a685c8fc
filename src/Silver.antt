-- ===== src/Silver.antt =====
-- dataeng/silver/silver_transform.py: the rebuild of a partition from the bronze bucket. An object
-- of the bucket is its key's partition and its lines; a Parquet file is its directory and its rows.
pub mod Rebuild
pub mod Numbered
pub mod Landed
pub mod Replayed
pub mod Republished
mod Tests
use post_trade_reconciliatio.Prelude.{
  ℕ, ◌+◌, Bool, true, false, ◌&&◌, not, Option, none, some, List, [], ◌∷◌, ◌++◌, filter, any,
  is_empty, length, if◌then◌else◌,
}
use post_trade_reconciliatio.Prelude.Str.{Str, str, str_eq, same, starts_with}
use post_trade_reconciliatio.Prelude.Split.{splitlines}
use post_trade_reconciliatio.Bronze.{object_body}
use post_trade_reconciliatio.Models.{Decimal, DateTime, Tick}
use post_trade_reconciliatio.Ingest.{
  no_json, not_object, object, Number, Loaded, Message, Result, returns, raises, Ingestor,
  normalize,
}

pub record SilverTransformResult : Type 0 where
  pub lines_read : ℕ
  pub duplicates_dropped : ℕ
  pub normalization_failures : ℕ
  pub rows_written : ℕ

abbrev pub bronze_prefix : Str → Str → Str
bronze_prefix symbol date = str "ticks/symbol=" ++ symbol ++ str "/date=" ++ date ++ str "/"

-- `list_bronze_objects`, then `read_bronze_lines`: the lines of the bodies, without those of white
-- space.
unfoldable pub read_bronze_lines : (Str → Bool) → Str → List (Str × List Str) → List Str
read_bronze_lines is_blank prefix [] = []
read_bronze_lines is_blank prefix (o ∷ bucket) =
    let rest = read_bronze_lines is_blank prefix bucket in
    if starts_with prefix (o.0 ++ str "/")
    then filter (λ line. not (is_blank line)) (splitlines (object_body o.1)) ++ rest
    else rest

-- The loop over `raw_lines`: what is seen for the first time, and the number of the others.
unfoldable pub dedup : List Str → List Str → List Str × ℕ
dedup seen [] = ([], 0)
dedup seen (line ∷ lines) =
    let later = dedup seen lines in
    let first = dedup (seen ++ line ∷ []) lines in
    if any (same line) seen then (later.0, later.1 + 1) else (line ∷ first.0, first.1)

-- What the loop over `deduped` has made: the ticks, the failures and the ingestor.
pub record Normalized : Type 0 where
  pub ticks : List Tick
  pub failures : ℕ
  pub ingestor : Ingestor

abbrev pub failed : Normalized → Normalized
failed n = record n { failures = n.failures + 1 }

abbrev pub with_tick : Normalized → Result (Option Tick × Ingestor) → Result Normalized
with_tick n raises = raises
with_tick n (returns (none, s)) = returns (record (failed n) { ingestor = s })
with_tick n (returns (some tick, s)) =
    returns (record n { ticks = n.ticks ++ tick ∷ []; ingestor = s })

abbrev pub and_then : Result Normalized → (Normalized → Result Normalized) → Result Normalized
and_then raises f = raises
and_then (returns n) f = f n

-- The Parquet files of the output directory.
abbrev pub Files : Type 0
Files = List (Str × List Tick)

abbrev pub partition_dir : Str → Str → Str → Str
partition_dir output_dir symbol date =
    output_dir ++ str "/ticks/symbol=" ++ symbol ++ str "/date=" ++ date

-- The stale files go, and a file is written if there are rows.
unfoldable pub rewrite : Str → List Tick → Files → Files
rewrite dir ticks files =
    let kept = filter (λ f. not (same f.0 dir)) files in
    if is_empty ticks then kept else kept ++ (dir, ticks) ∷ []

module _ (decimal : Str → Number) (fromisoformat : Str → Option DateTime) (loads : Str → Loaded)
    (now : DateTime) where
  abbrev pub normalize_line : Loaded → Normalized → Result Normalized
  normalize_line no_json n = returns (failed n)
  normalize_line not_object n = raises
  normalize_line (object msg) n = with_tick n (normalize decimal fromisoformat msg now n.ingestor)

  unfoldable pub normalize_lines : List Str → Normalized → Result Normalized
  unfolding normalize
  normalize_lines [] n = returns n
  normalize_lines (line ∷ lines) n =
      and_then (normalize_line (loads line) n) (normalize_lines lines)

  abbrev pub finish :
      List Str → ℕ → Str → Files → Result Normalized → Result (SilverTransformResult × Files)
  finish raw_lines dropped dir files raises = raises
  finish raw_lines dropped dir files (returns n) = returns (
    record {
      lines_read = length raw_lines;
      duplicates_dropped = dropped;
      normalization_failures = n.failures;
      rows_written = length n.ticks;
    },
    rewrite dir n.ticks files,
  )

  -- `transform_symbol_date`, with a fresh ingestor.
  unfoldable pub transform_symbol_date :
      Ingestor
      → (Str → Bool)
      → Str
      → Str
      → Str
      → List (Str × List Str)
      → Files
      → Result (SilverTransformResult × Files)
  unfolding read_bronze_lines dedup normalize_lines rewrite
  transform_symbol_date ingestor is_blank symbol date output_dir bucket files =
      let raw_lines = read_bronze_lines is_blank (bronze_prefix symbol date) bucket in
      let (deduped, dropped) = dedup [] raw_lines in
      finish raw_lines dropped (partition_dir output_dir symbol date) files
        (normalize_lines deduped (record { ticks = []; failures = 0; ingestor = ingestor }))
