-- ===== src/Silver/Rebuild.antt =====
-- What the rebuild of dataeng/silver/silver_transform.py accounts for, and what a second run does.
use mathlib.Core.List.{append-nil}
use post_trade_reconciliatio.Prelude.{
  ℕ, ◌+◌, ◌≡◌, refl, ap, subst, Bool, not, Option, none, some, List, [], ◌∷◌, ◌++◌, filter,
  filter-append, any, length, length-append, arith, Bool-cases, inl, inr,
}
use post_trade_reconciliatio.Prelude.Str.{Str, str_eq, same}
use post_trade_reconciliatio.Models.{DateTime, Tick}
use post_trade_reconciliatio.Ingest.{
  no_json, not_object, object, Number, Loaded, Result, returns, raises, Ingestor, normalize,
}
use post_trade_reconciliatio.Silver.{
  SilverTransformResult, read_bronze_lines, bronze_prefix, dedup, Normalized, with_tick, and_then,
  Files, partition_dir, rewrite, normalize_line, normalize_lines, finish, transform_symbol_date,
}

-- The lines that are kept and those that are dropped are all the lines.
length-dedup :
    (seen lines : List Str) → length lines ≡ length (dedup seen lines).0 + (dedup seen lines).1
unfolding dedup
length-dedup seen [] = refl
length-dedup seen (line ∷ lines) = elim (Bool-cases (any (same line) seen)) [
  | inl e ↦ rw e (ground (arith, length-dedup seen lines))
  | inr e ↦ rw e (ground (arith, length-dedup (seen ++ line ∷ []) lines))
]

abbrev Counted : ℕ → Result Normalized → Type 0
Counted n raises = Unit
Counted n (returns m) = n ≡ m.failures + length m.ticks

Counted-with_tick :
    (n : Normalized) (r : Result (Option Tick × Ingestor))
    → Counted (n.failures + length n.ticks + 1) (with_tick n r)
Counted-with_tick n raises = tt
Counted-with_tick n (returns (none, s)) = omega arith
Counted-with_tick n (returns (some tick, s)) = ground (arith, length-append n.ticks (tick ∷ []))

Counted-and_then :
    (k j : ℕ) (r : Result Normalized) (f : Normalized → Result Normalized)
    → Counted k r
    → ((n : Normalized) → k ≡ n.failures + length n.ticks → Counted j (f n))
    → Counted j (and_then r f)
Counted-and_then k j raises f h g = tt
Counted-and_then k j (returns n) f h g = g n h

-- Every line that is read is a duplicate, a failure or a row.
abbrev pub Accounts : Result (SilverTransformResult × Files) → Type 0
Accounts raises = Unit
Accounts (returns (r, files)) =
    r.lines_read ≡ r.duplicates_dropped + r.normalization_failures + r.rows_written

filter-twice :
    (dir : Str) (files : Files)
    → filter (λ f. not (same f.0 dir)) (filter (λ f. not (same f.0 dir)) files)
      ≡ filter (λ f. not (same f.0 dir)) files
filter-twice dir [] = refl
filter-twice dir (f ∷ files) = ground (arith, filter-twice dir files)

filter-own :
    (dir : Str) (ticks : List Tick)
    → filter (λ (f : Str × List Tick). not (same f.0 dir)) ((dir, ticks) ∷ []) ≡ []
filter-own dir ticks = ground arith

rewrite-again :
    (dir : Str) (ticks : List Tick) (files : Files)
    → rewrite dir ticks (rewrite dir ticks files) ≡ rewrite dir ticks files
unfolding rewrite
rewrite-again dir [] files = filter-twice dir files
rewrite-again dir (t ∷ ticks) files =
    rw
      (
        filter-append (λ f. not (same f.0 dir)) (filter (λ f. not (same f.0 dir)) files)
            ((dir, t ∷ ticks) ∷ []),
        filter-twice dir files,
        filter-own dir (t ∷ ticks),
      )
      (ap (λ k. k ++ (dir, t ∷ ticks) ∷ []) (append-nil (filter (λ f. not (same f.0 dir)) files)))

-- A run on the files that another run leaves.
abbrev pub with_files :
    Result (SilverTransformResult × Files)
    → (Files → Result (SilverTransformResult × Files))
    → Result (SilverTransformResult × Files)
with_files raises f = raises
with_files (returns (r, files)) f = f files

module _ (decimal : Str → Number) (fromisoformat : Str → Option DateTime) (loads : Str → Loaded)
    (now : DateTime) where
  Counted-normalize_line :
      (msg : Loaded) (n : Normalized)
      → Counted
          (n.failures + length n.ticks + 1)
          (normalize_line decimal fromisoformat loads now msg n)
  Counted-normalize_line no_json n = omega arith
  Counted-normalize_line not_object n = tt
  Counted-normalize_line (object msg) n =
      Counted-with_tick n (normalize decimal fromisoformat msg now n.ingestor)

  Counted-normalize_lines :
      (lines : List Str) (n : Normalized)
      → Counted
          (n.failures + length n.ticks + length lines)
          (normalize_lines decimal fromisoformat loads now lines n)
  unfolding normalize_lines
  Counted-normalize_lines [] n = omega arith
  Counted-normalize_lines (line ∷ lines) n =
      let before = n.failures + length n.ticks in
      Counted-and_then (before + 1) (before + length (line ∷ lines)) _
        (normalize_lines decimal fromisoformat loads now lines)
        (Counted-normalize_line (loads line) n)
        (λ m e.
          let moved : m.failures + length m.ticks + length lines ≡ before + length (line ∷ lines) =
            omega (arith, e) in
          subst (λ k. Counted k (normalize_lines decimal fromisoformat loads now lines m)) moved
            (Counted-normalize_lines lines m))

  Accounts-finish :
      (raw_lines : List Str) (dropped kept : ℕ) (dir : Str) (files : Files) (r : Result Normalized)
      → length raw_lines ≡ kept + dropped
      → Counted kept r
      → Accounts (finish decimal fromisoformat loads now raw_lines dropped dir files r)
  Accounts-finish raw_lines dropped kept dir files raises e h = tt
  Accounts-finish raw_lines dropped kept dir files (returns n) e h = omega (arith, e, h)

  with_files-finish :
      (raw_lines : List Str) (dropped : ℕ) (dir : Str) (files : Files) (r : Result Normalized)
      → with_files
          (finish decimal fromisoformat loads now raw_lines dropped dir files r)
          (λ fs. finish decimal fromisoformat loads now raw_lines dropped dir fs r)
        ≡ finish decimal fromisoformat loads now raw_lines dropped dir files r
  with_files-finish raw_lines dropped dir files raises = refl
  with_files-finish raw_lines dropped dir files (returns n) =
      ap
        (λ (fs : Files). returns (
          record {
            lines_read = length raw_lines;
            duplicates_dropped = dropped;
            normalization_failures = n.failures;
            rows_written = length n.ticks;
          },
          fs,
        ))
        (rewrite-again dir n.ticks files)

  module _ (ingestor : Ingestor) (is_blank : Str → Bool) (symbol date output_dir : Str)
      (bucket : List (Str × List Str)) where
    -- Every line that a rebuild reads from the bucket is counted once: as a duplicate, as a failure
    -- or as a row that it writes, unless a line raises.
    pub transform_symbol_date-Accounts :
        (files : Files)
        → Accounts (
            transform_symbol_date decimal fromisoformat loads now ingestor is_blank symbol date
              output_dir bucket files)
    unfolding transform_symbol_date
    transform_symbol_date-Accounts files =
        let raw_lines = read_bronze_lines is_blank (bronze_prefix symbol date) bucket in
        let (deduped, dropped) = dedup [] raw_lines in
        let counted : length raw_lines ≡ 0 + 0 + length deduped + dropped =
          omega (arith, length-dedup [] raw_lines) in
        Accounts-finish raw_lines dropped (0 + 0 + length deduped)
          (partition_dir output_dir symbol date) files _ counted
          (Counted-normalize_lines deduped
            (record { ticks = []; failures = 0; ingestor = ingestor }))

    -- A second rebuild of a partition from the same bucket, at the same reading of the clock, changes
    -- nothing: it ends as the first did, with the same counts, and leaves the same files.
    pub transform_symbol_date-with_files :
        (files : Files)
        → with_files
            (transform_symbol_date decimal fromisoformat loads now ingestor is_blank symbol date
              output_dir bucket files)
            (transform_symbol_date decimal fromisoformat loads now ingestor is_blank symbol date
              output_dir bucket)
          ≡ transform_symbol_date decimal fromisoformat loads now ingestor is_blank symbol date
              output_dir bucket files
    unfolding transform_symbol_date
    transform_symbol_date-with_files files =
        let raw_lines = read_bronze_lines is_blank (bronze_prefix symbol date) bucket in
        let (deduped, dropped) = dedup [] raw_lines in
        with_files-finish raw_lines dropped (partition_dir output_dir symbol date) files (
          normalize_lines decimal fromisoformat loads now deduped
            (record { ticks = []; failures = 0; ingestor = ingestor }))
