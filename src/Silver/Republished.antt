-- ===== src/Silver/Republished.antt =====
-- The rows that dataeng/silver/silver_transform.py rebuilds from what ingest/async_ingestor.py landed
-- are the ticks that it published: one normalization for both.
use post_trade_reconciliatio.Prelude.{
  ℕ, ◌≡◌, refl, ap, sym, ◌∙◌, subst, Bool, true, false, Option, none, some, List, [], ◌∷◌, map, All,
  length, length-map, arith,
}
use post_trade_reconciliatio.Prelude.Str.{Str, str_eq}
use post_trade_reconciliatio.Models.{DateTime, Tick}
use post_trade_reconciliatio.Ingest.{
  no_json, not_object, object, number_of, Number, Loaded, Result, returns, raises, Ingestor,
  Arrival, is_relevant, new_ingestor, timestamp_of, normalize, handle_data, handle_message,
  handle_all,
}
use post_trade_reconciliatio.Ingest.Numbering.{Returns, if-Returns, and_then-Returns, ticks_of}
use post_trade_reconciliatio.Silver.{
  SilverTransformResult, Normalized, Files, normalize_line, normalize_lines, finish,
  transform_symbol_date, read_bronze_lines, bronze_prefix, dedup, partition_dir,
}
use post_trade_reconciliatio.Silver.Landed.{
  without_clock, texts_of, has_time, is_timed, start, rows_at, rows_at-rewrite,
}
use post_trade_reconciliatio.Silver.Replayed.{IsReplayed, normalize_of-IsReplayed}

-- A rebuild that returns, with these rows in its directory and their number as what it wrote.
abbrev pub Writes : Str → List Tick → Result (SilverTransformResult × Files) → Type 0
Writes dir published raises = ⊥
Writes dir published (returns (r, files)) =
    (map without_clock (rows_at dir files) ≡ map without_clock published)
    × (r.rows_written ≡ length published)

module _ (decimal : Str → Number) (fromisoformat : Str → Option DateTime) (loads : Str → Loaded)
    (now : DateTime) (symbol : Str) where
  abbrev Replayed : Ingestor → Type 0
  Replayed = IsReplayed decimal fromisoformat loads now symbol

  timestamp_of-timed :
      (time : Option Str) (live : DateTime)
      → has_time time ≡ true
      → timestamp_of decimal fromisoformat time live ≡ timestamp_of decimal fromisoformat time now
  timestamp_of-timed none live e = ground arith
  timestamp_of-timed (some []) live e = ground arith
  timestamp_of-timed (some (c ∷ raw)) live e = refl

  handle_data-IsReplayed :
      (raw : Str) (live : DateTime) (window_ends : Bool) (s : Ingestor) (msg : Loaded)
      → Replayed s
      → loads raw ≡ msg
      → is_timed msg ≡ true
      → Returns Replayed (handle_data decimal fromisoformat loads raw live window_ends s msg)
  unfolding normalize
  handle_data-IsReplayed raw live window_ends s no_json h line timed = tt
  handle_data-IsReplayed raw live window_ends s not_object h line timed = tt
  handle_data-IsReplayed raw live window_ends s (object msg) h line timed =
      if-Returns Replayed (is_relevant msg.msg_type) _ (returns s)
        (normalize_of-IsReplayed decimal fromisoformat loads now symbol msg.product_id raw msg
          (number_of decimal fromisoformat msg.price) live window_ends s h
          (λ n. ap (λ m. normalize_line decimal fromisoformat loads now m n) line)
          (timestamp_of-timed msg.time live timed))
        h

  handle_all-IsReplayed :
      (arrivals : List Arrival) (s : Ingestor)
      → Replayed s
      → All (λ a. is_timed (loads a.raw) ≡ true) arrivals
      → Returns Replayed (handle_all decimal fromisoformat loads arrivals s)
  unfolding handle_all handle_message
  handle_all-IsReplayed [] s h timed = h
  handle_all-IsReplayed (a ∷ arrivals) s h timed =
      and_then-Returns Replayed _ (handle_all decimal fromisoformat loads arrivals)
        (handle_data-IsReplayed a.raw a.now a.window_ends s (loads a.raw) h refl (timed.0))
        (λ s' k. handle_all-IsReplayed arrivals s' k (timed.1))

  Writes-finish :
      (lines : List Str) (dropped : ℕ) (dir : Str) (files : Files) (n : Normalized)
      (published : List Tick)
      → map without_clock n.ticks ≡ map without_clock published
      → Writes dir published
          (finish decimal fromisoformat loads now lines dropped dir files (returns n))
  Writes-finish lines dropped dir files n published e = (
    rw (rows_at-rewrite dir n.ticks files) e,
    sym (length-map n.ticks without_clock) ∙ ap length e ∙ length-map published without_clock,
  )

  start-IsReplayed : Replayed (new_ingestor true)
  unfolding normalize_lines
  start-IsReplayed = record {
    made = start;
    replays = refl;
    counter = refl;
    ticks = refl;
    hook = refl;
  }

  -- If an ingestor with a hook returns after messages that have a time, and the lines that a rebuild
  -- reads for a symbol, but for repetitions, are the texts that the hook was given for it, in their
  -- order, then the rebuild returns, and the rows in its directory are the ticks that were published
  -- for the symbol, in their order and with their sequence numbers, but for the time of ingestion,
  -- whatever was in the directory before.
  pub transform_symbol_date-Writes :
      (date output_dir : Str) (is_blank : Str → Bool) (arrivals : List Arrival) (s : Ingestor)
      (bucket : List (Str × List Str)) (files : Files)
      → handle_all decimal fromisoformat loads arrivals (new_ingestor true) ≡ returns s
      → All (λ a. is_timed (loads a.raw) ≡ true) arrivals
      → (dedup [] (read_bronze_lines is_blank (bronze_prefix symbol date) bucket)).0
        ≡ texts_of symbol s.landed
      → Writes (partition_dir output_dir symbol date) (ticks_of symbol s.published) (
          transform_symbol_date decimal fromisoformat loads now
            (new_ingestor false)
            is_blank
            symbol
            date
            output_dir
            bucket
            files)
  unfolding transform_symbol_date
  transform_symbol_date-Writes date output_dir is_blank arrivals s bucket files ends timed reads =
      let raw_lines = read_bronze_lines is_blank (bronze_prefix symbol date) bucket in
      let h : Replayed s =
        subst (Returns Replayed) ends
          (handle_all-IsReplayed arrivals (new_ingestor true) start-IsReplayed timed) in
      rw (reads, h.replays)
        (Writes-finish raw_lines (dedup [] raw_lines).1 (partition_dir output_dir symbol date) files
          h.made (ticks_of symbol s.published) h.ticks)
