-- ===== src/Capture/Rebuilt.antt =====
-- The rows that dataeng/silver/silver_transform.py rebuilds from the bucket that
-- dataeng/bronze/run_bronze_ingestor.py leaves.
use mathlib.Core.List.{append_assoc}
use post_trade_reconciliatio.Prelude.{
  ℕ, ◌≡◌, refl, ap, sym, ◌∙◌, subst, Bool, true, false, not, Option, List, [], ◌∷◌, ◌++◌, filter,
  any, any-append, All, arith,
}
use post_trade_reconciliatio.Prelude.Str.{Str, str_eq, nat_eq, same}
use post_trade_reconciliatio.Prelude.Split.{has_char}
use post_trade_reconciliatio.Prelude.Distinct.{is_distinct}
use post_trade_reconciliatio.Models.{DateTime}
use post_trade_reconciliatio.Ingest.{Number, Loaded, returns, Ingestor, new_ingestor, handle_all}
use post_trade_reconciliatio.Ingest.Numbering.{Returns, ticks_of}
use post_trade_reconciliatio.Bronze.{partition_key}
use post_trade_reconciliatio.Silver.{Files, partition_dir, dedup, transform_symbol_date}
use post_trade_reconciliatio.Silver.Landed.{texts_of, is_timed}
use post_trade_reconciliatio.Silver.Republished.{Writes, transform_symbol_date-Writes}
use post_trade_reconciliatio.Capture.{Event, main}
use post_trade_reconciliatio.Capture.Landed.{texts}
use post_trade_reconciliatio.Capture.Kept.{IsAt, arrivals_of, handle_all-texts}
use post_trade_reconciliatio.Capture.Read.{IsFit, IsLine, read_bronze_lines-main}

distinct-new :
    (xs : List Str) (y : Str) (ys : List Str)
    → is_distinct (xs ++ y ∷ ys) ≡ true
    → any (same y) xs ≡ false
distinct-new [] y ys h = refl
distinct-new (x ∷ xs) y ys h =
    ground (arith, h, distinct-new xs y ys, any-append (same x) xs (y ∷ ys), λ (e : y ≡ x). sym e)

dedup-distinct :
    (seen lines : List Str) → is_distinct (seen ++ lines) ≡ true → (dedup seen lines).0 ≡ lines
unfolding dedup
dedup-distinct seen [] h = refl
dedup-distinct seen (line ∷ lines) h = rw (distinct-new seen line lines h) (
    ap (◌∷◌ line) (
      dedup-distinct (seen ++ line ∷ []) lines
        (ap is_distinct (append_assoc seen (line ∷ []) lines) ∙ h)))

filter-text :
    (is_blank : Str → Bool) (lines : List Str)
    → All (λ line. is_blank line ≡ false) lines
    → filter (λ line. not (is_blank line)) lines ≡ lines
filter-text is_blank [] h = refl
filter-text is_blank (line ∷ lines) h = ground (arith, h.0, filter-text is_blank lines h.1)

module _ (decimal : Str → Number) (fromisoformat : Str → Option DateTime) (loads : Str → Loaded)
    (now : DateTime) where
  -- If `main` ends after messages that all arrive in one hour, have a time and, if they have a
  -- product, one without a slash, and no message raises, and if the texts of a symbol are distinct,
  -- none is white space and none has a line boundary of `splitlines`, then a rebuild from the bucket
  -- that `main` leaves returns, and the rows in its directory are the ticks that were published for
  -- the symbol, in their order and with their sequence numbers, but for the time of ingestion, if
  -- the bucket lists its objects in the order in which they were put, and whatever the writer's
  -- thresholds are.
  pub transform_symbol_date-main :
      (symbol date hour output_dir : Str) (is_blank : Str → Bool)
      (flush_max_lines flush_max_seconds : ℕ) (events : List Event) (s : Ingestor) (files : Files)
      → has_char b'/' symbol ≡ false
      → All (IsFit loads) events
      → All (IsAt date hour) events
      → All (λ a. is_timed (loads a.raw) ≡ true) (arrivals_of events)
      → handle_all decimal fromisoformat loads (arrivals_of events) (new_ingestor true) ≡ returns s
      → is_distinct (texts_of symbol s.landed) ≡ true
      → All (λ line. is_blank line ≡ false) (texts_of symbol s.landed)
      → All IsLine (texts_of symbol s.landed)
      → Writes (partition_dir output_dir symbol date) (ticks_of symbol s.published) (
          transform_symbol_date decimal fromisoformat loads now
            (new_ingestor false)
            is_blank
            symbol
            date
            output_dir
            (main decimal fromisoformat loads flush_max_lines flush_max_seconds events).bucket
            files)
  transform_symbol_date-main symbol date hour output_dir is_blank flush_max_lines flush_max_seconds
        events s files plain fit at timed ends distinct text lines =
      let arrived = texts decimal fromisoformat loads (partition_key symbol date hour) events in
      let landed : texts_of symbol s.landed ≡ arrived =
        subst (Returns (λ s'. texts_of symbol s'.landed ≡ arrived)) ends (
          handle_all-texts symbol date hour decimal fromisoformat loads events (new_ingestor true)
            refl at) in
      transform_symbol_date-Writes decimal fromisoformat loads now symbol date output_dir is_blank
        (arrivals_of events) s _ files ends timed
        (ap (λ ls. (dedup [] ls).0)
            (read_bronze_lines-main date hour decimal fromisoformat loads is_blank symbol
                flush_max_lines flush_max_seconds events plain fit at
                (subst (All IsLine) landed lines)
              ∙ ap (filter (λ line. not (is_blank line))) (sym landed)
              ∙ filter-text is_blank (texts_of symbol s.landed) text)
          ∙ dedup-distinct [] (texts_of symbol s.landed) distinct)
