-- ===== src/Silver/Landed.antt =====
-- The texts that ingest/async_ingestor.py landed for a symbol, and the rows that
-- dataeng/silver/silver_transform.py leaves in a directory.
use mathlib.Core.List.{append-nil}
use post_trade_reconciliatio.Prelude.{
  ◌≡◌, ◌≢◌, refl, ap, sym, ◌∙◌, Bool, true, false, not, Option, none, some, List, [], ◌∷◌, ◌++◌,
  filter, is_empty, if◌then◌else◌, arith,
}
use post_trade_reconciliatio.Prelude.Int.{pos}
use post_trade_reconciliatio.Prelude.Str.{Str, str_eq, same}
use post_trade_reconciliatio.Models.{DateTime, Tick}
use post_trade_reconciliatio.Ingest.{
  no_json, not_object, object, Number, Loaded, Result, returns, raises, new_ingestor,
}
use post_trade_reconciliatio.Silver.{
  Normalized, and_then, Files, rewrite, normalize_line, normalize_lines,
}

-- A tick but for the reading of the clock.
abbrev pub without_clock : Tick → Tick
without_clock t = record t { ingest_timestamp = pos 0 }

-- The texts that the hook was given for a symbol.
abbrev pub texts_of : Str → List (Str × Str) → List Str
texts_of symbol [] = []
texts_of symbol (l ∷ landed) =
    if same l.0 symbol then l.1 ∷ texts_of symbol landed else texts_of symbol landed

-- A message that has a time.
abbrev pub has_time : Option Str → Bool
has_time none = false
has_time (some raw) = not (is_empty raw)

abbrev pub is_timed : Loaded → Bool
is_timed no_json = true
is_timed not_object = true
is_timed (object msg) = has_time msg.time

abbrev pub start : Normalized
start = record { ticks = []; failures = 0; ingestor = new_ingestor false }

pub texts_of-snoc :
    (symbol raw : Str) (landed : List (Str × Str)) (key : Str)
    → key ≡ symbol
    → texts_of symbol (landed ++ (key, raw) ∷ []) ≡ texts_of symbol landed ++ raw ∷ []
texts_of-snoc symbol raw [] key e = ground arith
texts_of-snoc symbol raw (l ∷ landed) key e = ground (arith, texts_of-snoc symbol raw landed key e)

pub texts_of-snoc_other :
    (symbol raw : Str) (landed : List (Str × Str)) (key : Str)
    → key ≢ symbol
    → texts_of symbol (landed ++ (key, raw) ∷ []) ≡ texts_of symbol landed
texts_of-snoc_other symbol raw [] key e = ground arith
texts_of-snoc_other symbol raw (l ∷ landed) key e =
    ground (arith, texts_of-snoc_other symbol raw landed key e)

and_then-returns : (r : Result Normalized) → and_then r returns ≡ r
and_then-returns raises = refl
and_then-returns (returns n) = refl

and_then_assoc :
    (r : Result Normalized) (f g : Normalized → Result Normalized)
    → and_then (and_then r f) g ≡ and_then r (λ n. and_then (f n) g)
and_then_assoc raises f g = refl
and_then_assoc (returns n) f g = refl

-- The rows of a directory's files.
abbrev pub rows_at : Str → Files → List Tick
rows_at dir [] = []
rows_at dir (f ∷ files) = if same f.0 dir then f.1 ++ rows_at dir files else rows_at dir files

rows_at-snoc :
    (dir : Str) (ticks : List Tick) (files : Files)
    → rows_at dir (filter (λ f. not (same f.0 dir)) files ++ (dir, ticks) ∷ []) ≡ ticks
rows_at-snoc dir ticks [] = ground (arith, append-nil ticks)
rows_at-snoc dir ticks (f ∷ files) = ground (arith, rows_at-snoc dir ticks files)

rows_at-others :
    (dir : Str) (files : Files) → rows_at dir (filter (λ f. not (same f.0 dir)) files) ≡ []
rows_at-others dir [] = refl
rows_at-others dir (f ∷ files) = ground (arith, rows_at-others dir files)

pub rows_at-rewrite :
    (dir : Str) (ticks : List Tick) (files : Files) → rows_at dir (rewrite dir ticks files) ≡ ticks
unfolding rewrite
rows_at-rewrite dir [] files = rows_at-others dir files
rows_at-rewrite dir (t ∷ ticks) files = rows_at-snoc dir (t ∷ ticks) files

module _ (decimal : Str → Number) (fromisoformat : Str → Option DateTime) (loads : Str → Loaded)
    (now : DateTime) where
  pub normalize_lines-snoc :
      (lines : List Str) (raw : Str) (n : Normalized)
      → normalize_lines decimal fromisoformat loads now (lines ++ raw ∷ []) n
        ≡ and_then
            (normalize_lines decimal fromisoformat loads now lines n)
            (normalize_line decimal fromisoformat loads now (loads raw))
  unfolding normalize_lines
  normalize_lines-snoc [] raw n = and_then-returns _
  normalize_lines-snoc (line ∷ lines) raw n =
      ap (and_then (normalize_line decimal fromisoformat loads now (loads line) n))
        (λ i m. normalize_lines-snoc lines raw m i)
      ∙ sym (and_then_assoc (normalize_line decimal fromisoformat loads now (loads line) n) _ _)
