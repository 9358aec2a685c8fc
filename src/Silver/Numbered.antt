-- ===== src/Silver/Numbered.antt =====
-- The sequence numbers of the rows that dataeng/silver/silver_transform.py writes.
use post_trade_reconciliatio.Prelude.{
  ℕ, ◌≡◌, refl, ap, ◌∙◌, Bool, true, false, not, Option, none, some, List, [], ◌∷◌, map, filter,
  length, All, All-snoc, Bool-cases, inl, inr, arith,
}
use post_trade_reconciliatio.Prelude.Str.{Str, str_eq, same}
use post_trade_reconciliatio.Prelude.Dict.{lookup_or}
use post_trade_reconciliatio.Models.{Decimal, DateTime, Tick}
use post_trade_reconciliatio.Ingest.{
  no_json, not_object, object, finite, not_finite, invalid, number_of, is_valid, built, Number,
  Loaded, Message, Result, returns, raises, Ingestor, timestamp_of, tick_of, normalize_of,
  normalize,
}
use post_trade_reconciliatio.Ingest.Numbering.{
  range_from, ticks_of, IsNumbered, publish-IsNumbered, Returns,
}
use post_trade_reconciliatio.Silver.{
  SilverTransformResult, Normalized, with_tick, and_then, Files, rewrite, normalize_line,
  normalize_lines, finish, transform_symbol_date, read_bronze_lines, bronze_prefix, dedup,
  partition_dir,
}

-- The ticks so far in the place of the published ones.
abbrev as_published : Normalized → Ingestor
as_published n = record n.ingestor { published = n.ticks; total_published = length n.ticks }

abbrev HasNumbers : Normalized → Type 0
HasNumbers n = IsNumbered (as_published n)

-- Each symbol's rows are numbered 1, 2, 3 and so on in their order.
abbrev pub AreNumbered : List Tick → Type 0
AreNumbered ticks =
    (symbol : Str)
    → map (λ t. t.sequence) (ticks_of symbol ticks) ≡ range_from 1 (length (ticks_of symbol ticks))

HasNumbers-and_then :
    (r : Result Normalized) (f : Normalized → Result Normalized)
    → Returns HasNumbers r
    → ((n : Normalized) → HasNumbers n → Returns HasNumbers (f n))
    → Returns HasNumbers (and_then r f)
HasNumbers-and_then raises f h g = tt
HasNumbers-and_then (returns n) f h g = g n h

built-HasNumbers :
    (valid : Bool) (n : Normalized) (made : Option Tick × Ingestor)
    → Returns HasNumbers (with_tick n (returns made))
    → Returns HasNumbers (with_tick n (built valid made))
built-HasNumbers true n made h = h
built-HasNumbers false n made h = tt

module _ (decimal : Str → Number) (fromisoformat : Str → Option DateTime) (loads : Str → Loaded)
    (now : DateTime) where
  tick_of-HasNumbers :
      (msg : Message) (symbol : Str) (price : Decimal) (n : Normalized) (t : Result DateTime)
      → HasNumbers n
      → Returns HasNumbers
          (with_tick n (tick_of decimal fromisoformat msg symbol price now n.ingestor t))
  tick_of-HasNumbers msg symbol price n raises h = tt
  tick_of-HasNumbers msg symbol price n (returns t) h =
      let k = publish-IsNumbered false _ (as_published n) h refl in
      built-HasNumbers (is_valid decimal fromisoformat msg) n _
        (record { next = k.next; numbers = k.numbers; total = refl })

  normalize-HasNumbers :
      (symbol : Option Str) (price : Number) (msg : Message) (n : Normalized)
      → HasNumbers n
      → Returns HasNumbers
          (with_tick n (normalize_of decimal fromisoformat symbol price msg now n.ingestor))
  normalize-HasNumbers none price msg n h = h
  normalize-HasNumbers (some symbol) invalid msg n h = h
  normalize-HasNumbers (some symbol) not_finite msg n h = tt
  normalize-HasNumbers (some symbol) (finite price) msg n h =
      tick_of-HasNumbers msg symbol price n (timestamp_of decimal fromisoformat msg.time now) h

  normalize_line-HasNumbers :
      (msg : Loaded) (n : Normalized)
      → HasNumbers n
      → Returns HasNumbers (normalize_line decimal fromisoformat loads now msg n)
  unfolding normalize
  normalize_line-HasNumbers no_json n h = h
  normalize_line-HasNumbers not_object n h = tt
  normalize_line-HasNumbers (object msg) n h =
      normalize-HasNumbers msg.product_id (number_of decimal fromisoformat msg.price) msg n h

  normalize_lines-HasNumbers :
      (lines : List Str) (n : Normalized)
      → HasNumbers n
      → Returns HasNumbers (normalize_lines decimal fromisoformat loads now lines n)
  unfolding normalize_lines
  normalize_lines-HasNumbers [] n h = h
  normalize_lines-HasNumbers (line ∷ lines) n h =
      HasNumbers-and_then _ (normalize_lines decimal fromisoformat loads now lines)
        (normalize_line-HasNumbers (loads line) n h) (λ m k. normalize_lines-HasNumbers lines m k)

-- The rows of every silver file are numbered.
abbrev pub HoldNumbered : Files → Type 0
HoldNumbered = All (λ f. AreNumbered f.1)

pub All-filter {κ} :
    (P : Str × List Tick → Type κ) (p : Str × List Tick → Bool) (files : Files)
    → All P files
    → All P (filter p files)
All-filter P p [] h = tt
All-filter P p (f ∷ files) h = elim (Bool-cases (p f)) [
  | inl e ↦ rw e (h.0, All-filter P p files h.1)
  | inr e ↦ rw e (All-filter P p files h.1)
]

rewrite-HoldNumbered :
    (dir : Str) (ticks : List Tick) (files : Files)
    → AreNumbered ticks
    → HoldNumbered files
    → HoldNumbered (rewrite dir ticks files)
unfolding rewrite
rewrite-HoldNumbered dir [] files h hs =
    All-filter (λ f. AreNumbered f.1) (λ f. not (same f.0 dir)) files hs
rewrite-HoldNumbered dir (t ∷ ticks) files h hs =
    All-snoc (λ (f : Str × List Tick). AreNumbered f.1) (dir, t ∷ ticks) _
      (All-filter (λ f. AreNumbered f.1) (λ f. not (same f.0 dir)) files hs) h

-- The files that a rebuild leaves, if it returns.
abbrev pub Leaves : (Files → Type 0) → Result (SilverTransformResult × Files) → Type 0
Leaves P raises = Unit
Leaves P (returns (result, files)) = P files

finish-HoldNumbered :
    (decimal : Str → Number) (fromisoformat : Str → Option DateTime) (loads : Str → Loaded)
    (now : DateTime) (raw_lines : List Str) (dropped : ℕ) (dir : Str) (files : Files)
    (r : Result Normalized)
    → HoldNumbered files
    → Returns HasNumbers r
    → Leaves HoldNumbered (finish decimal fromisoformat loads now raw_lines dropped dir files r)
finish-HoldNumbered decimal fromisoformat loads now raw_lines dropped dir files raises hs h = tt
finish-HoldNumbered decimal fromisoformat loads now raw_lines dropped dir files (returns n) hs h =
    rewrite-HoldNumbered dir n.ticks files h.numbers hs

started-HasNumbers :
    (ingestor : Ingestor)
    → ingestor.sequences ≡ []
    → HasNumbers (record { ticks = []; failures = 0; ingestor = ingestor })
started-HasNumbers ingestor fresh = record {
  next = λ symbol. ap (lookup_or symbol 1) fresh ∙ omega arith;
  numbers = λ symbol. refl;
  total = refl;
}

-- A rebuild with a fresh ingestor numbers the rows of each symbol in its file 1, 2, 3 and so on, in
-- the order of the lines, and if that is so in the other silver files, it stays so.
pub transform_symbol_date-HoldNumbered :
    (decimal : Str → Number) (fromisoformat : Str → Option DateTime) (loads : Str → Loaded)
    (now : DateTime) (ingestor : Ingestor) (is_blank : Str → Bool) (symbol date output_dir : Str)
    (bucket : List (Str × List Str)) (files : Files)
    → ingestor.sequences ≡ []
    → HoldNumbered files
    → Leaves HoldNumbered (
        transform_symbol_date decimal fromisoformat loads now ingestor is_blank symbol date
          output_dir bucket files)
unfolding transform_symbol_date
transform_symbol_date-HoldNumbered decimal fromisoformat loads now ingestor is_blank symbol date
      output_dir bucket files fresh hs =
    let raw_lines = read_bronze_lines is_blank (bronze_prefix symbol date) bucket in
    let (deduped, dropped) = dedup [] raw_lines in
    finish-HoldNumbered decimal fromisoformat loads now raw_lines dropped
      (partition_dir output_dir symbol date) files _ hs
      (normalize_lines-HasNumbers decimal fromisoformat loads now deduped
        (record { ticks = []; failures = 0; ingestor = ingestor })
        (started-HasNumbers ingestor fresh))
