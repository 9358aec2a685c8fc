-- ===== src/Ingest/Numbering.antt =====
-- The sequence numbers that ingest/async_ingestor.py gives: its gap-detection axis.
use mathlib.Core.List.{map-append}
use post_trade_reconciliatio.Prelude.{
  ℕ, zero, suc, ◌+◌, ◌≡◌, ◌≢◌, refl, ap, ◌∙◌, Bool, true, false, Option, none, some, List, [], ◌∷◌,
  ◌++◌, map, filter, length, length-append, if◌then◌else◌, arith,
}
use post_trade_reconciliatio.Prelude.Str.{Str, Str-discrete, same, str_eq}
use post_trade_reconciliatio.Prelude.Dict.{lookup_or, insert, lookup_or-insert}
use post_trade_reconciliatio.Models.{Decimal, DateTime, Tick}
use post_trade_reconciliatio.Ingest.{
  Number, Loaded, Message, Result, returns, raises, Ingestor, Arrival, and_then, handle_all,
  is_relevant, timestamp_of, tick_of, normalize_of, normalize, number_of, is_valid, built, finite,
  not_finite, invalid, no_json, not_object, object, publish_tick, publish_of, land, handle_data,
  handle_message,
}

-- n numbers from i on
abbrev pub range_from : ℕ → ℕ → List ℕ
range_from i zero = []
range_from i (suc n) = i ∷ range_from (i + 1) n

range_from-snoc : (i n : ℕ) → range_from i n ++ (i + n) ∷ [] ≡ range_from i (suc n)
range_from-snoc i zero = let e : i + 0 ≡ i = omega arith in ap (λ k. k ∷ []) e
range_from-snoc i (suc n) =
    let e : i + suc n ≡ i + 1 + n = omega arith in
    ap (◌∷◌ i) (ap (λ k. range_from (i + 1) n ++ k ∷ []) e ∙ range_from-snoc (i + 1) n)

numbers-snoc : (n x : ℕ) → x ≡ 1 + n → range_from 1 n ++ x ∷ [] ≡ range_from 1 (n + 1)
numbers-snoc n x e =
    let s : suc n ≡ n + 1 = omega arith in
    ap (λ y. range_from 1 n ++ y ∷ []) e ∙ range_from-snoc 1 n ∙ ap (range_from 1) s

abbrev pub ticks_of : Str → List Tick → List Tick
ticks_of symbol = filter (λ t. same t.symbol symbol)

-- A symbol's published ticks are numbered from 1 without a gap, and the counter has the next
-- number; `total_published` counts what is published.
pub record IsNumbered (s : Ingestor) : Type 0 where
  pub next :
      (symbol : Str) → lookup_or symbol 1 s.sequences ≡ 1 + length (ticks_of symbol s.published)
  pub numbers :
      (symbol : Str)
      → map (λ t. t.sequence) (ticks_of symbol s.published)
        ≡ range_from 1 (length (ticks_of symbol s.published))
  pub total : s.total_published ≡ length s.published

-- The handler's end, if it returns, has the property.
abbrev pub Returns : {A : Type 0} → (A → Type 0) → Result A → Type 0
Returns P (returns a) = P a
Returns P raises = Unit

pub ticks_of-snoc :
    (symbol : Str) (ts : List Tick) (t : Tick)
    → t.symbol ≡ symbol
    → ticks_of symbol (ts ++ t ∷ []) ≡ ticks_of symbol ts ++ t ∷ []
ticks_of-snoc symbol [] t e = ground arith
ticks_of-snoc symbol (u ∷ ts) t e = ground (arith, ticks_of-snoc symbol ts t e)

pub ticks_of-snoc_other :
    (symbol : Str) (ts : List Tick) (t : Tick)
    → t.symbol ≢ symbol
    → ticks_of symbol (ts ++ t ∷ []) ≡ ticks_of symbol ts
ticks_of-snoc_other symbol [] t e = ground arith
ticks_of-snoc_other symbol (u ∷ ts) t e = ground (arith, ticks_of-snoc_other symbol ts t e)

-- Publishing the tick that takes the counter's number.
pub publish-IsNumbered :
    (window_ends : Bool) (t : Tick) (s : Ingestor)
    → IsNumbered s
    → t.sequence ≡ lookup_or t.symbol 1 s.sequences
    → IsNumbered (
        publish_tick window_ends t
          (record s { sequences = insert t.symbol (t.sequence + 1) s.sequences }))
publish-IsNumbered window_ends t s h e = record {
  next = λ symbol.
      let found = lookup_or-insert symbol t.symbol 1 (t.sequence + 1) s.sequences in
      elim (Str-discrete t.symbol symbol) [
        | yes p ↦
            rw (ticks_of-snoc symbol s.published t p, length-append)
              (ground
                (arith, found, e, h.next t.symbol, ap (λ x. length (ticks_of x s.published)) p))
        | no p ↦
            rw (ticks_of-snoc_other symbol s.published t p) (ground (arith, found, h.next symbol))
      ];
  numbers = λ symbol. elim (Str-discrete t.symbol symbol) [
    | yes p ↦
        rw (ticks_of-snoc symbol s.published t p, length-append, map-append, h.numbers symbol)
          (numbers-snoc (length (ticks_of symbol s.published)) t.sequence
            (e ∙ ap (λ x. lookup_or x 1 s.sequences) p ∙ h.next symbol))
    | no p ↦ rw (ticks_of-snoc_other symbol s.published t p) (h.numbers symbol)
  ];
  total = ground (arith, h.total, length-append s.published (t ∷ []));
}

if-IsNumbered :
    (b : Bool) (s t : Ingestor) → IsNumbered s → IsNumbered t → IsNumbered (if b then s else t)
if-IsNumbered true s t h k = h
if-IsNumbered false s t h k = k

land-IsNumbered :
    (symbol : Option Str) (raw : Str) (s : Ingestor) → IsNumbered s → IsNumbered (land symbol raw s)
land-IsNumbered none raw s h = h
land-IsNumbered (some symbol) raw s h =
    if-IsNumbered s.has_raw_hook _ s
      (record { next = h.next; numbers = h.numbers; total = h.total }) h

-- The tests and the chains of the handlers keep a property of what is returned.
module _ (P : Ingestor → Type 0) where
  pub if-Returns :
      (b : Bool) (r q : Result Ingestor)
      → Returns P r
      → Returns P q
      → Returns P (if b then r else q)
  if-Returns true r q h k = h
  if-Returns false r q h k = k

  pub and_then-Returns :
      (r : Result Ingestor) (f : Ingestor → Result Ingestor)
      → Returns P r
      → ((s : Ingestor) → P s → Returns P (f s))
      → Returns P (and_then r f)
  and_then-Returns raises f h k = tt
  and_then-Returns (returns s) f h k = k s h

-- A tick that may fail to be made keeps a property of what is returned.
pub built-Returns :
    (P : Ingestor → Type 0) (window_ends valid : Bool) (made : Option Tick × Ingestor)
    → Returns P (publish_of window_ends (returns made))
    → Returns P (publish_of window_ends (built valid made))
built-Returns P window_ends true made h = h
built-Returns P window_ends false made h = tt

module _ (decimal : Str → Number) (fromisoformat : Str → Option DateTime) where
  tick_of-IsNumbered :
      (window_ends : Bool) (msg : Message) (symbol : Str) (price : Decimal) (now : DateTime)
      (s : Ingestor) (t : Result DateTime)
      → IsNumbered s
      → Returns IsNumbered
          (publish_of window_ends (tick_of decimal fromisoformat msg symbol price now s t))
  tick_of-IsNumbered window_ends msg symbol price now s raises h = tt
  tick_of-IsNumbered window_ends msg symbol price now s (returns t) h =
      built-Returns IsNumbered window_ends (is_valid decimal fromisoformat msg) _
        (publish-IsNumbered window_ends _ s h refl)

  normalize-IsNumbered :
      (window_ends : Bool) (symbol : Option Str) (price : Number) (msg : Message) (now : DateTime)
      (s : Ingestor)
      → IsNumbered s
      → Returns IsNumbered
          (publish_of window_ends (normalize_of decimal fromisoformat symbol price msg now s))
  normalize-IsNumbered window_ends none price msg now s h = h
  normalize-IsNumbered window_ends (some symbol) invalid msg now s h = h
  normalize-IsNumbered window_ends (some symbol) not_finite msg now s h = tt
  normalize-IsNumbered window_ends (some symbol) (finite price) msg now s h =
      tick_of-IsNumbered window_ends msg symbol price now s
        (timestamp_of decimal fromisoformat msg.time now) h

  module _ (loads : Str → Loaded) where
    handle_data-IsNumbered :
        (raw : Str) (now : DateTime) (window_ends : Bool) (s : Ingestor) (msg : Loaded)
        → IsNumbered s
        → Returns IsNumbered (handle_data decimal fromisoformat loads raw now window_ends s msg)
    unfolding normalize
    handle_data-IsNumbered raw now window_ends s no_json h = tt
    handle_data-IsNumbered raw now window_ends s not_object h = tt
    handle_data-IsNumbered raw now window_ends s (object msg) h =
        if-Returns IsNumbered (is_relevant msg.msg_type) _ (returns s)
          (normalize-IsNumbered window_ends msg.product_id
            (number_of decimal fromisoformat msg.price) msg now (land msg.product_id raw s)
            (land-IsNumbered msg.product_id raw s h))
          h

    -- Over any messages of its connections, whatever they hold, a symbol's published ticks are
    -- numbered 1, 2, 3 and so on in the order in which they are published, the counter has the next
    -- number, and `total_published` is their count, as long as no message raises.
    pub handle_all-IsNumbered :
        (arrivals : List Arrival) (s : Ingestor)
        → IsNumbered s
        → Returns IsNumbered (handle_all decimal fromisoformat loads arrivals s)
    unfolding handle_all handle_message
    handle_all-IsNumbered [] s h = h
    handle_all-IsNumbered (a ∷ arrivals) s h =
        and_then-Returns IsNumbered _ (handle_all decimal fromisoformat loads arrivals)
          (handle_data-IsNumbered a.raw a.now a.window_ends s (loads a.raw) h)
          (λ s' k. handle_all-IsNumbered arrivals s' k)
