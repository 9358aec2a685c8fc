-- ===== src/Silver/Replayed.antt =====
-- The rebuild of dataeng/silver/silver_transform.py follows, message by message, what
-- ingest/async_ingestor.py landed and published.
use mathlib.Core.List.{map-append}
use post_trade_reconciliatio.Prelude.{
  ◌+◌, ◌≡◌, ◌≢◌, refl, ap, sym, ◌∙◌, subst, Bool, true, false, Option, none, some, List, [], ◌∷◌,
  ◌++◌, map, arith,
}
use post_trade_reconciliatio.Prelude.Str.{Str, Str-discrete, str_eq}
use post_trade_reconciliatio.Prelude.Dict.{lookup_or, insert, lookup_or-insert}
use post_trade_reconciliatio.Models.{Decimal, DateTime, Tick}
use post_trade_reconciliatio.Ingest.{
  finite, not_finite, invalid, is_valid, built, ticked, Number, Loaded, Message, Result, returns,
  raises, Ingestor, timestamp_of, tick_of, normalize_of, publish_of, land,
}
use post_trade_reconciliatio.Ingest.Numbering.{
  Returns, built-Returns, ticks_of, ticks_of-snoc, ticks_of-snoc_other,
}
use post_trade_reconciliatio.Silver.{
  Normalized, failed, with_tick, and_then, normalize_line, normalize_lines,
}
use post_trade_reconciliatio.Silver.Landed.{
  without_clock, texts_of, start, texts_of-snoc, texts_of-snoc_other, normalize_lines-snoc,
}

module _ (decimal : Str → Number) (fromisoformat : Str → Option DateTime) (loads : Str → Loaded)
    (now : DateTime) (symbol : Str) where
  -- What was landed for the symbol normalizes to what was published for it.
  pub record IsReplayed (s : Ingestor) : Type 0 where
    pub made : Normalized
    pub replays :
        normalize_lines decimal fromisoformat loads now (texts_of symbol s.landed) start
        ≡ returns made
    pub counter : lookup_or symbol 1 made.ingestor.sequences ≡ lookup_or symbol 1 s.sequences
    pub ticks : map without_clock made.ticks ≡ map without_clock (ticks_of symbol s.published)
    pub hook : s.has_raw_hook ≡ true

  without_clock-snoc :
      (made published : List Tick) (t u : Tick)
      → map without_clock made ≡ map without_clock (ticks_of symbol published)
      → u.symbol ≡ symbol
      → without_clock t ≡ without_clock u
      → map without_clock (made ++ t ∷ [])
        ≡ map without_clock (ticks_of symbol (published ++ u ∷ []))
  without_clock-snoc made published t u ticks own next =
      rw
        (
          ticks_of-snoc symbol published u own,
          map-append without_clock made (t ∷ []),
          map-append without_clock (ticks_of symbol published) (u ∷ []),
          ticks,
          next,
        )
        refl

  same-IsReplayed :
      (s s' : Ingestor)
      → IsReplayed s
      → texts_of symbol s'.landed ≡ texts_of symbol s.landed
      → lookup_or symbol 1 s.sequences ≡ lookup_or symbol 1 s'.sequences
      → ticks_of symbol s.published ≡ ticks_of symbol s'.published
      → s'.has_raw_hook ≡ true
      → IsReplayed s'
  same-IsReplayed s s' h texts next published hook = record {
    made = h.made;
    replays = ap (λ ls. normalize_lines decimal fromisoformat loads now ls start) texts ∙ h.replays;
    counter = h.counter ∙ next;
    ticks = h.ticks ∙ ap (map without_clock) published;
    hook = hook;
  }

  -- The text of the symbol is read behind the others.
  read_next :
      (raw : Str) (texts : List Str) (s : Ingestor) (h : IsReplayed s)
      → texts ≡ texts_of symbol s.landed ++ raw ∷ []
      → normalize_lines decimal fromisoformat loads now texts start
        ≡ normalize_line decimal fromisoformat loads now (loads raw) h.made
  read_next raw texts s h e =
      ap (λ ls. normalize_lines decimal fromisoformat loads now ls start) e
      ∙ normalize_lines-snoc decimal fromisoformat loads now (texts_of symbol s.landed) raw start
      ∙ ap (λ r. and_then r (normalize_line decimal fromisoformat loads now (loads raw))) h.replays

  -- What the line of a message is for the rebuild.
  abbrev Reads : Str → Message → Option Str → Number → Type 0
  Reads raw msg product price =
      (n : Normalized)
      → normalize_line decimal fromisoformat loads now (loads raw) n
        ≡ with_tick n (normalize_of decimal fromisoformat product price msg now n.ingestor)

  abbrev with_landed : Str → Str → Ingestor → Ingestor
  with_landed key raw s = record s { landed = s.landed ++ (key, raw) ∷ [] }

  own_built-IsReplayed :
      (raw : Str) (msg : Message) (price : Decimal) (live : DateTime) (window_ends valid : Bool)
      (s : Ingestor) (h : IsReplayed s) (t : DateTime)
      → ((n : Normalized)
          → normalize_line decimal fromisoformat loads now (loads raw) n
            ≡ with_tick n
                (built valid (ticked decimal fromisoformat msg symbol price now n.ingestor t)))
      → Returns IsReplayed (
          publish_of window_ends (
            built valid
              (ticked decimal fromisoformat msg symbol price live (with_landed symbol raw s) t)))
  own_built-IsReplayed raw msg price live window_ends false s h t line = tt
  own_built-IsReplayed raw msg price live window_ends true s h t line =
      let next = lookup_or symbol 1 s.sequences in
      let read = lookup_or symbol 1 h.made.ingestor.sequences in
      record {
        made = record h.made {
          ticks = h.made.ticks ++ _ ∷ [];
          ingestor = record h.made.ingestor {
            sequences = insert symbol (read + 1) h.made.ingestor.sequences;
          };
        };
        replays = read_next raw _ s h (texts_of-snoc symbol raw s.landed symbol refl) ∙ line h.made;
        counter = ground (
          arith,
          h.counter,
          lookup_or-insert symbol symbol 1 (read + 1) h.made.ingestor.sequences,
          lookup_or-insert symbol symbol 1 (next + 1) s.sequences,
        );
        ticks = without_clock-snoc h.made.ticks s.published _ _ h.ticks refl (rw h.counter refl);
        hook = h.hook;
      }

  own_tick-IsReplayed :
      (raw : Str) (msg : Message) (price : Decimal) (live : DateTime) (window_ends : Bool)
      (s : Ingestor) (h : IsReplayed s) (t : Result DateTime)
      → ((n : Normalized)
          → normalize_line decimal fromisoformat loads now (loads raw) n
            ≡ with_tick n (tick_of decimal fromisoformat msg symbol price now n.ingestor t))
      → Returns IsReplayed (
          publish_of window_ends
            (tick_of decimal fromisoformat msg symbol price live (with_landed symbol raw s) t))
  own_tick-IsReplayed raw msg price live window_ends s h raises line = tt
  own_tick-IsReplayed raw msg price live window_ends s h (returns t) line =
      own_built-IsReplayed raw msg price live window_ends (is_valid decimal fromisoformat msg) s h t
        line

  other_tick-IsReplayed :
      (key raw : Str) (msg : Message) (price : Decimal) (live : DateTime) (window_ends : Bool)
      (s : Ingestor)
      → IsReplayed s
      → (t : Result DateTime) → key ≢ symbol
      → Returns IsReplayed (
          publish_of window_ends
            (tick_of decimal fromisoformat msg key price live (with_landed key raw s) t))
  other_tick-IsReplayed key raw msg price live window_ends s h raises d = tt
  other_tick-IsReplayed key raw msg price live window_ends s h (returns t) d =
      built-Returns IsReplayed window_ends (is_valid decimal fromisoformat msg)
        (ticked decimal fromisoformat msg key price live (with_landed key raw s) t)
        (same-IsReplayed s _ h (texts_of-snoc_other symbol raw s.landed key d)
          (let found =
              lookup_or-insert symbol key 1 (lookup_or key 1 s.sequences + 1) s.sequences in
            ground (arith, found))
          (sym (ticks_of-snoc_other symbol s.published _ d)) h.hook)

  own-IsReplayed :
      (raw : Str) (msg : Message) (price : Number) (live : DateTime) (window_ends : Bool)
      (s : Ingestor)
      → IsReplayed s
      → Reads raw msg (some symbol) price
      → timestamp_of decimal fromisoformat msg.time live
        ≡ timestamp_of decimal fromisoformat msg.time now
      → Returns IsReplayed (
          publish_of window_ends (
            normalize_of decimal fromisoformat
              (some symbol)
              price
              msg
              live
              (with_landed symbol raw s)))
  own-IsReplayed raw msg invalid live window_ends s h line e = record {
    made = failed h.made;
    replays = read_next raw _ s h (texts_of-snoc symbol raw s.landed symbol refl) ∙ line h.made;
    counter = h.counter;
    ticks = h.ticks;
    hook = h.hook;
  }
  own-IsReplayed raw msg not_finite live window_ends s h line e = tt
  own-IsReplayed raw msg (finite price) live window_ends s h line e = rw e (
      own_tick-IsReplayed raw msg price live window_ends s h
        (timestamp_of decimal fromisoformat msg.time now) line)

  other-IsReplayed :
      (key raw : Str) (msg : Message) (price : Number) (live : DateTime) (window_ends : Bool)
      (s : Ingestor)
      → IsReplayed s
      → key ≢ symbol
      → Returns IsReplayed (
          publish_of window_ends
            (normalize_of decimal fromisoformat (some key) price msg live (with_landed key raw s)))
  other-IsReplayed key raw msg invalid live window_ends s h d =
      same-IsReplayed s _ h (texts_of-snoc_other symbol raw s.landed key d) refl refl h.hook
  other-IsReplayed key raw msg not_finite live window_ends s h d = tt
  other-IsReplayed key raw msg (finite price) live window_ends s h d =
      other_tick-IsReplayed key raw msg price live window_ends s h
        (timestamp_of decimal fromisoformat msg.time live) d

  land-hook :
      (key raw : Str) (s : Ingestor)
      → s.has_raw_hook ≡ true
      → land (some key) raw s ≡ with_landed key raw s
  land-hook key raw s e = rw e refl

  pub normalize_of-IsReplayed :
      (product : Option Str) (raw : Str) (msg : Message) (price : Number) (live : DateTime)
      (window_ends : Bool) (s : Ingestor)
      → IsReplayed s
      → Reads raw msg product price
      → timestamp_of decimal fromisoformat msg.time live
        ≡ timestamp_of decimal fromisoformat msg.time now
      → Returns IsReplayed (
          publish_of window_ends
            (normalize_of decimal fromisoformat product price msg live (land product raw s)))
  normalize_of-IsReplayed none raw msg price live window_ends s h line e = h
  normalize_of-IsReplayed (some key) raw msg price live window_ends s h line e =
      let Goal : Str → Ingestor → Type 0 = λ key s'. Returns IsReplayed (
        publish_of window_ends (normalize_of decimal fromisoformat (some key) price msg live s')) in
      subst (Goal key) (sym (land-hook key raw s h.hook)) (elim (Str-discrete key symbol) [
        | yes p ↦
            subst (λ k. Reads raw msg (some k) price → Goal k (with_landed k raw s)) (sym p)
              (λ own. own-IsReplayed raw msg price live window_ends s h own e) line
        | no d ↦ other-IsReplayed key raw msg price live window_ends s h d
      ])
