-- ===== src/Capture/Kept.antt =====
-- The texts that the ingestor of dataeng/bronze/run_bronze_ingestor.py gives to its hook, in one hour.
use mathlib.Core.List.{append_assoc, append-nil, append_cancel_left, append_cancel_right}
use post_trade_reconciliatio.Prelude.{
  ◌≡◌, refl, ap, sym, ◌∙◌, Bool, true, false, Option, none, some, List, [], ◌∷◌, ◌++◌,
  if◌then◌else◌, All, arith, Bool-cases, inl, inr,
}
use post_trade_reconciliatio.Prelude.Str.{Str, str, str_eq, Str-discrete}
use post_trade_reconciliatio.Models.{Decimal, DateTime}
use post_trade_reconciliatio.Ingest.{
  no_json, not_object, object, finite, not_finite, invalid, number_of, is_valid, Number, Loaded,
  Message, Result, returns, raises, Ingestor, Arrival, and_then, is_relevant, timestamp_of, tick_of,
  normalize_of, normalize, publish_of, land, handle_data, handle_message, handle_all,
}
use post_trade_reconciliatio.Ingest.Numbering.{Returns, built-Returns}
use post_trade_reconciliatio.Ingest.Raising.{is_raises, is_fatal, handle_message-is_raises}
use post_trade_reconciliatio.Bronze.{partition_key}
use post_trade_reconciliatio.Silver.Landed.{texts_of, texts_of-snoc, texts_of-snoc_other}
use post_trade_reconciliatio.Capture.{Event, arrives, interval_ends}
use post_trade_reconciliatio.Capture.Landed.{text_of, text_of_product, texts}

abbrev pub arrivals_of : List Event → List Arrival
arrivals_of [] = []
arrivals_of (arrives a date hour now ∷ events) = a ∷ arrivals_of events
arrivals_of (interval_ends now ∷ events) = arrivals_of events

-- An arrival of the date and the hour.
abbrev pub IsAt : Str → Str → Event → Type 0
IsAt date hour (arrives a d h now) = (d ≡ date) × (h ≡ hour)
IsAt date hour (interval_ends now) = Unit

pub partition_key-injective :
    (a b date hour : Str) → partition_key a date hour ≡ partition_key b date hour → a ≡ b
partition_key-injective a b date hour e = append_cancel_left (str "ticks/symbol=") a b (
    append_cancel_right _ _ (str "/date=") (
      append_cancel_right _ _ date
        (append_cancel_right _ _ (str "/hour=") (append_cancel_right _ _ hour e))))

and_then-to :
    (P Q : Ingestor → Type 0) (r : Result Ingestor) (f : Ingestor → Result Ingestor)
    → Returns P r
    → ((s : Ingestor) → P s → Returns Q (f s))
    → Returns Q (and_then r f)
and_then-to P Q raises f h k = tt
and_then-to P Q (returns s) f h k = k s h

Returns-map :
    (P Q : Ingestor → Type 0) (r : Result Ingestor)
    → ((s : Ingestor) → P s → Q s)
    → Returns P r
    → Returns Q r
Returns-map P Q raises f h = tt
Returns-map P Q (returns s) f h = f s h

and_then-raises :
    (Q : Ingestor → Type 0) (r : Result Ingestor) (f : Ingestor → Result Ingestor)
    → is_raises r ≡ true
    → Returns Q (and_then r f)
and_then-raises Q raises f e = tt
and_then-raises Q (returns s) f e = ground (arith, e)

module _ (symbol date hour : Str) where
  -- So many texts more than there were, and the hook is there.
  abbrev HasLanded : List Str → List Str → Ingestor → Type 0
  HasLanded before more s = (texts_of symbol s.landed ≡ before ++ more) × (s.has_raw_hook ≡ true)

  land-HasLanded :
      (product : Option Str) (raw : Str) (s : Ingestor)
      → s.has_raw_hook ≡ true
      → HasLanded
          (texts_of symbol s.landed)
          (text_of_product (partition_key symbol date hour) product raw date hour)
          (land product raw s)
  land-HasLanded none raw s h = (sym (append-nil _), h)
  land-HasLanded (some key) raw s h = rw h (elim (Str-discrete key symbol) [
    | yes p ↦ (
      texts_of-snoc symbol raw s.landed key p
          ∙ ground (arith, ap (λ k. partition_key k date hour) p),
      refl,
    )
    | no d ↦ (
      texts_of-snoc_other symbol raw s.landed key d
          ∙ ground (
            arith,
            append-nil (texts_of symbol s.landed),
            λ (e : partition_key key date hour ≡ partition_key symbol date hour).
                d (partition_key-injective key symbol date hour e),
          ),
      refl,
    )
  ])

  if-HasLanded :
      (b : Bool) (before more : List Str) (r : Result Ingestor) (s : Ingestor)
      → Returns (HasLanded before more) r
      → HasLanded before [] s
      → Returns (HasLanded before (if b then more else [])) (if b then r else returns s)
  if-HasLanded true before more r s h k = h
  if-HasLanded false before more r s h k = k

  module _ (decimal : Str → Number) (fromisoformat : Str → Option DateTime) where
    tick_of-HasLanded :
        (before more : List Str) (msg : Message) (key : Str) (price : Decimal) (now : DateTime)
        (window_ends : Bool) (s : Ingestor) (t : Result DateTime)
        → HasLanded before more s
        → Returns
            (HasLanded before more)
            (publish_of window_ends (tick_of decimal fromisoformat msg key price now s t))
    tick_of-HasLanded before more msg key price now window_ends s raises h = tt
    tick_of-HasLanded before more msg key price now window_ends s (returns t) h =
        built-Returns (HasLanded before more) window_ends (is_valid decimal fromisoformat msg) _ h

    normalize_of-HasLanded :
        (before more : List Str) (product : Option Str) (price : Number) (msg : Message)
        (now : DateTime) (window_ends : Bool) (s : Ingestor)
        → HasLanded before more s
        → Returns
            (HasLanded before more)
            (publish_of window_ends (normalize_of decimal fromisoformat product price msg now s))
    normalize_of-HasLanded before more none price msg now window_ends s h = h
    normalize_of-HasLanded before more (some key) invalid msg now window_ends s h = h
    normalize_of-HasLanded before more (some key) not_finite msg now window_ends s h = tt
    normalize_of-HasLanded before more (some key) (finite price) msg now window_ends s h =
        tick_of-HasLanded before more msg key price now window_ends s
          (timestamp_of decimal fromisoformat msg.time now) h

    module _ (loads : Str → Loaded) where
      handle_data-HasLanded :
          (raw : Str) (now : DateTime) (window_ends : Bool) (s : Ingestor) (msg : Loaded)
          → s.has_raw_hook ≡ true
          → Returns
              (HasLanded
                (texts_of symbol s.landed)
                (text_of (partition_key symbol date hour) msg raw date hour))
              (handle_data decimal fromisoformat loads raw now window_ends s msg)
      unfolding normalize
      handle_data-HasLanded raw now window_ends s no_json h = tt
      handle_data-HasLanded raw now window_ends s not_object h = tt
      handle_data-HasLanded raw now window_ends s (object msg) h =
          let before = texts_of symbol s.landed in
          let more =
            text_of_product (partition_key symbol date hour) msg.product_id raw date hour in
          if-HasLanded (is_relevant msg.msg_type) before more _ s
            (normalize_of-HasLanded before more msg.product_id
              (number_of decimal fromisoformat msg.price) msg now window_ends
              (land msg.product_id raw s) (land-HasLanded msg.product_id raw s h))
            (sym (append-nil _), h)

      -- The texts of a symbol's partition are those that the ingestor gives to its hook.
      pub handle_all-texts :
          (events : List Event) (s : Ingestor)
          → s.has_raw_hook ≡ true
          → All (IsAt date hour) events
          → Returns
              (λ s'.
                texts_of symbol s'.landed
                ≡ texts_of symbol s.landed
                  ++ texts decimal fromisoformat loads (partition_key symbol date hour) events)
              (handle_all decimal fromisoformat loads (arrivals_of events) s)
      unfolding handle_all handle_message
      handle_all-texts [] s h at = sym (append-nil _)
      handle_all-texts (interval_ends now ∷ events) s h at = handle_all-texts events s h at.1
      handle_all-texts (arrives a d hr now ∷ events) s h at =
          let msg = loads a.raw in
          let p = partition_key symbol date hour in
          let later = texts decimal fromisoformat loads p events in
          elim (Bool-cases (is_fatal decimal fromisoformat msg)) [
            | inl e ↦
                and_then-raises _ _ (handle_all decimal fromisoformat loads (arrivals_of events)) (
                  handle_message-is_raises decimal fromisoformat loads a.raw a.now a.window_ends s
                  ∙ e)
            | inr e ↦
                and_then-to (HasLanded (texts_of symbol s.landed) (text_of p msg a.raw date hour)) _
                  _ (handle_all decimal fromisoformat loads (arrivals_of events))
                  (handle_data-HasLanded a.raw a.now a.window_ends s msg h)
                  (λ s1 k.
                    Returns-map
                      (λ s'. texts_of symbol s'.landed ≡ texts_of symbol s1.landed ++ later) _ _
                      (λ s' u.
                        rw (at.0.0, at.0.1, e)
                          (u
                            ∙ ap (λ ls. ls ++ later) k.0
                            ∙ append_assoc (texts_of symbol s.landed)
                                (text_of p msg a.raw date hour) later))
                      (handle_all-texts events s1 k.1 at.1))
          ]
