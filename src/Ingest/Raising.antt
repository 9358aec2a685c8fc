-- ===== src/Ingest/Raising.antt =====
-- The messages that end the ingestor of ingest/async_ingestor.py: its `run` catches neither
-- JSONDecodeError nor ValueError.
use post_trade_reconciliatio.Prelude.{
  ◌≡◌, refl, ap, ◌∙◌, Bool, true, false, Option, none, some, [], ◌∷◌, if◌then◌else◌, inl, inr,
  is_empty, not, ◌&&◌, ◌||◌, is_some, Option-cases,
}
use post_trade_reconciliatio.Prelude.Str.{Str}
use post_trade_reconciliatio.Models.{Decimal, DateTime, Tick}
use post_trade_reconciliatio.Ingest.{
  Number, Loaded, Message, Result, returns, raises, Ingestor, is_relevant, timestamp_of, tick_of,
  normalize_of, normalize, number_of, is_valid, built, finite, not_finite, invalid, no_json,
  not_object, object, publish_of, land, handle_data, handle_message,
}

abbrev pub is_raises : {A : Type 0} → Result A → Bool
is_raises (returns a) = false
is_raises raises = true

raises-publish_of :
    (window_ends : Bool) (r : Result (Option Tick × Ingestor))
    → is_raises (publish_of window_ends r) ≡ is_raises r
raises-publish_of window_ends raises = refl
raises-publish_of window_ends (returns (none, s)) = refl
raises-publish_of window_ends (returns (some t, s)) = refl

if-is_raises :
    (b : Bool) (r : Result Ingestor) (s : Ingestor)
    → is_raises (if b then r else returns s) ≡ b && is_raises r
if-is_raises true r s = refl
if-is_raises false r s = refl

module _ (decimal : Str → Number) (fromisoformat : Str → Option DateTime) where
  -- A time that is there and cannot be read.
  abbrev pub has_bad_time : Option Str → Bool
  has_bad_time none = false
  has_bad_time (some raw) = not (is_empty raw) && not (is_some (fromisoformat raw))

  -- A relevant message of a product raises where its price is not finite, and where its price is
  -- finite and its time, its product or its size is bad.
  abbrev pub has_bad_fields : Number → Message → Bool
  has_bad_fields invalid msg = false
  has_bad_fields not_finite msg = true
  has_bad_fields (finite price) msg =
      has_bad_time msg.time || not (is_valid decimal fromisoformat msg)

  -- The messages that raise.
  abbrev pub is_fatal : Loaded → Bool
  is_fatal no_json = true
  is_fatal not_object = true
  is_fatal (object msg) =
      is_relevant msg.msg_type
      && (is_some msg.product_id && has_bad_fields (number_of decimal fromisoformat msg.price) msg)

  raises-timestamp_of :
      (time : Option Str) (now : DateTime)
      → is_raises (timestamp_of decimal fromisoformat time now) ≡ has_bad_time time
  raises-timestamp_of none now = refl
  raises-timestamp_of (some []) now = refl
  raises-timestamp_of (some (c ∷ raw)) now = elim (Option-cases (fromisoformat (c ∷ raw))) [
    | inl e ↦ rw e refl
    | inr (t, e) ↦ rw e refl
  ]

  raises-built :
      (valid : Bool) (made : Option Tick × Ingestor) → is_raises (built valid made) ≡ not valid
  raises-built true made = refl
  raises-built false made = refl

  raises-tick_of :
      (msg : Message) (symbol : Str) (price : Decimal) (now : DateTime) (s : Ingestor)
      (t : Result DateTime)
      → is_raises (tick_of decimal fromisoformat msg symbol price now s t)
        ≡ (is_raises t || not (is_valid decimal fromisoformat msg))
  raises-tick_of msg symbol price now s raises = refl
  raises-tick_of msg symbol price now s (returns t) =
      raises-built (is_valid decimal fromisoformat msg) _

  raises-normalize_of :
      (symbol : Option Str) (price : Number) (msg : Message) (now : DateTime) (s : Ingestor)
      → is_raises (normalize_of decimal fromisoformat symbol price msg now s)
        ≡ is_some symbol && has_bad_fields price msg
  raises-normalize_of none price msg now s = refl
  raises-normalize_of (some symbol) invalid msg now s = refl
  raises-normalize_of (some symbol) not_finite msg now s = refl
  raises-normalize_of (some symbol) (finite price) msg now s =
      raises-tick_of msg symbol price now s (timestamp_of decimal fromisoformat msg.time now)
      ∙ ap (λ b. b || not (is_valid decimal fromisoformat msg)) (raises-timestamp_of msg.time now)

  module _ (loads : Str → Loaded) where
    raises-handle_data :
        (raw : Str) (now : DateTime) (window_ends : Bool) (s : Ingestor) (msg : Loaded)
        → is_raises (handle_data decimal fromisoformat loads raw now window_ends s msg)
          ≡ is_fatal msg
    unfolding normalize
    raises-handle_data raw now window_ends s no_json = refl
    raises-handle_data raw now window_ends s not_object = refl
    raises-handle_data raw now window_ends s (object msg) =
        if-is_raises (is_relevant msg.msg_type) _ s
        ∙ ap (◌&&◌ (is_relevant msg.msg_type)) (
            raises-publish_of window_ends _
            ∙ raises-normalize_of msg.product_id (number_of decimal fromisoformat msg.price) msg now
                (land msg.product_id raw s))

    -- Where the hook and the publisher do not raise, a message whose other fields are texts or
    -- missing raises exactly if it is no JSON object, or is relevant with a product and a price
    -- that is infinite or not a number, or is relevant with a product, a finite price and one of
    -- these: a time that cannot be read, a product that is not a text, a size that is infinite or
    -- not a number. The handler of every other message returns.
    pub handle_message-is_raises :
        (raw : Str) (now : DateTime) (window_ends : Bool) (s : Ingestor)
        → is_raises (handle_message decimal fromisoformat loads raw now window_ends s)
          ≡ is_fatal (loads raw)
    unfolding handle_message
    handle_message-is_raises raw now window_ends s =
        raises-handle_data raw now window_ends s (loads raw)
