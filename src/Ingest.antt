-- ===== src/Ingest.antt =====
-- ingest/async_ingestor.py: `AsyncIngestor` over the messages of its connections. `json.loads`, the
-- constructor of Decimal and `datetime.fromisoformat` are parameters, the clock's readings are
-- inputs. The fields of a message are texts or missing, but for the product, which may be any value
-- that is its own key of a dict.
pub mod Numbering
pub mod Raising
pub mod Reconnect
pub mod Concrete
mod Tests
use post_trade_reconciliatio.Prelude.{
  ℕ, ◌+◌, ◌*◌, ◌≤◌, Bool, true, false, ◌||◌, Option, none, some, List, [], ◌∷◌, ◌++◌, is_empty, leb,
  min, ◌&&◌, if◌then◌else◌,
}
use post_trade_reconciliatio.Prelude.Str.{Str, str, Str-discrete, str_eq, same}
use post_trade_reconciliatio.Prelude.Dict.{Dict, lookup_or, insert}
use post_trade_reconciliatio.Models.{Decimal, DateTime, Tick, Side, buy, sell, coinbase}

-- What the constructor of Decimal makes of a text; an invalid one raises InvalidOperation.
pub data Number : Type 0 where
  finite : Decimal → Number
  not_finite invalid : Number

-- The fields of a message that are looked up; a missing key is `none`. A product that is not a text
-- stands for itself by its text.
pub record Message : Type 0 where
  pub msg_type : Option Str
  pub product_id : Option Str
  pub product_is_text : Bool
  pub price : Option Str
  pub size : Option Str
  pub last_size : Option Str
  pub side : Option Str
  pub time : Option Str

-- What `json.loads` makes of a text: it raises, or gives an object or some other value.
pub data Loaded : Type 0 where
  no_json not_object : Loaded
  object : Message → Loaded

-- A handler's end: it returns, or raises.
pub data Result (A : Type 0) : Type 0 where
  returns : A → Result A
  raises : Result A

-- The fields of the ingestor, with what it has put on the stream and given to `on_raw_message`.
-- A missing counter starts at 1.
pub record Ingestor : Type 0 where
  pub sequences : Dict Str ℕ
  pub msg_count : ℕ
  pub total_published : ℕ
  pub published : List Tick
  pub has_raw_hook : Bool
  pub landed : List (Str × Str)

-- `AsyncIngestor.__init__`, with a hook or without.
abbrev pub new_ingestor : Bool → Ingestor
new_ingestor has_raw_hook = record {
  sequences = [];
  msg_count = 0;
  total_published = 0;
  published = [];
  has_raw_hook = has_raw_hook;
  landed = [];
}

-- A message of a connection, with the clock's reading.
pub record Arrival : Type 0 where
  pub raw : Str
  pub now : DateTime
  pub window_ends : Bool

-- `_RELEVANT_TYPES`
abbrev pub is_relevant : Option Str → Bool
is_relevant none = false
is_relevant (some t) = same t (str "ticker") || (same t (str "match") || same t (str "last_match"))

-- `a or b`, where `a` may be empty.
abbrev pub or_else : Option Str → Option Str → Option Str
or_else none b = b
or_else (some a) b = if is_empty a then b else some a

abbrev pub side_of : Option Str → Option Side
side_of none = none
side_of (some s) =
    if same s (str "buy") then some buy else if same s (str "sell") then some sell else none

abbrev pub channel_of : Option Str → Str
channel_of none = str "matches"
channel_of (some t) = if same t (str "ticker") then str "ticker" else str "matches"

-- `_publish`, then `_log_throughput`; `window_ends` is whether the log's interval is over.
abbrev pub publish_tick : Bool → Tick → Ingestor → Ingestor
publish_tick window_ends tick s = record s {
  published = s.published ++ tick ∷ [];
  total_published = s.total_published + 1;
  msg_count = if window_ends then 0 else s.msg_count + 1;
}

abbrev pub publish_of : Bool → Result (Option Tick × Ingestor) → Result Ingestor
publish_of window_ends raises = raises
publish_of window_ends (returns (none, s)) = returns s
publish_of window_ends (returns (some tick, s)) = returns (publish_tick window_ends tick s)

-- The raw text is landed before the message is normalized.
abbrev pub land : Option Str → Str → Ingestor → Ingestor
land none raw s = s
land (some symbol) raw s =
    if s.has_raw_hook then record s { landed = s.landed ++ (symbol, raw) ∷ [] } else s

-- The next message is handled if this one does not raise.
abbrev pub and_then : Result Ingestor → (Ingestor → Result Ingestor) → Result Ingestor
and_then raises f = raises
and_then (returns s) f = f s

-- The constructor of Tick, which raises where `valid` is false.
abbrev pub built : Bool → Option Tick × Ingestor → Result (Option Tick × Ingestor)
built true made = returns made
built false made = raises

abbrev pub is_finite : Number → Bool
is_finite not_finite = false
is_finite (finite d) = true
is_finite invalid = true

-- An invalid number is None.
abbrev pub finite_part : Number → Option Decimal
finite_part (finite d) = some d
finite_part not_finite = none
finite_part invalid = none

module _ (decimal : Str → Number) (fromisoformat : Str → Option DateTime) where
  -- A missing number is as an invalid one.
  abbrev pub number_of : Option Str → Number
  number_of none = invalid
  number_of (some raw) = decimal raw

  abbrev pub size_of : Message → Number
  size_of msg = number_of (or_else msg.size msg.last_size)

  -- The time of the exchange, or the clock's if there is none; a malformed one raises.
  abbrev pub timestamp_of : Option Str → DateTime → Result DateTime
  timestamp_of none now = returns now
  timestamp_of (some raw) now =
      if is_empty raw
      then returns now
      else (elim (fromisoformat raw) [ none ↦ raises | some t ↦ returns t ])

  -- The symbol of a Tick is a text, its size finite.
  abbrev pub is_valid : Message → Bool
  is_valid msg = msg.product_is_text && is_finite (size_of msg)

  -- The tick, and the counter behind it.
  abbrev pub ticked :
      Message → Str → Decimal → DateTime → Ingestor → DateTime → Option Tick × Ingestor
  ticked msg symbol price now s exchange_timestamp =
      let sequence = lookup_or symbol 1 s.sequences in
      (
        some (record {
          symbol = symbol;
          sequence = sequence;
          price = price;
          size = finite_part (size_of msg);
          side = side_of msg.side;
          exchange = coinbase;
          channel = channel_of msg.msg_type;
          exchange_timestamp = exchange_timestamp;
          ingest_timestamp = now;
        }),
        record s { sequences = insert symbol (sequence + 1) s.sequences },
      )

  -- What follows the checks: the counter is taken, and the tick made.
  abbrev pub tick_of :
      Message
      → Str
      → Decimal
      → DateTime
      → Ingestor
      → Result DateTime
      → Result (Option Tick × Ingestor)
  tick_of msg symbol price now s raises = raises
  tick_of msg symbol price now s (returns exchange_timestamp) =
      built (is_valid msg) (ticked msg symbol price now s exchange_timestamp)

  -- A price that is not finite is no price of a Tick: the constructor raises, if nothing before it.
  abbrev pub normalize_of :
      Option Str → Number → Message → DateTime → Ingestor → Result (Option Tick × Ingestor)
  normalize_of none price msg now s = returns (none, s)
  normalize_of (some symbol) invalid msg now s = returns (none, s)
  normalize_of (some symbol) not_finite msg now s = raises
  normalize_of (some symbol) (finite price) msg now s =
      tick_of msg symbol price now s (timestamp_of msg.time now)

  -- `normalize`
  unfoldable pub normalize : Message → DateTime → Ingestor → Result (Option Tick × Ingestor)
  normalize msg now s = normalize_of msg.product_id (number_of msg.price) msg now s

  module _ (loads : Str → Loaded) where
    abbrev pub handle_data : Str → DateTime → Bool → Ingestor → Loaded → Result Ingestor
    handle_data raw now window_ends s no_json = raises
    handle_data raw now window_ends s not_object = raises
    handle_data raw now window_ends s (object msg) =
        if is_relevant msg.msg_type
        then publish_of window_ends (normalize msg now (land msg.product_id raw s))
        else returns s

    -- `_handle_message`
    unfoldable pub handle_message : Str → DateTime → Bool → Ingestor → Result Ingestor
    unfolding normalize
    handle_message raw now window_ends s = handle_data raw now window_ends s (loads raw)

    -- `async for raw in ws`
    unfoldable pub handle_all : List Arrival → Ingestor → Result Ingestor
    handle_all [] s = returns s
    handle_all (a ∷ arrivals) s =
        and_then (handle_message a.raw a.now a.window_ends s) (handle_all arrivals)
