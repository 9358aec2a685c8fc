-- ===== src/Models.antt =====
-- The records of src/posttrade/models: ticks, trades, fills, positions, breaks.
--
-- A `datetime` and a `timedelta` are whole microseconds; a `Decimal` is a whole number of units of
-- 10^-8, which is exact for sums as long as they fit Python's 28 significant digits. An `int` that
-- counts (a sequence) is a natural number.
use post_trade_reconciliatio.Prelude.{ℕ, ◌*◌, Bool, Option}
use post_trade_reconciliatio.Prelude.Int.{ℤ, pos}
use post_trade_reconciliatio.Prelude.Str.{Str, str}

abbrev pub DateTime : Type 0
DateTime = ℤ

abbrev pub TimeDelta : Type 0
TimeDelta = ℤ

abbrev pub Decimal : Type 0
Decimal = ℤ

abbrev pub seconds : ℕ → TimeDelta
seconds n = pos (n * 1_000_000)

abbrev pub minutes : ℕ → TimeDelta
minutes n = pos (n * 60_000_000)

pub data Exchange : Type 0 where
  coinbase kraken simulated : Exchange

pub data Side : Type 0 where
  buy sell : Side

pub data BreakType : Type 0 where
  unmatched_fill position_drift sequence_gap : BreakType

-- `.value` of each enum.
unfoldable pub exchange_value : Exchange → Str
exchange_value coinbase = str "coinbase"
exchange_value kraken = str "kraken"
exchange_value simulated = str "simulated"

unfoldable pub side_value : Side → Str
side_value buy = str "buy"
side_value sell = str "sell"

pub record Tick : Type 0 where
  pub symbol : Str
  pub sequence : ℕ
  pub price : Decimal
  pub size : Option Decimal
  pub side : Option Side
  pub exchange : Exchange
  pub channel : Str
  pub exchange_timestamp : DateTime
  pub ingest_timestamp : DateTime

pub record Trade : Type 0 where
  pub trade_id : Str
  pub symbol : Str
  pub price : Decimal
  pub size : Decimal
  pub side : Side
  pub exchange : Exchange
  pub exchange_timestamp : DateTime

-- `anomaly_type` holds one of the simulator's `ANOMALY_TYPES`, which are the values of `BreakType`.
pub record Fill : Type 0 where
  pub fill_id : Str
  pub order_id : Str
  pub symbol : Str
  pub sequence : ℕ
  pub price : Decimal
  pub quantity : Decimal
  pub side : Side
  pub timestamp : DateTime
  pub is_planted_anomaly : Bool
  pub anomaly_type : Option BreakType

pub record Position : Type 0 where
  pub symbol : Str
  pub quantity : Decimal
  pub avg_price : Decimal
  pub last_updated : DateTime
  pub last_fill_id : Option Str

-- The text of a break: which f-string it is, with the values that it interpolates.
pub data Detail : Type 0 where
  no_observed_tick : (fill_id : Str) → (fill_time : DateTime) → (window : TimeDelta) → Detail
  position_differs : (recorded expected diff : Decimal) → (fill_id : Str) → Detail
  missing_ticks : (symbol : Str) → (prev curr missing : ℕ) → Detail

pub record Break : Type 0 where
  pub break_type : BreakType
  pub symbol : Str
  pub detected_at : DateTime
  pub detail : Detail
  pub related_fill_id : Option Str
  pub related_sequence : Option ℕ
