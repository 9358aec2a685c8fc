-- ===== src/Storage/Rows.antt =====
-- The tables' rows (the `CREATE TABLE` statements of storage/book_store.py and
-- storage/timeseries_store.py). TEXT that holds a side keeps the enum's value.
use post_trade_reconciliatio.Prelude.{ℕ, Bool, Option}
use post_trade_reconciliatio.Prelude.Str.{Str}
use post_trade_reconciliatio.Models.{Decimal, DateTime, BreakType}

pub record FillRow : Type 0 where
  pub fill_id : Str
  pub order_id : Str
  pub symbol : Str
  pub sequence : ℕ
  pub price : Decimal
  pub quantity : Decimal
  pub side : Str
  pub time : DateTime
  pub is_planted_anomaly : Bool
  pub anomaly_type : Option BreakType

pub record PositionRow : Type 0 where
  pub symbol : Str
  pub time : DateTime
  pub quantity : Decimal
  pub avg_price : Decimal
  pub last_fill_id : Option Str

pub record AnomalyRow : Type 0 where
  pub id : ℕ
  pub anomaly_type : BreakType
  pub symbol : Str
  pub planted_at : DateTime
  pub related_fill_id : Option Str
  pub related_sequence_start : Option ℕ
  pub related_sequence_end : Option ℕ

pub record TickRow : Type 0 where
  pub time : DateTime
  pub symbol : Str
  pub sequence : ℕ
  pub price : Decimal
  pub size : Option Decimal
  pub side : Option Str
  pub exchange : Str
  pub channel : Str
  pub ingest_time : DateTime
  pub worker : Option Str
