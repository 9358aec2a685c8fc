-- ===== src/Storage/Book.antt =====
-- storage/book_store.py: `BookStore` over its three tables. The connection is the tables that it
-- reaches; `ORDER BY` is the parameter `sql`.
use post_trade_reconciliatio.Prelude.{
  ℕ, ◌+◌, Bool, ◌&&◌, Option, List, [], ◌∷◌, ◌++◌, if◌then◌else◌, filter, any,
}
use post_trade_reconciliatio.Prelude.Int.{leb_ℤ}
use post_trade_reconciliatio.Prelude.Str.{Str, same, str_eq}
use post_trade_reconciliatio.Prelude.Sorting.{SortBy}
use post_trade_reconciliatio.Models.{DateTime, BreakType, Fill, Position, side_value}
use post_trade_reconciliatio.Storage.Rows.{FillRow, PositionRow, AnomalyRow}

-- `next_id` is the SERIAL of `planted_anomalies`.
pub record Book : Type 0 where
  pub fills : List FillRow
  pub positions : List PositionRow
  pub planted_anomalies : List AnomalyRow
  pub next_id : ℕ

-- `CREATE TABLE IF NOT EXISTS` on a fresh database.
abbrev pub empty_book : Book
empty_book = record { fills = []; positions = []; planted_anomalies = []; next_id = 1 }

-- The parameters of `write_fill`'s INSERT.
unfoldable pub fill_row : Fill → FillRow
fill_row fill = record {
  fill_id = fill.fill_id;
  order_id = fill.order_id;
  symbol = fill.symbol;
  sequence = fill.sequence;
  price = fill.price;
  quantity = fill.quantity;
  side = side_value fill.side;
  time = fill.timestamp;
  is_planted_anomaly = fill.is_planted_anomaly;
  anomaly_type = fill.anomaly_type;
}

abbrev pub has_fill : Str → List FillRow → Bool
has_fill fill_id = any (λ r. same r.fill_id fill_id)

-- `ON CONFLICT (fill_id) DO NOTHING`
unfoldable pub write_fill : Fill → Book → Book
write_fill fill b =
    if has_fill fill.fill_id b.fills then b else record b { fills = b.fills ++ fill_row fill ∷ [] }

unfoldable pub position_row : Position → PositionRow
position_row position = record {
  symbol = position.symbol;
  time = position.last_updated;
  quantity = position.quantity;
  avg_price = position.avg_price;
  last_fill_id = position.last_fill_id;
}

unfoldable pub write_position : Position → Book → Book
write_position position b = record b { positions = b.positions ++ position_row position ∷ [] }

-- The detail text of a planted anomaly repeats the other columns and is left out.
unfoldable pub log_planted_anomaly :
    BreakType → Str → DateTime → Option Str → Option ℕ → Option ℕ → Book → Book
log_planted_anomaly anomaly_type symbol planted_at fill_id start end b = record b {
  planted_anomalies = b.planted_anomalies ++ row ∷ [];
  next_id = b.next_id + 1;
}
  where
    row : AnomalyRow
    row = record {
      id = b.next_id;
      anomaly_type = anomaly_type;
      symbol = symbol;
      planted_at = planted_at;
      related_fill_id = fill_id;
      related_sequence_start = start;
      related_sequence_end = end;
    }

-- `WHERE symbol = … AND time BETWEEN … AND …`
abbrev pub in_range : Str → DateTime → DateTime → Str → DateTime → Bool
in_range symbol start end row_symbol time =
    same row_symbol symbol && (leb_ℤ start time && leb_ℤ time end)

module _ (sql : SortBy) where
  unfoldable pub read_fills_df : Book → Str → DateTime → DateTime → List FillRow
  read_fills_df b symbol start end =
      sql.sort_by FillRow (λ r. r.time)
        (filter (λ r. in_range symbol start end r.symbol r.time) b.fills)

  unfoldable pub read_positions_df : Book → Str → DateTime → DateTime → List PositionRow
  read_positions_df b symbol start end =
      sql.sort_by PositionRow (λ r. r.time)
        (filter (λ r. in_range symbol start end r.symbol r.time) b.positions)

  unfoldable pub read_planted_anomalies_df : Book → List AnomalyRow
  read_planted_anomalies_df b = sql.sort_by AnomalyRow (λ r. r.planted_at) b.planted_anomalies
