-- ===== src/Simulate.antt =====
-- simulate/trade_book_simulator.py: `TradeBookSimulator` over a book, a tick store and the random
-- draws of each message.
pub mod Runs
pub mod Nets
pub mod Consistent
pub mod Recorded
pub mod Found
pub mod Gaps
pub mod Counted
pub mod Emitted
pub mod Positions
pub mod Recall
pub mod Logged
pub mod Concrete
mod Tests
use post_trade_reconciliatio.Prelude.{
  ℕ, zero, suc, ◌+◌, ◌-◌, ◌≤◌, Bool, true, false, not, ◌&&◌, Option, none, some, List, [], ◌∷◌,
  ◌++◌, foldl, if◌then◌else◌, length, take, drop, is_empty, ltb, leb, min, max, is_some,
}
use post_trade_reconciliatio.Prelude.Int.{ℤ, pos, ◌+ℤ◌, ◌-ℤ◌, neg, leb_ℤ}
use post_trade_reconciliatio.Prelude.Str.{Str, str, str_eq}
use post_trade_reconciliatio.Prelude.Dict.{Dict, lookup, lookup_or, insert}
use post_trade_reconciliatio.Prelude.Sorting.{sorted}
use post_trade_reconciliatio.Prelude.Show.{show}
use post_trade_reconciliatio.Models.{
  Decimal, DateTime, TimeDelta, minutes, Tick, Fill, Position, Side, buy, sell, BreakType,
  unmatched_fill, position_drift, sequence_gap,
}
use post_trade_reconciliatio.Storage.Book.{Book, write_fill, write_position, log_planted_anomaly}
use post_trade_reconciliatio.Storage.Ticks.{TickStore}

-- `anomalies_planted`, a count for each of `ANOMALY_TYPES`.
pub record Planted : Type 0 where
  pub unmatched : ℕ
  pub drift : ℕ
  pub gap : ℕ

-- The simulator's own fields, with the tables that its two stores reach. An `itertools.count` is
-- the number that it gives next.
pub record Simulator (S : Type 0) : Type 0 where
  pub book : Book
  pub ticks : S
  pub true_position : Dict Str Decimal
  pub avg_price : Dict Str Decimal
  pub last_price : Dict Str Decimal
  pub recent_sequences : Dict Str (List ℕ)
  pub fill_sequences : Dict Str ℕ
  pub order_ids : ℕ
  pub fills_emitted : ℕ
  pub anomalies_planted : Planted

-- What `rng` and `uuid` give while a message is handled. `trades` is `random() < trade_probability`;
-- `anomaly` is the choice of an anomaly type, if `random() < anomaly_rate`.
pub record Draws : Type 0 where
  pub trades : Bool
  pub quantity : Decimal
  pub fill_id : Str
  pub anomaly : Option BreakType
  pub is_later : Bool
  pub drift_size : Decimal
  pub drift_up : Bool
  pub start_idx : ℕ
  pub gap_length : ℕ

-- `timedelta(minutes=rng.choice([-15, 15]))`
abbrev pub shift : Draws → TimeDelta
shift d = if d.is_later then minutes 15 else neg (minutes 15)

abbrev pub drift : Draws → Decimal
drift d = if d.drift_up then d.drift_size else neg d.drift_size

abbrev pub fill_timestamp : Tick → Draws → DateTime
fill_timestamp tick d = elim d.anomaly [
  | none ↦ tick.exchange_timestamp
  | some kind ↦ elim kind [
    | unmatched_fill ↦ tick.exchange_timestamp +ℤ shift d
    | position_drift ↦ tick.exchange_timestamp
    | sequence_gap ↦ tick.exchange_timestamp
  ]
]

abbrev pub signed : Fill → Decimal
signed fill = elim fill.side [ buy ↦ fill.quantity | sell ↦ neg fill.quantity ]

abbrev pub least_of : ℕ → List ℕ → ℕ
least_of = foldl min

abbrev pub greatest_of : ℕ → List ℕ → ℕ
greatest_of = foldl max

module _ {S : Type 0} where
  -- `_track_sequence`
  unfoldable pub track_sequence : Tick → Simulator S → Simulator S
  track_sequence tick s =
      let seqs = lookup_or tick.symbol [] s.recent_sequences ++ tick.sequence ∷ [] in
      let kept = if ltb 50 (length seqs) then drop (length seqs - 50) seqs else seqs in
      record s { recent_sequences = insert tick.symbol kept s.recent_sequences }

  -- The side is bought on an unchanged or higher price.
  abbrev pub momentum_side : Tick → Simulator S → Side
  momentum_side tick s =
      if leb_ℤ (lookup_or tick.symbol tick.price s.last_price) tick.price then buy else sell

  -- `fill`, with the draws and the counters that it takes.
  abbrev pub new_fill : Tick → Draws → Simulator S → Fill
  new_fill tick d s = record {
    fill_id = d.fill_id;
    order_id = str "sim-order-" ++ show s.order_ids;
    symbol = tick.symbol;
    sequence = lookup_or tick.symbol 1 s.fill_sequences;
    price = tick.price;
    quantity = d.quantity;
    side = momentum_side tick s;
    timestamp = fill_timestamp tick d;
    is_planted_anomaly = is_some d.anomaly;
    anomaly_type = d.anomaly;
  }

  -- `_apply_fill`
  unfoldable pub apply_fill : Fill → Simulator S → Simulator S
  apply_fill fill s = record s {
    true_position =
        insert fill.symbol (lookup_or fill.symbol (pos 0) s.true_position +ℤ signed fill)
          s.true_position;
    avg_price = insert fill.symbol fill.price s.avg_price;
  }

  -- `_write_position`. `_true_position[symbol]` raises on a missing key; `_apply_fill` has set it.
  unfoldable pub write_position_of :
      Str → DateTime → Str → Option Decimal → Simulator S → Simulator S
  write_position_of symbol timestamp fill_id quantity_override s = record s {
    book = write_position row s.book;
  }
    where
      row : Position
      row = record {
        symbol = symbol;
        quantity = elim quantity_override [
          | none ↦ lookup_or symbol (pos 0) s.true_position
          | some q ↦ q
        ];
        avg_price = lookup_or symbol (pos 0) s.avg_price;
        last_updated = timestamp;
        last_fill_id = some fill_id;
      }

  -- The state up to `self.fills_emitted += 1`.
  unfoldable pub emit_fill : Tick → Draws → Simulator S → Simulator S
  unfolding apply_fill write_fill
  emit_fill tick d s =
      let fill = new_fill tick d s in
      let counted = record s {
        last_price = insert tick.symbol tick.price s.last_price;
        order_ids = s.order_ids + 1;
        fill_sequences = insert tick.symbol (fill.sequence + 1) s.fill_sequences;
        book = write_fill fill s.book;
      } in
      let applied = apply_fill fill counted in
      record applied { fills_emitted = applied.fills_emitted + 1 }

  -- `if deleted:` and what is logged of it
  unfoldable pub log_gap : Str → DateTime → List ℕ → Simulator S → Simulator S
  log_gap symbol planted_at [] s = s
  log_gap symbol planted_at (n ∷ deleted) s = record s {
    book =
        log_planted_anomaly sequence_gap symbol planted_at none (some (least_of n deleted))
          (some (greatest_of n deleted)) s.book;
    anomalies_planted = record planted { gap = planted.gap + 1 };
  }
    where
      planted : Planted
      planted = s.anomalies_planted

module _ {S : Type 0} (store : TickStore S) where
  -- `_plant_sequence_gap`
  unfoldable pub plant_sequence_gap : Str → DateTime → Draws → Simulator S → Simulator S
  unfolding log_gap
  plant_sequence_gap symbol planted_at d s =
      let seqs = sorted (lookup_or symbol [] s.recent_sequences) in
      if ltb (length seqs) 6
      then s
      else let gap_seqs = take d.gap_length (drop d.start_idx seqs) in
        let (deleted, ticks) = store.delete_sequences symbol gap_seqs s.ticks in
        log_gap symbol planted_at deleted (record s { ticks = ticks })

  -- What follows `self.fills_emitted += 1`, by the anomaly type. `true_qty` is read back from the
  -- state that the fill has been applied to.
  unfoldable pub plant : Option BreakType → Tick → Draws → Simulator S → Simulator S
  unfolding write_position_of plant_sequence_gap
  plant none tick d s = write_position_of tick.symbol tick.exchange_timestamp d.fill_id none s
  plant (some unmatched_fill) tick d s =
      let planted = s.anomalies_planted in
      record s {
        book =
            log_planted_anomaly unmatched_fill tick.symbol tick.exchange_timestamp (some d.fill_id)
              none none s.book;
        anomalies_planted = record planted { unmatched = planted.unmatched + 1 };
      }
  plant (some position_drift) tick d s =
      let planted = s.anomalies_planted in
      let drifted_qty = lookup_or tick.symbol (pos 0) s.true_position +ℤ drift d in
      let logged = record s {
        book =
            log_planted_anomaly position_drift tick.symbol tick.exchange_timestamp (some d.fill_id)
              none none s.book;
        anomalies_planted = record planted { drift = planted.drift + 1 };
      } in
      write_position_of tick.symbol tick.exchange_timestamp d.fill_id (some drifted_qty) logged
  plant (some sequence_gap) tick d s =
      plant_sequence_gap tick.symbol tick.exchange_timestamp d
        (write_position_of tick.symbol tick.exchange_timestamp d.fill_id none s)

  -- `_generate_fill`
  unfoldable pub generate_fill : Tick → Draws → Simulator S → Simulator S
  unfolding emit_fill plant
  generate_fill tick d s = plant d.anomaly tick d (emit_fill tick d s)

  -- What `run` does with one message, after the ack.
  unfoldable pub handle : Tick → Draws → Simulator S → Simulator S
  unfolding track_sequence generate_fill
  handle tick d s =
      let tracked = track_sequence tick s in
      if d.trades then generate_fill tick d tracked else tracked

-- `__init__`, over a book and ticks that are there or not: it counts from the start in either case.
abbrev pub fresh : {S : Type 0} → Book → S → Simulator S
fresh book ticks = record {
  book = book;
  ticks = ticks;
  true_position = [];
  avg_price = [];
  last_price = [];
  recent_sequences = [];
  fill_sequences = [];
  order_ids = 1;
  fills_emitted = 0;
  anomalies_planted = record { unmatched = 0; drift = 0; gap = 0 };
}
