-- ===== src/Simulate/Recorded.antt =====
-- `_write_position`, the planted anomalies and `run`'s handling of a message in
-- simulate/trade_book_simulator.py, against the invariant of Consistent; the reachable states.
use mathlib.Core.List.{Mem, Nodup-nil, mem-append_right, mem-cons_self}
use post_trade_reconciliatio.Prelude.{
  ℕ, ◌+◌, ◌≡◌, refl, sym, ap, subst, ◌∙◌, Bool, true, false, Option, none, some, List, [], ◌∷◌,
  ◌++◌, arith, All-snoc, if◌then◌else◌, ltb, take, drop, inl, inr, length, Bool-cases,
}
use post_trade_reconciliatio.Prelude.Int.{pos, ◌+ℤ◌, ◌≤ℤ◌, abs, neg, +ℤ_zero, int_laws}
use post_trade_reconciliatio.Prelude.Str.{Str, str_eq}
use post_trade_reconciliatio.Prelude.Dict.{Dict, insert, lookup_or, lookup_or-insert}
use post_trade_reconciliatio.Prelude.Sorting.{sorted}
use post_trade_reconciliatio.Models.{
  Decimal, DateTime, Tick, BreakType, unmatched_fill, position_drift, sequence_gap,
}
use post_trade_reconciliatio.Storage.Rows.{FillRow, PositionRow}
use post_trade_reconciliatio.Storage.Book.{
  empty_book, has_fill, fill_row, position_row, write_position, log_planted_anomaly,
}
use post_trade_reconciliatio.Storage.Keys.{has_fill-ids}
use post_trade_reconciliatio.Storage.Ticks.{TickStore}
use post_trade_reconciliatio.Simulate.{
  Simulator, Draws, new_fill, drift, track_sequence, emit_fill, write_position_of, log_gap,
  plant_sequence_gap, plant, generate_fill, handle, fresh,
}
use post_trade_reconciliatio.Simulate.Nets.{Before, position_at-latest}
use post_trade_reconciliatio.Simulate.Consistent.{
  Core, core, IsError, IsRecorded, IsConsistent, core-emit_fill, after_row-IsConsistent,
}

abbrev with_position : PositionRow → Core → Core
with_position p c = record c { positions = c.positions ++ p ∷ [] }

-- A position of the last row may be off by what its kind allows.
with_position-IsConsistent :
    (c : Core) (r : FillRow) (p : PositionRow) (error : Decimal)
    → IsConsistent c
    → Mem r c.fills
    → Before r.symbol (r.sequence + 1) c.fills
    → r.symbol ≡ p.symbol
    → p.last_fill_id ≡ some r.fill_id
    → p.quantity ≡ lookup_or p.symbol (pos 0) c.true_position +ℤ error
    → IsError r.anomaly_type error
    → IsConsistent (with_position p c)
with_position-IsConsistent c r p error h stored last e is_last quantity planted = record {
  ids = h.ids;
  true_positions = h.true_positions;
  before = h.before;
  sequences = h.sequences;
  recorded = All-snoc (IsRecorded c.fills) p c.positions h.recorded (record {
    fill = r;
    stored = stored;
    is_symbols = e;
    is_last = is_last;
    error = error;
    quantity =
        quantity
        ∙ ap (λ x. x +ℤ error)
            (h.true_positions p.symbol
              ∙ sym (
                  position_at-latest p.symbol c.fills r.sequence
                    (subst (λ s. Before s (r.sequence + 1) c.fills) e last)));
    planted = planted;
  });
}

core-log_gap :
    {S : Type 0} (symbol : Str) (t : DateTime) (deleted : List ℕ) (s : Simulator S)
    → core (log_gap symbol t deleted s) ≡ core s
unfolding log_gap log_planted_anomaly
core-log_gap symbol t [] s = refl
core-log_gap symbol t (n ∷ deleted) s = refl

lookup_or-insert_here :
    {V : Type 0} (k : Str) (default v : V) (d : Dict Str V) → lookup_or k default (insert k v d) ≡ v
lookup_or-insert_here k default v d = ground (arith, lookup_or-insert k k default v d)

-- A drift of at least 0.01, up or down, stays one.
drift_large :
    (up : Bool) (x : Decimal) → pos 1_000_000 ≤ℤ x → pos 1_000_000 ≤ℤ abs (if up then x else neg x)
drift_large true x large = omega int_laws
drift_large false x large = omega int_laws

either-IsConsistent :
    {S : Type 0} (b : Bool) (s t : Simulator S)
    → IsConsistent (core s)
    → IsConsistent (core t)
    → IsConsistent (core (if b then s else t))
either-IsConsistent true s t h k = h
either-IsConsistent false s t h k = k

module _ {S : Type 0} (store : TickStore S) where
  pub core-plant_sequence_gap :
      (symbol : Str) (t : DateTime) (d : Draws) (s : Simulator S)
      → core (plant_sequence_gap store symbol t d s) ≡ core s
  unfolding plant_sequence_gap
  core-plant_sequence_gap symbol t d s =
      let seqs = sorted (lookup_or symbol [] s.recent_sequences) in
      let gap_seqs = take d.gap_length (drop d.start_idx seqs) in
      let (deleted, ticks) = store.delete_sequences symbol gap_seqs s.ticks in
      elim (Bool-cases (ltb (length seqs) 6)) [
        | inl e ↦ rw e refl
        | inr e ↦ rw e (core-log_gap symbol t deleted (record s { ticks = ticks }))
      ]

  -- A fill, and what is planted with it.
  plant-IsConsistent :
      (tick : Tick) (d : Draws) (s : Simulator S) (r : FillRow) (kind : Option BreakType)
      → IsConsistent (core s)
      → Mem r s.book.fills
      → Before r.symbol (r.sequence + 1) s.book.fills
      → r.symbol ≡ tick.symbol
      → r.fill_id ≡ d.fill_id
      → r.anomaly_type ≡ kind
      → pos 1_000_000 ≤ℤ d.drift_size
      → IsConsistent (core (plant store kind tick d s))
  unfolding plant write_position_of write_position position_row log_planted_anomaly
  plant-IsConsistent tick d s r none h stored last e i k large =
      with_position-IsConsistent (core s) r _ (pos 0) h stored last e (ap some (sym i))
        (sym (+ℤ_zero _)) (subst (λ a. IsError a (pos 0)) (sym k) refl)
  plant-IsConsistent tick d s r (some unmatched_fill) h stored last e i k large = h
  plant-IsConsistent tick d s r (some position_drift) h stored last e i k large =
      with_position-IsConsistent (core s) r _ (drift d) h stored last e (ap some (sym i)) refl
        (subst (λ a. IsError a (drift d)) (sym k) (drift_large d.drift_up d.drift_size large))
  plant-IsConsistent tick d s r (some sequence_gap) h stored last e i k large =
      let written = write_position_of tick.symbol tick.exchange_timestamp d.fill_id none s in
      subst IsConsistent
        (sym (core-plant_sequence_gap tick.symbol tick.exchange_timestamp d written))
        (with_position-IsConsistent (core s) r _ (pos 0) h stored last e (ap some (sym i))
          (sym (+ℤ_zero _)) (subst (λ a. IsError a (pos 0)) (sym k) refl))

  generate_fill-IsConsistent :
      (tick : Tick) (d : Draws) (s : Simulator S)
      → IsConsistent (core s)
      → has_fill d.fill_id s.book.fills ≡ false
      → pos 1_000_000 ≤ℤ d.drift_size
      → IsConsistent (core (generate_fill store tick d s))
  unfolding generate_fill fill_row
  generate_fill-IsConsistent tick d s h new large =
      let r = fill_row (new_fill tick d s) in
      let emitted = core-emit_fill tick d s new in
      let later =
        after_row-IsConsistent (core s) r h refl (has_fill-ids d.fill_id s.book.fills new) in
      plant-IsConsistent tick d (emit_fill tick d s) r d.anomaly
        (subst IsConsistent (sym emitted) later)
        (subst (λ (c : Core). Mem r c.fills) (sym emitted)
          (mem-append_right s.book.fills mem-cons_self))
        (subst (λ (c : Core). Before r.symbol (r.sequence + 1) c.fills) (sym emitted)
          (subst (λ n. Before r.symbol n (s.book.fills ++ r ∷ []))
            (lookup_or-insert_here r.symbol 1 (r.sequence + 1) s.fill_sequences)
            (later.before r.symbol)))
        refl refl refl large

  -- The book stays consistent over a message, if its fill's id is new and its drift at least 0.01.
  pub handle-IsConsistent :
      (tick : Tick) (d : Draws) (s : Simulator S)
      → IsConsistent (core s)
      → has_fill d.fill_id s.book.fills ≡ false
      → pos 1_000_000 ≤ℤ d.drift_size
      → IsConsistent (core (handle store tick d s))
  unfolding handle track_sequence
  handle-IsConsistent tick d s h new large =
      let tracked = track_sequence tick s in
      either-IsConsistent d.trades (generate_fill store tick d tracked) tracked
        (generate_fill-IsConsistent tick d tracked h new large) h

-- The states that a new simulator reaches from an empty book. One that starts on the book of an
-- earlier run counts its sequences and its positions from the start, and is not among them. The
-- stores' other clients change the ticks between two messages.
pub data IsReachable {S : Type 0} (store : TickStore S) : Simulator S → Type 0 where
  starts : (ticks : S) → IsReachable store (fresh empty_book ticks)
  handles :
      {s : Simulator S} (tick : Tick) (d : Draws)
      → IsReachable store s
      → has_fill d.fill_id s.book.fills ≡ false
      → pos 1_000_000 ≤ℤ d.drift_size
      → IsReachable store (handle store tick d s)
  ticks_change :
      {s : Simulator S} (ticks : S)
      → IsReachable store s
      → IsReachable store (record s { ticks = ticks })

-- Every state that a new simulator reaches from an empty book has a consistent book, if every fill id
-- is new and every planted drift is at least 0.01: the fill ids are unique, the sequences of each
-- symbol too, the true positions are the net quantities of the fills, and
-- every recorded position is the net quantity up to its fill, off only by a planted drift.
pub IsReachable-IsConsistent :
    {S : Type 0} (store : TickStore S) (s : Simulator S)
    → IsReachable store s
    → IsConsistent (core s)
IsReachable-IsConsistent store _ (starts ticks) = record {
  ids = Nodup-nil;
  true_positions = λ symbol. refl;
  before = λ symbol. tt;
  sequences = λ symbol. Nodup-nil;
  recorded = tt;
}
IsReachable-IsConsistent store _ (handles tick d h new large) =
    handle-IsConsistent store tick d _ (IsReachable-IsConsistent store _ h) new large
IsReachable-IsConsistent store _ (ticks_change ticks h) = IsReachable-IsConsistent store _ h
