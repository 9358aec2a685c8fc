-- ===== src/Simulate/Counted.antt =====
-- The count of emitted fills that a message adds to in simulate/trade_book_simulator.py.
use post_trade_reconciliatio.Prelude.{
  ℕ, ◌+◌, ◌≡◌, refl, Bool, true, false, Option, none, some, List, [], ◌∷◌, if◌then◌else◌, inl, inr,
  Bool-cases, ltb, take, drop, length,
}
use post_trade_reconciliatio.Prelude.Str.{Str, str_eq}
use post_trade_reconciliatio.Prelude.Dict.{lookup_or}
use post_trade_reconciliatio.Prelude.Sorting.{sorted}
use post_trade_reconciliatio.Models.{
  DateTime, Tick, BreakType, unmatched_fill, position_drift, sequence_gap,
}
use post_trade_reconciliatio.Storage.Ticks.{TickStore}
use post_trade_reconciliatio.Simulate.{
  Simulator, Draws, track_sequence, emit_fill, write_position_of, log_gap, plant_sequence_gap,
  plant, generate_fill, handle,
}

log_gap-fills_emitted :
    {S : Type 0} (symbol : Str) (t : DateTime) (deleted : List ℕ) (s : Simulator S)
    → (log_gap symbol t deleted s).fills_emitted ≡ s.fills_emitted
unfolding log_gap
log_gap-fills_emitted symbol t [] s = refl
log_gap-fills_emitted symbol t (n ∷ deleted) s = refl

module _ {S : Type 0} (store : TickStore S) where
  plant_sequence_gap-fills_emitted :
      (symbol : Str) (t : DateTime) (d : Draws) (s : Simulator S)
      → (plant_sequence_gap store symbol t d s).fills_emitted ≡ s.fills_emitted
  unfolding plant_sequence_gap
  plant_sequence_gap-fills_emitted symbol t d s =
      let seqs = sorted (lookup_or symbol [] s.recent_sequences) in
      let gap_seqs = take d.gap_length (drop d.start_idx seqs) in
      let (deleted, ticks) = store.delete_sequences symbol gap_seqs s.ticks in
      elim (Bool-cases (ltb (length seqs) 6)) [
        | inl e ↦ rw e refl
        | inr e ↦ rw e (log_gap-fills_emitted symbol t deleted (record s { ticks = ticks }))
      ]

  plant-fills_emitted :
      (kind : Option BreakType) (tick : Tick) (d : Draws) (s : Simulator S)
      → (plant store kind tick d s).fills_emitted ≡ s.fills_emitted
  unfolding plant write_position_of
  plant-fills_emitted none tick d s = refl
  plant-fills_emitted (some unmatched_fill) tick d s = refl
  plant-fills_emitted (some position_drift) tick d s = refl
  plant-fills_emitted (some sequence_gap) tick d s =
      plant_sequence_gap-fills_emitted tick.symbol tick.exchange_timestamp d
        (write_position_of tick.symbol tick.exchange_timestamp d.fill_id none s)

  generate_fill-fills_emitted :
      (tick : Tick) (d : Draws) (s : Simulator S)
      → (generate_fill store tick d s).fills_emitted ≡ s.fills_emitted + 1
  unfolding generate_fill emit_fill
  generate_fill-fills_emitted tick d s = plant-fills_emitted d.anomaly tick d (emit_fill tick d s)

  pub handle-fills_emitted :
      (tick : Tick) (d : Draws) (s : Simulator S)
      → (handle store tick d s).fills_emitted
        ≡ (if d.trades then s.fills_emitted + 1 else s.fills_emitted)
  unfolding handle track_sequence
  handle-fills_emitted tick d s =
      let tracked = track_sequence tick s in
      by_trade d.trades (generate_fill store tick d tracked) tracked s.fills_emitted
        (generate_fill-fills_emitted tick d tracked) refl
    where
      by_trade :
          (b : Bool) (u v : Simulator S) (n : ℕ)
          → u.fills_emitted ≡ n + 1
          → v.fills_emitted ≡ n
          → (if b then u else v).fills_emitted ≡ (if b then n + 1 else n)
      by_trade true u v n e f = e
      by_trade false u v n e f = f
