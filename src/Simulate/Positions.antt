-- ===== src/Simulate/Positions.antt =====
-- Which fills of simulate/trade_book_simulator.py have a recorded position.
use mathlib.Core.List.{map-append, append-nil}
use post_trade_reconciliatio.Prelude.{
  ◌≡◌, refl, sym, ap, subst, ◌∙◌, Bool, true, false, Option, none, some, List, [], ◌∷◌, ◌++◌, map,
  filter, filter-append, if◌then◌else◌, inl, inr, Bool-cases,
}
use post_trade_reconciliatio.Prelude.Str.{Str, str_eq}
use post_trade_reconciliatio.Models.{Tick, BreakType, unmatched_fill, position_drift, sequence_gap}
use post_trade_reconciliatio.Storage.Rows.{FillRow, PositionRow}
use post_trade_reconciliatio.Storage.Book.{
  has_fill, fill_row, position_row, write_position, log_planted_anomaly,
}
use post_trade_reconciliatio.Storage.Ticks.{TickStore}
use post_trade_reconciliatio.Simulate.{
  Simulator, Draws, new_fill, track_sequence, emit_fill, write_position_of, plant, generate_fill,
  handle,
}
use post_trade_reconciliatio.Simulate.Consistent.{Core, core, core-emit_fill}
use post_trade_reconciliatio.Simulate.Recorded.{
  IsReachable, starts, handles, ticks_change, core-plant_sequence_gap,
}

-- All fills but the planted unmatched ones.
abbrev pub is_recorded : Option BreakType → Bool
is_recorded none = true
is_recorded (some unmatched_fill) = false
is_recorded (some position_drift) = true
is_recorded (some sequence_gap) = true

abbrev pub recorded_ids : List FillRow → List (Option Str)
recorded_ids fills = map (λ f. some f.fill_id) (filter (λ f. is_recorded f.anomaly_type) fills)

abbrev pub position_ids : List PositionRow → List (Option Str)
position_ids = map (λ p. p.last_fill_id)

-- The positions are those of the recorded fills, one for each, in the order of the fills.
abbrev pub IsPaired : Core → Type 0
IsPaired c = position_ids c.positions ≡ recorded_ids c.fills

recorded_ids-snoc :
    (fills : List FillRow) (r : FillRow)
    → recorded_ids (fills ++ r ∷ [])
      ≡ recorded_ids fills ++ (if is_recorded r.anomaly_type then some r.fill_id ∷ [] else [])
recorded_ids-snoc fills r = elim (Bool-cases (is_recorded r.anomaly_type)) [
  | inl e ↦
      rw (filter-append (λ (f : FillRow). is_recorded f.anomaly_type) fills (r ∷ []), e, map-append)
        refl
  | inr e ↦
      rw (filter-append (λ (f : FillRow). is_recorded f.anomaly_type) fills (r ∷ []), e, map-append)
        refl
]

-- What the planting adds to the positions, after the fill `r` has been appended.
abbrev Adds : Core → Core → Option BreakType → Str → Type 0
Adds before after kind fill_id =
    (after.fills ≡ before.fills)
    × (position_ids after.positions
        ≡ position_ids before.positions ++ (if is_recorded kind then some fill_id ∷ [] else []))

module _ {S : Type 0} (store : TickStore S) where
  plant-Adds :
      (kind : Option BreakType) (tick : Tick) (d : Draws) (s : Simulator S)
      → Adds (core s) (core (plant store kind tick d s)) kind d.fill_id
  unfolding plant write_position_of write_position position_row log_planted_anomaly
  plant-Adds none tick d s = (refl, map-append _ s.book.positions _)
  plant-Adds (some unmatched_fill) tick d s =
      (refl, sym (append-nil (position_ids s.book.positions)))
  plant-Adds (some position_drift) tick d s = (refl, map-append _ s.book.positions _)
  plant-Adds (some sequence_gap) tick d s =
      let written = write_position_of tick.symbol tick.exchange_timestamp d.fill_id none s in
      subst (λ (c : Core). Adds (core s) c (some sequence_gap) d.fill_id)
        (sym (core-plant_sequence_gap store tick.symbol tick.exchange_timestamp d written))
        (refl, map-append _ s.book.positions _)

  generate_fill-IsPaired :
      (tick : Tick) (d : Draws) (s : Simulator S)
      → has_fill d.fill_id s.book.fills ≡ false
      → IsPaired (core s)
      → IsPaired (core (generate_fill store tick d s))
  unfolding generate_fill fill_row
  generate_fill-IsPaired tick d s new h =
      let r = fill_row (new_fill tick d s) in
      let emitted = core-emit_fill tick d s new in
      let (fills, positions) = plant-Adds d.anomaly tick d (emit_fill tick d s) in
      positions
      ∙ ap
          (λ (c : Core).
            position_ids c.positions ++ (if is_recorded d.anomaly then some d.fill_id ∷ [] else []))
          emitted
      ∙ ap (λ ids. ids ++ (if is_recorded d.anomaly then some d.fill_id ∷ [] else [])) h
      ∙ sym (recorded_ids-snoc s.book.fills r)
      ∙ ap (λ (c : Core). recorded_ids c.fills) (sym emitted)
      ∙ ap recorded_ids (sym fills)

  either-IsPaired :
      (b : Bool) (s t : Simulator S)
      → IsPaired (core s)
      → IsPaired (core t)
      → IsPaired (core (if b then s else t))
  either-IsPaired true s t h k = h
  either-IsPaired false s t h k = k

  handle-IsPaired :
      (tick : Tick) (d : Draws) (s : Simulator S)
      → has_fill d.fill_id s.book.fills ≡ false
      → IsPaired (core s)
      → IsPaired (core (handle store tick d s))
  unfolding handle track_sequence
  handle-IsPaired tick d s new h =
      let tracked = track_sequence tick s in
      either-IsPaired d.trades (generate_fill store tick d tracked) tracked
        (generate_fill-IsPaired tick d tracked new h) h

-- In every state that a new simulator reaches from an empty book with new fill ids, each fill but the planted unmatched
-- ones has exactly one recorded position, and the positions stand in the order of their fills.
pub IsReachable-IsPaired :
    {S : Type 0} (store : TickStore S) (s : Simulator S) → IsReachable store s → IsPaired (core s)
IsReachable-IsPaired store _ (starts ticks) = refl
IsReachable-IsPaired store _ (handles tick d h new large) =
    handle-IsPaired store tick d _ new (IsReachable-IsPaired store _ h)
IsReachable-IsPaired store _ (ticks_change ticks h) = IsReachable-IsPaired store _ h
