-- ===== src/Simulate/Logged.antt =====
-- What simulate/trade_book_simulator.py logs as planted against the fills that it writes.
use mathlib.Core.List.{map-append, append-nil}
use post_trade_reconciliatio.Prelude.{
  ℕ, ◌≡◌, refl, sym, ap, ◌∙◌, Bool, true, false, Option, none, some, List, [], ◌∷◌, ◌++◌, map,
  filter, filter-append, if◌then◌else◌, inl, inr, Bool-cases, ltb, length, take, drop,
}
use post_trade_reconciliatio.Prelude.Str.{Str, str_eq}
use post_trade_reconciliatio.Prelude.Dict.{lookup_or}
use post_trade_reconciliatio.Prelude.Sorting.{sorted}
use post_trade_reconciliatio.Models.{
  DateTime, Tick, BreakType, unmatched_fill, position_drift, sequence_gap,
}
use post_trade_reconciliatio.Storage.Rows.{FillRow, AnomalyRow}
use post_trade_reconciliatio.Storage.Book.{
  Book, has_fill, fill_row, write_fill, write_position, log_planted_anomaly,
}
use post_trade_reconciliatio.Storage.Ticks.{TickStore}
use post_trade_reconciliatio.Simulate.{
  Simulator, Draws, new_fill, track_sequence, apply_fill, emit_fill, write_position_of, log_gap,
  plant_sequence_gap, plant, generate_fill, handle,
}
use post_trade_reconciliatio.Simulate.Recorded.{IsReachable, starts, handles, ticks_change}
use post_trade_reconciliatio.Reconcile.Flags.{same_type}

-- The anomalies that are logged with the id of their fill.
abbrev pub names_fill : BreakType → Bool
names_fill unmatched_fill = true
names_fill position_drift = true
names_fill sequence_gap = false

abbrev pub is_kind : BreakType → Option BreakType → Bool
is_kind kind none = false
is_kind kind (some t) = same_type t kind

-- The logged ids of a kind, and the ids of the fills that were planted with it.
abbrev pub logged_ids : BreakType → List AnomalyRow → List (Option Str)
logged_ids kind anomalies =
    map (λ a. a.related_fill_id) (filter (λ a. same_type a.anomaly_type kind) anomalies)

abbrev pub fill_ids : BreakType → List FillRow → List (Option Str)
fill_ids kind fills = map (λ f. some f.fill_id) (filter (λ f. is_kind kind f.anomaly_type) fills)

abbrev IsLogged : BreakType → Book → Type 0
IsLogged kind b = logged_ids kind b.planted_anomalies ≡ fill_ids kind b.fills

fill_ids-snoc :
    (kind : BreakType) (fills : List FillRow) (r : FillRow)
    → fill_ids kind (fills ++ r ∷ [])
      ≡ fill_ids kind fills ++ (if is_kind kind r.anomaly_type then some r.fill_id ∷ [] else [])
fill_ids-snoc kind fills r = elim (Bool-cases (is_kind kind r.anomaly_type)) [
  | inl e ↦
      rw
        (filter-append (λ (f : FillRow). is_kind kind f.anomaly_type) fills (r ∷ []), e, map-append)
        refl
  | inr e ↦
      rw
        (filter-append (λ (f : FillRow). is_kind kind f.anomaly_type) fills (r ∷ []), e, map-append)
        refl
]

logged_ids-snoc :
    (kind : BreakType) (anomalies : List AnomalyRow) (a : AnomalyRow)
    → logged_ids kind (anomalies ++ a ∷ [])
      ≡ logged_ids kind anomalies
        ++ (if same_type a.anomaly_type kind then a.related_fill_id ∷ [] else [])
logged_ids-snoc kind anomalies a = elim (Bool-cases (same_type a.anomaly_type kind)) [
  | inl e ↦
      rw
        (
          filter-append (λ (x : AnomalyRow). same_type x.anomaly_type kind) anomalies (a ∷ []),
          e,
          map-append,
        )
        refl
  | inr e ↦
      rw
        (
          filter-append (λ (x : AnomalyRow). same_type x.anomaly_type kind) anomalies (a ∷ []),
          e,
          map-append,
        )
        refl
]

-- What the planting adds to the log, and that it leaves the fills alone.
abbrev Logs : BreakType → Book → Book → List (Option Str) → Type 0
Logs kind before after ids =
    (after.fills ≡ before.fills)
    × (logged_ids kind after.planted_anomalies ≡ logged_ids kind before.planted_anomalies ++ ids)

gap-kind : (kind : BreakType) → names_fill kind ≡ true → same_type sequence_gap kind ≡ false
gap-kind unmatched_fill e = refl
gap-kind position_drift e = refl
gap-kind sequence_gap e = sym e

log_gap-Logs :
    {S : Type 0} (kind : BreakType) (symbol : Str) (t : DateTime) (deleted : List ℕ)
    (s : Simulator S)
    → names_fill kind ≡ true
    → Logs kind s.book (log_gap symbol t deleted s).book []
unfolding log_gap log_planted_anomaly
log_gap-Logs kind symbol t [] s e = (refl, sym (append-nil _))
log_gap-Logs kind symbol t (n ∷ deleted) s e =
    (refl, logged_ids-snoc kind s.book.planted_anomalies _ ∙ rw (gap-kind kind e) refl)

module _ {S : Type 0} (store : TickStore S) (kind : BreakType)
    (named : names_fill kind ≡ true) where
  plant_sequence_gap-Logs :
      (symbol : Str) (t : DateTime) (d : Draws) (s : Simulator S)
      → Logs kind s.book (plant_sequence_gap store symbol t d s).book []
  unfolding plant_sequence_gap
  plant_sequence_gap-Logs symbol t d s =
      let seqs = sorted (lookup_or symbol [] s.recent_sequences) in
      let gap_seqs = take d.gap_length (drop d.start_idx seqs) in
      let (deleted, ticks) = store.delete_sequences symbol gap_seqs s.ticks in
      elim (Bool-cases (ltb (length seqs) 6)) [
        | inl e ↦ rw e (refl, sym (append-nil _))
        | inr e ↦ rw e (log_gap-Logs kind symbol t deleted (record s { ticks = ticks }) named)
      ]

  plant-Logs :
      (anomaly : Option BreakType) (tick : Tick) (d : Draws) (s : Simulator S)
      → Logs kind s.book
          (plant store anomaly tick d s).book
          (if is_kind kind anomaly then some d.fill_id ∷ [] else [])
  unfolding plant write_position_of write_position log_planted_anomaly
  plant-Logs none tick d s = (refl, sym (append-nil _))
  plant-Logs (some unmatched_fill) tick d s =
      (refl, logged_ids-snoc kind s.book.planted_anomalies _)
  plant-Logs (some position_drift) tick d s =
      (refl, logged_ids-snoc kind s.book.planted_anomalies _)
  plant-Logs (some sequence_gap) tick d s = rw (gap-kind kind named) (
      plant_sequence_gap-Logs tick.symbol tick.exchange_timestamp d
        (write_position_of tick.symbol tick.exchange_timestamp d.fill_id none s))

  emit_fill-Logs :
      (tick : Tick) (d : Draws) (s : Simulator S)
      → has_fill d.fill_id s.book.fills ≡ false
      → ((emit_fill tick d s).book.fills ≡ s.book.fills ++ fill_row (new_fill tick d s) ∷ [])
        × ((emit_fill tick d s).book.planted_anomalies ≡ s.book.planted_anomalies)
  unfolding emit_fill apply_fill write_fill
  emit_fill-Logs tick d s new = (rw new refl, rw new refl)

  generate_fill-IsLogged :
      (tick : Tick) (d : Draws) (s : Simulator S)
      → has_fill d.fill_id s.book.fills ≡ false
      → IsLogged kind s.book
      → IsLogged kind (generate_fill store tick d s).book
  unfolding generate_fill fill_row
  generate_fill-IsLogged tick d s new h =
      let (fills, anomalies) = emit_fill-Logs tick d s new in
      let (kept, logged) = plant-Logs d.anomaly tick d (emit_fill tick d s) in
      logged
      ∙ ap (λ a. logged_ids kind a ++ (if is_kind kind d.anomaly then some d.fill_id ∷ [] else []))
          anomalies
      ∙ ap (λ l. l ++ (if is_kind kind d.anomaly then some d.fill_id ∷ [] else [])) h
      ∙ sym (fill_ids-snoc kind s.book.fills (fill_row (new_fill tick d s)))
      ∙ ap (fill_ids kind) (sym (kept ∙ fills))

  either-IsLogged :
      (b : Bool) (s t : Simulator S)
      → IsLogged kind s.book
      → IsLogged kind t.book
      → IsLogged kind (if b then s else t).book
  either-IsLogged true s t h k = h
  either-IsLogged false s t h k = k

  handle-IsLogged :
      (tick : Tick) (d : Draws) (s : Simulator S)
      → has_fill d.fill_id s.book.fills ≡ false
      → IsLogged kind s.book
      → IsLogged kind (handle store tick d s).book
  unfolding handle track_sequence
  handle-IsLogged tick d s new h =
      let tracked = track_sequence tick s in
      either-IsLogged d.trades (generate_fill store tick d tracked) tracked
        (generate_fill-IsLogged tick d tracked new h) h

  -- In every state that a new simulator reaches from an empty book with new fill ids, the log names the fills planted as
  -- unmatched, or with a drift, in their order and each once.
  pub IsReachable-IsLogged :
      (s : Simulator S)
      → IsReachable store s
      → logged_ids kind s.book.planted_anomalies ≡ fill_ids kind s.book.fills
  IsReachable-IsLogged _ (starts ticks) = refl
  IsReachable-IsLogged _ (handles tick d h new large) =
      handle-IsLogged tick d _ new (IsReachable-IsLogged _ h)
  IsReachable-IsLogged _ (ticks_change ticks h) = IsReachable-IsLogged _ h
