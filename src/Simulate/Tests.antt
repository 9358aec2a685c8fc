-- ===== src/Simulate/Tests.antt =====
-- Runs of simulate/trade_book_simulator.py: the two messages of Concrete, a planted gap and a loop.
use mathlib.Core.List.{zip}
use post_trade_reconciliatio.Prelude.{
  ℕ, ◌≡◌, refl, false, none, some, List, [], ◌∷◌, arith, filter, map, count, ℕ_discrete,
}
use post_trade_reconciliatio.Prelude.Int.{pos, ◌+ℤ◌, ◌-ℤ◌}
use post_trade_reconciliatio.Prelude.Str.{Str, str, Str-discrete}
use post_trade_reconciliatio.Prelude.Sorting.{stable_sort, insertion_sort, sorted}
use post_trade_reconciliatio.Models.{Break, position_drift, sequence_gap, side_value}
use post_trade_reconciliatio.Storage.Book.{
  empty_book, write_position, fill_row, log_planted_anomaly, position_row,
}
use post_trade_reconciliatio.Storage.Ticks.{Table, tick_row}
use post_trade_reconciliatio.Storage.Ticks.Timescale
use post_trade_reconciliatio.Reconcile.{default_reconciler, find_position_drift, find_sequence_gaps}
use post_trade_reconciliatio.Reconcile.Concrete.{frames, btc}
use post_trade_reconciliatio.Simulate.{Simulator, Draws, fresh, handle, plant_sequence_gap}
use post_trade_reconciliatio.Reconcile.Specification.{covers}
use post_trade_reconciliatio.Simulate.Runs.{Delivery, run}
use post_trade_reconciliatio.Simulate.Emitted.{IsAcked, all_messages, run-IsAcked}
use post_trade_reconciliatio.Simulate.Positions.{IsPaired, IsReachable-IsPaired}
use post_trade_reconciliatio.Simulate.Recall.{find_position_drift-flags_planted}
use post_trade_reconciliatio.Simulate.Gaps.{rows_of, find_sequence_gaps-finds_planted}
use post_trade_reconciliatio.Simulate.Nets.{of_symbol}
use post_trade_reconciliatio.Simulate.Consistent.{core, IsConsistent}
use post_trade_reconciliatio.Simulate.Recorded.{IsReachable-IsConsistent}
use post_trade_reconciliatio.Simulate.Concrete.{
  tick_at, draws, store, after_two, after_two-IsReachable,
}
use post_trade_reconciliatio.Simulate.Logged.{logged_ids, fill_ids, IsReachable-IsLogged}
use post_trade_reconciliatio.Simulate.Found.{is_drift, positions_of}

IsReachable-IsConsistent_example : IsConsistent (core after_two)
IsReachable-IsConsistent_example = IsReachable-IsConsistent store after_two after_two-IsReachable

find_position_drift-flags_planted_example :
    map
      (λ b. b.related_fill_id)
      (find_position_drift frames default_reconciler btc
        (of_symbol btc after_two.book.fills)
        (positions_of btc after_two.book.positions))
    ≡ map
        (λ f. some f.fill_id)
        (filter (λ f. is_drift f.anomaly_type) (of_symbol btc after_two.book.fills))
find_position_drift-flags_planted_example =
    find_position_drift-flags_planted store after_two frames default_reconciler btc
      after_two-IsReachable (omega arith) (omega arith)

-- The drift is planted, and found.
finds_one :
    map
      (λ b. b.related_fill_id)
      (find_position_drift frames default_reconciler btc
        (of_symbol btc after_two.book.fills)
        (positions_of btc after_two.book.positions))
    ≡ some (str "b") ∷ []
unfolding handle Str-discrete write_position fill_row find_position_drift ◌+ℤ◌ ◌-ℤ◌ ℕ_discrete
    log_planted_anomaly position_row zip insertion_sort side_value
finds_one = refl

-- Ten recent sequences; the third to the fifth are deleted.
abbrev ten : List ℕ
ten = 1 ∷ 2 ∷ 3 ∷ 4 ∷ 5 ∷ 6 ∷ 7 ∷ 8 ∷ 9 ∷ 10 ∷ []

abbrev gap_draws : Draws
gap_draws = record (draws (str "c") (some sequence_gap)) { start_idx = 2; gap_length = 3 }

abbrev with_ticks : Simulator Table
with_ticks = record (fresh empty_book (map (λ n. Timescale.row none (tick_at n 100)) ten)) {
  recent_sequences = (btc, ten) ∷ [];
}

find_sequence_gaps-finds_planted_example :
    (bs : List Break) × (find_sequence_gaps frames btc
        (rows_of btc (plant_sequence_gap store btc (pos 10_000_000) gap_draws with_ticks).ticks)
      ≡ some bs)
    × (count (λ b. covers 4 b.detail) bs ≡ 1)
unfolding Str-discrete ℕ_discrete tick_row sorted
find_sequence_gaps-finds_planted_example =
    find_sequence_gaps-finds_planted frames stable_sort btc (pos 10_000_000) gap_draws with_ticks 2
      4 6 refl refl refl refl (omega arith) (omega arith)

abbrev delivery : Str → ℕ → Delivery
delivery id sequence = record {
  message_id = id;
  tick = tick_at sequence 100;
  draws = draws id none;
}

abbrev reads : List (List Delivery)
reads = (delivery (str "1") 1 ∷ []) ∷ [] ∷ (delivery (str "2") 2 ∷ delivery (str "3") 3 ∷ []) ∷ []

run-IsAcked_example :
    IsAcked store
      (some 2)
      (all_messages reads)
      (record { sim = fresh empty_book []; acked = []; ended = false })
      (run store (some 2) (some 5) reads (fresh empty_book []))
run-IsAcked_example = run-IsAcked store (some 2) (some 5) reads (fresh empty_book []) (omega arith)

-- Two fills are emitted, and the third message is not acked.
acks_two : (run store (some 2) (some 5) reads (fresh empty_book [])).acked ≡ str "1" ∷ str "2" ∷ []
unfolding run handle
acks_two = refl

IsReachable-IsPaired_example : IsPaired (core after_two)
IsReachable-IsPaired_example = IsReachable-IsPaired store after_two after_two-IsReachable

IsReachable-IsLogged_example :
    logged_ids position_drift after_two.book.planted_anomalies
    ≡ fill_ids position_drift after_two.book.fills
IsReachable-IsLogged_example =
    IsReachable-IsLogged store position_drift refl after_two after_two-IsReachable
