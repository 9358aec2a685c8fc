-- ===== src/Report/Tests.antt =====
-- The report on the two fills of Simulate/Concrete, the second planted with a drift.
use post_trade_reconciliatio.Prelude.{
  ◌≡◌, refl, true, none, some, List, [], ◌∷◌, any, All, arith, ℕ_discrete,
}
use post_trade_reconciliatio.Prelude.Int.{pos, ◌+ℤ◌, ◌-ℤ◌}
use post_trade_reconciliatio.Prelude.Str.{str_eq, same, Str-discrete}
use post_trade_reconciliatio.Prelude.Sorting.{stable_sort}
use post_trade_reconciliatio.Models.{Break, position_drift, side_value}
use post_trade_reconciliatio.Storage.Book.{
  in_range, read_planted_anomalies_df, write_position, fill_row, log_planted_anomaly, position_row,
}
use post_trade_reconciliatio.Reconcile.{default_reconciler, reconcile_all}
use post_trade_reconciliatio.Reconcile.Concrete.{frames, btc}
use post_trade_reconciliatio.Reconcile.Windows.{is_read}
use post_trade_reconciliatio.Simulate.{handle}
use post_trade_reconciliatio.Simulate.Concrete.{store, after_two, after_two-IsReachable}
use post_trade_reconciliatio.Report.{score}
use post_trade_reconciliatio.Report.Truth.{IsPerfect, score-IsPerfect}

fills_read :
    All
      (λ f.
        is_read stable_sort frames default_reconciler f.symbol (pos 0) (pos 100_000_000) f ≡ true)
      after_two.book.fills
unfolding handle Str-discrete write_position fill_row ◌+ℤ◌ ◌-ℤ◌ ℕ_discrete log_planted_anomaly
    position_row side_value
fills_read = (refl, (refl, tt))

positions_read :
    All
      (λ p. in_range p.symbol (pos 0) (pos 100_000_000) p.symbol p.time ≡ true)
      after_two.book.positions
unfolding handle Str-discrete write_position fill_row ◌+ℤ◌ ◌-ℤ◌ ℕ_discrete log_planted_anomaly
    position_row side_value
positions_read = (refl, (refl, tt))

covered : All (λ f. any (same f.symbol) (btc ∷ []) ≡ true) after_two.book.fills
unfolding handle Str-discrete write_position fill_row ℕ_discrete log_planted_anomaly
covered = (refl, (refl, tt))

score-IsPerfect_example :
    (breaks : List Break) × (reconcile_all stable_sort frames store default_reconciler
        after_two.book after_two.ticks
        (btc ∷ [])
        (pos 0)
        (pos 100_000_000)
      ≡ some breaks)
    × IsPerfect (score position_drift (read_planted_anomalies_df stable_sort after_two.book) breaks)
score-IsPerfect_example =
    score-IsPerfect store after_two stable_sort frames default_reconciler (pos 0) (pos 100_000_000)
      after_two-IsReachable (omega arith) (omega arith) fills_read positions_read (btc ∷ []) covered

-- Nothing found of one planted drift: the recall is 0 of 1 and the precision nan.
misses_one :
    ((score position_drift after_two.book.planted_anomalies []).recall ≡ some (0, 1))
    × ((score position_drift after_two.book.planted_anomalies []).precision ≡ none)
unfolding handle Str-discrete write_position fill_row ℕ_discrete log_planted_anomaly score
misses_one = (refl, refl)
