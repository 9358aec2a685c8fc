-- ===== src/Reconcile/Symbols.antt =====
-- `reconcile_all` of reconcile/reconciler.py over the symbols.
use post_trade_reconciliatio.Prelude.{
  ◌≡◌, refl, ap, sym, ◌∙◌, Option, none, some, List, [], ◌∷◌, ◌++◌,
}
use post_trade_reconciliatio.Prelude.Int.{◌+ℤ◌, ◌-ℤ◌}
use post_trade_reconciliatio.Prelude.Str.{Str}
use post_trade_reconciliatio.Prelude.Sorting.{SortBy}
use post_trade_reconciliatio.Models.{Break, DateTime}
use post_trade_reconciliatio.Storage.Book.{Book, read_fills_df, read_positions_df}
use post_trade_reconciliatio.Storage.Ticks.{TickStore}
use post_trade_reconciliatio.Reconcile.{
  Reconciler, find_unmatched_fills, find_position_drift, reconcile_symbol, reconcile_all,
}
use post_trade_reconciliatio.Reconcile.Frames.{Pandas}
use post_trade_reconciliatio.Reconcile.Gaps.{find_sequence_gaps_lem}

-- The breaks of a search that returns.
abbrev pub found : Option (List Break) → List Break
found none = []
found (some breaks) = breaks

some-found : (o : Option (List Break)) (bs : List Break) → o ≡ some bs → o ≡ some (found o)
some-found o bs e = e ∙ ap some (sym (ap found e))

module _ (sql : SortBy) (pd : Pandas) {S : Type 0} (tick_store : TickStore S) (r : Reconciler)
    (book : Book) (ticks : S) (start end : DateTime) where
  abbrev of_symbol : Str → Option (List Break)
  of_symbol symbol = reconcile_symbol sql pd tick_store r book ticks symbol start end

  abbrev pub found_in : List Str → List Break
  found_in [] = []
  found_in (symbol ∷ symbols) =
      found (reconcile_symbol sql pd tick_store r book ticks symbol start end) ++ found_in symbols

  reconcile_symbol-returns : (symbol : Str) → of_symbol symbol ≡ some (found (of_symbol symbol))
  unfolding reconcile_symbol
  reconcile_symbol-returns symbol =
      let w = r.tick_match_window in
      let rows = tick_store.read_ticks_df symbol (start -ℤ w) (end +ℤ w) ticks in
      let (gaps, ran, _) = find_sequence_gaps_lem pd symbol rows in
      let unmatched =
        find_unmatched_fills pd r symbol (read_fills_df sql book symbol (start -ℤ w) (end +ℤ w))
          rows in
      let drift =
        find_position_drift pd r symbol (read_fills_df sql book symbol (start -ℤ w) (end +ℤ w))
          (read_positions_df sql book symbol start end) in
      some-found (of_symbol symbol) (unmatched ++ drift ++ gaps)
        (ap (λ o. elim o [ none ↦ none | some gs ↦ some (unmatched ++ drift ++ gs) ]) ran)

  -- Over any book and any tick store whose read gives times with a zone the reconciler returns: its breaks are those of each symbol's
  -- reconciliation, which returns too, in the order of the symbols.
  pub reconcile_all-found_in :
      (symbols : List Str)
      → reconcile_all sql pd tick_store r book ticks symbols start end ≡ some (found_in symbols)
  unfolding reconcile_all
  reconcile_all-found_in [] = refl
  reconcile_all-found_in (symbol ∷ symbols) =
      ap
        (λ o. elim o [
          | none ↦ none
          | some bs ↦ elim (reconcile_all sql pd tick_store r book ticks symbols start end) [
            | none ↦ none
            | some rest ↦ some (bs ++ rest)
          ]
        ])
        (reconcile_symbol-returns symbol)
      ∙ ap (λ o. elim o [ none ↦ none | some rest ↦ some (found (of_symbol symbol) ++ rest) ])
          (reconcile_all-found_in symbols)
