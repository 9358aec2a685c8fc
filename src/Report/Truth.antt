-- ===== src/Report/Truth.antt =====
-- What report/report.py measures of the drifts that simulate/trade_book_simulator.py has planted.
use post_trade_reconciliatio.Prelude.{
  ◌≡◌, refl, sym, ap, subst, ◌∙◌, true, false, ◌&&◌, none, some, List, [], ◌∷◌, ◌++◌, map, filter,
  any, any-append, mem-filter, any-filter, any-map, All, length, arith,
}
use post_trade_reconciliatio.Prelude.Int.{pos, ◌≤ℤ◌, ◌<ℤ◌, ◌+ℤ◌, ◌-ℤ◌}
use post_trade_reconciliatio.Prelude.Str.{Str, Str-discrete, str_eq, same}
use post_trade_reconciliatio.Prelude.Sorting.{SortBy}
use post_trade_reconciliatio.Models.{position_drift, Break, DateTime}
use post_trade_reconciliatio.Storage.Rows.{FillRow, AnomalyRow}
use post_trade_reconciliatio.Storage.Book.{
  in_range, read_planted_anomalies_df, read_fills_df, read_positions_df,
}
use post_trade_reconciliatio.Storage.Ticks.{TickStore}
use post_trade_reconciliatio.Reconcile.{
  Reconciler, find_unmatched_fills, find_position_drift, reconcile_symbol, reconcile_all,
}
use post_trade_reconciliatio.Reconcile.Frames.{Pandas}
use post_trade_reconciliatio.Reconcile.Drift.{find_position_drift_lem}
use post_trade_reconciliatio.Reconcile.Gaps.{find_sequence_gaps_lem}
use post_trade_reconciliatio.Reconcile.Flags.{
  flags, flagged, is_some_text, find_sequence_gaps-NamesNone,
}
use post_trade_reconciliatio.Reconcile.Windows.{is_read, read_fills}
use post_trade_reconciliatio.Reconcile.Symbols.{found, found_in, reconcile_all-found_in}
use post_trade_reconciliatio.Reconcile.Whole.{
  Names, flagged-drift_spec_kind, flagged-find_unmatched_fills, flagged-read_whole,
}
use post_trade_reconciliatio.Simulate.{Simulator}
use post_trade_reconciliatio.Simulate.Nets.{of_symbol}
use post_trade_reconciliatio.Simulate.Consistent.{IsRecorded}
use post_trade_reconciliatio.Simulate.Recorded.{IsReachable, IsReachable-IsConsistent}
use post_trade_reconciliatio.Simulate.Found.{is_drift, positions_of, of_symbol-IsBook}
use post_trade_reconciliatio.Simulate.Recall.{find_position_drift-flags_planted}
use post_trade_reconciliatio.Simulate.Logged.{IsReachable-IsLogged}
use post_trade_reconciliatio.Report.{planted_ids, found_ids, rate, Score, score}
use post_trade_reconciliatio.Report.Scores.{IsScore, score-IsScore}
use post_trade_reconciliatio.Report.Members.{
  any-found_ids, any-planted_ids, any-fill_ids, drifted, by_symbols,
}

-- Recall and precision are 1, or nan where nothing was planted.
abbrev pub IsPerfect : Score → Type 0
IsPerfect s =
    (s.found ≡ s.planted)
    × (s.recall ≡ rate s.planted s.planted)
    × (s.precision ≡ rate s.planted s.planted)

IsScore-IsPerfect :
    (planted found : List Str) (s : Score)
    → IsScore planted found s
    → ((id : Str) → any (same id) planted ≡ any (same id) found)
    → IsPerfect s
IsScore-IsPerfect planted found s h alike =
    let all_found = h.all_found.1 (λ id m. sym (alike id) ∙ m) in
    let all_planted = h.all_planted.1 (λ id m. alike id ∙ m) in
    let whole : s.found ≡ s.planted = all_found ∙ sym h.planted_count in
    (
      whole,
      h.recall
          ∙ ap (λ n. rate n (length planted)) whole
          ∙ ap (rate s.planted) (sym h.planted_count),
      h.precision ∙ ap (rate s.found) (sym all_planted) ∙ ap (λ n. rate n n) whole,
    )

All-filtered :
    {A : Type 0} (key : A → Str) (P Q : A → Type 0) (symbol : Str) (xs : List A)
    → ((x : A) → key x ≡ symbol → P x → Q x)
    → All P xs
    → All Q (filter (λ x. same (key x) symbol) xs)
All-filtered key P Q symbol [] f h = tt
All-filtered key P Q symbol (x ∷ xs) f h = elim (Str-discrete (key x) symbol) [
  | yes e ↦
      let kept : same (key x) symbol ≡ true = ground arith in
      rw kept (f x e h.0, All-filtered key P Q symbol xs f h.1)
  | no e ↦
      let dropped : same (key x) symbol ≡ false = ground arith in
      rw dropped (All-filtered key P Q symbol xs f h.1)
]

module _ {S : Type 0} (store : TickStore S) (s : Simulator S) (sql : SortBy) (pd : Pandas)
    (r : Reconciler) (start end : DateTime) (reachable : IsReachable store s)
    (lo : pos 0 ≤ℤ r.position_drift_tolerance) (hi : r.position_drift_tolerance <ℤ pos 1_000_000)
    (fills_read : All (λ f. is_read sql pd r f.symbol start end f ≡ true) s.book.fills)
    (positions_read : All
      (λ p. in_range p.symbol start end p.symbol p.time ≡ true)
      s.book.positions) where
  module _ (id symbol : Str) where
    named : All (Names (of_symbol symbol s.book.fills)) (positions_of symbol s.book.positions)
    named =
        All-filtered (λ p. p.symbol) (IsRecorded s.book.fills)
          (Names (of_symbol symbol s.book.fills)) symbol s.book.positions
          (λ p e k. (
            k.fill,
            mem-filter (λ (f : FillRow). same f.symbol symbol) k.fill s.book.fills k.stored
                (ground (arith, k.is_symbols, e)),
            k.is_last,
          ))
          (IsReachable-IsConsistent store s reachable).recorded

    -- The drift search over what is read flags the planted drifts.
    flagged-drift :
        flagged position_drift id (
          find_position_drift pd r symbol
            (read_fills sql pd r symbol start end s.book)
            (read_positions_df sql s.book symbol start end))
        ≡ drifted id (of_symbol symbol s.book.fills)
    flagged-drift =
        let fills = of_symbol symbol s.book.fills in
        let positions = positions_of symbol s.book.positions in
        let b = of_symbol-IsBook symbol (IsReachable-IsConsistent store s reachable) in
        let search = find_position_drift_lem pd r symbol fills positions b in
        flagged-read_whole sql pd r symbol start end s.book b
          (All-filtered (λ f. f.symbol) _ (λ f. is_read sql pd r symbol start end f ≡ true) symbol
            s.book.fills (λ f e k. subst (λ x. is_read sql pd r x start end f ≡ true) e k)
            fills_read)
          id
          (All-filtered (λ p. p.symbol) _ (λ p. in_range symbol start end p.symbol p.time ≡ true)
            symbol s.book.positions
            (λ p e k. subst (λ x. in_range x start end p.symbol p.time ≡ true) e k) positions_read)
          named
        ∙ ap (flagged position_drift id) search
        ∙ flagged-drift_spec_kind symbol id r.position_drift_tolerance fills positions
        ∙ ap (λ bs. any (is_some_text id) (map (λ b. b.related_fill_id) bs)) (sym search)
        ∙ ap (any (is_some_text id))
            (find_position_drift-flags_planted store s pd r symbol reachable lo hi)
        ∙ any-map (λ f. some f.fill_id) (is_some_text id)
            (filter (λ f. is_drift f.anomaly_type) fills)
        ∙ any-filter (λ f. same f.fill_id id) (λ f. is_drift f.anomaly_type) fills

    flagged-symbol :
        flagged position_drift id
          (found (reconcile_symbol sql pd store r s.book s.ticks symbol start end))
        ≡ drifted id (of_symbol symbol s.book.fills)
    unfolding reconcile_symbol read_fills
    flagged-symbol =
        let w = r.tick_match_window in
        let rows = store.read_ticks_df symbol (start -ℤ w) (end +ℤ w) s.ticks in
        let (gaps, ran, _) = find_sequence_gaps_lem pd symbol rows in
        let fills = read_fills_df sql s.book symbol (start -ℤ w) (end +ℤ w) in
        let unmatched = find_unmatched_fills pd r symbol fills rows in
        let drift =
          find_position_drift pd r symbol fills (read_positions_df sql s.book symbol start end) in
        let kind = flags position_drift id in
        ap
          (λ o.
            flagged position_drift id
              (found (elim o [ none ↦ none | some gs ↦ some (unmatched ++ drift ++ gs) ])))
          ran
        ∙ ground (
          arith,
          any-append kind (unmatched ++ drift) gaps,
          any-append kind unmatched drift,
          flagged-find_unmatched_fills pd r symbol id fills rows,
          find_sequence_gaps-NamesNone id symbol pd rows position_drift gaps ran,
          flagged-drift,
        )

  flagged-found_in :
      (id : Str) (symbols : List Str)
      → flagged position_drift id (found_in sql pd store r s.book s.ticks start end symbols)
        ≡ any (λ symbol. drifted id (of_symbol symbol s.book.fills)) symbols
  flagged-found_in id [] = refl
  flagged-found_in id (symbol ∷ symbols) =
      any-append (flags position_drift id)
        (found (reconcile_symbol sql pd store r s.book s.ticks symbol start end))
        (found_in sql pd store r s.book s.ticks start end symbols)
      ∙ rw (flagged-symbol id symbol, flagged-found_in id symbols) refl

  -- In every state that a new simulator reaches from an empty book with new fill ids and drifts of at
  -- least 0.01, over a tick store whose read gives times with a zone, the reconciler returns, and the
  -- report measures for position_drift that exactly the planted drifts
  -- are found, recall and precision being 1, or nan where none is planted, if its symbols are those
  -- of the book, the range that it reads holds the book's fills and positions, and its tolerance is
  -- from 0 and below 0.01.
  pub score-IsPerfect :
      (symbols : List Str)
      → All (λ f. any (same f.symbol) symbols ≡ true) s.book.fills
      → (breaks : List Break) × (reconcile_all sql pd store r s.book s.ticks symbols start end
          ≡ some breaks)
        × IsPerfect (score position_drift (read_planted_anomalies_df sql s.book) breaks)
  unfolding read_planted_anomalies_df
  score-IsPerfect symbols covered =
      let breaks = found_in sql pd store r s.book s.ticks start end symbols in
      let truth = sql.sort_by AnomalyRow (λ a. a.planted_at) s.book.planted_anomalies in
      (
        breaks,
        reconcile_all-found_in sql pd store r s.book s.ticks start end symbols,
        IsScore-IsPerfect (planted_ids position_drift truth) (found_ids position_drift breaks) _
            (score-IsScore position_drift truth breaks)
            (λ id.
              any-planted_ids id position_drift sql s.book.planted_anomalies
              ∙ ap (any (is_some_text id))
                  (IsReachable-IsLogged store position_drift refl s reachable)
              ∙ any-fill_ids id s.book.fills
              ∙ sym (
                  by_symbols (λ f. is_drift f.anomaly_type && same f.fill_id id) symbols
                    s.book.fills covered)
              ∙ sym (flagged-found_in id symbols)
              ∙ sym (any-found_ids id position_drift breaks)),
      )
