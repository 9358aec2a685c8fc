-- ===== src/Reconcile/Windows.antt =====
-- `reconcile_symbol` of reconcile/reconciler.py over the whole tables: what its read ranges let it
-- see.
use mathlib.Core.List.{Mem, Nodup}
use post_trade_reconciliatio.Prelude.{
  ◌≡◌, ◌≢◌, sym, ap, ◌∙◌, Bool, true, false, not, ◌&&◌, Option, some, List, ◌++◌, map, arith,
  any-append, any-filter, any-ext, any-false_mono, filter,
}
use post_trade_reconciliatio.Prelude.Int.{ℤ, pos, ◌+ℤ◌, ◌-ℤ◌, ◌≤ℤ◌, abs, leb_ℤ, int_laws}
use post_trade_reconciliatio.Prelude.Str.{Str, same, str_eq}
use post_trade_reconciliatio.Prelude.Sorting.{SortBy}
use post_trade_reconciliatio.Prelude.Rearranged.{any-perm}
use post_trade_reconciliatio.Models.{DateTime, TimeDelta, Break, unmatched_fill}
use post_trade_reconciliatio.Storage.Rows.{FillRow, TickRow}
use post_trade_reconciliatio.Storage.Book.{Book, in_range, read_fills_df, read_positions_df}
use post_trade_reconciliatio.Storage.Ticks.{Table, select_ticks}
use post_trade_reconciliatio.Storage.Ticks.Timescale
use post_trade_reconciliatio.Reconcile.{
  Reconciler, find_unmatched_fills, find_position_drift, reconcile_symbol,
}
use post_trade_reconciliatio.Reconcile.Frames.{Pandas}
use post_trade_reconciliatio.Reconcile.Specification.{is_matched}
use post_trade_reconciliatio.Reconcile.Flags.{
  flagged, flags, flagged-find_position_drift, find_sequence_gaps-NamesNone, flagged-unmatched_spec,
  any_unique,
}
use post_trade_reconciliatio.Reconcile.Unmatched.{find_unmatched_fills_lem}
use post_trade_reconciliatio.Reconcile.Gaps.{find_sequence_gaps_lem}

-- The ticks of a symbol, all of them.
abbrev pub ticks_of : Str → Table → Table
ticks_of symbol = filter (λ r. same r.symbol symbol)

-- A tick that matches a fill of the range lies in the widened range.
near_in_range :
    (w start end f t : ℤ)
    → start ≤ℤ f
    → f ≤ℤ end
    → abs (t -ℤ f) ≤ℤ w
    → ((start -ℤ w) ≤ℤ t) × (t ≤ℤ (end +ℤ w))
near_in_range w start end f t h k near = omega int_laws

module _ (sql : SortBy) where
  -- Reading the widened range loses no match of a fill of the range.
  is_matched-select_ticks :
      (symbol : Str) (w : TimeDelta) (start end : DateTime) (f : FillRow) (t : Table)
      → start ≤ℤ f.time
      → f.time ≤ℤ end
      → is_matched w (select_ticks sql symbol (start -ℤ w) (end +ℤ w) t) f
        ≡ is_matched w (ticks_of symbol t) f
  unfolding select_ticks
  is_matched-select_ticks symbol w start end f t h k =
      any-perm near (sql.sort_by_perm TickRow (λ r. r.time) (filter wide t))
      ∙ any-filter near wide t
      ∙ any-ext (λ r. wide r && near r) (λ r. same r.symbol symbol && near r) t
          (λ r. ground (arith, near_in_range w start end f.time r.time h k))
      ∙ sym (any-filter near (λ r. same r.symbol symbol) t)
    where
      near : TickRow → Bool
      near r = leb_ℤ (abs (r.time -ℤ f.time)) w

      wide : TickRow → Bool
      wide r = in_range symbol (start -ℤ w) (end +ℤ w) r.symbol r.time

module _ (sql : SortBy) (pd : Pandas) (r : Reconciler) (symbol : Str) (start end : DateTime) where
  abbrev pub w : TimeDelta
  w = r.tick_match_window

  abbrev pub breaks : Book → Table → Option (List Break)
  breaks book t = reconcile_symbol sql pd (Timescale.store sql) r book t symbol start end

  -- The fill's row is read: it lies in the widened range.
  abbrev pub is_read : FillRow → Bool
  is_read f = in_range symbol (start -ℤ w) (end +ℤ w) f.symbol f.time

  abbrev pub read_ticks : Table → List TickRow
  read_ticks = select_ticks sql symbol (start -ℤ w) (end +ℤ w)

  unfoldable pub read_fills : Book → List FillRow
  read_fills book = read_fills_df sql book symbol (start -ℤ w) (end +ℤ w)

  flagged-unmatched :
      (book : Book) (t : Table) (f : FillRow)
      → Nodup (map (λ g. g.fill_id) book.fills)
      → Mem f book.fills
      → flagged unmatched_fill f.fill_id
          (find_unmatched_fills pd r symbol (read_fills book) (read_ticks t))
        ≡ (is_read f && not (is_matched w (read_ticks t) f))
  unfolding read_fills read_fills_df
  flagged-unmatched book t f ids m =
      ap (flagged unmatched_fill f.fill_id)
        (find_unmatched_fills_lem pd r symbol (read_fills book) (read_ticks t))
      ∙ flagged-unmatched_spec f.fill_id symbol w (read_fills book) (read_ticks t)
      ∙ any-perm (λ g. lone g && same g.fill_id f.fill_id)
          (sql.sort_by_perm FillRow (λ g. g.time) (filter is_read book.fills))
      ∙ any-filter (λ g. lone g && same g.fill_id f.fill_id) is_read book.fills
      ∙ any-ext (λ g. is_read g && (lone g && same g.fill_id f.fill_id))
          (λ g. (is_read g && lone g) && same g.fill_id f.fill_id) book.fills (λ g. ground arith)
      ∙ any_unique (λ g. is_read g && lone g) book.fills f ids m
    where
      lone : FillRow → Bool
      lone g = not (is_matched w (read_ticks t) g)

  -- A fill is reported as unmatched exactly if it is read and none of the ticks that are read
  -- matches it.
  pub flagged-reconcile_symbol :
      (book : Book) (t : Table) (f : FillRow)
      → Nodup (map (λ g. g.fill_id) book.fills)
      → Mem f book.fills
      → (bs : List Break) × (breaks book t ≡ some bs)
        × (flagged unmatched_fill f.fill_id bs ≡ (is_read f && not (is_matched w (read_ticks t) f)))
  unfolding reconcile_symbol read_fills
  flagged-reconcile_symbol book t f ids m =
      let (gaps, ran, _) = find_sequence_gaps_lem pd symbol (read_ticks t) in
      let fills = read_fills book in
      let positions = read_positions_df sql book symbol start end in
      let unmatched = find_unmatched_fills pd r symbol fills (read_ticks t) in
      let drift = find_position_drift pd r symbol fills positions in
      let kind = flags unmatched_fill f.fill_id in
      (
        unmatched ++ drift ++ gaps,
        ground arith,
        ground (
          arith,
          any-append kind (unmatched ++ drift) gaps,
          any-append kind unmatched drift,
          flagged-unmatched book t f ids m,
          flagged-find_position_drift f.fill_id symbol pd r fills positions,
          find_sequence_gaps-NamesNone f.fill_id symbol pd (read_ticks t) unmatched_fill gaps ran,
        ),
      )

  -- A fill of the range is reported as unmatched exactly if no stored tick of the symbol lies within
  -- the window of it, whether that tick lies in the range or not.
  pub reconcile_symbol_exact :
      (book : Book) (t : Table) (f : FillRow)
      → Nodup (map (λ g. g.fill_id) book.fills)
      → Mem f book.fills
      → f.symbol ≡ symbol
      → start ≤ℤ f.time
      → f.time ≤ℤ end
      → pos 0 ≤ℤ w
      → (bs : List Break) × (breaks book t ≡ some bs)
        × (flagged unmatched_fill f.fill_id bs ≡ not (is_matched w (ticks_of symbol t) f))
  reconcile_symbol_exact book t f ids m s h k nonneg =
      let (bs, ran, exact) = flagged-reconcile_symbol book t f ids m in
      let lower : (start -ℤ w) ≤ℤ f.time = omega int_laws in
      let upper : f.time ≤ℤ (end +ℤ w) = omega int_laws in
      (
        bs,
        ran,
        exact
            ∙ ground (arith, lower, upper, is_matched-select_ticks sql symbol w start end f t h k),
      )

  -- Outside the range this fails: a fill of the margin that a stored tick matches is reported all
  -- the same, if every tick of the symbol that matches it stands before the ticks that are read.
  pub reconcile_symbol_margin :
      (book : Book) (t : Table) (f : FillRow)
      → Nodup (map (λ g. g.fill_id) book.fills)
      → Mem f book.fills
      → f.symbol ≡ symbol
      → (start -ℤ w) ≤ℤ f.time
      → f.time ≤ℤ (end +ℤ w)
      → is_matched w (ticks_of symbol t) f ≡ true
      → is_matched w (filter (λ r. leb_ℤ (start -ℤ w) r.time) (ticks_of symbol t)) f ≡ false
      → (bs : List Break) × (breaks book t ≡ some bs)
        × (flagged unmatched_fill f.fill_id bs ≢ not (is_matched w (ticks_of symbol t) f))
  unfolding select_ticks
  reconcile_symbol_margin book t f ids m s h k matched early =
      let (bs, ran, exact) = flagged-reconcile_symbol book t f ids m in
      (bs, ran, ground (arith, exact, unread))
    where
      near : TickRow → Bool
      near r = leb_ℤ (abs (r.time -ℤ f.time)) w

      late : TickRow → Bool
      late r = leb_ℤ (start -ℤ w) r.time

      wide : TickRow → Bool
      wide r = in_range symbol (start -ℤ w) (end +ℤ w) r.symbol r.time

      unread : is_matched w (read_ticks t) f ≡ false
      unread =
          any-perm near (sql.sort_by_perm TickRow (λ r. r.time) (filter wide t))
          ∙ any-filter near wide t
          ∙ any-false_mono (λ r. wide r && near r) (λ r. same r.symbol symbol && (late r && near r))
              t (λ r. ground arith)
              (sym (any-filter (λ r. late r && near r) (λ r. same r.symbol symbol) t)
                ∙ sym (any-filter near late (ticks_of symbol t))
                ∙ early)
