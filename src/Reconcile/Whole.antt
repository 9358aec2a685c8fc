-- ===== src/Reconcile/Whole.antt =====
-- `reconcile_symbol` of reconcile/reconciler.py over a range that holds the symbol's whole book.
use mathlib.Core.List.{Mem, Perm}
use mathlib.Core.List.Perm
use post_trade_reconciliatio.Prelude.{
  ◌≡◌, refl, sym, ap, subst, ◌∙◌, Bool, true, false, ◌&&◌, ◌||◌, not, Option, none, some, List, [],
  ◌∷◌, map, filter, filter-ext, filter-filter, any, any-append, any-ext, any-map, All, leb, arith,
}
use post_trade_reconciliatio.Prelude.Str.{Str, same, str_eq}
use post_trade_reconciliatio.Prelude.Sorting.{SortBy}
use post_trade_reconciliatio.Prelude.Rearranged.{any-perm, sum_where-perm}
use post_trade_reconciliatio.Models.{Break, Decimal, DateTime, position_drift}
use post_trade_reconciliatio.Storage.Rows.{FillRow, PositionRow, TickRow}
use post_trade_reconciliatio.Storage.Book.{Book, in_range, read_positions_df}
use post_trade_reconciliatio.Reconcile.{
  Reconciler, signed_quantity, unmatched_break, find_unmatched_fills, find_position_drift,
}
use post_trade_reconciliatio.Reconcile.Frames.{Pandas}
use post_trade_reconciliatio.Reconcile.Specification.{
  is_matched, position_at, fill_of, drift_spec_of, drift_spec,
}
use post_trade_reconciliatio.Reconcile.Unmatched.{find_unmatched_fills_lem}
use post_trade_reconciliatio.Reconcile.Drift.{find_position_drift_lem}
use post_trade_reconciliatio.Reconcile.Drift.Runs.{IsBook, mem-fill_with}
use post_trade_reconciliatio.Reconcile.Flags.{flags, flagged, is_some_text}
use post_trade_reconciliatio.Reconcile.Windows.{is_read, read_fills}
use post_trade_reconciliatio.Reconcile.History.{fills_of, read_fills-perm, read_fills-IsBook}

-- The position row names one of the fills.
abbrev pub Names : List FillRow → PositionRow → Type 0
Names fills p = (f : FillRow) × Mem f fills × (p.last_fill_id ≡ some f.fill_id)

filter_whole {ℓ} :
    {A : Type ℓ} (p : A → Bool) (xs : List A) → All (λ x. p x ≡ true) xs → filter p xs ≡ xs
filter_whole p [] h = refl
filter_whole p (x ∷ xs) h = rw (h.0, filter_whole p xs h.1) refl

-- The drift search's specification does not depend on the order of the fills.
module _ (symbol : Str) (tolerance : Decimal) (fills others : List FillRow)
    (rearranged : Perm fills others) (b : IsBook fills) (c : IsBook others) where
  position_at-perm : (f : FillRow) → position_at fills f.sequence ≡ position_at others f.sequence
  position_at-perm f = sum_where-perm signed_quantity (λ g. leb g.sequence f.sequence) rearranged

  drift_spec_of-perm :
      (p : PositionRow)
      → Names others p
      → drift_spec_of symbol tolerance fills p (fill_of p.last_fill_id fills)
        ≡ drift_spec_of symbol tolerance others p (fill_of p.last_fill_id others)
  drift_spec_of-perm p (f, m, e) =
      let here : fill_of p.last_fill_id fills ≡ some f =
        ap (λ o. fill_of o fills) e
        ∙ mem-fill_with fills f b.ids ((Perm.mem_iff (Perm.symm rearranged)).0 m) in
      let there : fill_of p.last_fill_id others ≡ some f =
        ap (λ o. fill_of o others) e ∙ mem-fill_with others f c.ids m in
      rw (here, there, position_at-perm f) refl

  drift_spec-perm :
      (ps : List PositionRow)
      → All (Names others) ps
      → drift_spec symbol tolerance fills ps ≡ drift_spec symbol tolerance others ps
  drift_spec-perm [] h = refl
  drift_spec-perm (p ∷ ps) h = rw (drift_spec_of-perm p h.0, drift_spec-perm ps h.1) refl

any-drift_spec :
    (q : Break → Bool) (symbol : Str) (tolerance : Decimal) (fills : List FillRow)
    (ps : List PositionRow)
    → any q (drift_spec symbol tolerance fills ps)
      ≡ any (λ p. any q (drift_spec_of symbol tolerance fills p (fill_of p.last_fill_id fills))) ps
any-drift_spec q symbol tolerance fills [] = refl
any-drift_spec q symbol tolerance fills (p ∷ ps) =
    any-append q (drift_spec_of symbol tolerance fills p (fill_of p.last_fill_id fills))
      (drift_spec symbol tolerance fills ps)
    ∙ ap (λ r. any q (drift_spec_of symbol tolerance fills p (fill_of p.last_fill_id fills)) || r)
        (any-drift_spec q symbol tolerance fills ps)

-- Every break of the drift search is a drift.
flagged-drift_spec_of_kind :
    (symbol id : Str) (tolerance : Decimal) (fills : List FillRow) (p : PositionRow)
    (o : Option FillRow)
    → flagged position_drift id (drift_spec_of symbol tolerance fills p o)
      ≡ any (λ b. is_some_text id b.related_fill_id) (drift_spec_of symbol tolerance fills p o)
flagged-drift_spec_of_kind symbol id tolerance fills p none = refl
flagged-drift_spec_of_kind symbol id tolerance fills p (some f) = ground arith

pub flagged-drift_spec_kind :
    (symbol id : Str) (tolerance : Decimal) (fills : List FillRow) (ps : List PositionRow)
    → flagged position_drift id (drift_spec symbol tolerance fills ps)
      ≡ any (is_some_text id) (map (λ b. b.related_fill_id) (drift_spec symbol tolerance fills ps))
flagged-drift_spec_kind symbol id tolerance fills ps =
    any-drift_spec (flags position_drift id) symbol tolerance fills ps
    ∙ any-ext _ _ ps
        (λ p. flagged-drift_spec_of_kind symbol id tolerance fills p (fill_of p.last_fill_id fills))
    ∙ sym (any-drift_spec (λ b. is_some_text id b.related_fill_id) symbol tolerance fills ps)
    ∙ sym
        (any-map (λ b. b.related_fill_id) (is_some_text id) (drift_spec symbol tolerance fills ps))

any-never : {A : Type 0} (xs : List A) → any (λ x. false) xs ≡ false
any-never [] = refl
any-never (x ∷ xs) = any-never xs

-- No break of the other search is one.
pub flagged-find_unmatched_fills :
    (pd : Pandas) (r : Reconciler) (symbol id : Str) (fills : List FillRow) (ticks : List TickRow)
    → flagged position_drift id (find_unmatched_fills pd r symbol fills ticks) ≡ false
flagged-find_unmatched_fills pd r symbol id fills ticks =
    let lone = filter (λ f. not (is_matched r.tick_match_window ticks f)) fills in
    ap (flagged position_drift id) (find_unmatched_fills_lem pd r symbol fills ticks)
    ∙ any-map (unmatched_break symbol r.tick_match_window) (flags position_drift id) lone
    ∙ any-never lone

module _ (sql : SortBy) (pd : Pandas) (r : Reconciler) (symbol : Str) (start end : DateTime)
    (book : Book) (b : IsBook (fills_of sql pd r symbol start end book))
    (fills_read : All
      (λ f. is_read sql pd r symbol start end f ≡ true)
      (fills_of sql pd r symbol start end book)) where
  abbrev own_positions : List PositionRow
  own_positions = filter (λ p. same p.symbol symbol) book.positions

  abbrev read_rows : List PositionRow
  read_rows = filter (λ q. in_range symbol start end q.symbol q.time) book.positions

  abbrev flags_row : List FillRow → Str → PositionRow → Bool
  flags_row fills id p =
      flagged position_drift id
        (drift_spec_of symbol r.position_drift_tolerance fills p (fill_of p.last_fill_id fills))

  read_rows-own :
      All (λ p. in_range symbol start end p.symbol p.time ≡ true) own_positions
      → read_rows ≡ own_positions
  read_rows-own positions_read =
      let read = λ (q : PositionRow). in_range symbol start end q.symbol q.time in
      filter-ext read (λ q. same q.symbol symbol && read q) book.positions (λ q. ground arith)
      ∙ sym (filter-filter read (λ q. same q.symbol symbol) book.positions)
      ∙ filter_whole read own_positions positions_read

  -- The drift search over what is read of a range that holds the symbol's whole book flags what it
  -- flags over the book.
  pub flagged-read_whole :
      (id : Str)
      → All (λ p. in_range symbol start end p.symbol p.time ≡ true) own_positions
      → All (Names (fills_of sql pd r symbol start end book)) own_positions
      → flagged position_drift id (
          find_position_drift pd r symbol
            (read_fills sql pd r symbol start end book)
            (read_positions_df sql book symbol start end))
        ≡ flagged position_drift id (
            find_position_drift pd r symbol (fills_of sql pd r symbol start end book) own_positions)
  unfolding read_positions_df
  flagged-read_whole id positions_read named =
      let tolerance = r.position_drift_tolerance in
      let kind = flags position_drift id in
      let fills = fills_of sql pd r symbol start end book in
      let some_fills = read_fills sql pd r symbol start end book in
      let c = read_fills-IsBook sql pd r symbol start end book b in
      let rearranged : Perm some_fills fills =
        subst (Perm some_fills) (filter_whole (is_read sql pd r symbol start end) fills fills_read)
          (read_fills-perm sql pd r symbol start end book) in
      ap (flagged position_drift id) (
        find_position_drift_lem pd r symbol some_fills
          (sql.sort_by PositionRow (λ q. q.time) read_rows) c)
      ∙ any-drift_spec kind symbol tolerance some_fills
          (sql.sort_by PositionRow (λ q. q.time) read_rows)
      ∙ any-perm (flags_row some_fills id) (sql.sort_by_perm PositionRow (λ q. q.time) read_rows)
      ∙ ap (any (flags_row some_fills id)) (read_rows-own positions_read)
      ∙ sym (any-drift_spec kind symbol tolerance some_fills own_positions)
      ∙ ap (flagged position_drift id) (
          drift_spec-perm symbol tolerance some_fills fills rearranged c b own_positions named
          ∙ sym (find_position_drift_lem pd r symbol fills own_positions b))
