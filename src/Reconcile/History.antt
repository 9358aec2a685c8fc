-- ===== src/Reconcile/History.antt =====
-- `_find_position_drift` of reconcile/reconciler.py inside `reconcile_symbol`, with the fills that
-- lie outside the range that is read.
use mathlib.Core.List.{
  Mem, Mem-prop, Perm, Nodup, Nodup-cons, mem-cons, mem-cons_of_mem, not-mem-nil,
}
use mathlib.Core.List.Perm
use mathlib.Core.Logic.Or
use post_trade_reconciliatio.Prelude.{
  ℕ, ◌≡◌, sym, ap, subst, ◌∙◌, Bool, true, not, ◌&&◌, some, List, [], ◌∷◌, ◌++◌, map, arith, any,
  any-append, filter, filter-filter, filter-ext, mem-filter, Bool-cases, inl, inr, leb,
}
use post_trade_reconciliatio.Prelude.Int.{◌+ℤ◌, ◌-ℤ◌, ◌<ℤ◌, abs, ltb_ℤ, int_laws}
use post_trade_reconciliatio.Prelude.Str.{Str, same, str_eq}
use post_trade_reconciliatio.Prelude.Sorting.{SortBy}
use post_trade_reconciliatio.Prelude.Rearranged.{sum_where-perm}
use post_trade_reconciliatio.Models.{DateTime, Decimal, Break, position_drift}
use post_trade_reconciliatio.Storage.Rows.{FillRow, PositionRow}
use post_trade_reconciliatio.Storage.Book.{Book, in_range, read_fills_df, read_positions_df}
use post_trade_reconciliatio.Storage.Ticks.{Table}
use post_trade_reconciliatio.Reconcile.{
  Reconciler, signed_quantity, find_unmatched_fills, find_position_drift, reconcile_symbol,
}
use post_trade_reconciliatio.Reconcile.Frames.{Pandas}
use post_trade_reconciliatio.Reconcile.Specification.{
  position_at, fill_of, drift_spec, drift_spec_of,
}
use post_trade_reconciliatio.Reconcile.Drift.Runs.{IsBook, Bool-set, mem-fill_with}
use post_trade_reconciliatio.Reconcile.Drift.{find_position_drift_lem}
use post_trade_reconciliatio.Reconcile.Gaps.{find_sequence_gaps_lem}
use post_trade_reconciliatio.Reconcile.Flags.{flagged, flags}
use post_trade_reconciliatio.Reconcile.Windows.{breaks, is_read, read_ticks, read_fills}

module _ {A K : Type 0} (key : A → K) (p : A → Bool) where
  mem-map-filter : (k : K) (xs : List A) → Mem k (map key (filter p xs)) → Mem k (map key xs)
  mem-map-filter k [] m = m
  mem-map-filter k (x ∷ xs) m = elim (Bool-cases (p x)) [
    | inl e ↦
        let m' : Mem k (key x ∷ map key (filter p xs)) = rw e at m in
        Or.elim Mem-prop (mem-cons.0 m') (λ here. mem-cons.1 (Or.inl here))
          (λ later. mem-cons_of_mem (key x) (mem-map-filter k xs later))
    | inr e ↦
        let m' : Mem k (map key (filter p xs)) = rw e at m in
        mem-cons_of_mem (key x) (mem-map-filter k xs m')
  ]

  Nodup-map-filter : (xs : List A) → Nodup (map key xs) → Nodup (map key (filter p xs))
  Nodup-map-filter [] h = h
  Nodup-map-filter (x ∷ xs) h =
      let (new, rest) = Nodup-cons.0 h in
      elim (Bool-cases (p x)) [
        | inl e ↦
            rw e (Nodup-cons.1 (λ m. new (mem-map-filter (key x) xs m), Nodup-map-filter xs rest))
        | inr e ↦ rw e (Nodup-map-filter xs rest)
      ]

-- A sum over a list is the sum over the items that pass a test and over the others.
position_at-split :
    (p : FillRow → Bool) (fills : List FillRow) (n : ℕ)
    → position_at fills n
      ≡ position_at (filter p fills) n +ℤ position_at (filter (λ f. not (p f)) fills) n
position_at-split p [] n = omega int_laws
position_at-split p (f ∷ fills) n = grind (int_laws, position_at-split p fills n)

abbrev is_off : Decimal → List FillRow → FillRow → PositionRow → Bool
is_off tolerance fills f p = ltb_ℤ tolerance (abs (p.quantity -ℤ position_at fills f.sequence))

flagged-drift_spec_of :
    (symbol : Str) (tolerance : Decimal) (fills : List FillRow) (f : FillRow) (p : PositionRow)
    → is_off tolerance fills f p ≡ true
    → flagged position_drift f.fill_id (drift_spec_of symbol tolerance fills p (some f)) ≡ true
flagged-drift_spec_of symbol tolerance fills f p off = ground arith

-- A position row whose recorded quantity is off is reported.
flagged-drift_spec :
    (symbol : Str) (tolerance : Decimal) (fills : List FillRow) (f : FillRow) (p : PositionRow)
    (ps : List PositionRow)
    → Mem p ps
    → fill_of p.last_fill_id fills ≡ some f
    → is_off tolerance fills f p ≡ true
    → flagged position_drift f.fill_id (drift_spec symbol tolerance fills ps) ≡ true
flagged-drift_spec symbol tolerance fills f p [] m e off = absurd (not-mem-nil m)
flagged-drift_spec symbol tolerance fills f p (q ∷ ps) m e off =
    let kind = flags position_drift f.fill_id in
    let first = drift_spec_of symbol tolerance fills q (fill_of q.last_fill_id fills) in
    let split = any-append kind first (drift_spec symbol tolerance fills ps) in
    Or.elim (Bool-set _ _) (mem-cons.0 m)
      (λ here.
        let e' : fill_of q.last_fill_id fills ≡ some f =
          subst (λ (x : PositionRow). fill_of x.last_fill_id fills ≡ some f) here e in
        let off' : is_off tolerance fills f q ≡ true =
          subst (λ x. is_off tolerance fills f x ≡ true) here off in
        let hit : any kind first ≡ true =
          subst (λ o. any kind (drift_spec_of symbol tolerance fills q o) ≡ true) (sym e')
            (flagged-drift_spec_of symbol tolerance fills f q off') in
        ground (arith, split, hit))
      (λ later. ground (arith, split, flagged-drift_spec symbol tolerance fills f p ps later e off))

module _ (sql : SortBy) (pd : Pandas) (r : Reconciler) (symbol : Str) (start end : DateTime) where
  abbrev pub fills_of : Book → List FillRow
  fills_of book = filter (λ g. same g.symbol symbol) book.fills

  -- The symbol's fills that `reconcile_symbol` does not read.
  abbrev pub unread_fills : Book → List FillRow
  unread_fills book = filter (λ g. not (is_read sql pd r symbol start end g)) (fills_of book)

  abbrev pub read : FillRow → Bool
  read = is_read sql pd r symbol start end

  pub read_fills-perm :
      (book : Book) → Perm (read_fills sql pd r symbol start end book) (filter read (fills_of book))
  unfolding read_fills read_fills_df
  read_fills-perm book =
      let one : filter read (fills_of book)
          ≡ filter (λ g. same g.symbol symbol && read g) book.fills =
        filter-filter read (λ g. same g.symbol symbol) book.fills in
      let two : filter (λ g. same g.symbol symbol && read g) book.fills ≡ filter read book.fills =
        filter-ext _ read book.fills (λ g. ground arith) in
      subst (Perm (sql.sort_by FillRow (λ g. g.time) (filter read book.fills))) (sym (one ∙ two))
        (sql.sort_by_perm FillRow (λ g. g.time) (filter read book.fills))

  pub read_fills-IsBook :
      (book : Book) → IsBook (fills_of book) → IsBook (read_fills sql pd r symbol start end book)
  read_fills-IsBook book b =
      let back = Perm.symm (read_fills-perm book) in
      record {
        ids =
            Perm.nodup (Perm.map (λ f. f.fill_id) back)
              (Nodup-map-filter (λ f. f.fill_id) read (fills_of book) b.ids);
        sequences =
            Perm.nodup (Perm.map (λ f. f.sequence) back)
              (Nodup-map-filter (λ f. f.sequence) read (fills_of book) b.sequences);
      }

  quantity-is_off :
      (book : Book) (f : FillRow) (p : PositionRow)
      → p.quantity ≡ position_at (fills_of book) f.sequence
      → r.position_drift_tolerance <ℤ abs (position_at (unread_fills book) f.sequence)
      → is_off r.position_drift_tolerance (read_fills sql pd r symbol start end book) f p ≡ true
  quantity-is_off book f p right far =
      let n = f.sequence in
      let split = position_at-split read (fills_of book) n in
      let kept : position_at (read_fills sql pd r symbol start end book) n
          ≡ position_at (filter read (fills_of book)) n =
        sum_where-perm signed_quantity (λ g. leb g.sequence n) (read_fills-perm book) in
      let gap : p.quantity -ℤ position_at (read_fills sql pd r symbol start end book) n
          ≡ position_at (unread_fills book) n =
        rw (right, split, kept) (omega int_laws) in
      rw gap (ground arith)

  flagged-read :
      (book : Book) (f : FillRow) (p : PositionRow)
      → IsBook (fills_of book)
      → Mem f book.fills
      → read f ≡ true
      → Mem p book.positions
      → in_range symbol start end p.symbol p.time ≡ true
      → p.last_fill_id ≡ some f.fill_id
      → is_off r.position_drift_tolerance (read_fills sql pd r symbol start end book) f p ≡ true
      → flagged position_drift f.fill_id (
          find_position_drift pd r symbol
            (read_fills sql pd r symbol start end book)
            (read_positions_df sql book symbol start end))
        ≡ true
  unfolding read_positions_df
  flagged-read book f p b mf rf mp rp id off =
      let fills = read_fills sql pd r symbol start end book in
      let ok = read_fills-IsBook book b in
      let in_fills_of : Mem f (fills_of book) =
        mem-filter (λ g. same g.symbol symbol) f book.fills mf (ground arith) in
      let in_fills : Mem f fills =
        (Perm.mem_iff (Perm.symm (read_fills-perm book))).0
          (mem-filter read f (fills_of book) in_fills_of rf) in
      let found : fill_of p.last_fill_id fills ≡ some f =
        rw id (mem-fill_with fills f ok.ids in_fills) in
      let rows = filter (λ q. in_range symbol start end q.symbol q.time) book.positions in
      let in_rows : Mem p (sql.sort_by PositionRow (λ q. q.time) rows) =
        (Perm.mem_iff (Perm.symm (sql.sort_by_perm PositionRow (λ q. q.time) rows))).0
          (mem-filter (λ q. in_range symbol start end q.symbol q.time) p book.positions mp rp) in
      ap (flagged position_drift f.fill_id)
        (find_position_drift_lem pd r symbol fills (sql.sort_by PositionRow (λ q. q.time) rows) ok)
      ∙ flagged-drift_spec symbol r.position_drift_tolerance fills f p
          (sql.sort_by PositionRow (λ q. q.time) rows) in_rows found off

  -- A recorded position that is right is reported as a drift all the same, if its fill is read and
  -- the fills of the symbol executed up to it that lie outside the widened range have a net
  -- quantity above the tolerance.
  pub reconcile_symbol_forgets :
      (book : Book) (t : Table) (f : FillRow) (p : PositionRow)
      → IsBook (fills_of book)
      → Mem f book.fills
      → read f ≡ true
      → Mem p book.positions
      → in_range symbol start end p.symbol p.time ≡ true
      → p.last_fill_id ≡ some f.fill_id
      → p.quantity ≡ position_at (fills_of book) f.sequence
      → r.position_drift_tolerance <ℤ abs (position_at (unread_fills book) f.sequence)
      → (bs : List Break) × (breaks sql pd r symbol start end book t ≡ some bs)
        × (flagged position_drift f.fill_id bs ≡ true)
  unfolding reconcile_symbol read_positions_df read_fills
  reconcile_symbol_forgets book t f p b mf rf mp rp id right far =
      let (gaps, ran, _) =
        find_sequence_gaps_lem pd symbol (read_ticks sql pd r symbol start end t) in
      let fills = read_fills sql pd r symbol start end book in
      let positions = read_positions_df sql book symbol start end in
      let unmatched =
        find_unmatched_fills pd r symbol fills (read_ticks sql pd r symbol start end t) in
      let drift = find_position_drift pd r symbol fills positions in
      let kind = flags position_drift f.fill_id in
      let hit = flagged-read book f p b mf rf mp rp id (quantity-is_off book f p right far) in
      (
        unmatched ++ drift ++ gaps,
        ground arith,
        ground (
          arith,
          any-append kind (unmatched ++ drift) gaps,
          any-append kind unmatched drift,
          hit,
        ),
      )
