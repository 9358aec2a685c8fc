-- ===== src/Reconcile/Flags.antt =====
-- Which breaks of reconcile/reconciler.py name a fill.
use mathlib.Core.List.{Mem, Nodup, Nodup-cons, mem-cons, not-mem-nil, mem-map_of_mem}
use mathlib.Core.Logic.Or
use post_trade_reconciliatio.Prelude.{
  ℕ, ◌≡◌, ◌≢◌, refl, ap, subst, ◌∙◌, Bool, true, false, not, ◌&&◌, Option, none, some, List, [],
  ◌∷◌, map, arith, any, any-map, any-filter, filter, inl, inr, Option-cases,
}
use post_trade_reconciliatio.Prelude.Str.{Str, same, str_eq, nat_eq}
use post_trade_reconciliatio.Prelude.Dict.{Dict, keys}
use post_trade_reconciliatio.Prelude.Distinct.{any-same_absent}
use post_trade_reconciliatio.Prelude.Sorting.{sorted}
use post_trade_reconciliatio.Models.{
  DateTime, TimeDelta, Decimal, Break, BreakType, unmatched_fill, position_drift, sequence_gap,
}
use post_trade_reconciliatio.Storage.Rows.{FillRow, PositionRow, TickRow}
use post_trade_reconciliatio.Reconcile.{
  Reconciler, gap_loop, pairwise_gaps, sequence_times, find_sequence_gaps, drift_loop, drift_of,
  expected_at, expected_by_fill, find_position_drift, unmatched_break,
}
use post_trade_reconciliatio.Reconcile.Frames.{Pandas}
use post_trade_reconciliatio.Reconcile.Specification.{is_matched, unmatched_spec}
use post_trade_reconciliatio.Reconcile.Drift.Runs.{Bool-set}

abbrev pub same_type : BreakType → BreakType → Bool
same_type unmatched_fill unmatched_fill = true
same_type position_drift position_drift = true
same_type sequence_gap sequence_gap = true
same_type _ _ = false

abbrev pub is_some_text : Str → Option Str → Bool
is_some_text k none = false
is_some_text k (some j) = same j k

-- The break is of the kind, and about the fill.
abbrev pub flags : BreakType → Str → Break → Bool
flags kind fill_id b = same_type b.break_type kind && is_some_text fill_id b.related_fill_id

-- Some break of the kind is about the fill.
abbrev pub flagged : BreakType → Str → List Break → Bool
flagged kind fill_id = any (flags kind fill_id)

module _ (id symbol : Str) where
  flagged-drift_of :
      (tolerance : Decimal) (p : PositionRow) (e : Option (Str × Decimal)) (rest : List Break)
      → flagged unmatched_fill id (drift_of symbol tolerance p e rest)
        ≡ flagged unmatched_fill id rest
  flagged-drift_of tolerance p none rest = refl
  flagged-drift_of tolerance p (some (k, x)) rest = ground arith

  flagged-drift_loop :
      (tolerance : Decimal) (expected : Dict Str Decimal) (ps : List PositionRow)
      → flagged unmatched_fill id (drift_loop symbol tolerance expected ps) ≡ false
  unfolding drift_loop
  flagged-drift_loop tolerance expected [] = refl
  flagged-drift_loop tolerance expected (p ∷ ps) =
      flagged-drift_of tolerance p (expected_at expected p.last_fill_id) _
      ∙ flagged-drift_loop tolerance expected ps

  pub flagged-find_position_drift :
      (pd : Pandas) (r : Reconciler) (fills : List FillRow) (ps : List PositionRow)
      → flagged unmatched_fill id (find_position_drift pd r symbol fills ps) ≡ false
  unfolding find_position_drift
  flagged-find_position_drift pd r [] ps = refl
  flagged-find_position_drift pd r (f ∷ fills) [] = refl
  flagged-find_position_drift pd r (f ∷ fills) (p ∷ ps) =
      flagged-drift_loop r.position_drift_tolerance (expected_by_fill pd (f ∷ fills)) (p ∷ ps)

  -- A gap break names no fill.
  abbrev NamesNone : Option (List Break) → Type 0
  NamesNone r = (kind : BreakType) (bs : List Break) → r ≡ some bs → flagged kind id bs ≡ false

  gap_loop-NamesNone :
      (times : Dict ℕ DateTime) (prev : ℕ) (seqs : List ℕ)
      → NamesNone (gap_loop symbol times prev seqs)
  unfolding gap_loop
  gap_loop-NamesNone times prev [] kind bs e = ground arith
  gap_loop-NamesNone times prev (curr ∷ seqs) kind bs e =
      elim (Option-cases (gap_loop symbol times curr seqs)) [
        | inl q ↦ absurd (ground arith)
        | inr (rest, q) ↦ ground (arith, gap_loop-NamesNone times curr seqs kind rest q)
      ]

  pairwise_gaps-NamesNone :
      (times : Dict ℕ DateTime) (seqs : List ℕ) → NamesNone (pairwise_gaps symbol times seqs)
  pairwise_gaps-NamesNone times [] kind bs e = ground arith
  pairwise_gaps-NamesNone times (s ∷ seqs) kind bs e = gap_loop-NamesNone times s seqs kind bs e

  pub find_sequence_gaps-NamesNone :
      (pd : Pandas) (ticks : List TickRow) → NamesNone (find_sequence_gaps pd symbol ticks)
  unfolding find_sequence_gaps
  find_sequence_gaps-NamesNone pd [] kind bs e = ground arith
  find_sequence_gaps-NamesNone pd (t ∷ ticks) kind bs e =
      let times = sequence_times pd (t ∷ ticks) in
      pairwise_gaps-NamesNone times (sorted (keys times)) kind bs e

  -- The fills of the id that no tick matches.
  pub flagged-unmatched_spec :
      (w : TimeDelta) (fills : List FillRow) (ticks : List TickRow)
      → flagged unmatched_fill id (unmatched_spec symbol w fills ticks)
        ≡ any (λ f. not (is_matched w ticks f) && same f.fill_id id) fills
  flagged-unmatched_spec w fills ticks =
      any-map (unmatched_break symbol w) (flags unmatched_fill id)
        (filter (λ f. not (is_matched w ticks f)) fills)
      ∙ any-filter (λ f. same f.fill_id id) (λ f. not (is_matched w ticks f)) fills

any_absent :
    (q : FillRow → Bool) (k : Str) (fills : List FillRow)
    → any (same k) (map (λ g. g.fill_id) fills) ≡ false
    → any (λ g. q g && same g.fill_id k) fills ≡ false
any_absent q k [] h = refl
any_absent q k (g ∷ fills) h = ground (arith, any_absent q k fills)

-- Where ids do not repeat, the fill with an id is the one that is tested.
pub any_unique :
    (q : FillRow → Bool) (fills : List FillRow) (f : FillRow)
    → Nodup (map (λ g. g.fill_id) fills)
    → Mem f fills
    → any (λ g. q g && same g.fill_id f.fill_id) fills ≡ q f
any_unique q [] f ids m = absurd (not-mem-nil m)
any_unique q (g ∷ fills) f ids m =
    let (new, rest) = Nodup-cons.0 ids in
    Or.elim (Bool-set _ _) (mem-cons.0 m)
      (λ e.
        let ids = map (λ (h : FillRow). h.fill_id) fills in
        let fresh = any-same_absent f.fill_id ids (λ n. new (subst (λ h. Mem h.fill_id ids) e n)) in
        ground
          (arith, any_absent q f.fill_id fills fresh, ap q e, ap (λ (h : FillRow). h.fill_id) e))
      (λ later.
        let other : g.fill_id ≢ f.fill_id =
          λ e. new (rw e (mem-map_of_mem (λ (h : FillRow). h.fill_id) later)) in
        ground (arith, any_unique q fills f rest later))
