-- ===== src/Reconcile/Drift/Runs.antt =====
-- Fills in the order of execution, and the running sums of `_find_position_drift`
-- (reconcile/reconciler.py) over them.
use mathlib.Core.List.{
  zip, Mem, Nodup, Nodup-cons, mem-cons, not-mem-nil, mem-cons_self, mem-cons_of_mem,
  mem-map_of_mem,
}
use mathlib.Core.Logic.Or
use post_trade_reconciliatio.Prelude.{
  ℕ, ◌<◌, ◌≡◌, ◌≢◌, refl, sym, ap, subst, ◌∙◌, Bool, false, Option, none, some, List, [], ◌∷◌, map,
  arith, any, All,
}
use post_trade_reconciliatio.Prelude.Int.{pos, ◌+ℤ◌, ◌≤ℤ◌, int_laws}
use post_trade_reconciliatio.Prelude.Str.{Str, Str-discrete, same, str_eq}
use post_trade_reconciliatio.Prelude.Dict.{
  Dict, keys, lookup, insert, update, lookup-insert, lookup-update_absent,
}
use post_trade_reconciliatio.Prelude.Distinct.{any-same_absent}
use post_trade_reconciliatio.Prelude.Sorting.{IsSortedBy}
use post_trade_reconciliatio.Models.{Decimal}
use post_trade_reconciliatio.Storage.Rows.{FillRow}
use post_trade_reconciliatio.Reconcile.{signed_quantity}
use post_trade_reconciliatio.Reconcile.Frames.{running_sums}
use post_trade_reconciliatio.Reconcile.Specification.{position_at, fill_with}

-- What the tables promise of a symbol's fills: no id and no sequence stands twice.
pub record IsBook (fills : List FillRow) : Type 0 where
  pub ids : Nodup (map (λ f. f.fill_id) fills)
  pub sequences : Nodup (map (λ f. f.sequence) fills)

pub FillRow-set : IsSet (Option FillRow)
FillRow-set = hlevel

pub Bool-set : IsSet Bool
Bool-set = hlevel

-- Fills in the order of execution: ids do not repeat, and sequences rise.
abbrev pub IsRun : List FillRow → Type 0
IsRun [] = Unit
IsRun (f ∷ fills) =
    (any (same f.fill_id) (map (λ g. g.fill_id) fills) ≡ false)
    × All (λ g. f.sequence < g.sequence) fills
    × IsRun fills

All-lt :
    (n : ℕ) (fills : List FillRow)
    → All (λ g. pos n ≤ℤ pos g.sequence) fills
    → ¬ Mem n (map (λ g. g.sequence) fills)
    → All (λ g. n < g.sequence) fills
All-lt n [] h fresh = tt
All-lt n (g ∷ fills) h fresh =
    let ne : n ≢ g.sequence = λ e. fresh (mem-cons.1 (Or.inl e)) in
    (omega arith, All-lt n fills h.1 (λ m. fresh (mem-cons_of_mem g.sequence m)))

pub sorted-IsRun :
    (fills : List FillRow) → IsSortedBy (λ f. pos f.sequence) fills → IsBook fills → IsRun fills
sorted-IsRun [] h b = tt
sorted-IsRun (f ∷ fills) h b =
    let (id_new, ids) = Nodup-cons.0 b.ids in
    let (sequence_new, sequences) = Nodup-cons.0 b.sequences in
    (
      any-same_absent f.fill_id (map (λ g. g.fill_id) fills) id_new,
      All-lt f.sequence fills h.0 sequence_new,
      sorted-IsRun fills h.1 (record { ids = ids; sequences = sequences }),
    )

position_at-later :
    (fills : List FillRow) (n : ℕ) → All (λ g. n < g.sequence) fills → position_at fills n ≡ pos 0
position_at-later [] n h = refl
position_at-later (g ∷ fills) n h = ground (arith, position_at-later fills n h.1)

fill_with-sequence :
    (k : Str) (fills : List FillRow) (n : ℕ) (f : FillRow)
    → fill_with k fills ≡ some f
    → All (λ g. n < g.sequence) fills
    → n < f.sequence
fill_with-sequence k [] n f e h = absurd (ground arith)
fill_with-sequence k (g ∷ fills) n f e h = ground (arith, fill_with-sequence k fills n f)

pub fill_with-none :
    (k : Str) (fills : List FillRow)
    → fill_with k fills ≡ none
    → any (same k) (map (λ g. g.fill_id) fills) ≡ false
fill_with-none k [] e = refl
fill_with-none k (g ∷ fills) e = ground (arith, fill_with-none k fills)

abbrev pub entries : Decimal → List FillRow → List (Str × Decimal)
entries acc fills = zip (map (λ f. f.fill_id) fills) (running_sums acc (map signed_quantity fills))

pub keys-entries :
    (acc : Decimal) (fills : List FillRow) → keys (entries acc fills) ≡ map (λ f. f.fill_id) fills
unfolding zip
keys-entries acc [] = refl
keys-entries acc (f ∷ fills) = ap (◌∷◌ f.fill_id) (keys-entries (acc +ℤ signed_quantity f) fills)

-- The position after a fill of a run: the fills before it, and it, count.
position_at-here :
    (g : FillRow) (fills : List FillRow) (n : ℕ)
    → g.sequence ≡ n
    → All (λ f. g.sequence < f.sequence) fills
    → position_at (g ∷ fills) n ≡ signed_quantity g +ℤ pos 0
position_at-here g fills n e h =
    let h' : All (λ f. n < f.sequence) fills = subst (λ m. All (λ f. m < f.sequence) fills) e h in
    ground (arith, position_at-later fills n h')

position_at-there :
    (g : FillRow) (fills : List FillRow) (n : ℕ)
    → g.sequence < n
    → position_at (g ∷ fills) n ≡ signed_quantity g +ℤ position_at fills n
position_at-there g fills n h = ground arith

fill_with-here :
    (g : FillRow) (fills : List FillRow) (k : Str)
    → g.fill_id ≡ k
    → fill_with k (g ∷ fills) ≡ some g
fill_with-here g fills k e = ground arith

fill_with-there :
    (g : FillRow) (fills : List FillRow) (k : Str)
    → g.fill_id ≢ k
    → fill_with k (g ∷ fills) ≡ fill_with k fills
fill_with-there g fills k e = ground arith

pub lookup-entries :
    (k : Str) (acc : Decimal) (fills : List FillRow) (d : Dict Str Decimal) (f : FillRow)
    → IsRun fills
    → fill_with k fills ≡ some f
    → lookup k (update d (entries acc fills)) ≡ some (acc +ℤ position_at fills f.sequence)
unfolding zip
lookup-entries k acc [] d f h e = absurd (ground arith)
lookup-entries k acc (g ∷ fills) d f (fresh, later, run) e =
    let after = acc +ℤ signed_quantity g in
    let d' = insert g.fill_id after d in
    elim (Str-discrete g.fill_id k) [
      | yes p ↦
          let q : some g ≡ some f = sym (fill_with-here g fills k p) ∙ e in
          let same_fill : g ≡ f = cc in
          let stored : lookup k d' ≡ some after =
            rw (← p) (ground (arith, lookup-insert g.fill_id g.fill_id after d)) in
          let first : after ≡ acc +ℤ (signed_quantity g +ℤ pos 0) = omega int_laws in
          let value : after ≡ acc +ℤ position_at (g ∷ fills) f.sequence =
            first
            ∙ ap (◌+ℤ◌ acc) (
                sym (position_at-here g fills f.sequence (ap (λ h. h.sequence) same_fill) later)) in
          lookup-update_absent k (entries after fills) d' (rw (keys-entries after fills, ← p) fresh)
          ∙ stored
          ∙ ap some value
      | no p ↦
          let e' : fill_with k fills ≡ some f = sym (fill_with-there g fills k p) ∙ e in
          let lt = fill_with-sequence k fills g.sequence f e' later in
          let value : after +ℤ position_at fills f.sequence
              ≡ acc +ℤ position_at (g ∷ fills) f.sequence =
            rw (position_at-there g fills f.sequence lt) (omega int_laws) in
          lookup-entries k after fills d' f run e' ∙ ap some value
    ]

pub fill_with-mem :
    (k : Str) (fills : List FillRow) (f : FillRow)
    → fill_with k fills ≡ some f
    → Mem f fills × (f.fill_id ≡ k)
fill_with-mem k [] f e = absurd (ground arith)
fill_with-mem k (g ∷ fills) f e = elim (Str-discrete g.fill_id k) [
  | yes p ↦
      let q : some g ≡ some f = sym (fill_with-here g fills k p) ∙ e in
      let same_fill : g ≡ f = cc in rw (← same_fill) (mem-cons_self, p)
  | no p ↦
      let (m, at) = fill_with-mem k fills f (sym (fill_with-there g fills k p) ∙ e) in
      (mem-cons_of_mem g m, at)
]

pub mem-fill_with :
    (fills : List FillRow) (f : FillRow)
    → Nodup (map (λ g. g.fill_id) fills)
    → Mem f fills
    → fill_with f.fill_id fills ≡ some f
mem-fill_with [] f ids m = absurd (not-mem-nil m)
mem-fill_with (g ∷ fills) f ids m =
    let (id_new, rest) = Nodup-cons.0 ids in
    Or.elim (FillRow-set _ _) (mem-cons.0 m) (λ e. rw (← e) (fill_with-here f fills f.fill_id refl))
      (λ later.
        fill_with-there g fills f.fill_id
          (λ e. id_new (rw e (mem-map_of_mem (λ (h : FillRow). h.fill_id) later)))
        ∙ mem-fill_with fills f rest later)
