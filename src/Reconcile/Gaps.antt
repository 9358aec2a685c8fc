-- ===== src/Reconcile/Gaps.antt =====
-- `_find_sequence_gaps` of reconcile/reconciler.py against its specification.
use mathlib.Core.List.{zip}
use post_trade_reconciliatio.Prelude.{
  ℕ, ◌-◌, ◌≤◌, ◌<◌, ◌≡◌, refl, ap, ◌∙◌, Bool, true, false, not, ◌&&◌, Option, some, List, [], ◌∷◌,
  map, arith, any, any-map, All, count, ltb, if◌then◌else◌, Bool-cases, inl, inr,
}
use post_trade_reconciliatio.Prelude.Str.{Str, same, nat_eq}
use post_trade_reconciliatio.Prelude.Dict.{
  Dict, keys, HasKey, keys-HasKey, any-keys-update, keys-zip,
}
use post_trade_reconciliatio.Prelude.Sorting.{
  sorted, any-sorted, IsAscending, sorted-IsAscending, All-sorted,
}
use post_trade_reconciliatio.Prelude.Rearranged.{any-perm}
use post_trade_reconciliatio.Models.{DateTime, Break}
use post_trade_reconciliatio.Storage.Rows.{TickRow}
use post_trade_reconciliatio.Reconcile.{
  gap_break, gap_loop, pairwise_gaps, sequence_times, find_sequence_gaps,
}
use post_trade_reconciliatio.Reconcile.Frames.{Pandas}
use post_trade_reconciliatio.Reconcile.Specification.{covers, is_missing}

-- `is_missing` for a list of sequences.
abbrev missing_from : List ℕ → ℕ → Bool
missing_from seqs n =
    not (any (λ s. same s n) seqs) && (any (λ s. ltb s n) seqs && any (λ s. ltb n s) seqs)

-- Below a lower bound of the sequences nothing is found.
none_below :
    (b n : ℕ) (seqs : List ℕ)
    → All (λ y. b ≤ y) seqs
    → n < b
    → (any (λ s. same s n) seqs ≡ false) × (any (λ s. ltb s n) seqs ≡ false)
none_below b n [] h lt = (refl, refl)
none_below b n (y ∷ seqs) h lt = ground (arith, none_below b n seqs h.1 lt)

missing_from-cons :
    (prev curr n : ℕ) (seqs : List ℕ)
    → prev ≤ curr
    → All (λ y. curr ≤ y) seqs
    → missing_from (prev ∷ curr ∷ seqs) n
      ≡ (if ltb prev n && ltb n curr then true else missing_from (curr ∷ seqs) n)
missing_from-cons prev curr n seqs h hs = elim (Bool-cases (ltb n curr)) [
  | inl lt ↦ ground (arith, none_below curr n seqs hs)
  | inr ge ↦ ground arith
]

-- No sequence is inside two gaps.
not_missing_inside :
    (prev curr n : ℕ) (seqs : List ℕ)
    → All (λ y. curr ≤ y) seqs
    → (ltb prev n && ltb n curr) ≡ true
    → missing_from (curr ∷ seqs) n ≡ false
not_missing_inside prev curr n seqs hs h = ground (arith, none_below curr n seqs hs)

abbrev reported : ℕ → List Break → ℕ
reported n = count (λ b. covers n b.detail)

abbrev Reports : Option (List Break) → List ℕ → Type 0
Reports r seqs =
    (bs : List Break) × (r ≡ some bs)
    × ((n : ℕ) → reported n bs ≡ (if missing_from seqs n then 1 else 0))

module _ (symbol : Str) (seq_time : Dict ℕ DateTime) where
  gap_loop-Reports :
      (prev : ℕ) (seqs : List ℕ)
      → IsAscending (prev ∷ seqs)
      → All (HasKey seq_time) seqs
      → Reports (gap_loop symbol seq_time prev seqs) (prev ∷ seqs)
  unfolding gap_loop
  gap_loop-Reports prev [] h has = ([], refl, λ n. ground arith)
  gap_loop-Reports prev (curr ∷ seqs) h ((time, at), has) =
      let (bs, ran, exact) = gap_loop-Reports curr seqs h.1 has in
      elim (Bool-cases (ltb 1 (curr - prev))) [
        | inl gap ↦ (
          gap_break symbol prev curr time ∷ bs,
          ground arith,
          λ n. ground (
            arith,
            exact n,
            missing_from-cons prev curr n seqs h.0.0 h.1.0,
            not_missing_inside prev curr n seqs h.1.0,
          ),
        )
        | inr adjacent ↦ (
          bs,
          ground arith,
          λ n. ground (arith, exact n, missing_from-cons prev curr n seqs h.0.0 h.1.0),
        )
      ]

pairwise_gaps-Reports :
    (symbol : Str) (seq_time : Dict ℕ DateTime) (seqs : List ℕ)
    → IsAscending seqs
    → All (HasKey seq_time) seqs
    → Reports (pairwise_gaps symbol seq_time seqs) seqs
pairwise_gaps-Reports symbol seq_time [] h has = ([], refl, λ n. refl)
pairwise_gaps-Reports symbol seq_time (s ∷ seqs) h has =
    gap_loop-Reports symbol seq_time s seqs h has.1

module _ (pd : Pandas) where
  -- The sorted keys of `seq_time` are tested like the ticks' sequences.
  any-sequences :
      (p : ℕ → Bool) (ticks : List TickRow)
      → any p (sorted (keys (sequence_times pd ticks))) ≡ any (λ t. p t.sequence) ticks
  unfolding sequence_times
  any-sequences p ticks =
      any-sorted p (keys (sequence_times pd ticks))
      ∙ any-keys-update p (zip (map (λ t. t.sequence) df) (map (λ t. t.time) df)) []
      ∙ ap (any p) (keys-zip (λ t. t.sequence) (λ t. t.time) df)
      ∙ any-map (λ t. t.sequence) p df
      ∙ any-perm (λ t. p t.sequence) (pd.sort_values_perm TickRow (λ t. t.sequence) ticks)
    where
      df : List TickRow
      df = pd.sort_values TickRow (λ t. t.sequence) ticks

  -- The search never raises, and its breaks report exactly the missing sequences: a sequence that
  -- is not stored while a lower and a higher one are is inside exactly one break, any other is
  -- inside none. Repeated rows and their order do not matter.
  pub find_sequence_gaps_lem :
      (symbol : Str) (ticks : List TickRow)
      → (bs : List Break) × (find_sequence_gaps pd symbol ticks ≡ some bs)
        × ((n : ℕ) → count (λ b. covers n b.detail) bs ≡ (if is_missing ticks n then 1 else 0))
  unfolding find_sequence_gaps
  find_sequence_gaps_lem symbol [] = ([], refl, λ n. refl)
  find_sequence_gaps_lem symbol (t ∷ ticks) =
      let seq_time = sequence_times pd (t ∷ ticks) in
      let (bs, ran, exact) =
        pairwise_gaps-Reports symbol seq_time (sorted (keys seq_time))
          (sorted-IsAscending (keys seq_time))
          (All-sorted (HasKey seq_time) (keys seq_time) (keys-HasKey seq_time)) in
      (
        bs,
        ran,
        λ n. ground (
          arith,
          exact n,
          any-sequences (λ s. same s n) (t ∷ ticks),
          any-sequences (λ s. ltb s n) (t ∷ ticks),
          any-sequences (λ s. ltb n s) (t ∷ ticks),
        ),
      )
