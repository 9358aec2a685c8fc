-- ===== src/Load/Step.antt =====
-- What a step of loadtest/load_harness.py reports of its samples.
use post_trade_reconciliatio.Prelude.{
  ℕ, ◌≤◌, ◌≡◌, refl, true, ◌↔◌, ◌⊎◌, inl, inr, List, [], ◌∷◌, ◌++◌, map, any, All, arith, ◌==◌,
  is_empty,
}
use post_trade_reconciliatio.Prelude.Int.{pos}
use post_trade_reconciliatio.Models.{DateTime, TimeDelta}
use post_trade_reconciliatio.Load.{
  LagSample, StepResult, Poll, sample_polls, published_in, produce, Measured, max_lag, run_step,
}

-- The peak is the largest lag of the samples, 0 without any, and the system has caught up exactly
-- if no lag is left after the time of grace.
pub record IsReport (r : StepResult) : Type 0 where
  pub bound : All (λ s. s.lag ≤ r.max_lag_during_step) r.samples
  pub attained :
      (is_empty r.samples ≡ true × (r.max_lag_during_step ≡ 0))
      ⊎ (any (λ s. s.lag == r.max_lag_during_step) r.samples ≡ true)
  pub caught : (r.caught_up ≡ true) ↔ (r.lag_after_grace ≡ 0)

max_lag-bound :
    (m : ℕ) (samples : List LagSample) → max_lag samples ≤ m → All (λ s. s.lag ≤ m) samples
max_lag-bound m [] h = tt
max_lag-bound m (s ∷ samples) h = (omega (arith, h), max_lag-bound m samples (omega (arith, h)))

max_lag-attained :
    (s : LagSample) (samples : List LagSample)
    → any (λ s'. s'.lag == max_lag (s ∷ samples)) (s ∷ samples) ≡ true
max_lag-attained s [] = ground arith
max_lag-attained s (r ∷ samples) = ground (arith, max_lag-attained r samples)

attained-of :
    (samples : List LagSample)
    → (is_empty samples ≡ true × (max_lag samples ≡ 0))
      ⊎ (any (λ s. s.lag == max_lag samples) samples ≡ true)
attained-of [] = inl (refl, refl)
attained-of (s ∷ samples) = inr (max_lag-attained s samples)

-- A step reports as its peak the largest lag of its samples, 0 without any, and says that the
-- system has caught up exactly if no lag is left after the time of grace.
pub run_step-IsReport : (target_rate : ℕ) (m : Measured) → IsReport (run_step target_rate m)
unfolding run_step
run_step-IsReport target_rate m = record {
  bound = max_lag-bound _ (m.produced.1 ++ m.grace_samples) (omega arith);
  attained = attained-of (m.produced.1 ++ m.grace_samples);
  caught = ground arith;
}

-- Every sample that is taken while publishers run is given the step's total as its count.
pub produce-published_so_far :
    (start : DateTime) (interval : TimeDelta) (polls : List Poll)
    (results : List (ℕ × (ℕ × TimeDelta)))
    → All
        (λ s. s.published_so_far ≡ pos (produce start interval polls results).0)
        (produce start interval polls results).1
unfolding produce
produce-published_so_far start interval polls results =
    all_total _ (sample_polls start interval start polls)
  where
    all_total :
        (n : ℕ) (samples : List LagSample)
        → All (λ s. s.published_so_far ≡ pos n) (map (published_in n) samples)
    all_total n [] = tt
    all_total n (s ∷ samples) = (refl, all_total n samples)
