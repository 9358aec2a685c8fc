-- ===== src/Load/Grace.antt =====
-- The grace loop of `run_step` of loadtest/load_harness.py ends.
use post_trade_reconciliatio.Prelude.{
  ℕ, zero, suc, ◌+◌, ◌*◌, ◌≤◌, ◌≡◌, ◌≢◌, refl, Bool, true, false, Option, none, some, List, [], ◌∷◌,
  All, length, if◌then◌else◌, arith, ◌==◌,
}
use post_trade_reconciliatio.Prelude.Int.{pos, ◌≤ℤ◌, ltb_ℤ}
use post_trade_reconciliatio.Models.{TimeDelta}
use post_trade_reconciliatio.Load.{LagSample, Round, grace_sample, grace_loop}
use post_trade_reconciliatio.Load.Ramp.{init}

-- The loop ends, after at most n rounds, and goes on only while there is a lag.
abbrev pub EndsIn : ℕ → Option (List LagSample) → Type 0
EndsIn n none = ⊥
EndsIn n (some samples) = (length samples ≤ n) × All (λ s. s.lag ≢ 0) (init samples)

EndsIn-cons :
    (n : ℕ) (sample : LagSample) (rest : Option (List LagSample))
    → sample.lag ≢ 0
    → EndsIn n rest
    → EndsIn (suc n) (elim rest [ none ↦ none | some samples ↦ some (sample ∷ samples) ])
EndsIn-cons n sample none lags h = h
EndsIn-cons n sample (some []) lags h = (omega (arith, h.0), tt)
EndsIn-cons n sample (some (s ∷ samples)) lags h = (omega (arith, h.0), (lags, h.1))

if-EndsIn :
    (n : ℕ) (b : Bool) (x y : Option (List LagSample))
    → (b ≡ true → EndsIn n x)
    → (b ≡ false → EndsIn n y)
    → EndsIn n (if b then x else y)
if-EndsIn n true x y h k = h refl
if-EndsIn n false x y h k = k refl

module _ (grace duration : TimeDelta) (published : ℕ) (rounds : ℕ → Round)
    (sleeps : (i : ℕ) → pos (i * 500_000) ≤ℤ (rounds i).tested) where
  grace_loop-EndsIn_from :
      (i n : ℕ)
      → grace ≤ℤ pos ((i + n) * 500_000)
      → EndsIn n (grace_loop grace duration published rounds i (suc n))
  unfolding grace_loop
  grace_loop-EndsIn_from i zero h =
      if-EndsIn 0 (ltb_ℤ (rounds i).tested grace) _ _ (λ e. ground (arith, e, h, sleeps i))
        (λ e. (omega arith, tt))
  grace_loop-EndsIn_from i (suc n) h =
      if-EndsIn (suc n) (ltb_ℤ (rounds i).tested grace) _ _
        (λ going.
          if-EndsIn (suc n) ((rounds i).lag == 0) _ _ (λ e. (omega arith, tt))
            (λ e.
              EndsIn-cons n (grace_sample duration published (rounds i)) _ (ground (arith, e))
                (grace_loop-EndsIn_from (i + 1) n (ground (arith, h)))))
        (λ e. (omega arith, tt))

  -- Since every round sleeps for half a second, the grace loop ends, within as many rounds as there
  -- are half seconds in the time of grace, and all its samples but the last have a lag.
  pub grace_loop-EndsIn :
      (n : ℕ)
      → grace ≤ℤ pos (n * 500_000)
      → EndsIn n (grace_loop grace duration published rounds 0 (suc n))
  grace_loop-EndsIn n h = grace_loop-EndsIn_from 0 n (ground (arith, h))
