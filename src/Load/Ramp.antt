-- ===== src/Load/Ramp.antt =====
-- Which steps `run_ramp` of loadtest/load_harness.py runs.
use mathlib.Core.List.{append_assoc, append-nil}
use post_trade_reconciliatio.Prelude.{
  ℕ, suc, ◌≡◌, refl, ap, sym, ◌∙◌, ◌++◌, ◌&&◌, Bool-cases, inl, inr, Bool, true, false, not, Option,
  none, some, List, [], ◌∷◌, map, any, All, take, length, if◌then◌else◌, arith,
}
use post_trade_reconciliatio.Workers.Pool.{range_from}
use post_trade_reconciliatio.Load.{StepResult, Measured, run_step, continue_ramp, after_step}
use post_trade_reconciliatio.Load.Harness.{
  LoadHarness, start_each, start_workers, stop_workers, worker_name, Call, done, failed,
  after_start, ramp_steps, run_ramp,
}

-- All items but the last.
abbrev pub init {ℓ} : {A : Type ℓ} → List A → List A
init [] = []
init (x ∷ []) = []
init (x ∷ y ∷ xs) = x ∷ init (y ∷ xs)

-- The results are those of the first rates; every step but the last caught up, and rates are left
-- out only behind a step that did not.
pub record IsRamp (rates : List ℕ) (results : List StepResult) : Type 0 where
  pub targets : map (λ r. r.target_rate) results ≡ take (length results) rates
  pub kept_up : All (λ r. r.caught_up ≡ true) (init results)
  pub complete : any (λ r. not r.caught_up) results ≡ false → length results ≡ length rates

kept_up-cons :
    (r : StepResult) (results : List StepResult)
    → r.caught_up ≡ true
    → All (λ r. r.caught_up ≡ true) (init results)
    → All (λ r. r.caught_up ≡ true) (init (r ∷ results))
kept_up-cons r [] e h = tt
kept_up-cons r (q ∷ results) e h = (e, h)

target_rate-run_step : (rate : ℕ) (m : Measured) → (run_step rate m).target_rate ≡ rate
unfolding run_step
target_rate-run_step rate m = refl

module _ {S : Type 0} where
  abbrev pub Ramps : List ℕ → Option (List StepResult) × S → Type 0
  Ramps rates (none, s) = Unit
  Ramps rates (some results, s) = IsRamp rates results

  continue_ramp-Ramps :
      (rate : ℕ) (rates : List ℕ) (m : Measured) (rest : Option (List StepResult) × S)
      → (run_step rate m).caught_up ≡ true
      → Ramps rates rest
      → Ramps (rate ∷ rates) (continue_ramp (run_step rate m) rest)
  continue_ramp-Ramps rate rates m (none, s) e h = tt
  continue_ramp-Ramps rate rates m (some results, s) e h = record {
    targets =
        ap (λ r. r ∷ map (λ r. r.target_rate) results) (target_rate-run_step rate m)
        ∙ ap (◌∷◌ rate) h.targets;
    kept_up = kept_up-cons (run_step rate m) results e h.kept_up;
    complete = λ none_behind. ap suc (h.complete (ground arith));
  }

  if-Ramps :
      (rates : List ℕ) (b : Bool) (x y : Option (List StepResult) × S)
      → (b ≡ true → Ramps rates x)
      → (b ≡ false → Ramps rates y)
      → Ramps rates (if b then x else y)
  if-Ramps rates true x y h k = h refl
  if-Ramps rates false x y h k = k refl

  after_step-Ramps :
      (rate : ℕ) (rates : List ℕ) (measured : Option Measured × S)
      (rest : S → Option (List StepResult) × S)
      → ((s : S) → Ramps rates (rest s))
      → Ramps (rate ∷ rates) (after_step rate measured rest)
  after_step-Ramps rate rates (none, s) rest h = tt
  after_step-Ramps rate rates (some m, s) rest h =
      if-Ramps (rate ∷ rates) (run_step rate m).caught_up _ _
        (λ e. continue_ramp-Ramps rate rates m (rest s) e (h s))
        (λ e. record {
          targets = ap (λ r. r ∷ []) (target_rate-run_step rate m);
          kept_up = tt;
          complete = λ none_behind. ground (arith, e);
        })

-- Every process of the pool can be started.
abbrev pub pool_starts : Bool → (ℕ → Bool) → List ℕ → Bool
pool_starts connects starts is = connects && not (any (λ i. not (starts i)) is)

-- How a start ends: it has added the names of the pool, or raised and stopped nothing.
Starts : (ℕ → Bool) → List ℕ → LoadHarness → Call → Type 0
Starts starts is h (done h') =
    (any (λ i. not (starts i)) is ≡ false)
    × (h'.workers ≡ h.workers ++ map worker_name is)
    × (h'.terminated ≡ h.terminated)
    × (h'.joined ≡ h.joined)
Starts starts is h (failed h') =
    (any (λ i. not (starts i)) is ≡ true) × (h'.terminated ≡ h.terminated) × (h'.joined ≡ h.joined)

Starts-cons :
    (starts : ℕ → Bool) (i : ℕ) (is : List ℕ) (h : LoadHarness) (c : Call)
    → starts i ≡ true
    → Starts starts is (record h { workers = h.workers ++ worker_name i ∷ [] }) c
    → Starts starts (i ∷ is) h c
unfolding Starts
Starts-cons starts i is h (done h') e k = (
  ground (arith, e, k.0),
  k.1 ∙ append_assoc h.workers (worker_name i ∷ []) (map worker_name is),
  k.2,
  k.3,
)
Starts-cons starts i is h (failed h') e k = (ground (arith, e, k.0), k.1, k.2)

start_each-Starts :
    (starts : ℕ → Bool) (is : List ℕ) (h : LoadHarness)
    → Starts starts is h (start_each starts is h)
unfolding start_each Starts
start_each-Starts starts [] h = (refl, sym (append-nil h.workers), refl, refl)
start_each-Starts starts (i ∷ is) h = elim (Bool-cases (starts i)) [
  | inl e ↦ rw e (
      Starts-cons starts i is h _ e
        (start_each-Starts starts is (record h { workers = h.workers ++ worker_name i ∷ [] })))
  | inr e ↦ rw e (ground (arith, e), refl, refl)
]

-- Where all can be started, each process of the harness and of its pool is terminated once and then
-- joined once, and none is kept; otherwise none is terminated.
pub record IsStopped (all_start : Bool) (h h' : LoadHarness) : Type 0 where
  pub terminated :
      h'.terminated
      ≡ h.terminated
        ++ (if all_start
            then h.workers ++ map worker_name (range_from 0 h.worker_pool_size)
            else [])
  pub joined :
      h'.joined
      ≡ h.joined
        ++ (if all_start
            then h.workers ++ map worker_name (range_from 0 h.worker_pool_size)
            else [])
  pub kept : all_start ≡ true → h'.workers ≡ []

module _ {S : Type 0} (measure : LoadHarness → ℕ → S → Option Measured × S) where
  ramp_steps-Ramps :
      (h : LoadHarness) (rates : List ℕ) (s : S) → Ramps rates (ramp_steps measure h rates s)
  ramp_steps-Ramps h [] s = record { targets = refl; kept_up = tt; complete = λ _. refl }
  ramp_steps-Ramps h (rate ∷ rates) s =
      after_step-Ramps rate rates (measure h rate s) (ramp_steps measure h rates)
        (ramp_steps-Ramps h rates)

  after_start-IsStopped :
      (connects : Bool) (starts : ℕ → Bool) (h : LoadHarness) (rates : List ℕ) (s : S) (c : Call)
      → connects ≡ true
      → Starts starts (range_from 0 h.worker_pool_size) h c
      → IsStopped
          (pool_starts connects starts (range_from 0 h.worker_pool_size))
          h
          (after_start measure rates s c).1
  unfolding Starts stop_workers
  after_start-IsStopped connects starts h rates s (done h') e k =
      rw (e, k.0)
        (record { terminated = rw (k.2, k.1) refl; joined = rw (k.3, k.1) refl; kept = λ _. refl })
  after_start-IsStopped connects starts h rates s (failed h') e k =
      rw (e, k.0)
        (record {
          terminated = k.1 ∙ sym (append-nil h.terminated);
          joined = k.2 ∙ sym (append-nil h.joined);
          kept = λ f. ground (arith, f);
        })

  after_start-Ramps :
      (rates : List ℕ) (s : S) (c : Call) → Ramps rates (after_start measure rates s c).0
  after_start-Ramps rates s (done h) = ramp_steps-Ramps h rates s
  after_start-Ramps rates s (failed h) = tt

  -- However the system behaves, the results of a ramp that no raise cuts off are those of the first
  -- rates in their order, every step but the last caught up, and rates are left out only behind a
  -- step that did not. If every process of the pool can be started, each process of the harness and
  -- of its pool is terminated once and joined once, also where a step raises, and none is kept;
  -- otherwise none is terminated or joined.
  pub run_ramp-Ramps :
      (connects : Bool) (starts : ℕ → Bool) (h : LoadHarness) (rates : List ℕ) (s : S)
      → Ramps rates (run_ramp measure connects starts h rates s).0
        × IsStopped
            (pool_starts connects starts (range_from 0 h.worker_pool_size))
            h
            (run_ramp measure connects starts h rates s).1
  unfolding run_ramp start_workers
  run_ramp-Ramps true starts h rates s = (
    after_start-Ramps rates s (start_each starts (range_from 0 h.worker_pool_size) h),
    after_start-IsStopped true starts h rates s _ refl
        (start_each-Starts starts (range_from 0 h.worker_pool_size) h),
  )
  run_ramp-Ramps false starts h rates s = (
    tt,
    record {
      terminated = sym (append-nil h.terminated);
      joined = sym (append-nil h.joined);
      kept = λ f. ground (arith, f);
    },
  )
