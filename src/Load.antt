-- ===== src/Load.antt =====
-- posttrade/loadtest/load_harness.py: the publishers' batches, the samples of the consumer lag, a
-- step and the ramp of steps. Clock readings, lag readings and the ends of the publisher processes
-- are inputs; a rate is a whole number of messages per second, times are microseconds, and a
-- quotient of floats is kept as its two operands.
pub mod Publish
pub mod Step
pub mod Grace
pub mod Harness
pub mod Ramp
mod Tests
use post_trade_reconciliatio.Prelude.{
  ℕ, zero, suc, ◌+◌, Bool, true, false, Option, none, some, List, [], ◌∷◌, ◌++◌, map, foldl, max,
  if◌then◌else◌, ◌==◌,
}
use post_trade_reconciliatio.Prelude.Int.{ℤ, pos, negsuc, ◌+ℤ◌, ◌-ℤ◌, ltb_ℤ, leb_ℤ}
use post_trade_reconciliatio.Prelude.Str.{Str, str, str_eq, nat_eq, same}
use post_trade_reconciliatio.Prelude.Dict.{Dict, lookup_or, insert, values}
use post_trade_reconciliatio.Prelude.Show.{show}
use post_trade_reconciliatio.Workers.Pool.{range_from}
use post_trade_reconciliatio.Models.{DateTime, TimeDelta, Tick, coinbase}
use post_trade_reconciliatio.Queue.{Text, decoded}

pub record LagSample : Type 0 where
  pub t : TimeDelta
  pub lag : ℕ
  pub published_so_far : ℤ

pub record StepResult : Type 0 where
  pub target_rate : ℕ
  pub duration_s : TimeDelta
  pub published : ℕ
  pub actual_publish_rate : ℕ × TimeDelta
  pub max_lag_during_step : ℕ
  pub lag_at_step_end : ℕ
  pub lag_after_grace : ℕ
  pub caught_up : Bool
  pub samples : List LagSample

-- `_synthetic_tick`, at the clock's reading.
abbrev pub synthetic_tick : DateTime → Str → ℕ → Tick
synthetic_tick now symbol seq = record {
  symbol = symbol;
  sequence = seq;
  price = pos 10_000_000_000;
  size = none;
  side = none;
  exchange = coinbase;
  channel = str "ticker";
  exchange_timestamp = now;
  ingest_timestamp = now;
}

-- A group in XINFO GROUPS; a missing lag is none.
pub record GroupInfo : Type 0 where
  pub name : Text
  pub lag : Option ℕ
  pub pending : ℕ

abbrev pub lag_of : Option ℕ → ℕ → ℕ
lag_of none pending = pending
lag_of (some lag) pending = lag

abbrev pub lag_in : Str → List GroupInfo → ℕ
lag_in group_name [] = 0
lag_in group_name (g ∷ groups) =
    let rest = lag_in group_name groups in
    if same (decoded g.name) group_name then lag_of g.lag g.pending else rest

-- `_get_lag`; a ResponseError is none.
unfoldable pub get_lag : Str → Option (List GroupInfo) → ℕ
get_lag group_name none = 0
get_lag group_name (some groups) = lag_in group_name groups

-- A publisher process: the symbols that `itertools.cycle` has left before it starts again, and
-- the counters, which start at 1.
pub record Publisher : Type 0 where
  pub cycle : List Str
  pub seqs : Dict Str ℕ
  pub published : ℕ
  pub stream : List Tick

-- One tick of a batch; without symbols the cycle has no next one, which raises.
abbrev pub next_tick : DateTime → List Str → List Str → Publisher → Option Publisher
next_tick now [] [] p = none
next_tick now (symbol ∷ symbols) [] p = some (record p {
  cycle = symbols;
  seqs = insert symbol (lookup_or symbol 1 p.seqs + 1) p.seqs;
  stream = p.stream ++ synthetic_tick now symbol (lookup_or symbol 1 p.seqs) ∷ [];
})
next_tick now symbols (symbol ∷ cycle) p = some (record p {
  cycle = cycle;
  seqs = insert symbol (lookup_or symbol 1 p.seqs + 1) p.seqs;
  stream = p.stream ++ synthetic_tick now symbol (lookup_or symbol 1 p.seqs) ∷ [];
})

abbrev pub or_raise : {A : Type 0} → Option A → (A → Option A) → Option A
or_raise none f = none
or_raise (some p) f = f p

-- `for _ in range(batch_size)`
abbrev pub fill_batch : List Str → DateTime → ℕ → Publisher → Option Publisher
fill_batch symbols now zero p = some p
fill_batch symbols now (suc n) p =
    or_raise (next_tick now symbols p.cycle p) (fill_batch symbols now n)

abbrev pub count_batch : ℕ → Publisher → Option Publisher
count_batch batch_size p = some (record p { published = p.published + batch_size })

-- `_publish_process`: a batch for each reading of the clock before the end of the duration.
unfoldable pub publish_process : List Str → ℕ → List DateTime → Publisher → Option Publisher
publish_process symbols batch_size [] p = some p
publish_process symbols batch_size (now ∷ later) p =
    or_raise (or_raise (fill_batch symbols now batch_size p) (count_batch batch_size))
      (publish_process symbols batch_size later)

-- A poll while publishers are alive: the clock's reading, and the lag if it is read.
pub record Poll : Type 0 where
  pub now_t : DateTime
  pub lag : ℕ

-- `_produce`'s loop over polls: the samples that are due.
abbrev pub sample_polls : DateTime → TimeDelta → DateTime → List Poll → List LagSample
sample_polls start interval next_sample [] = []
sample_polls start interval next_sample (p ∷ polls) =
    let skipped = sample_polls start interval next_sample polls in
    let taken = sample_polls start interval (next_sample +ℤ interval) polls in
    if leb_ℤ next_sample p.now_t
    then (record { t = p.now_t -ℤ start; lag = p.lag; published_so_far = negsuc 0 }) ∷ taken
    else skipped

abbrev pub sum_published : List (ℕ × TimeDelta) → ℕ
sum_published [] = 0
sum_published (r ∷ results) = r.0 + sum_published results

abbrev pub published_in : ℕ → LagSample → LagSample
published_in total s = record s { published_so_far = pos total }

-- `_produce`: the total over the processes' results, by process, and the samples.
unfoldable pub produce :
    DateTime → TimeDelta → List Poll → List (ℕ × (ℕ × TimeDelta)) → ℕ × List LagSample
produce start interval polls results =
    let per_process = foldl (λ d r. insert r.0 r.1 d) [] results in
    let total_published = sum_published (values per_process) in
    (total_published, map (published_in total_published) (sample_polls start interval start polls))

-- A round of the grace loop: the time since its start when it is tested and when the sample is
-- taken, and the lag.
pub record Round : Type 0 where
  pub tested : TimeDelta
  pub sampled : TimeDelta
  pub lag : ℕ

abbrev pub grace_sample : TimeDelta → ℕ → Round → LagSample
grace_sample duration published r = record {
  t = duration +ℤ r.sampled;
  lag = r.lag;
  published_so_far = pos published;
}

-- The grace loop, on fuel: none where the fuel ends before the loop.
unfoldable pub grace_loop :
    TimeDelta → TimeDelta → ℕ → (ℕ → Round) → ℕ → ℕ → Option (List LagSample)
grace_loop grace duration published rounds i zero = none
grace_loop grace duration published rounds i (suc fuel) =
    let r = rounds i in
    let rest = grace_loop grace duration published rounds (i + 1) fuel in
    let sample = grace_sample duration published r in
    if ltb_ℤ r.tested grace
    then (if r.lag == 0
        then some (sample ∷ [])
        else elim rest [ none ↦ none | some samples ↦ some (sample ∷ samples) ])
    else some []

abbrev pub max_lag : List LagSample → ℕ
max_lag [] = 0
max_lag (s ∷ samples) = max s.lag (max_lag samples)

-- What a step measures: what `_produce` returns, the samples of the grace loop and the lags that
-- are read before and after it.
pub record Measured : Type 0 where
  pub elapsed : TimeDelta
  pub produced : ℕ × List LagSample
  pub grace_samples : List LagSample
  pub lag_at_step_end : ℕ
  pub lag_after_grace : ℕ

-- The result of `run_step`.
unfoldable pub run_step : ℕ → Measured → StepResult
run_step target_rate m =
    let (published, samples) = m.produced in
    record {
      target_rate = target_rate;
      duration_s = m.elapsed;
      published = published;
      actual_publish_rate = if ltb_ℤ (pos 0) m.elapsed then (published, m.elapsed) else (0, pos 1);
      max_lag_during_step = max_lag (samples ++ m.grace_samples);
      lag_at_step_end = m.lag_at_step_end;
      lag_after_grace = m.lag_after_grace;
      caught_up = m.lag_after_grace == 0;
      samples = samples ++ m.grace_samples;
    }

-- `run_ramp`'s loop: a step may raise, and changes the system `S` that it measures.
abbrev pub continue_ramp :
    {S : Type 0} → StepResult → Option (List StepResult) × S → Option (List StepResult) × S
continue_ramp result (none, s) = (none, s)
continue_ramp result (some results, s) = (some (result ∷ results), s)

abbrev pub after_step :
    {S : Type 0}
    → ℕ
    → Option Measured × S
    → (S → Option (List StepResult) × S)
    → Option (List StepResult) × S
after_step rate (none, s) rest = (none, s)
after_step rate (some m, s) rest =
    if (run_step rate m).caught_up
    then continue_ramp (run_step rate m) (rest s)
    else (some (run_step rate m ∷ []), s)
