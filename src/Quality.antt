-- ===== src/Quality.antt =====
-- dataeng/quality/silver_expectations.py: the suite over the rows of the silver files. Great
-- Expectations is a parameter: what its checkpoint answers to a suite and rows. A column is its
-- name; the context, the data source and the stored definitions belong to Great Expectations.
pub mod Unique
pub mod Verdict
mod Tests
use post_trade_reconciliatio.Prelude.{
  ℕ, ◌+◌, ◌≡◌, Bool, true, false, not, Option, none, some, List, [], ◌∷◌, ◌++◌, map, filter, any,
  count, is_empty, length, if◌then◌else◌, ℕ_discrete,
}
use post_trade_reconciliatio.Prelude.Int.{ℤ, pos}
use post_trade_reconciliatio.Prelude.Str.{Str, str, Str-discrete, Eq, str_eq, nat_eq, starts_with}
use post_trade_reconciliatio.Prelude.Distinct.{is_distinct}
use post_trade_reconciliatio.Models.{Tick}
use post_trade_reconciliatio.Silver.{Files}

pub record QualityCheckResult : Type 0 where
  pub success : Bool
  pub row_count : ℕ
  pub evaluated_expectations : ℕ
  pub successful_expectations : ℕ
  pub unsuccessful_expectations : ℕ
  pub data_docs_index : Option Str

-- The expectations of the suite, with their arguments.
pub data Expectation : Type 0 where
  not_null : (column : Str) → Expectation
  between : (column : Str) → (min_value max_value : Option ℤ) → Expectation
  in_set : (column : Str) → (value_set : List Str) → Expectation
  pair_greater : (column_a column_b : Str) → (or_equal : Bool) → Expectation
  compound_unique : (column_list : List Str) → Expectation

-- `_build_suite`
abbrev pub build_suite : List Expectation
build_suite =
    not_null (str "symbol")
    ∷ not_null (str "sequence")
    ∷ not_null (str "price")
    ∷ not_null (str "exchange_timestamp")
    ∷ not_null (str "ingest_timestamp")
    ∷ between (str "price") (some (pos 0)) (some (pos 10_000_000))
    ∷ between (str "sequence") (some (pos 1)) none
    ∷ in_set (str "side") (str "buy" ∷ str "sell" ∷ [])
    ∷ pair_greater (str "ingest_timestamp") (str "exchange_timestamp") true
    ∷ compound_unique (str "symbol" ∷ str "sequence" ∷ [])
    ∷ []

-- A row's values in the two columns of the natural key.
abbrev pub Key : Type 0
Key = Str × ℕ

unfoldable pub Key-discrete : Discrete Key
unfolding Str-discrete ℕ_discrete
Key-discrete = hlevel (Str-discrete, ℕ_discrete)

instance abbrev pub key_eq : Eq Key
key_eq = record { dec = Key-discrete }

abbrev pub key_of : Tick → Key
key_of t = (t.symbol, t.sequence)

-- What a checkpoint answers.
pub record Outcome : Type 0 where
  pub success : Bool
  pub evaluated : ℕ
  pub successful : ℕ
  pub unsuccessful : ℕ

-- Great Expectations: a checkpoint evaluates every expectation of the suite, counts those that are
-- met and succeeds if all are; the compound columns are unique if no two rows have the same values.
pub record Checkpoint : Type 0 where
  pub is_met : Expectation → List Tick → Bool
  pub answer : List Expectation → List Tick → Outcome
  pub answer_evaluated :
      (suite : List Expectation) (rows : List Tick) → (answer suite rows).evaluated ≡ length suite
  pub answer_successful :
      (suite : List Expectation) (rows : List Tick)
      → (answer suite rows).successful ≡ count (λ e. is_met e rows) suite
  pub answer_unsuccessful :
      (suite : List Expectation) (rows : List Tick)
      → (answer suite rows).unsuccessful ≡ count (λ e. not (is_met e rows)) suite
  pub answer_success :
      (suite : List Expectation) (rows : List Tick)
      → (answer suite rows).success ≡ not (any (λ e. not (is_met e rows)) suite)
  pub unique_key :
      (rows : List Tick)
      → is_met (compound_unique (str "symbol" ∷ str "sequence" ∷ [])) rows
        ≡ is_distinct (map key_of rows)

-- The rows of the files, one file after the other.
abbrev pub rows_of : Files → List Tick
rows_of [] = []
rows_of (f ∷ files) = f.1 ++ rows_of files

-- `_load_silver_dataframe`
unfoldable pub load_silver_dataframe : Str → Files → List Tick
load_silver_dataframe silver_path files =
    rows_of (filter (λ f. starts_with (silver_path ++ str "/ticks/") f.0) files)

-- `run_silver_quality_checks`, with the first docs site if there is one.
unfoldable pub run_silver_quality_checks :
    Checkpoint → Option Str → Str → Files → QualityCheckResult
unfolding load_silver_dataframe
run_silver_quality_checks checkpoint docs_index silver_path files =
    let df = load_silver_dataframe silver_path files in
    let result = checkpoint.answer build_suite df in
    if is_empty df
    then record {
      success = false;
      row_count = 0;
      evaluated_expectations = 0;
      successful_expectations = 0;
      unsuccessful_expectations = 0;
      data_docs_index = none;
    }
    else record {
      success = result.success;
      row_count = length df;
      evaluated_expectations = result.evaluated;
      successful_expectations = result.successful;
      unsuccessful_expectations = result.unsuccessful;
      data_docs_index = docs_index;
    }
