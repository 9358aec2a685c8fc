-- ===== src/Quality/Verdict.antt =====
-- What the verdict of dataeng/quality/silver_expectations.py says of the rows.
use post_trade_reconciliatio.Prelude.{
  ◌+◌, ◌≡◌, refl, sym, Bool, true, false, not, ◌↔◌, Option, List, [], ◌∷◌, ◌++◌, map, filter, any,
  count, is_empty, length, if◌then◌else◌, arith, Bool-cases, inl, inr,
}
use post_trade_reconciliatio.Prelude.Str.{Str, str, starts_with}
use post_trade_reconciliatio.Prelude.Distinct.{is_distinct}
use post_trade_reconciliatio.Models.{Tick}
use post_trade_reconciliatio.Silver.{Files}
use post_trade_reconciliatio.Silver.Numbered.{HoldNumbered, All-filter, AreNumbered}
use post_trade_reconciliatio.Quality.{
  QualityCheckResult, Expectation, build_suite, key_eq, key_of, Checkpoint, rows_of,
  load_silver_dataframe, run_silver_quality_checks,
}
use post_trade_reconciliatio.Quality.Unique.{shares_symbol, is_distinct-shares_symbol}

-- A verdict on rows: its numbers add up, all ten expectations are evaluated if there are rows, and
-- it is a success exactly if there are rows and no expectation is unmet.
pub record IsVerdict (rows : List Tick) (r : QualityCheckResult) : Type 0 where
  pub row_count : r.row_count ≡ length rows
  pub evaluated : r.evaluated_expectations ≡ (if is_empty rows then 0 else 10)
  pub total : r.successful_expectations + r.unsuccessful_expectations ≡ r.evaluated_expectations
  pub success : (r.success ≡ true) ↔ ((is_empty rows ≡ false) × (r.unsuccessful_expectations ≡ 0))

-- The files under the silver path.
abbrev pub loaded : Str → Files → Files
loaded silver_path = filter (λ f. starts_with (silver_path ++ str "/ticks/") f.0)

module _ (checkpoint : Checkpoint) (docs_index : Option Str) (silver_path : Str)
    (files : Files) where
  abbrev df : List Tick
  df = rows_of (loaded silver_path files)

  abbrev unmet : Expectation → Bool
  unmet e = not (checkpoint.is_met e df)

  key_expectation : any unmet build_suite ≡ false → is_distinct (map key_of df) ≡ true
  key_expectation h = ground (arith, h, checkpoint.unique_key df)

  success_of :
      (run_silver_quality_checks checkpoint docs_index silver_path files).success
      ≡ (if is_empty df then false else not (any unmet build_suite))
  unfolding run_silver_quality_checks
  success_of = elim (Bool-cases (is_empty df)) [
    | inl e ↦ rw e refl
    | inr e ↦ rw e (checkpoint.answer_success build_suite df)
  ]

  -- Where a symbol has rows in two silver files, the quality checks fail, however good the rows
  -- are, if each file numbers the rows of a symbol 1, 2, 3 and so on.
  pub run_silver_quality_checks-shares_symbol :
      HoldNumbered files
      → shares_symbol (loaded silver_path files) ≡ true
      → (run_silver_quality_checks checkpoint docs_index silver_path files).success ≡ false
  run_silver_quality_checks-shares_symbol h shared = ground (
    arith,
    shared,
    success_of,
    key_expectation,
    is_distinct-shares_symbol (loaded silver_path files) (
        All-filter (λ f. AreNumbered f.1) (λ f. starts_with (silver_path ++ str "/ticks/") f.0)
          files h),
  )

count-split :
    (p : Expectation → Bool) (suite : List Expectation)
    → count p suite + count (λ e. not (p e)) suite ≡ length suite
count-split p [] = omega arith
count-split p (e ∷ suite) = ground (arith, count-split p suite)

count-any :
    (p : Expectation → Bool) (suite : List Expectation)
    → (any p suite ≡ false) ↔ (count p suite ≡ 0)
count-any p [] = ground arith
count-any p (e ∷ suite) = ground (arith, count-any p suite)

count-none :
    (p : Expectation → Bool) (suite : List Expectation)
    → (not (any p suite) ≡ true) ↔ (count p suite ≡ 0)
count-none p suite = ground (arith, count-any p suite)

is_empty-length : (rows : List Tick) → is_empty rows ≡ true → length rows ≡ 0
is_empty-length [] e = refl
is_empty-length (t ∷ rows) e = ground arith

-- The quality checks over any silver files return a verdict on the rows under the silver path,
-- also where there are none.
pub run_silver_quality_checks-IsVerdict :
    (checkpoint : Checkpoint) (docs_index : Option Str) (silver_path : Str) (files : Files)
    → IsVerdict
        (rows_of (loaded silver_path files))
        (run_silver_quality_checks checkpoint docs_index silver_path files)
unfolding run_silver_quality_checks load_silver_dataframe
run_silver_quality_checks-IsVerdict checkpoint docs_index silver_path files =
    let rows = rows_of (loaded silver_path files) in
    let met = λ (e : Expectation). checkpoint.is_met e rows in
    let unmet = λ (e : Expectation). not (checkpoint.is_met e rows) in
    elim (Bool-cases (is_empty rows)) [
      | inl e ↦ rw e (record {
        row_count = sym (is_empty-length rows e);
        evaluated = rw e refl;
        total = omega arith;
        success = ground (arith, e);
      })
      | inr e ↦ rw e (record {
        row_count = refl;
        evaluated = rw e (checkpoint.answer_evaluated build_suite rows);
        total = omega (
          arith,
          checkpoint.answer_evaluated build_suite rows,
          checkpoint.answer_successful build_suite rows,
          checkpoint.answer_unsuccessful build_suite rows,
          count-split met build_suite,
        );
        success = ground (
          arith,
          e,
          checkpoint.answer_success build_suite rows,
          checkpoint.answer_unsuccessful build_suite rows,
          count-none unmet build_suite,
        );
      })
    ]
