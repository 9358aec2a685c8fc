-- ===== src/Quality/Tests.antt =====
-- The quality checks over silver files of one symbol on two dates, with a Great Expectations that
-- looks at the key only.
use post_trade_reconciliatio.Prelude.{
  ℕ, ◌≡◌, refl, Bool, true, false, not, none, some, List, [], ◌∷◌, map, any, count, length, arith,
  ℕ_discrete,
}
use post_trade_reconciliatio.Prelude.Int.{pos}
use post_trade_reconciliatio.Prelude.Str.{str, Str-discrete}
use post_trade_reconciliatio.Prelude.Distinct.{is_distinct}
use post_trade_reconciliatio.Models.{Tick, buy, coinbase}
use post_trade_reconciliatio.Silver.{Files}
use post_trade_reconciliatio.Silver.Numbered.{HoldNumbered}
use post_trade_reconciliatio.Quality.{
  Expectation, compound_unique, Checkpoint, key_eq, key_of, rows_of, run_silver_quality_checks,
  Key-discrete, load_silver_dataframe,
}
use post_trade_reconciliatio.Quality.Unique.{shares_symbol}
use post_trade_reconciliatio.Quality.Verdict.{
  IsVerdict, loaded, run_silver_quality_checks-shares_symbol, run_silver_quality_checks-IsVerdict,
}

abbrev meets : Expectation → List Tick → Bool
meets (compound_unique columns) rows = is_distinct (map key_of rows)
meets _ rows = true

abbrev checkpoint : Checkpoint
checkpoint = record {
  is_met = meets;
  answer = λ suite rows. record {
    success = not (any (λ e. not (meets e rows)) suite);
    evaluated = length suite;
    successful = count (λ e. meets e rows) suite;
    unsuccessful = count (λ e. not (meets e rows)) suite;
  };
  answer_evaluated = λ suite rows. refl;
  answer_successful = λ suite rows. refl;
  answer_unsuccessful = λ suite rows. refl;
  answer_success = λ suite rows. refl;
  unique_key = λ rows. refl;
}

-- A tick of a day, numbered by the rebuild.
abbrev row : ℕ → ℕ → Tick
row day sequence = record {
  symbol = str "BTC-USD";
  sequence = sequence;
  price = pos 100;
  size = none;
  side = some buy;
  exchange = coinbase;
  channel = str "ticker";
  exchange_timestamp = pos day;
  ingest_timestamp = pos day;
}

abbrev two_days : Files
two_days =
    (str "data/ticks/symbol=BTC-USD/date=2024-01-02", row 2 1 ∷ row 2 2 ∷ [])
    ∷ (str "data/ticks/symbol=BTC-USD/date=2024-01-03", row 3 1 ∷ [])
    ∷ []

two_days-HoldNumbered : HoldNumbered two_days
two_days-HoldNumbered = ((λ symbol. ground arith), ((λ symbol. ground arith), tt))

shared : shares_symbol (loaded (str "data") two_days) ≡ true
unfolding Str-discrete ℕ_discrete
shared = refl

run_silver_quality_checks-shares_symbol_example :
    (run_silver_quality_checks checkpoint none (str "data") two_days).success ≡ false
run_silver_quality_checks-shares_symbol_example =
    run_silver_quality_checks-shares_symbol checkpoint none (str "data") two_days
      two_days-HoldNumbered shared

run_silver_quality_checks-IsVerdict_example :
    IsVerdict
      (rows_of (loaded (str "data") two_days))
      (run_silver_quality_checks checkpoint none (str "data") two_days)
run_silver_quality_checks-IsVerdict_example =
    run_silver_quality_checks-IsVerdict checkpoint none (str "data") two_days

-- One date alone passes.
abbrev one_day : Files
one_day = (str "data/ticks/symbol=BTC-USD/date=2024-01-02", row 2 1 ∷ row 2 2 ∷ []) ∷ []

passes_one : (run_silver_quality_checks checkpoint none (str "data") one_day).success ≡ true
unfolding run_silver_quality_checks load_silver_dataframe Key-discrete ℕ_discrete
passes_one = refl
