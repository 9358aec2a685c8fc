-- ===== src/Silver/Tests.antt =====
-- A bucket of three lines in two hours, one of them twice.
use post_trade_reconciliatio.Prelude.{
  ℕ_discrete, ℕ, ◌≡◌, refl, true, false, List, [], ◌∷◌, map, is_empty,
}
use post_trade_reconciliatio.Prelude.Split.{splitlines, join}
use post_trade_reconciliatio.Prelude.Int.{pos}
use post_trade_reconciliatio.Prelude.Str.{Str, str, Str-discrete}
use post_trade_reconciliatio.Ingest.Concrete.{decimal, fromisoformat, loads, started, timed, noon}
use post_trade_reconciliatio.Ingest.{
  Result, returns, raises, Ingestor, Arrival, new_ingestor, normalize, handle_message, handle_all,
}
use post_trade_reconciliatio.Ingest.Numbering.{ticks_of}
use post_trade_reconciliatio.Silver.{
  SilverTransformResult, Files, partition_dir, read_bronze_lines, bronze_prefix, dedup,
  transform_symbol_date,
}
use post_trade_reconciliatio.Silver.Landed.{texts_of}
use post_trade_reconciliatio.Silver.Republished.{Writes, transform_symbol_date-Writes}
use post_trade_reconciliatio.Silver.Numbered.{
  Leaves, HoldNumbered, transform_symbol_date-HoldNumbered,
}
use post_trade_reconciliatio.Silver.Rebuild.{
  Accounts, transform_symbol_date-Accounts, with_files, transform_symbol_date-with_files,
}

abbrev bucket : List (Str × List Str)
bucket =
    (str "ticks/symbol=BTC-USD/date=2024-01-02/hour=03", str "p7" ∷ str "p" ∷ str "p8" ∷ [])
    ∷ (str "ticks/symbol=BTC-USD/date=2024-01-02/hour=04", str "p7" ∷ [])
    ∷ []

abbrev day : Str
day = str "2024-01-02"

abbrev stale : Files
stale = (str "/ticks/symbol=BTC-USD/date=2024-01-02", []) ∷ []

transform_symbol_date-Accounts_example : Accounts (
    transform_symbol_date decimal fromisoformat loads
      (pos 5)
      started
      is_empty
      (str "BTC-USD")
      day
      []
      bucket
      stale)
transform_symbol_date-Accounts_example =
    transform_symbol_date-Accounts decimal fromisoformat loads (pos 5) started is_empty
      (str "BTC-USD") day [] bucket stale

transform_symbol_date-with_files_example :
    with_files
      (transform_symbol_date decimal fromisoformat loads
        (pos 5)
        started
        is_empty
        (str "BTC-USD")
        day
        []
        bucket
        stale)
      (transform_symbol_date decimal fromisoformat loads
        (pos 5)
        started
        is_empty
        (str "BTC-USD")
        day
        []
        bucket)
    ≡ transform_symbol_date decimal fromisoformat loads
        (pos 5)
        started
        is_empty
        (str "BTC-USD")
        day
        []
        bucket
        stale
transform_symbol_date-with_files_example =
    transform_symbol_date-with_files decimal fromisoformat loads (pos 5) started is_empty
      (str "BTC-USD") day [] bucket stale

transform_symbol_date-HoldNumbered_example : Leaves HoldNumbered (
    transform_symbol_date decimal fromisoformat loads
      (pos 5)
      started
      is_empty
      (str "BTC-USD")
      day
      []
      bucket
      [])
transform_symbol_date-HoldNumbered_example =
    transform_symbol_date-HoldNumbered decimal fromisoformat loads (pos 5) started is_empty
      (str "BTC-USD") day [] bucket [] refl tt

abbrev arrival : Str → ℕ → Arrival
arrival raw now = record { raw = raw; now = pos now; window_ends = false }

abbrev arrivals : List Arrival
arrivals =
    arrival (str "p7") 1 ∷ arrival (str "q1") 2 ∷ arrival (str "p") 3 ∷ arrival (str "p8") 4 ∷ []

abbrev live : Result Ingestor
live = handle_all decimal noon timed arrivals (new_ingestor true)

abbrev ended : Ingestor
unfolding handle_all handle_message normalize Str-discrete
ended = elim live [ raises ↦ new_ingestor true | returns s ↦ s ]

-- The text p8 was landed twice.
abbrev landed_bucket : List (Str × List Str)
landed_bucket =
    (str "ticks/symbol=p/date=2024-01-02/hour=03", str "p7" ∷ str "p" ∷ str "p8" ∷ [])
    ∷ (str "ticks/symbol=q/date=2024-01-02/hour=03", str "q1" ∷ [])
    ∷ (str "ticks/symbol=p/date=2024-01-02/hour=04", str "p8" ∷ [])
    ∷ []

abbrev rebuilt : Result (SilverTransformResult × Files)
rebuilt =
    transform_symbol_date decimal noon timed (pos 9) (new_ingestor false) is_empty (str "p") day []
      landed_bucket stale

live-ended : live ≡ returns ended
unfolding ended handle_all handle_message normalize Str-discrete
live-ended = refl

rebuilt-reads :
    (dedup [] (read_bronze_lines is_empty (bronze_prefix (str "p") day) landed_bucket)).0
    ≡ texts_of (str "p") ended.landed
unfolding dedup read_bronze_lines splitlines join ended handle_all handle_message normalize
    Str-discrete ℕ_discrete
rebuilt-reads = refl

transform_symbol_date-Writes_example :
    Writes (partition_dir [] (str "p") day) (ticks_of (str "p") ended.published) rebuilt
transform_symbol_date-Writes_example =
    transform_symbol_date-Writes decimal noon timed (pos 9) (str "p") day [] is_empty arrivals ended
      landed_bucket stale live-ended (refl, (refl, (refl, (refl, tt)))) rebuilt-reads

-- Two ticks were published for the symbol, with the numbers 1 and 2.
published_two : map (λ t. t.sequence) (ticks_of (str "p") ended.published) ≡ 1 ∷ 2 ∷ []
unfolding ended handle_all handle_message normalize Str-discrete
published_two = refl
