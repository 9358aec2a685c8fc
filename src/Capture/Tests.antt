-- ===== src/Capture/Tests.antt =====
-- `main` on the concrete messages of Ingest/Concrete, with a writer that flushes at two lines.
use post_trade_reconciliatio.Prelude.{
  ℕ, true, All, is_empty, ℕ_discrete, ◌≡◌, refl, false, List, [], ◌∷◌,
}
use post_trade_reconciliatio.Prelude.Int.{pos}
use post_trade_reconciliatio.Prelude.Str.{Str, str, str_eq, Str-discrete, nat_eq}
use post_trade_reconciliatio.Prelude.Dict.{lookup_or}
use post_trade_reconciliatio.Prelude.Distinct.{is_distinct}
use post_trade_reconciliatio.Prelude.Split.{has_char}
use post_trade_reconciliatio.Ingest.{
  Result, returns, raises, Ingestor, new_ingestor, normalize, handle_message, handle_all,
}
use post_trade_reconciliatio.Ingest.Numbering.{ticks_of}
use post_trade_reconciliatio.Silver.{partition_dir, transform_symbol_date}
use post_trade_reconciliatio.Silver.Landed.{texts_of}
use post_trade_reconciliatio.Silver.Republished.{Writes}
use post_trade_reconciliatio.Capture.Kept.{arrivals_of}
use post_trade_reconciliatio.Capture.Read.{IsFit, IsLine}
use post_trade_reconciliatio.Capture.Rebuilt.{transform_symbol_date-main}
use post_trade_reconciliatio.Ingest.Concrete.{decimal, fromisoformat, loads, timed, noon}
use post_trade_reconciliatio.Bronze.{partition_key, append, flush_due, flush_all}
use post_trade_reconciliatio.Bronze.Landing.{lines_of}
use post_trade_reconciliatio.Capture.{Event, arrives, interval_ends, main}
use post_trade_reconciliatio.Capture.Landed.{texts, main-lines_of}

abbrev arrival : Str → Event
arrival raw = arrives (record { raw = raw; now = pos 5; window_ends = false }) (str "d") (str "h") 0

-- The fourth text is no JSON, and ends the run.
abbrev events : List Event
events =
    arrival (str "p7")
    ∷ arrival (str "p8")
    ∷ arrival (str "p9")
    ∷ interval_ends 3
    ∷ arrival []
    ∷ arrival (str "p1")
    ∷ []

abbrev part : Str
part = partition_key (str "BTC-USD") (str "d") (str "h")

main-lines_of_example :
    (lines_of part (main decimal fromisoformat loads 2 10 events).bucket
      ≡ texts decimal fromisoformat loads part events)
    × (lookup_or part [] (main decimal fromisoformat loads 2 10 events).buffers ≡ [])
main-lines_of_example = main-lines_of decimal fromisoformat loads part 2 10 events

-- The three texts before the one that raises are in the bucket.
captures_three :
    lines_of part (main decimal fromisoformat loads 2 10 events).bucket
    ≡ str "p7" ∷ str "p8" ∷ str "p9" ∷ []
unfolding main handle_message append flush_due flush_all Str-discrete
captures_three = refl

abbrev day : Str
day = str "2024-01-02"

-- Messages of two symbols in one hour; the third has no price.
abbrev timed_arrival : Str → ℕ → Event
timed_arrival raw now =
    arrives (record { raw = raw; now = pos now; window_ends = false }) day (str "03") now

abbrev timed_events : List Event
timed_events =
    timed_arrival (str "p7") 1
    ∷ timed_arrival (str "q1") 2
    ∷ timed_arrival (str "p") 3
    ∷ interval_ends 20
    ∷ timed_arrival (str "p8") 21
    ∷ []

abbrev live : Result Ingestor
live = handle_all decimal noon timed (arrivals_of timed_events) (new_ingestor true)

abbrev ended : Ingestor
unfolding handle_all handle_message normalize Str-discrete
ended = elim live [ raises ↦ new_ingestor true | returns s ↦ s ]

live-ended : live ≡ returns ended
unfolding ended handle_all handle_message normalize Str-discrete
live-ended = refl

ended-distinct : is_distinct (texts_of (str "p") ended.landed) ≡ true
unfolding ended handle_all handle_message normalize Str-discrete
ended-distinct = refl

ended-texts : All (λ line. is_empty line ≡ false) (texts_of (str "p") ended.landed)
unfolding ended handle_all handle_message normalize Str-discrete
ended-texts = (refl, (refl, (refl, tt)))

ended-lines : All IsLine (texts_of (str "p") ended.landed)
unfolding ended handle_all handle_message normalize Str-discrete ℕ_discrete
ended-lines = (refl, (refl, (refl, tt)))

no_slash : has_char b'/' (str "p") ≡ false
unfolding ℕ_discrete
no_slash = refl

plain_events : All (IsFit timed) timed_events
unfolding ℕ_discrete
plain_events = (refl, (refl, (refl, (tt, (refl, tt)))))

transform_symbol_date-main_example :
    Writes (partition_dir [] (str "p") day) (ticks_of (str "p") ended.published) (
      transform_symbol_date decimal noon timed
        (pos 30)
        (new_ingestor false)
        is_empty
        (str "p")
        day
        []
        (main decimal noon timed 2 10 timed_events).bucket
        [])
transform_symbol_date-main_example =
    transform_symbol_date-main decimal noon timed (pos 30) (str "p") day (str "03") [] is_empty 2 10
      timed_events ended [] no_slash plain_events
      ((refl, refl), ((refl, refl), ((refl, refl), (tt, ((refl, refl), tt)))))
      (refl, (refl, (refl, (refl, tt)))) live-ended ended-distinct ended-texts ended-lines
