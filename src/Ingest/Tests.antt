-- ===== src/Ingest/Tests.antt =====
-- The ingestor on the concrete messages of Ingest/Concrete.
use post_trade_reconciliatio.Prelude.{◌≡◌, refl, false, none, some, [], ◌∷◌, arith}
use post_trade_reconciliatio.Prelude.Int.{pos}
use post_trade_reconciliatio.Prelude.Str.{Str, str}
use post_trade_reconciliatio.Ingest.{Arrival, handle_message, handle_all}
use post_trade_reconciliatio.Ingest.Numbering.{IsNumbered, Returns, handle_all-IsNumbered}
use post_trade_reconciliatio.Ingest.Raising.{is_raises, is_fatal, handle_message-is_raises}
use post_trade_reconciliatio.Ingest.Reconnect.{
  first, refused, dropped, closed, run_loop, IsPatient, run_loop-IsPatient, refusals,
}
use post_trade_reconciliatio.Ingest.Concrete.{decimal, fromisoformat, loads, started}

abbrev arrival : Str → Arrival
arrival raw = record { raw = raw; now = pos 5; window_ends = false }

started-IsNumbered : IsNumbered started
started-IsNumbered = record { next = λ symbol. refl; numbers = λ symbol. refl; total = refl }

handle_all-IsNumbered_example : Returns IsNumbered (
    handle_all decimal fromisoformat loads
      (arrival (str "p7") ∷ arrival (str "p") ∷ arrival (str "p8") ∷ [])
      started)
handle_all-IsNumbered_example =
    handle_all-IsNumbered decimal fromisoformat loads
      (arrival (str "p7") ∷ arrival (str "p") ∷ arrival (str "p8") ∷ []) started started-IsNumbered

handle_message-is_raises_example :
    is_raises (handle_message decimal fromisoformat loads (str "p7") (pos 5) false started)
    ≡ is_fatal decimal fromisoformat (loads (str "p7"))
handle_message-is_raises_example =
    handle_message-is_raises decimal fromisoformat loads (str "p7") (pos 5) false started

run_loop-IsPatient_example :
    IsPatient
      (some 2)
      (run_loop (some 2) (refused ∷ dropped ∷ closed ∷ refused ∷ refused ∷ []) first)
run_loop-IsPatient_example =
    run_loop-IsPatient (some 2) (refused ∷ dropped ∷ closed ∷ refused ∷ refused ∷ []) first
      (record { next = (omega arith, omega arith); slept = tt; each = refl; tried = omega arith })

-- The waits of seven refused connections.
doubles : (run_loop none (refusals 7) first).sleeps ≡ 1 ∷ 2 ∷ 4 ∷ 8 ∷ 16 ∷ 30 ∷ 30 ∷ []
unfolding run_loop
doubles = refl
