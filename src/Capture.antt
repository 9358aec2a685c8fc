-- ===== src/Capture.antt =====
-- dataeng/bronze/run_bronze_ingestor.py: the ingestor whose hook is the writer's `append`, beside the
-- task that flushes what is due. The task runs only where the ingestor waits, after the hook.
pub mod Kept
pub mod Landed
pub mod Read
pub mod Rebuilt
mod Tests
use post_trade_reconciliatio.Prelude.{
  ℕ, Bool, true, Option, none, some, List, [], ◌∷◌, if◌then◌else◌,
}
use post_trade_reconciliatio.Prelude.Str.{Str}
use post_trade_reconciliatio.Models.{Decimal, DateTime}
use post_trade_reconciliatio.Ingest.{
  no_json, not_object, object, Number, Loaded, Message, Result, returns, raises, Ingestor, Arrival,
  is_relevant, new_ingestor, handle_message,
}
use post_trade_reconciliatio.Bronze.{Writer, append, flush_due, flush_all, new_writer}

-- What happens while `main` runs: a message, with the date, the hour and the monotonic clock of its
-- `append`, or the end of an interval of `_periodic_flush`.
pub data Event : Type 0 where
  arrives : (a : Arrival) → (date hour : Str) → (now : ℕ) → Event
  interval_ends : (now : ℕ) → Event

-- The hook, of a message that has a product.
abbrev pub on_raw_message : Option Str → Str → Str → Str → ℕ → Writer → Writer
on_raw_message none raw date hour now w = w
on_raw_message (some symbol) raw date hour now w = append symbol raw date hour now w

-- What the handler of a message does to the writer, before it can raise on the message's fields.
abbrev pub capture : Loaded → Str → Str → Str → ℕ → Writer → Writer
capture no_json raw date hour now w = w
capture not_object raw date hour now w = w
capture (object msg) raw date hour now w =
    if is_relevant msg.msg_type then on_raw_message msg.product_id raw date hour now w else w

module _ (decimal : Str → Number) (fromisoformat : Str → Option DateTime)
    (loads : Str → Loaded) where
  -- What happens until `ingestor.run` ends, by a raise or after the last event.
  unfoldable pub run : List Event → Ingestor → Writer → Writer
  run [] s w = w
  run (interval_ends now ∷ events) s w = run events s (flush_due now w)
  run (arrives a date hour now ∷ events) s w =
      let captured = capture (loads a.raw) a.raw date hour now w in
      elim (handle_message decimal fromisoformat loads a.raw a.now a.window_ends s) [
        | raises ↦ captured
        | returns t ↦ run events t captured
      ]

  -- `main`, the writer at its end.
  unfoldable pub main : ℕ → ℕ → List Event → Writer
  unfolding run
  main flush_max_lines flush_max_seconds events =
      flush_all (run events (new_ingestor true) (new_writer flush_max_lines flush_max_seconds))
