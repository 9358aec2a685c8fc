-- ===== src/Capture/Landed.antt =====
-- What dataeng/bronze/run_bronze_ingestor.py leaves in the bucket when it ends.
use mathlib.Core.List.{append_assoc, append-nil}
use post_trade_reconciliatio.Prelude.{
  ℕ, ◌≡◌, refl, ap, sym, ◌∙◌, subst, Bool, true, false, Option, none, some, List, [], ◌∷◌, ◌++◌,
  if◌then◌else◌,
}
use post_trade_reconciliatio.Prelude.Str.{Str, str_eq}
use post_trade_reconciliatio.Prelude.Dict.{lookup_or}
use post_trade_reconciliatio.Models.{DateTime}
use post_trade_reconciliatio.Ingest.{
  no_json, not_object, object, Number, Loaded, Result, returns, raises, Ingestor, is_relevant,
  new_ingestor, handle_message,
}
use post_trade_reconciliatio.Ingest.Raising.{is_raises, is_fatal, handle_message-is_raises}
use post_trade_reconciliatio.Bronze.{Writer, partition_key, flush_due, flush_all, new_writer}
use post_trade_reconciliatio.Bronze.Landing.{
  Op, append_line, due, all, do_ops, lines_of, added, appended_to,
}
use post_trade_reconciliatio.Bronze.Flushed.{
  do_ops-append, HasLines, HasLines-flushed, flush_all-buffers, flush_all-lines_of,
}
use post_trade_reconciliatio.Capture.{
  Event, arrives, interval_ends, on_raw_message, capture, run, main,
}

-- The text of a relevant message of a product, in the partition of its arrival.
abbrev pub text_of_product : Str → Option Str → Str → Str → Str → List Str
text_of_product p none raw date hour = []
text_of_product p (some symbol) raw date hour = added p (partition_key symbol date hour) raw

abbrev pub text_of : Str → Loaded → Str → Str → Str → List Str
text_of p no_json raw date hour = []
text_of p not_object raw date hour = []
text_of p (object msg) raw date hour =
    if is_relevant msg.msg_type then text_of_product p msg.product_id raw date hour else []

-- What the handler of a message asks of the writer.
hook_ops : Option Str → Str → Str → Str → ℕ → List Op
hook_ops none raw date hour now = []
hook_ops (some symbol) raw date hour now = append_line symbol raw date hour now ∷ []

capture_ops : Loaded → Str → Str → Str → ℕ → List Op
capture_ops no_json raw date hour now = []
capture_ops not_object raw date hour now = []
capture_ops (object msg) raw date hour now =
    if is_relevant msg.msg_type then hook_ops msg.product_id raw date hour now else []

do_ops-hook_ops :
    (product : Option Str) (raw date hour : Str) (now : ℕ) (w : Writer)
    → do_ops (hook_ops product raw date hour now) w ≡ on_raw_message product raw date hour now w
unfolding hook_ops
do_ops-hook_ops none raw date hour now w = refl
do_ops-hook_ops (some symbol) raw date hour now w = refl

do_ops-if :
    (b : Bool) (ops : List Op) (v w : Writer)
    → do_ops ops w ≡ v
    → do_ops (if b then ops else []) w ≡ (if b then v else w)
do_ops-if true ops v w e = e
do_ops-if false ops v w e = refl

do_ops-capture_ops :
    (msg : Loaded) (raw date hour : Str) (now : ℕ) (w : Writer)
    → do_ops (capture_ops msg raw date hour now) w ≡ capture msg raw date hour now w
unfolding capture_ops
do_ops-capture_ops no_json raw date hour now w = refl
do_ops-capture_ops not_object raw date hour now w = refl
do_ops-capture_ops (object msg) raw date hour now w =
    do_ops-if (is_relevant msg.msg_type) _ _ w (do_ops-hook_ops msg.product_id raw date hour now w)

appended_to-append :
    (p : Str) (ops more : List Op)
    → appended_to p (ops ++ more) ≡ appended_to p ops ++ appended_to p more
appended_to-append p [] more = refl
appended_to-append p (append_line symbol line date hour now ∷ ops) more =
    ap (λ ls. added p (partition_key symbol date hour) line ++ ls) (appended_to-append p ops more)
    ∙ sym (
        append_assoc (added p (partition_key symbol date hour) line) (appended_to p ops)
          (appended_to p more))
appended_to-append p (due now ∷ ops) more = appended_to-append p ops more
appended_to-append p (all ∷ ops) more = appended_to-append p ops more

appended_to-hook_ops :
    (p : Str) (product : Option Str) (raw date hour : Str) (now : ℕ)
    → appended_to p (hook_ops product raw date hour now) ≡ text_of_product p product raw date hour
unfolding hook_ops
appended_to-hook_ops p none raw date hour now = refl
appended_to-hook_ops p (some symbol) raw date hour now =
    append-nil (added p (partition_key symbol date hour) raw)

appended_to-if :
    (p : Str) (b : Bool) (ops : List Op) (texts : List Str)
    → appended_to p ops ≡ texts
    → appended_to p (if b then ops else []) ≡ (if b then texts else [])
appended_to-if p true ops texts e = e
appended_to-if p false ops texts e = refl

appended_to-capture_ops :
    (p : Str) (msg : Loaded) (raw date hour : Str) (now : ℕ)
    → appended_to p (capture_ops msg raw date hour now) ≡ text_of p msg raw date hour
unfolding capture_ops hook_ops
appended_to-capture_ops p no_json raw date hour now = refl
appended_to-capture_ops p not_object raw date hour now = refl
appended_to-capture_ops p (object msg) raw date hour now =
    appended_to-if p (is_relevant msg.msg_type) _ _
      (appended_to-hook_ops p msg.product_id raw date hour now)

appended_to-unless :
    (p : Str) (b : Bool) (ops : List Op) (texts : List Str)
    → appended_to p ops ≡ texts
    → appended_to p (if b then [] else ops) ≡ (if b then [] else texts)
appended_to-unless p true ops texts e = refl
appended_to-unless p false ops texts e = e

module _ (decimal : Str → Number) (fromisoformat : Str → Option DateTime)
    (loads : Str → Loaded) where
  -- The texts of a partition among the events, up to the first message that raises.
  abbrev pub texts : Str → List Event → List Str
  texts p [] = []
  texts p (interval_ends now ∷ events) = texts p events
  texts p (arrives a date hour now ∷ events) =
      text_of p (loads a.raw) a.raw date hour
      ++ (if is_fatal decimal fromisoformat (loads a.raw) then [] else texts p events)

  run_ops : List Event → List Op
  run_ops [] = []
  run_ops (interval_ends now ∷ events) = due now ∷ run_ops events
  run_ops (arrives a date hour now ∷ events) =
      capture_ops (loads a.raw) a.raw date hour now
      ++ (if is_fatal decimal fromisoformat (loads a.raw) then [] else run_ops events)

  run-if :
      (r : Result Ingestor) (b : Bool) (events : List Event) (ops : List Op) (w : Writer)
      → is_raises r ≡ b
      → ((t : Ingestor) → run decimal fromisoformat loads events t w ≡ do_ops ops w)
      → (elim r [ raises ↦ w | returns t ↦ run decimal fromisoformat loads events t w ])
        ≡ do_ops (if b then [] else ops) w
  run-if raises b events ops w e h = rw (sym e) refl
  run-if (returns t) b events ops w e h = rw (sym e) (h t)

  run-run_ops :
      (events : List Event) (s : Ingestor) (w : Writer)
      → run decimal fromisoformat loads events s w ≡ do_ops (run_ops events) w
  unfolding run run_ops
  run-run_ops [] s w = refl
  run-run_ops (interval_ends now ∷ events) s w = run-run_ops events s (flush_due now w)
  run-run_ops (arrives a date hour now ∷ events) s w =
      let msg = loads a.raw in
      let captured = capture msg a.raw date hour now w in
      let more : List Op = if is_fatal decimal fromisoformat msg then [] else run_ops events in
      run-if (handle_message decimal fromisoformat loads a.raw a.now a.window_ends s)
        (is_fatal decimal fromisoformat msg) events (run_ops events) captured
        (handle_message-is_raises decimal fromisoformat loads a.raw a.now a.window_ends s)
        (λ t. run-run_ops events t captured)
      ∙ ap (do_ops more) (sym (do_ops-capture_ops msg a.raw date hour now w))
      ∙ sym (do_ops-append (capture_ops msg a.raw date hour now) more w)

  appended_to-run_ops :
      (p : Str) (events : List Event) → appended_to p (run_ops events) ≡ texts p events
  unfolding run_ops
  appended_to-run_ops p [] = refl
  appended_to-run_ops p (interval_ends now ∷ events) = appended_to-run_ops p events
  appended_to-run_ops p (arrives a date hour now ∷ events) =
      let msg = loads a.raw in
      appended_to-append p (capture_ops msg a.raw date hour now) _
      ∙ rw (appended_to-capture_ops p msg a.raw date hour now) (
          ap (λ ls. text_of p msg a.raw date hour ++ ls)
            (appended_to-unless p (is_fatal decimal fromisoformat msg) _ _
              (appended_to-run_ops p events)))

  -- No object of the bucket is empty.
  pub main-HasLines :
      (flush_max_lines flush_max_seconds : ℕ) (events : List Event)
      → HasLines (main decimal fromisoformat loads flush_max_lines flush_max_seconds events)
  unfolding main
  main-HasLines flush_max_lines flush_max_seconds events =
      let w = new_writer flush_max_lines flush_max_seconds in
      subst (λ v. HasLines (flush_all v)) (sym (run-run_ops events (new_ingestor true) w))
        (HasLines-flushed (run_ops events) w tt)

  -- However `main` ends, the objects of a partition hold, in their order, exactly the texts of the
  -- relevant messages of a product that arrived for it, up to and with the first message that
  -- raises, each once and in their order, and none is left in a buffer.
  pub main-lines_of :
      (p : Str) (flush_max_lines flush_max_seconds : ℕ) (events : List Event)
      → (lines_of p
            (main decimal fromisoformat loads flush_max_lines flush_max_seconds events).bucket
          ≡ texts p events)
        × (lookup_or p []
              (main decimal fromisoformat loads flush_max_lines flush_max_seconds events).buffers
            ≡ [])
  unfolding main
  main-lines_of p flush_max_lines flush_max_seconds events =
      let w = new_writer flush_max_lines flush_max_seconds in
      (
        ap (λ v. lines_of p (flush_all v).bucket) (run-run_ops events (new_ingestor true) w)
            ∙ flush_all-lines_of p (run_ops events) w
            ∙ appended_to-run_ops p events,
        flush_all-buffers p (run decimal fromisoformat loads events (new_ingestor true) w),
      )
