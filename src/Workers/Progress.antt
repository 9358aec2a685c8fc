-- ===== src/Workers/Progress.antt =====
-- What `run_worker` of workers/worker.py has written, acked and counted at any moment.
use mathlib.Core.List.{map-append, append_assoc, append-nil}
use post_trade_reconciliatio.Prelude.{
  ℕ, ◌+◌, ◌≡◌, ◌≢◌, ◌⊎◌, inl, inr, refl, sym, ap, subst, ◌∙◌, Bool, true, false, Option, none, some,
  any, List, [], ◌∷◌, ◌++◌, length, length-append, arith,
}
use post_trade_reconciliatio.Prelude.Limits.{IsBelow, IsWithin, below-IsWithin}
use post_trade_reconciliatio.Prelude.Str.{Str}
use post_trade_reconciliatio.Storage.Ticks.{Table}
use post_trade_reconciliatio.Storage.Ticks.Timescale
use post_trade_reconciliatio.Prelude.Sorting.{SortBy}
use post_trade_reconciliatio.Queue.{ConsumedMessage}
use post_trade_reconciliatio.Workers.{
  Status, going, ended, raised, Worker, Read, at_limit, batch_of, next_status, while_going, round,
  handle_read, rounds, start, run_worker,
}
use post_trade_reconciliatio.Workers.Batches.{
  concat, returned, messages_of, message_ids, rows_of, batch_of-IsKept, ack_batch-concat,
  write_ticks_batch-rows_of, next_status-going, next_status-unraised,
}

-- From one state of a worker to a later one `done` has been handled.
pub record Progress (consumer_name : Str) (w w' : Worker Table) (done : List ConsumedMessage)
    : Type 0 where
  pub written : w'.store ≡ w.store ++ rows_of consumer_name done
  pub acked : concat w'.acks ≡ concat w.acks ++ message_ids done
  pub counted : w'.processed ≡ w.processed + length done

Status-cases : (s : Status) → (s ≡ going) ⊎ (s ≡ ended) ⊎ (s ≡ raised)
Status-cases going = inl refl
Status-cases ended = inr (inl refl)
Status-cases raised = inr (inr refl)

Progress-trans :
    (name : Str) (u v w : Worker Table) (ds es : List ConsumedMessage)
    → Progress name u v ds
    → Progress name v w es
    → Progress name u w (ds ++ es)
Progress-trans name u v w ds es p q = record {
  written =
      q.written
      ∙ ap (λ t. t ++ rows_of name es) p.written
      ∙ append_assoc u.store (rows_of name ds) (rows_of name es)
      ∙ ap (◌++◌ u.store) (sym (map-append _ ds es));
  acked =
      q.acked
      ∙ ap (λ t. t ++ message_ids es) p.acked
      ∙ append_assoc (concat u.acks) (message_ids ds) (message_ids es)
      ∙ ap (◌++◌ (concat u.acks)) (sym (map-append _ ds es));
  counted = ground (arith, p.counted, q.counted, length-append ds es);
}

abbrev pub is_none : {A : Type 0} → Option A → Bool
is_none none = true
is_none (some x) = false

module _ (sql : SortBy) (limit max_idle_reads : Option ℕ) (consumer_name : Str) where
  abbrev step : Read → Worker Table → Worker Table
  step = round (Timescale.store sql) limit max_idle_reads consumer_name

  -- What one round makes of a read.
  record IsHandled (r : Read) (w : Worker Table) : Type 0 where
    done : List ConsumedMessage
    rest : List ConsumedMessage
    split : returned r.messages ≡ done ++ rest
    progress : Progress consumer_name w (step r w) done
    within : IsWithin limit (step r w).processed
    raises : (step r w).status ≡ raised → is_none r.messages ≡ true
    goes_on : (step r w).status ≡ going → (rest ≡ []) × IsBelow limit (step r w).processed

  round-IsHandled :
      (messages : Option (List ConsumedMessage)) (stop : Bool) (w : Worker Table)
      → IsBelow limit w.processed
      → IsHandled (record { messages = messages; stop = stop }) w
  unfolding round handle_read
  round-IsHandled none stop w below = record {
    done = [];
    rest = [];
    split = refl;
    progress = record {
      written = sym (append-nil w.store);
      acked = sym (append-nil (concat w.acks));
      counted = omega arith;
    };
    within = below-IsWithin limit w.processed below;
    raises = λ _. refl;
    goes_on = λ e. ground (arith, e);
  }
  round-IsHandled (some []) stop w below = record {
    done = [];
    rest = [];
    split = refl;
    progress = record {
      written = sym (append-nil w.store);
      acked = sym (append-nil (concat w.acks));
      counted = omega arith;
    };
    within = below-IsWithin limit w.processed below;
    raises = λ e. absurd (next_status-unraised stop (at_limit max_idle_reads (w.idle_reads + 1)) e);
    goes_on = λ _. (refl, below);
  }
  round-IsHandled (some (m ∷ ms)) stop w below =
      let batch = batch_of limit w.processed (m ∷ ms) in
      let k = batch_of-IsKept limit w.processed m ms below in
      let full = at_limit limit (w.processed + length batch) in
      let status : (step (record { messages = some (m ∷ ms); stop = stop }) w).status
          ≡ next_status stop full =
        rw k.some_kept refl in
      record {
        done = batch;
        rest = k.rest;
        split = k.split;
        progress = record {
          written = write_ticks_batch-rows_of consumer_name batch w.store;
          acked = ack_batch-concat (message_ids batch) w.acks;
          counted = refl;
        };
        within = k.within;
        raises = λ e. absurd (next_status-unraised stop full (sym status ∙ e));
        goes_on = λ e. k.all_kept (next_status-going stop full (sym status ∙ e));
      }

  -- What the loop makes of the reads: it has handled `done`, and `rest` is read later or never.
  pub record IsRun (reads : List Read) (w w' : Worker Table) : Type 0 where
    pub done : List ConsumedMessage
    pub rest : List ConsumedMessage
    pub split : messages_of reads ≡ done ++ rest
    pub progress : Progress consumer_name w w' done
    pub within : IsWithin limit w'.processed
    pub raises : w'.status ≡ raised → any (λ r. is_none r.messages) reads ≡ true

  rounds-IsRun :
      (reads : List Read) (w : Worker Table)
      → IsBelow limit w.processed
      → w.status ≢ raised
      → IsRun reads w (rounds (Timescale.store sql) limit max_idle_reads consumer_name reads w)
  unfolding rounds
  rounds-IsRun [] w below live = record {
    done = [];
    rest = [];
    split = refl;
    progress = record {
      written = sym (append-nil w.store);
      acked = sym (append-nil (concat w.acks));
      counted = omega arith;
    };
    within = below-IsWithin limit w.processed below;
    raises = λ e. absurd (live e);
  }
  rounds-IsRun (r ∷ reads) w below live =
      let k = round-IsHandled r.messages r.stop w below in
      let rest = rounds (Timescale.store sql) limit max_idle_reads consumer_name reads (step r w) in
      let as_status : (s : Status)
          → (step r w).status ≡ s
          → while_going s rest (step r w)
            ≡ rounds (Timescale.store sql) limit max_idle_reads consumer_name (r ∷ reads) w =
        λ s e. sym (ap (λ x. while_going x rest (step r w)) e) in
      elim (Status-cases (step r w).status) [
        | inl e ↦
            let (whole, still) = k.goes_on e in
            let later = rounds-IsRun reads (step r w) still (λ q. ground (arith, sym e ∙ q)) in
            let read_all : returned r.messages ≡ k.done =
              k.split ∙ ap (◌++◌ k.done) whole ∙ append-nil k.done in
            subst (IsRun (r ∷ reads) w) (as_status going e) (record {
              done = k.done ++ later.done;
              rest = later.rest;
              split =
                  ap (λ ms. ms ++ messages_of reads) read_all
                  ∙ ap (◌++◌ k.done) later.split
                  ∙ sym (append_assoc k.done later.done later.rest);
              progress =
                  Progress-trans consumer_name w (step r w) _ k.done later.done k.progress
                    later.progress;
              within = later.within;
              raises = λ q. ground (arith, later.raises q);
            })
        | inr other ↦ elim other [
          | inl e ↦ subst (IsRun (r ∷ reads) w) (as_status ended e) (record {
            done = k.done;
            rest = k.rest ++ messages_of reads;
            split =
                ap (λ ms. ms ++ messages_of reads) k.split
                ∙ append_assoc k.done k.rest (messages_of reads);
            progress = k.progress;
            within = k.within;
            raises = λ q. ground (arith, sym e ∙ q);
          })
          | inr e ↦ subst (IsRun (r ∷ reads) w) (as_status raised e) (record {
            done = k.done;
            rest = k.rest ++ messages_of reads;
            split =
                ap (λ ms. ms ++ messages_of reads) k.split
                ∙ append_assoc k.done k.rest (messages_of reads);
            progress = k.progress;
            within = k.within;
            raises = λ _. ground (arith, k.raises e);
          })
        ]
      ]

  -- However the reads fall and whenever a signal comes, a worker over the TimescaleDB store raises
  -- only where a read raises, and at the end of its run, also by a raise, it has written the ticks of
  -- a prefix of the messages that it read, in their order, has acked exactly the messages of that
  -- prefix, and has counted them, which stays within `max_messages`, if `max_messages` is at least 1
  -- where it is given.
  pub run_worker-IsRun :
      (reads : List Read) (t : Table)
      → IsBelow limit 0
      → IsRun reads
          (start t)
          (run_worker (Timescale.store sql) limit max_idle_reads consumer_name reads t)
  unfolding run_worker
  run_worker-IsRun reads t below = rounds-IsRun reads (start t) below (λ e. ground arith)
