-- ===== src/Simulate/Emitted.antt =====
-- The fills that `run` of simulate/trade_book_simulator.py emits and the messages that it acks.
use mathlib.Core.List.{append_assoc, append-nil, map-append}
use post_trade_reconciliatio.Prelude.{
  ℕ, ◌+◌, ◌≡◌, refl, sym, ap, subst, ◌∙◌, Bool, true, false, ◌&&◌, Option, none, some, List, [],
  ◌∷◌, ◌++◌, map, if◌then◌else◌, arith, inl, inr, Bool-cases,
}
use post_trade_reconciliatio.Prelude.Limits.{IsBelow, IsWithin, below-IsWithin}
use post_trade_reconciliatio.Prelude.Str.{Str, str_eq}
use post_trade_reconciliatio.Storage.Ticks.{TickStore}
use post_trade_reconciliatio.Simulate.{Simulator, handle}
use post_trade_reconciliatio.Simulate.Runs.{
  Delivery, Run, reached, run_message, run_batch, run_reads, run,
}
use post_trade_reconciliatio.Simulate.Counted.{handle-fills_emitted}

abbrev pub ids_of : List Delivery → List Str
ids_of = map (λ m. m.message_id)

abbrev pub all_messages : List (List Delivery) → List Delivery
all_messages [] = []
all_messages (batch ∷ reads) = batch ++ all_messages reads

-- The simulator after it has handled the messages, one after another.
abbrev pub handle_each : {S : Type 0} → TickStore S → List Delivery → Simulator S → Simulator S
handle_each store [] s = s
handle_each store (m ∷ ms) s = handle_each store ms (handle store m.tick m.draws s)

handle_each-append :
    {S : Type 0} (store : TickStore S) (ms more : List Delivery) (s : Simulator S)
    → handle_each store (ms ++ more) s ≡ handle_each store more (handle_each store ms s)
handle_each-append store [] more s = refl
handle_each-append store (m ∷ ms) more s =
    handle_each-append store ms more (handle store m.tick m.draws s)

-- From one state of a run to a later one the messages `done` of those that were read are handled,
-- one after another, and acked, and no others.
pub record IsAcked {S : Type 0} (store : TickStore S) (max_fills : Option ℕ) (ms : List Delivery)
    (r r' : Run S) : Type 0 where
  pub done : List Delivery
  pub rest : List Delivery
  pub split : ms ≡ done ++ rest
  pub handled : r'.sim ≡ handle_each store done r.sim
  pub acked : r'.acked ≡ r.acked ++ ids_of done
  pub within : IsWithin max_fills r'.sim.fills_emitted
  pub goes_on : r'.ended ≡ false → (rest ≡ []) × IsBelow max_fills r'.sim.fills_emitted

-- One fill more keeps within a limit, and below it if the limit is not reached.
emitted-IsWithin :
    (limit : Option ℕ) (trades : Bool) (n n' : ℕ)
    → IsBelow limit n
    → n' ≡ (if trades then n + 1 else n)
    → IsWithin limit n' × (trades && reached limit n' ≡ false → IsBelow limit n')
emitted-IsWithin none trades n n' below e = (tt, λ _. tt)
emitted-IsWithin (some limit) true n n' below e = (omega (arith, e), λ q. ground (arith, q))
emitted-IsWithin (some limit) false n n' below e = (omega (arith, e), λ q. omega (arith, e))

IsAcked-trans :
    {S : Type 0} (store : TickStore S) (limit : Option ℕ) (ms more : List Delivery) (u v w : Run S)
    → IsAcked store limit ms u v
    → v.ended ≡ false
    → IsAcked store limit more v w
    → IsAcked store limit (ms ++ more) u w
IsAcked-trans store limit ms more u v w h e k = record {
  done = h.done ++ k.done;
  rest = k.rest;
  split =
      ap (λ xs. xs ++ more) (h.split ∙ ap (◌++◌ h.done) (h.goes_on e).0 ∙ append-nil h.done)
      ∙ ap (◌++◌ h.done) k.split
      ∙ sym (append_assoc h.done k.done k.rest);
  handled =
      k.handled
      ∙ ap (handle_each store k.done) h.handled
      ∙ sym (handle_each-append store h.done k.done u.sim);
  acked =
      k.acked
      ∙ ap (λ xs. xs ++ ids_of k.done) h.acked
      ∙ append_assoc u.acked (ids_of h.done) (ids_of k.done)
      ∙ ap (◌++◌ u.acked) (sym (map-append _ h.done k.done));
  within = k.within;
  goes_on = k.goes_on;
}

-- A run that has ended leaves the later messages.
IsAcked-ended :
    {S : Type 0} (store : TickStore S) (limit : Option ℕ) (ms more : List Delivery) (u v : Run S)
    → IsAcked store limit ms u v
    → v.ended ≡ true
    → IsAcked store limit (ms ++ more) u v
IsAcked-ended store limit ms more u v h e = record {
  done = h.done;
  rest = h.rest ++ more;
  split = ap (λ xs. xs ++ more) h.split ∙ append_assoc h.done h.rest more;
  handled = h.handled;
  acked = h.acked;
  within = h.within;
  goes_on = λ f. absurd (clash (sym e ∙ f));
}
  where
    clash : true ≡ false → ⊥
    clash c = cc

module _ {S : Type 0} (store : TickStore S) (max_fills max_idle_reads : Option ℕ) where
  run_message-IsAcked :
      (m : Delivery) (r : Run S)
      → IsBelow max_fills r.sim.fills_emitted
      → IsAcked store max_fills (m ∷ []) r (run_message store max_fills max_idle_reads m r)
  unfolding run_message
  run_message-IsAcked m r below =
      let (within, goes_on) =
        emitted-IsWithin max_fills m.draws.trades r.sim.fills_emitted _ below
          (handle-fills_emitted store m.tick m.draws r.sim) in
      record {
        done = m ∷ [];
        rest = [];
        split = refl;
        handled = refl;
        acked = refl;
        within = within;
        goes_on = λ e. (refl, goes_on e);
      }

  run_batch-IsAcked :
      (ms : List Delivery) (r : Run S)
      → r.ended ≡ false
      → IsBelow max_fills r.sim.fills_emitted
      → IsAcked store max_fills ms r (run_batch store max_fills max_idle_reads ms r)
  unfolding run_batch
  run_batch-IsAcked [] r live below = record {
    done = [];
    rest = [];
    split = refl;
    handled = refl;
    acked = sym (append-nil r.acked);
    within = below-IsWithin max_fills r.sim.fills_emitted below;
    goes_on = λ _. (refl, below);
  }
  run_batch-IsAcked (m ∷ ms) r live below =
      let r' = run_message store max_fills max_idle_reads m r in
      let rest = run_batch store max_fills max_idle_reads ms r' in
      let k = run_message-IsAcked m r below in
      elim (Bool-cases r'.ended) [
        | inl e ↦
            subst (IsAcked store max_fills (m ∷ ms) r) (sym (ap (λ b. if b then r' else rest) e))
              (IsAcked-ended store max_fills (m ∷ []) ms r r' k e)
        | inr e ↦
            subst (IsAcked store max_fills (m ∷ ms) r) (sym (ap (λ b. if b then r' else rest) e)) (
              IsAcked-trans store max_fills (m ∷ []) ms r r' rest k e
                (run_batch-IsAcked ms r' e (k.goes_on e).1))
      ]

  run_reads-IsAcked :
      (idle : ℕ) (reads : List (List Delivery)) (r : Run S)
      → r.ended ≡ false
      → IsBelow max_fills r.sim.fills_emitted
      → IsAcked store max_fills
          (all_messages reads)
          r
          (run_reads store max_fills max_idle_reads idle reads r)
  unfolding run_reads
  run_reads-IsAcked idle [] r live below = record {
    done = [];
    rest = [];
    split = refl;
    handled = refl;
    acked = sym (append-nil r.acked);
    within = below-IsWithin max_fills r.sim.fills_emitted below;
    goes_on = λ _. (refl, below);
  }
  run_reads-IsAcked idle ([] ∷ reads) r live below =
      let rest = run_reads store max_fills max_idle_reads (idle + 1) reads r in
      elim (Bool-cases (reached max_idle_reads (idle + 1))) [
        | inl e ↦
            subst (IsAcked store max_fills (all_messages reads) r)
              (sym (ap (λ b. if b then record r { ended = true } else rest) e))
              (record {
                done = [];
                rest = all_messages reads;
                split = refl;
                handled = refl;
                acked = sym (append-nil r.acked);
                within = below-IsWithin max_fills r.sim.fills_emitted below;
                goes_on = λ f. absurd (clash f);
              })
        | inr e ↦
            subst (IsAcked store max_fills (all_messages reads) r)
              (sym (ap (λ b. if b then record r { ended = true } else rest) e))
              (run_reads-IsAcked (idle + 1) reads r live below)
      ]
    where
      clash : true ≡ false → ⊥
      clash c = cc
  run_reads-IsAcked idle ((m ∷ ms) ∷ reads) r live below =
      let r' = run_batch store max_fills max_idle_reads (m ∷ ms) r in
      let rest = run_reads store max_fills max_idle_reads 0 reads r' in
      let k = run_batch-IsAcked (m ∷ ms) r live below in
      elim (Bool-cases r'.ended) [
        | inl e ↦
            subst (IsAcked store max_fills (all_messages ((m ∷ ms) ∷ reads)) r)
              (sym (ap (λ b. if b then r' else rest) e))
              (IsAcked-ended store max_fills (m ∷ ms) (all_messages reads) r r' k e)
        | inr e ↦
            subst (IsAcked store max_fills (all_messages ((m ∷ ms) ∷ reads)) r)
              (sym (ap (λ b. if b then r' else rest) e))
              (IsAcked-trans store max_fills (m ∷ ms) (all_messages reads) r r' rest k e
                (run_reads-IsAcked 0 reads r' e (k.goes_on e).1))
      ]

  -- A run handles a prefix of the messages that it reads, one after another, and acks each of these
  -- once, in their order, and no message that it has not handled; with `max_fills` it emits at most
  -- that many fills, if it starts below them; it has handled every message where it goes on.
  pub run-IsAcked :
      (reads : List (List Delivery)) (s : Simulator S)
      → IsBelow max_fills s.fills_emitted
      → IsAcked store max_fills
          (all_messages reads)
          (record { sim = s; acked = []; ended = false })
          (run store max_fills max_idle_reads reads s)
  unfolding run
  run-IsAcked reads s below =
      run_reads-IsAcked 0 reads (record { sim = s; acked = []; ended = false }) refl below
