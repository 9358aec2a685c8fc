-- ===== src/Workers/Batches.antt =====
-- The batch of one round of `run_worker` of workers/worker.py: what is kept of a read, written and
-- acked.
use mathlib.Core.List.{append_assoc, append-nil}
use post_trade_reconciliatio.Prelude.{
  ℕ, zero, suc, ◌+◌, ◌-◌, ◌≤◌, ◌≡◌, ◌≢◌, inl, inr, refl, sym, ap, ◌∙◌, Bool, false, Option, none,
  some, List, [], ◌∷◌, ◌++◌, map, is_empty, length, take, drop, take-append-drop, length-take, ltb,
  arith, Bool-cases,
}
use post_trade_reconciliatio.Prelude.Limits.{IsBelow, IsWithin}
use post_trade_reconciliatio.Prelude.Str.{Str}
use post_trade_reconciliatio.Storage.Rows.{TickRow}
use post_trade_reconciliatio.Storage.Ticks.{Table}
use post_trade_reconciliatio.Storage.Ticks.Timescale
use post_trade_reconciliatio.Queue.{ConsumedMessage, ack_batch}
use post_trade_reconciliatio.Workers.{going, raised, Read, at_limit, batch_of, next_status}

abbrev pub concat : {A : Type 0} → List (List A) → List A
concat [] = []
concat (xs ∷ xss) = xs ++ concat xss

-- The messages of a read; one that raises has none.
abbrev pub returned : Option (List ConsumedMessage) → List ConsumedMessage
returned none = []
returned (some messages) = messages

abbrev pub messages_of : List Read → List ConsumedMessage
messages_of reads = concat (map (λ r. returned r.messages) reads)

abbrev pub message_ids : List ConsumedMessage → List Str
message_ids = map (λ m. m.message_id)

abbrev pub rows_of : Str → List ConsumedMessage → List TickRow
rows_of consumer_name = map (λ m. Timescale.row (some consumer_name) m.tick)

-- The kept part of a read that is not empty.
pub record IsKept (limit : Option ℕ) (n : ℕ) (messages batch : List ConsumedMessage) : Type 0 where
  pub rest : List ConsumedMessage
  pub split : messages ≡ batch ++ rest
  pub some_kept : is_empty batch ≡ false
  pub within : IsWithin limit (n + length batch)
  pub all_kept :
      at_limit limit (n + length batch) ≡ false → (rest ≡ []) × IsBelow limit (n + length batch)

take-is_empty :
    {A : Type 0} (n : ℕ) (x : A) (xs : List A) → 1 ≤ n → is_empty (take n (x ∷ xs)) ≡ false
take-is_empty zero x xs h = ground arith
take-is_empty (suc n) x xs h = refl

pub batch_of-IsKept :
    (limit : Option ℕ) (n : ℕ) (m : ConsumedMessage) (ms : List ConsumedMessage)
    → IsBelow limit n
    → IsKept limit n (m ∷ ms) (batch_of limit n (m ∷ ms))
batch_of-IsKept none n m ms below = record {
  rest = [];
  split = sym (append-nil (m ∷ ms));
  some_kept = refl;
  within = tt;
  all_kept = λ _. (refl, tt);
}
batch_of-IsKept (some limit) n m ms below = elim (Bool-cases (ltb limit (n + length (m ∷ ms)))) [
  | inl e ↦
      let counted = length-take (limit - n) (m ∷ ms) in
      rw e (record {
        rest = drop (limit - n) (m ∷ ms);
        split = sym (take-append-drop (limit - n) (m ∷ ms));
        some_kept = take-is_empty (limit - n) m ms (omega arith);
        within = omega (arith, counted);
        all_kept = λ q. absurd (ground (arith, counted, q));
      })
  | inr e ↦ rw e (record {
    rest = [];
    split = sym (append-nil (m ∷ ms));
    some_kept = refl;
    within = ground (arith, e);
    all_kept = λ q. (refl, ground (arith, q));
  })
]

concat-snoc :
    {A : Type 0} (xss : List (List A)) (xs : List A) → concat (xss ++ xs ∷ []) ≡ concat xss ++ xs
concat-snoc [] xs = append-nil xs
concat-snoc (ys ∷ xss) xs =
    ap (◌++◌ ys) (concat-snoc xss xs) ∙ sym (append_assoc ys (concat xss) xs)

pub ack_batch-concat :
    (ids : List Str) (calls : List (List Str)) → concat (ack_batch ids calls) ≡ concat calls ++ ids
unfolding ack_batch
ack_batch-concat [] calls = sym (append-nil (concat calls))
ack_batch-concat (id ∷ ids) calls = concat-snoc calls (id ∷ ids)

rows_of-ticks :
    (name : Str) (ms : List ConsumedMessage)
    → map (Timescale.row (some name)) (map (λ m. m.tick) ms) ≡ rows_of name ms
rows_of-ticks name [] = refl
rows_of-ticks name (m ∷ ms) = ap (◌∷◌ (Timescale.row (some name) m.tick)) (rows_of-ticks name ms)

pub write_ticks_batch-rows_of :
    (name : Str) (ms : List ConsumedMessage) (t : Table)
    → (Timescale.write_ticks_batch (map (λ m. m.tick) ms) (some name) t).1 ≡ t ++ rows_of name ms
unfolding Timescale.write_ticks_batch
write_ticks_batch-rows_of name [] t = sym (append-nil t)
write_ticks_batch-rows_of name (m ∷ ms) t = ap (◌++◌ t) (rows_of-ticks name (m ∷ ms))

pub next_status-going : (stop full : Bool) → next_status stop full ≡ going → full ≡ false
next_status-going stop full e = ground arith

pub next_status-unraised : (stop full : Bool) → next_status stop full ≢ raised
next_status-unraised stop full e = ground arith
