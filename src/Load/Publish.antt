-- ===== src/Load/Publish.antt =====
-- What a publisher process of loadtest/load_harness.py puts on the stream.
use post_trade_reconciliatio.Prelude.{
  ℕ, zero, suc, ◌+◌, ◌*◌, ◌≡◌, refl, ◌∙◌, false, Option, none, some, List, [], ◌∷◌, ◌++◌, length,
  length-append, arith,
}
use post_trade_reconciliatio.Prelude.Str.{Str, str_eq}
use post_trade_reconciliatio.Prelude.Dict.{lookup_or, insert}
use post_trade_reconciliatio.Models.{DateTime}
use post_trade_reconciliatio.Ingest.{Ingestor}
use post_trade_reconciliatio.Ingest.Numbering.{IsNumbered, publish-IsNumbered}
use post_trade_reconciliatio.Load.{
  synthetic_tick, Publisher, next_tick, or_raise, fill_batch, count_batch, publish_process,
}

-- The publisher's counters and ticks, as an ingestor's.
abbrev pub as_ingestor : Publisher → Ingestor
as_ingestor p = record {
  sequences = p.seqs;
  msg_count = 0;
  total_published = length p.stream;
  published = p.stream;
  has_raw_hook = false;
  landed = [];
}

-- Each symbol's ticks are numbered 1, 2, 3 and so on, and so many ticks are on the stream.
abbrev HasPublished : ℕ → Publisher → Type 0
HasPublished n p = IsNumbered (as_ingestor p) × (length p.stream ≡ n)

-- The step does not raise, and what it leaves has the property.
abbrev pub Succeeds : (Publisher → Type 0) → Option Publisher → Type 0
Succeeds P none = ⊥
Succeeds P (some p) = P p

Succeeds-or_raise :
    (P Q : Publisher → Type 0) (r : Option Publisher) (f : Publisher → Option Publisher)
    → Succeeds P r
    → ((p : Publisher) → P p → Succeeds Q (f p))
    → Succeeds Q (or_raise r f)
Succeeds-or_raise P Q none f h k = h
Succeeds-or_raise P Q (some p) f h k = k p h

put-HasPublished :
    (n : ℕ) (now : DateTime) (symbol : Str) (cycle : List Str) (p : Publisher)
    → HasPublished n p
    → HasPublished (n + 1) (record p {
      cycle = cycle;
      seqs = insert symbol (lookup_or symbol 1 p.seqs + 1) p.seqs;
      stream = p.stream ++ synthetic_tick now symbol (lookup_or symbol 1 p.seqs) ∷ [];
    })
put-HasPublished n now symbol cycle p h =
    let t = synthetic_tick now symbol (lookup_or symbol 1 p.seqs) in
    let k = publish-IsNumbered false t (as_ingestor p) h.0 refl in
    (
      record { next = k.next; numbers = k.numbers; total = refl },
      omega (arith, length-append p.stream (t ∷ []), h.1),
    )

module _ (first : Str) (others : List Str) where
  next_tick-HasPublished :
      (n : ℕ) (now : DateTime) (cycle : List Str) (p : Publisher)
      → HasPublished n p
      → Succeeds
          (λ q. HasPublished (n + 1) q × (q.published ≡ p.published))
          (next_tick now (first ∷ others) cycle p)
  next_tick-HasPublished n now [] p h = (put-HasPublished n now first others p h, refl)
  next_tick-HasPublished n now (symbol ∷ cycle) p h =
      (put-HasPublished n now symbol cycle p h, refl)

  fill_batch-HasPublished :
      (now : DateTime) (size n k : ℕ) (p : Publisher)
      → HasPublished n p
      → p.published ≡ k
      → Succeeds
          (λ q. HasPublished (n + size) q × (q.published ≡ k))
          (fill_batch (first ∷ others) now size p)
  fill_batch-HasPublished now zero n k p h e = ((h.0, omega (arith, h.1)), e)
  fill_batch-HasPublished now (suc size) n k p h e =
      Succeeds-or_raise _ _ (next_tick now (first ∷ others) p.cycle p)
        (fill_batch (first ∷ others) now size) (next_tick-HasPublished n now p.cycle p h)
        (λ q hq. weaken _ (fill_batch-HasPublished now size (n + 1) k q hq.0 (hq.1 ∙ e)))
    where
      weaken :
          (r : Option Publisher)
          → Succeeds (λ q. HasPublished (n + 1 + size) q × (q.published ≡ k)) r
          → Succeeds (λ q. HasPublished (n + suc size) q × (q.published ≡ k)) r
      weaken none hr = hr
      weaken (some q) hr = ((hr.0.0, omega (arith, hr.0.1)), hr.1)

  -- Whenever a publisher process starts a batch, it publishes it whole: it never raises, counts
  -- what it has published, and the ticks of each symbol on the stream are numbered 1, 2, 3 and so
  -- on, if that was so before and it has at least one symbol.
  pub publish_process-IsNumbered :
      (batch_size : ℕ) (readings : List DateTime) (p : Publisher)
      → IsNumbered (as_ingestor p)
      → length p.stream ≡ p.published
      → Succeeds
          (λ q.
            IsNumbered (as_ingestor q)
            × (length q.stream ≡ q.published)
            × (q.published ≡ p.published + batch_size * length readings))
          (publish_process (first ∷ others) batch_size readings p)
  unfolding publish_process
  publish_process-IsNumbered batch_size [] p h e = (h, e, omega arith)
  publish_process-IsNumbered batch_size (now ∷ later) p h e =
      Succeeds-or_raise
        (λ q. HasPublished (p.published + batch_size) q × (q.published ≡ p.published + batch_size))
        _ _ (publish_process (first ∷ others) batch_size later)
        (Succeeds-or_raise
          (λ q. HasPublished (p.published + batch_size) q × (q.published ≡ p.published)) _ _
          (count_batch batch_size)
          (fill_batch-HasPublished now batch_size p.published p.published p (h, e) refl)
          (λ q hq. ((hq.0.0, hq.0.1), omega (arith, hq.1))))
        (λ q hq.
          step _ q hq
            (publish_process-IsNumbered batch_size later q hq.0.0 (omega (arith, hq.0.1, hq.1))))
    where
      step :
          (r : Option Publisher) (q : Publisher)
          → HasPublished (p.published + batch_size) q × (q.published ≡ p.published + batch_size)
          → Succeeds
              (λ s.
                IsNumbered (as_ingestor s)
                × (length s.stream ≡ s.published)
                × (s.published ≡ q.published + batch_size * length later))
              r
          → Succeeds
              (λ s.
                IsNumbered (as_ingestor s)
                × (length s.stream ≡ s.published)
                × (s.published ≡ p.published + batch_size * suc (length later)))
              r
      step none q hq hr = hr
      step (some s) q hq hr = (hr.0, hr.1, grind (arith, hr.2, hq.1))
