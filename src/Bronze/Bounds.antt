-- ===== src/Bronze/Bounds.antt =====
-- The buffers and the counters of dataeng/bronze/bronze_writer.py.
use post_trade_reconciliatio.Prelude.{
  ℕ, ◌+◌, ◌≤◌, ◌<◌, ◌≡◌, refl, ap, true, false, Option, none, some, List, [], ◌∷◌, ◌++◌, foldl,
  is_empty, length, length-append, leb, if◌then◌else◌, arith, Bool-cases, inl, inr,
}
use post_trade_reconciliatio.Prelude.Str.{Str, Str-discrete, same, str_eq}
use post_trade_reconciliatio.Prelude.Dict.{Dict, keys, lookup_or, insert, lookup_or-insert}
use post_trade_reconciliatio.Bronze.{
  Writer, partition_key, flush_one, flush_each, flush, append, due_partitions, flush_due, flush_all,
}
use post_trade_reconciliatio.Bronze.Landing.{Op, append_line, due, all, do_op, do_ops}

abbrev pub count_lines : List (Str × List Str) → ℕ
count_lines [] = 0
count_lines (o ∷ bucket) = length o.1 + count_lines bucket

-- Every buffer is shorter than the threshold, and the counters count what is in the bucket.
pub record IsBounded (w : Writer) : Type 0 where
  pub buffered : (p : Str) → length (lookup_or p [] w.buffers) < w.flush_max_lines
  pub threshold : 1 ≤ w.flush_max_lines
  pub lines : w.total_lines_flushed ≡ count_lines w.bucket
  pub objects : w.total_objects_flushed ≡ length w.bucket

count_lines-snoc :
    (bucket : List (Str × List Str)) (p : Str) (ls : List Str)
    → count_lines (bucket ++ (p, ls) ∷ []) ≡ count_lines bucket + length ls
count_lines-snoc [] p ls = omega arith
count_lines-snoc (o ∷ bucket) p ls = omega (arith, count_lines-snoc bucket p ls)

-- All buffers but one are shorter than the threshold; that one may have reached it.
record IsFilled (q : Str) (w : Writer) : Type 0 where
  others : (p : Str) → same q p ≡ false → length (lookup_or p [] w.buffers) < w.flush_max_lines
  threshold : 1 ≤ w.flush_max_lines
  lines : w.total_lines_flushed ≡ count_lines w.bucket
  objects : w.total_objects_flushed ≡ length w.bucket

filled-IsBounded :
    (q : Str) (w : Writer)
    → IsFilled q w
    → length (lookup_or q [] w.buffers) < w.flush_max_lines
    → IsBounded w
filled-IsBounded q w h short = record {
  buffered = λ p. elim (Str-discrete q p) [
    | yes e ↦ ground (arith, short, ap (λ x. length (lookup_or x [] w.buffers)) e)
    | no e ↦ h.others p (ground arith)
  ];
  threshold = h.threshold;
  lines = h.lines;
  objects = h.objects;
}

is_empty-length : (xs : List Str) → is_empty xs ≡ true → length xs ≡ 0
is_empty-length [] e = refl
is_empty-length (x ∷ xs) e = ground arith

flush_one-IsBounded : (q : Str) (w : Writer) → IsFilled q w → IsBounded (flush_one q w)
unfolding flush_one
flush_one-IsBounded q w h = elim (Bool-cases (is_empty (lookup_or q [] w.buffers))) [
  | inl e ↦ rw e (
      filled-IsBounded q w h (
        let none_there = is_empty-length (lookup_or q [] w.buffers) e in
        omega (arith, none_there, h.threshold)))
  | inr e ↦ rw e (record {
    buffered = λ p. elim (Bool-cases (same q p)) [
      | inl s ↦ rw (lookup_or-insert p q [] [] w.buffers, s) h.threshold
      | inr s ↦ rw (lookup_or-insert p q [] [] w.buffers, s) (h.others p s)
    ];
    threshold = h.threshold;
    lines = ground (arith, h.lines, count_lines-snoc w.bucket q (lookup_or q [] w.buffers));
    objects =
        ground (arith, h.objects, length-append w.bucket ((q, lookup_or q [] w.buffers) ∷ []));
  })
]

bounded-IsFilled : (q : Str) (w : Writer) → IsBounded w → IsFilled q w
bounded-IsFilled q w h = record {
  others = λ p _. h.buffered p;
  threshold = h.threshold;
  lines = h.lines;
  objects = h.objects;
}

flush_each-IsBounded : (qs : List Str) (w : Writer) → IsBounded w → IsBounded (flush_each qs w)
flush_each-IsBounded [] w h = h
flush_each-IsBounded (q ∷ qs) w h =
    flush_each-IsBounded qs (flush_one q w) (flush_one-IsBounded q w (bounded-IsFilled q w h))

flush-IsBounded : (q : Option Str) (w : Writer) → IsBounded w → IsBounded (flush q w)
unfolding flush
flush-IsBounded none w h = flush_each-IsBounded (keys w.buffers) w h
flush-IsBounded (some q) w h = elim (Bool-cases (is_empty q)) [
  | inl e ↦ rw e (flush_each-IsBounded (keys w.buffers) w h)
  | inr e ↦ rw e (flush_one-IsBounded q w (bounded-IsFilled q w h))
]

foldl-flush-IsBounded :
    (qs : List Str) (w : Writer) → IsBounded w → IsBounded (foldl (λ v q. flush (some q) v) w qs)
foldl-flush-IsBounded [] w h = h
foldl-flush-IsBounded (q ∷ qs) w h =
    foldl-flush-IsBounded qs (flush (some q) w) (flush-IsBounded (some q) w h)

-- A line more in one buffer.
put-IsFilled :
    (q line : Str) (started : Dict Str ℕ) (w : Writer)
    → IsBounded w
    → IsFilled q (record w {
      buffers = insert q (lookup_or q [] w.buffers ++ line ∷ []) w.buffers;
      buffer_started_at = started;
    })
put-IsFilled q line started w h = record {
  others = λ p s.
      rw (lookup_or-insert p q [] (lookup_or q [] w.buffers ++ line ∷ []) w.buffers, s)
        (h.buffered p);
  threshold = h.threshold;
  lines = h.lines;
  objects = h.objects;
}

append-IsBounded :
    (symbol line date hour : Str) (now : ℕ) (w : Writer)
    → IsBounded w
    → IsBounded (append symbol line date hour now w)
unfolding append flush
append-IsBounded symbol line date hour now w h =
    let q = partition_key symbol date hour in
    let buf = lookup_or q [] w.buffers in
    let started = if is_empty buf then insert q now w.buffer_started_at else w.buffer_started_at in
    let filled = put-IsFilled q line started w h in
    elim (Bool-cases (leb w.flush_max_lines (length (buf ++ line ∷ [])))) [
      | inl e ↦ rw e (flush_one-IsBounded q _ filled)
      | inr e ↦ rw e (
          filled-IsBounded q _ filled
            (ground (arith, e, lookup_or-insert q q [] (buf ++ line ∷ []) w.buffers)))
    ]

do_op-IsBounded : (o : Op) (w : Writer) → IsBounded w → IsBounded (do_op o w)
unfolding flush_due flush_all
do_op-IsBounded (append_line symbol line date hour now) w h =
    append-IsBounded symbol line date hour now w h
do_op-IsBounded (due now) w h = foldl-flush-IsBounded (due_partitions now w) w h
do_op-IsBounded all w h = flush-IsBounded none w h

-- Whatever a bronze writer with a threshold of at least one line is asked, every buffer stays
-- shorter than the threshold, and its two counters count the lines and the objects of the bucket,
-- if that was so before.
pub do_ops-IsBounded : (ops : List Op) (w : Writer) → IsBounded w → IsBounded (do_ops ops w)
do_ops-IsBounded [] w h = h
do_ops-IsBounded (o ∷ ops) w h = do_ops-IsBounded ops (do_op o w) (do_op-IsBounded o w h)
