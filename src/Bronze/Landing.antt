-- ===== src/Bronze/Landing.antt =====
-- The lines that dataeng/bronze/bronze_writer.py is given, in its bucket and in its buffers.
use mathlib.Core.List.{append_assoc, append-nil}
use post_trade_reconciliatio.Prelude.{
  ℕ, ◌≡◌, refl, ap, sym, ◌∙◌, Bool, true, false, Option, none, some, List, [], ◌∷◌, ◌++◌, foldl,
  is_empty, length, leb, if◌then◌else◌, arith, Bool-cases, inl, inr,
}
use post_trade_reconciliatio.Prelude.Str.{Str, Str-discrete, same, str_eq}
use post_trade_reconciliatio.Prelude.Dict.{keys, lookup_or, insert, lookup_or-insert}
use post_trade_reconciliatio.Bronze.{
  Writer, partition_key, flush_one, flush_each, flush, append, due_partitions, flush_due, flush_all,
}

-- The lines of a partition's objects, in the order of the objects.
abbrev pub lines_of : Str → List (Str × List Str) → List Str
lines_of p [] = []
lines_of p (o ∷ bucket) = if same o.0 p then o.1 ++ lines_of p bucket else lines_of p bucket

-- The lines of a partition: those in the bucket, then those in its buffer.
abbrev pub landed : Str → Writer → List Str
landed p w = lines_of p w.bucket ++ lookup_or p [] w.buffers

lines_of-snoc :
    (p q : Str) (ls : List Str) (bucket : List (Str × List Str))
    → lines_of p (bucket ++ (q, ls) ∷ []) ≡ lines_of p bucket ++ (if same q p then ls else [])
lines_of-snoc p q ls [] = elim (Bool-cases (same q p)) [
  | inl e ↦ rw e (append-nil ls)
  | inr e ↦ rw e refl
]
lines_of-snoc p q ls (o ∷ bucket) = elim (Bool-cases (same o.0 p)) [
  | inl e ↦
      rw (e, lines_of-snoc p q ls bucket)
        (sym (append_assoc o.1 (lines_of p bucket) (if same q p then ls else [])))
  | inr e ↦ rw (e, lines_of-snoc p q ls bucket) refl
]

-- A buffer that moves to the bucket stays in its place.
moved :
    (p q : Str) (w : Writer)
    → lines_of p w.bucket
        ++ (if same q p then lookup_or q [] w.buffers else [])
        ++ (if same q p then [] else lookup_or p [] w.buffers)
      ≡ landed p w
moved p q w = elim (Str-discrete q p) [
  | yes e ↦ ground (
    arith,
    append-nil (lines_of p w.bucket ++ lookup_or q [] w.buffers),
    ap (λ x. lines_of p w.bucket ++ lookup_or x [] w.buffers) e,
  )
  | no e ↦ ground (arith, append-nil (lines_of p w.bucket))
]

landed-flush_one : (p q : Str) (w : Writer) → landed p (flush_one q w) ≡ landed p w
unfolding flush_one
landed-flush_one p q w = elim (Bool-cases (is_empty (lookup_or q [] w.buffers))) [
  | inl e ↦ rw e refl
  | inr e ↦
      rw
        (
          e,
          lines_of-snoc p q (lookup_or q [] w.buffers) w.bucket,
          lookup_or-insert p q [] [] w.buffers,
        )
        (moved p q w)
]

landed-flush_each : (p : Str) (qs : List Str) (w : Writer) → landed p (flush_each qs w) ≡ landed p w
landed-flush_each p [] w = refl
landed-flush_each p (q ∷ qs) w = landed-flush_each p qs (flush_one q w) ∙ landed-flush_one p q w

landed-flush : (p : Str) (q : Option Str) (w : Writer) → landed p (flush q w) ≡ landed p w
unfolding flush
landed-flush p none w = landed-flush_each p (keys w.buffers) w
landed-flush p (some q) w = elim (Bool-cases (is_empty q)) [
  | inl e ↦ rw e (landed-flush_each p (keys w.buffers) w)
  | inr e ↦ rw e (landed-flush_one p q w)
]

landed-flush_all_of :
    (p : Str) (qs : List Str) (w : Writer)
    → landed p (foldl (λ v q. flush (some q) v) w qs) ≡ landed p w
landed-flush_all_of p [] w = refl
landed-flush_all_of p (q ∷ qs) w =
    landed-flush_all_of p qs (flush (some q) w) ∙ landed-flush p (some q) w

landed-if :
    (p : Str) (b : Bool) (v w : Writer)
    → landed p v ≡ landed p w
    → landed p (if b then v else w) ≡ landed p w
landed-if p true v w e = e
landed-if p false v w e = refl

-- What a line adds to a partition.
abbrev pub added : Str → Str → Str → List Str
added p q line = if same q p then line ∷ [] else []

put :
    (p q line : Str) (w : Writer)
    → lines_of p w.bucket
        ++ lookup_or p [] (insert q (lookup_or q [] w.buffers ++ line ∷ []) w.buffers)
      ≡ landed p w ++ added p q line
put p q line w =
    let found = lookup_or-insert p q [] (lookup_or q [] w.buffers ++ line ∷ []) w.buffers in
    elim (Str-discrete q p) [
      | yes e ↦ ground (
        arith,
        found,
        append_assoc (lines_of p w.bucket) (lookup_or q [] w.buffers) (line ∷ []),
        ap (λ x. lines_of p w.bucket ++ lookup_or x [] w.buffers ++ line ∷ []) e,
      )
      | no e ↦ ground (arith, found, append-nil (landed p w))
    ]

landed-append :
    (p symbol line date hour : Str) (now : ℕ) (w : Writer)
    → landed p (append symbol line date hour now w)
      ≡ landed p w ++ added p (partition_key symbol date hour) line
unfolding append
landed-append p symbol line date hour now w =
    let q = partition_key symbol date hour in
    let buf = lookup_or q [] w.buffers in
    landed-if p (leb w.flush_max_lines (length (buf ++ line ∷ []))) _ _ (landed-flush p (some q) _)
    ∙ put p q line w

-- What is asked of a writer.
pub data Op : Type 0 where
  append_line : (symbol line date hour : Str) → (now : ℕ) → Op
  due : (now : ℕ) → Op
  all : Op

abbrev pub do_op : Op → Writer → Writer
do_op (append_line symbol line date hour now) w = append symbol line date hour now w
do_op (due now) w = flush_due now w
do_op all w = flush_all w

abbrev pub do_ops : List Op → Writer → Writer
do_ops [] w = w
do_ops (o ∷ ops) w = do_ops ops (do_op o w)

-- The lines that are appended to a partition, in their order.
abbrev pub appended_to : Str → List Op → List Str
appended_to p [] = []
appended_to p (append_line symbol line date hour now ∷ ops) =
    added p (partition_key symbol date hour) line ++ appended_to p ops
appended_to p (due now ∷ ops) = appended_to p ops
appended_to p (all ∷ ops) = appended_to p ops

-- Whenever a writer flushes, the objects of a partition in their order and then its buffer hold
-- exactly the lines that were there and those appended to it since, each once and in their order.
pub landed-do_ops :
    (p : Str) (ops : List Op) (w : Writer)
    → landed p (do_ops ops w) ≡ landed p w ++ appended_to p ops
unfolding flush_due flush_all
landed-do_ops p [] w = sym (append-nil (landed p w))
landed-do_ops p (append_line symbol line date hour now ∷ ops) w =
    landed-do_ops p ops (append symbol line date hour now w)
    ∙ ap (λ ls. ls ++ appended_to p ops) (landed-append p symbol line date hour now w)
    ∙ append_assoc (landed p w) (added p (partition_key symbol date hour) line) (appended_to p ops)
landed-do_ops p (due now ∷ ops) w =
    landed-do_ops p ops (flush_due now w)
    ∙ ap (λ ls. ls ++ appended_to p ops) (landed-flush_all_of p (due_partitions now w) w)
landed-do_ops p (all ∷ ops) w =
    landed-do_ops p ops (flush_all w) ∙ ap (λ ls. ls ++ appended_to p ops) (landed-flush p none w)
