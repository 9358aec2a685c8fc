-- ===== src/Bronze/Flushed.antt =====
-- What the bucket of dataeng/bronze/bronze_writer.py holds once everything is flushed, as the
-- ingestor's `main` does when it ends.
use mathlib.Core.List.{append-nil}
use post_trade_reconciliatio.Prelude.{
  ℕ, ◌≡◌, refl, sym, ap, ◌∙◌, subst, Bool, true, false, Option, none, some, List, [], ◌∷◌, ◌++◌,
  foldl, any, All, All-snoc, is_empty, length, leb, if◌then◌else◌, arith, Bool-cases, inl, inr,
}
use post_trade_reconciliatio.Prelude.Str.{Str, Str-discrete, same, str_eq}
use post_trade_reconciliatio.Prelude.Dict.{Dict, keys, lookup_or, lookup_or-insert}
use post_trade_reconciliatio.Bronze.{
  Writer, partition_key, flush_one, flush_each, flush, append, due_partitions, flush_due, flush_all,
}
use post_trade_reconciliatio.Bronze.Landing.{
  Op, append_line, due, all, do_op, do_ops, lines_of, landed, landed-do_ops, added, appended_to,
}

-- A property of writers that a flushed partition and a change of the buffers keep.
module _ (P : Writer → Type 0) (one : (q : Str) (w : Writer) → P w → P (flush_one q w))
    (put : (w : Writer) (bs : Dict Str (List Str)) (started : Dict Str ℕ)
      → P w
      → P (record w { buffers = bs; buffer_started_at = started })) where
  flush_each-keeps : (qs : List Str) (w : Writer) → P w → P (flush_each qs w)
  flush_each-keeps [] w h = h
  flush_each-keeps (q ∷ qs) w h = flush_each-keeps qs (flush_one q w) (one q w h)

  flush-keeps : (q : Option Str) (w : Writer) → P w → P (flush q w)
  unfolding flush
  flush-keeps none w h = flush_each-keeps (keys w.buffers) w h
  flush-keeps (some q) w h = elim (Bool-cases (is_empty q)) [
    | inl e ↦ rw e (flush_each-keeps (keys w.buffers) w h)
    | inr e ↦ rw e (one q w h)
  ]

  foldl-flush-keeps : (qs : List Str) (w : Writer) → P w → P (foldl (λ v q. flush (some q) v) w qs)
  foldl-flush-keeps [] w h = h
  foldl-flush-keeps (q ∷ qs) w h =
      foldl-flush-keeps qs (flush (some q) w) (flush-keeps (some q) w h)

  if-keeps : (b : Bool) (v w : Writer) → P v → P w → P (if b then v else w)
  if-keeps true v w h k = h
  if-keeps false v w h k = k

  pub do_ops-keeps : (ops : List Op) (w : Writer) → P w → P (do_ops ops w)
  unfolding append flush_due flush_all
  do_ops-keeps [] w h = h
  do_ops-keeps (append_line symbol line date hour now ∷ ops) w h =
      let q = partition_key symbol date hour in
      let buf = lookup_or q [] w.buffers in
      let appended = put w _ _ h in
      do_ops-keeps ops (append symbol line date hour now w) (
        if-keeps (leb w.flush_max_lines (length (buf ++ line ∷ []))) _ _
          (flush-keeps (some q) _ appended) appended)
  do_ops-keeps (due now ∷ ops) w h =
      do_ops-keeps ops (flush_due now w) (foldl-flush-keeps (due_partitions now w) w h)
  do_ops-keeps (all ∷ ops) w h = do_ops-keeps ops (flush_all w) (flush-keeps none w h)

-- No object is empty.
abbrev pub HasLines : Writer → Type 0
HasLines w = All (λ o. is_empty o.1 ≡ false) w.bucket

HasLines-flush_one : (q : Str) (w : Writer) → HasLines w → HasLines (flush_one q w)
unfolding flush_one
HasLines-flush_one q w h = elim (Bool-cases (is_empty (lookup_or q [] w.buffers))) [
  | inl e ↦ rw e h
  | inr e ↦ rw e (
      All-snoc (λ (o : Str × List Str). is_empty o.1 ≡ false) (q, lookup_or q [] w.buffers) w.bucket
        h e)
]

pub HasLines-do_ops : (ops : List Op) (w : Writer) → HasLines w → HasLines (do_ops ops w)
HasLines-do_ops = do_ops-keeps HasLines HasLines-flush_one (λ w bs started h. h)

is_empty-nil : (xs : List Str) → is_empty xs ≡ true → xs ≡ []
is_empty-nil [] e = refl
is_empty-nil (x ∷ xs) e = ground arith

lookup_or-flush_one :
    (p q : Str) (w : Writer)
    → lookup_or p [] (flush_one q w).buffers ≡ (if same q p then [] else lookup_or p [] w.buffers)
unfolding flush_one
lookup_or-flush_one p q w = elim (Bool-cases (is_empty (lookup_or q [] w.buffers))) [
  | inl e ↦ rw e (elim (Str-discrete q p) [
    | yes s ↦
        ground
          (arith, is_empty-nil (lookup_or q [] w.buffers) e, ap (λ x. lookup_or x [] w.buffers) s)
    | no s ↦ ground arith
  ])
  | inr e ↦ rw e (lookup_or-insert p q [] [] w.buffers)
]

lookup_or-flush_each :
    (p : Str) (qs : List Str) (w : Writer)
    → lookup_or p [] (flush_each qs w).buffers
      ≡ (if any (same p) qs then [] else lookup_or p [] w.buffers)
lookup_or-flush_each p [] w = refl
lookup_or-flush_each p (q ∷ qs) w = ground (
  arith,
  lookup_or-flush_each p qs (flush_one q w),
  lookup_or-flush_one p q w,
  λ (e : q ≡ p). sym e,
  λ (e : p ≡ q). sym e,
)

lookup_or-absent :
    (p : Str) (d : Dict Str (List Str)) → any (same p) (keys d) ≡ false → lookup_or p [] d ≡ []
lookup_or-absent p [] h = refl
lookup_or-absent p (e ∷ d) h = ground (arith, lookup_or-absent p d, λ (x : e.0 ≡ p). sym x)

pub flush_all-buffers : (p : Str) (w : Writer) → lookup_or p [] (flush_all w).buffers ≡ []
unfolding flush_all flush
flush_all-buffers p w = elim (Bool-cases (any (same p) (keys w.buffers))) [
  | inl e ↦ ground (arith, lookup_or-flush_each p (keys w.buffers) w)
  | inr e ↦
      ground (arith, lookup_or-flush_each p (keys w.buffers) w, lookup_or-absent p w.buffers e)
]

pub do_ops-append :
    (ops more : List Op) (w : Writer) → do_ops (ops ++ more) w ≡ do_ops more (do_ops ops w)
do_ops-append [] more w = refl
do_ops-append (o ∷ ops) more w = do_ops-append ops more (do_op o w)

appended_to-snoc_all :
    (p : Str) (ops : List Op) → appended_to p (ops ++ all ∷ []) ≡ appended_to p ops
appended_to-snoc_all p [] = refl
appended_to-snoc_all p (append_line symbol line date hour now ∷ ops) =
    ap (λ ls. added p (partition_key symbol date hour) line ++ ls) (appended_to-snoc_all p ops)
appended_to-snoc_all p (due now ∷ ops) = appended_to-snoc_all p ops
appended_to-snoc_all p (all ∷ ops) = appended_to-snoc_all p ops

pub HasLines-flushed :
    (ops : List Op) (w : Writer) → HasLines w → HasLines (flush_all (do_ops ops w))
HasLines-flushed ops w h =
    subst HasLines (do_ops-append ops (all ∷ []) w) (HasLines-do_ops (ops ++ all ∷ []) w h)

-- Once everything is flushed at the end, the bucket's objects of a partition hold, in their order,
-- exactly the lines that the writer had of it and those appended to it since.
pub flush_all-lines_of :
    (p : Str) (ops : List Op) (w : Writer)
    → lines_of p (flush_all (do_ops ops w)).bucket ≡ landed p w ++ appended_to p ops
flush_all-lines_of p ops w =
    let end = do_ops ops w in
    sym (append-nil (lines_of p (flush_all end).bucket))
    ∙ ap (λ b. lines_of p (flush_all end).bucket ++ b) (sym (flush_all-buffers p end))
    ∙ ap (landed p) (sym (do_ops-append ops (all ∷ []) w))
    ∙ landed-do_ops p (ops ++ all ∷ []) w
    ∙ ap (λ ls. landed p w ++ ls) (appended_to-snoc_all p ops)
