-- ===== src/Bronze/Tests.antt =====
-- A writer that flushes at two lines.
use post_trade_reconciliatio.Prelude.{arith, ◌≡◌, refl, List, [], ◌∷◌, ◌++◌}
use post_trade_reconciliatio.Prelude.Str.{Str, str, Str-discrete}
use post_trade_reconciliatio.Bronze.{Writer, partition_key, append, flush_due, flush_all}
use post_trade_reconciliatio.Bronze.Bounds.{IsBounded, do_ops-IsBounded}
use post_trade_reconciliatio.Bronze.Landing.{
  Op, append_line, due, do_ops, landed, appended_to, landed-do_ops,
}

abbrev empty_writer : Writer
empty_writer = record {
  flush_max_lines = 2;
  flush_max_seconds = 10;
  buffers = [];
  buffer_started_at = [];
  total_lines_flushed = 0;
  total_objects_flushed = 0;
  bucket = [];
}

abbrev ops : List Op
ops =
    append_line (str "A") (str "a1") (str "d") (str "h") 0
    ∷ append_line (str "B") (str "b1") (str "d") (str "h") 1
    ∷ append_line (str "A") (str "a2") (str "d") (str "h") 2
    ∷ append_line (str "A") (str "a3") (str "d") (str "h") 3
    ∷ due 11
    ∷ []

abbrev part : Str
part = partition_key (str "A") (str "d") (str "h")

landed-do_ops_example :
    landed part (do_ops ops empty_writer) ≡ landed part empty_writer ++ appended_to part ops
landed-do_ops_example = landed-do_ops part ops empty_writer

-- Two objects are put: the full buffer of A, then the aged one of B.
puts_two : (do_ops ops empty_writer).total_objects_flushed ≡ 2
unfolding append flush_due flush_all Str-discrete
puts_two = refl

empty_writer-IsBounded : IsBounded empty_writer
empty_writer-IsBounded = record {
  buffered = λ p. omega arith;
  threshold = omega arith;
  lines = refl;
  objects = refl;
}

do_ops-IsBounded_example : IsBounded (do_ops ops empty_writer)
do_ops-IsBounded_example = do_ops-IsBounded ops empty_writer empty_writer-IsBounded
