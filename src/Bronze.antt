-- ===== src/Bronze.antt =====
-- dataeng/bronze/bronze_writer.py: `BronzeWriter` over the bucket that its client puts objects in.
-- An object is its key's partition and its lines, of which its body is made; the uuid that ends its
-- key is left out. The clock
-- of `time.monotonic` is an input, in the unit of `flush_max_seconds`.
pub mod Landing
pub mod Bounds
pub mod Flushed
mod Tests
use post_trade_reconciliatio.Prelude.{
  ℕ, ◌+◌, ◌-◌, Bool, true, false, ◌&&◌, not, Option, none, some, List, [], ◌∷◌, ◌++◌, map, filter,
  foldl, is_empty, length, leb, if◌then◌else◌,
}
use post_trade_reconciliatio.Prelude.Str.{Str, str, str_eq}
use post_trade_reconciliatio.Prelude.Split.{join}
use post_trade_reconciliatio.Prelude.Dict.{Dict, keys, lookup, lookup_or, insert, erase}

pub record Writer : Type 0 where
  pub flush_max_lines : ℕ
  pub flush_max_seconds : ℕ
  pub buffers : Dict Str (List Str)
  pub buffer_started_at : Dict Str ℕ
  pub total_lines_flushed : ℕ
  pub total_objects_flushed : ℕ
  pub bucket : List (Str × List Str)

-- `_partition_key`, of the date's and the hour's text.
abbrev pub partition_key : Str → Str → Str → Str
partition_key symbol date hour =
    str "ticks/symbol=" ++ symbol ++ str "/date=" ++ date ++ str "/hour=" ++ hour

-- The body of an object, `"\n".join(lines) + "\n"`.
abbrev pub object_body : List Str → Str
object_body lines = join 10 lines ++ 10 ∷ []

-- One round of `flush`'s loop.
unfoldable pub flush_one : Str → Writer → Writer
flush_one p w =
    let lines = lookup_or p [] w.buffers in
    if is_empty lines then w else (record w {
      bucket = w.bucket ++ (p, lines) ∷ [];
      total_lines_flushed = w.total_lines_flushed + length lines;
      total_objects_flushed = w.total_objects_flushed + 1;
      buffers = insert p [] w.buffers;
      buffer_started_at = erase p w.buffer_started_at;
    })

abbrev pub flush_each : List Str → Writer → Writer
flush_each ps w = foldl (λ v p. flush_one p v) w ps

-- `flush`; an empty text for the partition is no partition.
unfoldable pub flush : Option Str → Writer → Writer
unfolding flush_one
flush none w = flush_each (keys w.buffers) w
flush (some p) w = if is_empty p then flush_each (keys w.buffers) w else flush_one p w

-- `append`; the date and the hour are those of `received_at`.
unfoldable pub append : Str → Str → Str → Str → ℕ → Writer → Writer
unfolding flush
append symbol raw_message date hour now w =
    let partition = partition_key symbol date hour in
    let buf = lookup_or partition [] w.buffers in
    let started =
      if is_empty buf then insert partition now w.buffer_started_at else w.buffer_started_at in
    let appended = record w {
      buffers = insert partition (buf ++ raw_message ∷ []) w.buffers;
      buffer_started_at = started;
    } in
    if leb w.flush_max_lines (length (buf ++ raw_message ∷ []))
    then flush (some partition) appended
    else appended

-- `due`: what is aged, and not empty.
abbrev pub due_partitions : ℕ → Writer → List Str
due_partitions now w = map (λ e. e.0) (filter is_due w.buffer_started_at)
  where
    is_due : Str × ℕ → Bool
    is_due e = leb w.flush_max_seconds (now - e.1) && not (is_empty (lookup_or e.0 [] w.buffers))

-- `flush_due`
unfoldable pub flush_due : ℕ → Writer → Writer
unfolding flush
flush_due now w = foldl (λ v p. flush (some p) v) w (due_partitions now w)

-- `flush_all`
unfoldable pub flush_all : Writer → Writer
unfolding flush
flush_all w = flush none w

-- `BronzeWriter.__init__`, over an empty bucket.
abbrev pub new_writer : ℕ → ℕ → Writer
new_writer flush_max_lines flush_max_seconds = record {
  flush_max_lines = flush_max_lines;
  flush_max_seconds = flush_max_seconds;
  buffers = [];
  buffer_started_at = [];
  total_lines_flushed = 0;
  total_objects_flushed = 0;
  bucket = [];
}
