-- ===== src/Discovery.antt =====
-- dataeng/discovery.py: the partitions that the keys of the bronze bucket name. A set is the list
-- of its items in the order in which they were added, each once.
pub mod Found
pub mod Once
pub mod Landed
mod Tests
use post_trade_reconciliatio.Prelude.{
  ℕ, Bool, true, false, not, ◌&&◌, ◌||◌, Option, none, some, List, [], ◌∷◌, ◌++◌, foldl, filter,
  any, is_empty, if◌then◌else◌,
}
use post_trade_reconciliatio.Prelude.Str.{
  Str, str, Str-discrete, Eq, str_eq, nat_eq, same, starts_with,
}
use post_trade_reconciliatio.Prelude.Split.{split, split_once}

-- A symbol and a date.
abbrev pub Partition : Type 0
Partition = Str × Str

unfoldable pub Partition-discrete : Discrete Partition
unfolding Str-discrete
Partition-discrete = hlevel Str-discrete

instance abbrev pub partition_eq : Eq Partition
partition_eq = record { dec = Partition-discrete }

-- `found.add(p)`
abbrev pub add : Partition → List Partition → List Partition
add p found = if any (same p) found then found else found ++ p ∷ []

-- `part.split("=", 1)[1]`
abbrev pub value_of : List Str → Option Str
value_of (name ∷ value ∷ rest) = some value
value_of parts = none

-- What the loop over the parts has found: the symbol and the date.
abbrev pub read_part : Str → Option Str × Option Str → Option Str × Option Str
read_part part (symbol, date) =
    if starts_with (str "symbol=") part
    then (value_of (split_once b'=' part), date)
    else if starts_with (str "date=") part
    then (symbol, value_of (split_once b'=' part))
    else (symbol, date)

abbrev pub read_parts : List Str → Option Str × Option Str → Option Str × Option Str
read_parts [] found = found
read_parts (part ∷ parts) found = read_parts parts (read_part part found)

-- `if symbol and date`
abbrev pub add_named : Option Str × Option Str → List Partition → List Partition
add_named (some symbol, some date) found =
    if is_empty symbol || is_empty date then found else add (symbol, date) found
add_named (_, _) found = found

-- `discover_bronze_partitions`, over the keys of the bucket's objects.
unfoldable pub discover_bronze_partitions : List Str → List Partition
discover_bronze_partitions object_keys =
    foldl (λ found key. add_named (read_parts (split b'/' key) (none, none)) found) []
      (filter (starts_with (str "ticks/")) object_keys)
