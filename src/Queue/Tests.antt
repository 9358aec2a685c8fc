-- ===== src/Queue/Tests.antt =====
-- A client of one list of values, and JSON that writes a tick's sequence only.
use mathlib.Core.List.{append-nil}
use post_trade_reconciliatio.Prelude.{
  ℕ, zero, suc, ◌≤◌, ◌≡◌, refl, ap, sym, true, false, not, Option, none, some, List, [], ◌∷◌, ◌++◌,
  map, take, drop, filter, length, arith, ℕ_discrete,
}
use post_trade_reconciliatio.Prelude.Int.{pos}
use post_trade_reconciliatio.Prelude.Str.{Str, str, Str-discrete}
use post_trade_reconciliatio.Models.{Tick, simulated}
use post_trade_reconciliatio.Queue.{
  Text, bytes, text, Client, publish_batch, parse_entries, Entry, data_field,
}
use post_trade_reconciliatio.Queue.Codec.{entry_of, message_of, parse_entries-entry_of}
use post_trade_reconciliatio.Queue.Group.{Group, has_listed_id, create_group, claim_stale}
use post_trade_reconciliatio.Queue.Recovery.{Event, reads, acks, Recovers, traced, traced-Recovers}

abbrev tick : Tick
tick = record {
  symbol = str "BTC-USD";
  sequence = 7;
  price = pos 100;
  size = none;
  side = none;
  exchange = simulated;
  channel = str "ticker";
  exchange_timestamp = pos 0;
  ingest_timestamp = pos 1;
}

abbrev append_one : Str → Str → List Str → Text × List Str
append_one key value r = (bytes value, r ++ value ∷ [])

abbrev execute_all : List (Str × Str) → List Str → List Text × List Str
execute_all [] r = ([], r)
execute_all (c ∷ commands) r =
    let (msg_id, r') = append_one c.0 c.1 r in
    let (rest, end) = execute_all commands r' in (msg_id ∷ rest, end)

abbrev client : Client (List Str)
client = record { xadd = append_one; execute = execute_all }

abbrev dump : Tick → Str
dump t = t.sequence ∷ []

-- A batch of two, as two calls would publish it.
publishes_two : (publish_batch client dump (tick ∷ tick ∷ []) []).0 ≡ (7 ∷ []) ∷ (7 ∷ []) ∷ []
unfolding publish_batch
publishes_two = refl

abbrev validate : Str → Option Tick
validate json = some tick

parse_entries-entry_of_example :
    parse_entries validate (
      map (entry_of dump) (
        (record { msg_id = bytes (str "1-0"); as_bytes = true; tick = tick })
        ∷ (record { msg_id = text (str "1-1"); as_bytes = false; tick = tick })
        ∷ []))
    ≡ some (
        map message_of (
          (record { msg_id = bytes (str "1-0"); as_bytes = true; tick = tick })
          ∷ (record { msg_id = text (str "1-1"); as_bytes = false; tick = tick })
          ∷ []))
parse_entries-entry_of_example =
    parse_entries-entry_of dump validate
      ((record { msg_id = bytes (str "1-0"); as_bytes = true; tick = tick })
        ∷ (record { msg_id = text (str "1-1"); as_bytes = false; tick = tick })
        ∷ [])
      (refl, (refl, tt)) (refl, (refl, tt))

-- A group of entries that have been delivered and entries that have not, numbered from 1.
record State : Type 0 where
  waiting : List Entry
  given : List Entry

abbrev entry : Str → Entry
entry id = record {
  msg_id = text id;
  fields = (record { key = text data_field; value = str "tick" }) ∷ [];
}

abbrev give : Str → ℕ → State → List (List Entry) × State
give consumer n g = (
  take n g.waiting ∷ [],
  record { waiting = drop n g.waiting; given = g.given ++ take n g.waiting },
)

abbrev claim : Str → ℕ → ℕ → State → List Entry × State
claim consumer min_idle n g = (take n g.given, g)

abbrev settle : List Str → State → State
settle ids g = record g { given = filter (λ e. not (has_listed_id ids e)) g.given }

take-all : (n : ℕ) (es : List Entry) → length es ≤ n → take n es ≡ es
take-all zero [] h = refl
take-all zero (e ∷ es) h = ground (arith, h)
take-all (suc n) [] h = refl
take-all (suc n) (e ∷ es) h = ap (◌∷◌ e) (take-all n es (omega (arith, h)))

abbrev group : Group State
group = record {
  xgroup_create = λ g. (some (str "BUSYGROUP Consumer Group name already exists"), g);
  xreadgroup = give;
  xautoclaim = claim;
  xack = settle;
  xpending = λ g. some (length g.given);
  pending = λ g. g.given;
  pending_read = λ consumer n g. ap (λ es. g.given ++ es) (sym (append-nil (take n g.waiting)));
  pending_claim = λ consumer min_idle n g. refl;
  pending_ack = λ ids g. refl;
  claimed = λ consumer n g few. take-all n g.given few;
  counted = λ g. refl;
}

abbrev three : State
three = record {
  waiting = entry (str "1-0") ∷ entry (str "2-0") ∷ entry (str "3-0") ∷ [];
  given = [];
}

-- A worker reads two messages, acks the first and reads no more.
abbrev events : List Event
events = reads (str "w") 2 ∷ acks (str "1-0" ∷ []) ∷ []

traced-Recovers_example : Recovers group validate [] (traced group validate events three)
unfolding parse_entries
traced-Recovers_example = traced-Recovers group validate events three [] refl

-- Another worker claims the second.
claims_second :
    (claim_stale group validate
      (str "v")
      0
      100
      (settle (str "1-0" ∷ []) (give (str "w") 2 three).1)).0
    ≡ some ((record { message_id = str "2-0"; tick = tick }) ∷ [])
unfolding claim_stale parse_entries Str-discrete ℕ_discrete
claims_second = refl

-- A group that is there already is no error.
swallows_busy : create_group group three ≡ some three
unfolding create_group ℕ_discrete
swallows_busy = refl
