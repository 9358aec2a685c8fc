-- ===== src/Queue.antt =====
-- queue/redis_stream.py: what is published on the tick stream and what is made of the entries that
-- are read. Redis and pydantic's JSON are parameters.
pub mod Codec
pub mod Group
pub mod Entries
pub mod Recovery
mod Tests
use post_trade_reconciliatio.Prelude.{
  ℕ, Bool, true, false, Option, none, some, List, [], ◌∷◌, ◌++◌, map, is_empty, if◌then◌else◌,
}
use post_trade_reconciliatio.Prelude.Str.{Str, str, Eq, Str-discrete, str_eq, same}
use post_trade_reconciliatio.Prelude.Dict.{Dict, lookup}
use post_trade_reconciliatio.Models.{Tick}

-- What redis-py returns, by the client's `decode_responses`.
pub data Text : Type 0 where
  bytes text : Str → Text

-- The text, decoded if it is bytes; ASCII bytes decode to the same text.
abbrev pub decoded : Text → Str
decoded (bytes s) = s
decoded (text s) = s

abbrev pub is_bytes : Text → Bool
is_bytes (bytes s) = true
is_bytes (text s) = false

pub record Field : Type 0 where
  pub key : Text
  pub value : Str

pub record Entry : Type 0 where
  pub msg_id : Text
  pub fields : List Field

pub record ConsumedMessage : Type 0 where
  pub message_id : Str
  pub tick : Tick

-- `fields.get(key)`: bytes and text are never the same key.
abbrev pub get : Bool → Str → List Field → Option Str
get in_bytes key [] = none
get in_bytes key (f ∷ fields) =
    let rest = get in_bytes key fields in
    if same (decoded f.key) key
    then (if in_bytes
        then (if is_bytes f.key then some f.value else rest)
        else (if is_bytes f.key then rest else some f.value))
    else rest

-- `a or b`, where the value of `a` may be empty.
abbrev pub or_else : Option Str → Option Str → Option Str
or_else none b = b
or_else (some a) b = if is_empty a then b else some a

abbrev pub data_field : Str
data_field = str "data"

module _ (model_validate_json : Str → Option Tick) where
  -- A ValidationError is `none`.
  abbrev pub with_message :
      Text → Option Tick → Option (List ConsumedMessage) → Option (List ConsumedMessage)
  with_message msg_id none rest = none
  with_message msg_id (some tick) none = none
  with_message msg_id (some tick) (some messages) =
      some (record { message_id = decoded msg_id; tick = tick } ∷ messages)

  abbrev pub with_entry :
      Text → Option Str → Option (List ConsumedMessage) → Option (List ConsumedMessage)
  with_entry msg_id none rest = rest
  with_entry msg_id (some raw) rest = with_message msg_id (model_validate_json raw) rest

  -- `_parse_entries`
  unfoldable pub parse_entries : List Entry → Option (List ConsumedMessage)
  parse_entries [] = some []
  parse_entries (e ∷ entries) =
      with_entry e.msg_id (or_else (get true data_field e.fields) (get false data_field e.fields))
        (parse_entries entries)

  -- `StreamConsumer.read` over XREADGROUP's reply: the entries of each stream.
  unfoldable pub read : List (List Entry) → Option (List ConsumedMessage)
  unfolding parse_entries
  read [] = some []
  read (entries ∷ response) =
      let rest = read response in
      elim (parse_entries entries) [
        | none ↦ none
        | some messages ↦ elim rest [ none ↦ none | some others ↦ some (messages ++ others) ]
      ]

-- What the publisher asks of its client, over the client's state `R`.
pub record Client (R : Type 0) : Type 0 where
  pub xadd : Str → Str → R → Text × R
  -- A pipeline's commands in their order, in one round trip.
  pub execute : List (Str × Str) → R → List Text × R

module _ {R : Type 0} (client : Client R) (model_dump_json : Tick → Str) where
  -- `StreamPublisher.publish`
  unfoldable pub publish : Tick → R → Str × R
  publish tick r =
      let (msg_id, r') = client.xadd data_field (model_dump_json tick) r in (decoded msg_id, r')

  -- `StreamPublisher.publish_batch`
  unfoldable pub publish_batch : List Tick → R → List Str × R
  publish_batch ticks r =
      if is_empty ticks
      then ([], r)
      else let (results, r') =
          client.execute (map (λ t. (data_field, model_dump_json t)) ticks) r in
        (map decoded results, r')

-- The ids of the XACK calls of a consumer.
abbrev pub ack : Str → List (List Str) → List (List Str)
ack message_id calls = calls ++ (message_id ∷ []) ∷ []

unfoldable pub ack_batch : List Str → List (List Str) → List (List Str)
ack_batch message_ids calls = if is_empty message_ids then calls else calls ++ message_ids ∷ []
