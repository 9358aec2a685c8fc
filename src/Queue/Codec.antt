-- ===== src/Queue/Codec.antt =====
-- The publisher and the consumer of queue/redis_stream.py, one against the other.
use post_trade_reconciliatio.Prelude.{
  ◌≡◌, refl, ap, Bool, true, false, Option, some, List, [], ◌∷◌, map, is_empty, All, Bool-cases,
  inl, inr,
}
use post_trade_reconciliatio.Prelude.Str.{Str, Str-discrete, str_eq}
use post_trade_reconciliatio.Models.{Tick}
use post_trade_reconciliatio.Queue.{
  Text, bytes, text, decoded, Entry, ConsumedMessage, data_field, parse_entries, Client, publish,
  publish_batch,
}

-- A stream's entry for a published tick: the field's key comes back as bytes or as text.
pub record Published : Type 0 where
  pub msg_id : Text
  pub as_bytes : Bool
  pub tick : Tick

abbrev pub key_of : Bool → Text
key_of true = bytes data_field
key_of false = text data_field

abbrev pub entry_of : (Tick → Str) → Published → Entry
entry_of dump p = record {
  msg_id = p.msg_id;
  fields = (record { key = key_of p.as_bytes; value = dump p.tick }) ∷ [];
}

abbrev pub message_of : Published → ConsumedMessage
message_of p = record { message_id = decoded p.msg_id; tick = p.tick }

module _ (dump : Tick → Str) (validate : Str → Option Tick) where
  -- The entries of published ticks parse to the ticks, in their order and with the ids of their
  -- entries, whether the client returns bytes or text, if each tick's JSON is not empty and is
  -- validated as the tick.
  pub parse_entries-entry_of :
      (ps : List Published)
      → All (λ p. is_empty (dump p.tick) ≡ false) ps
      → All (λ p. validate (dump p.tick) ≡ some p.tick) ps
      → parse_entries validate (map (entry_of dump) ps) ≡ some (map message_of ps)
  unfolding parse_entries Str-discrete
  parse_entries-entry_of [] full back = refl
  parse_entries-entry_of (p ∷ ps) full back =
      let rest = parse_entries-entry_of ps full.1 back.1 in
      elim (Bool-cases p.as_bytes) [
        | inl e ↦ rw (e, full.0, back.0, rest) refl
        | inr e ↦ rw (e, back.0, rest) refl
      ]

module _ {R : Type 0} (client : Client R) where
  abbrev add_each : List (Str × Str) → R → List Text × R
  add_each [] r = ([], r)
  add_each (c ∷ commands) r =
      let (msg_id, r') = client.xadd c.0 c.1 r in
      let (rest, end) = add_each commands r' in (msg_id ∷ rest, end)

module _ {R : Type 0} (client : Client R) (dump : Tick → Str) where
  abbrev publish_each : List Tick → R → List Str × R
  publish_each [] r = ([], r)
  publish_each (t ∷ ticks) r =
      let (msg_id, r') = publish client dump t r in
      let (rest, end) = publish_each ticks r' in (msg_id ∷ rest, end)

  add_each-publish :
      (ticks : List Tick) (r : R)
      → (let (ids, end) = add_each client (map (λ t. (data_field, dump t)) ticks) r in
          (map decoded ids, end))
        ≡ publish_each ticks r
  unfolding publish
  add_each-publish [] r = refl
  add_each-publish (t ∷ ticks) r =
      let (msg_id, r') = client.xadd data_field (dump t) r in
      ap (λ (p : List Str × R). (decoded msg_id ∷ p.0, p.1)) (add_each-publish ticks r')

  -- `publish_batch` returns the ids and leaves the stream that publishing the ticks one by one
  -- does, if a pipeline carries out its commands in their order.
  publish_batch-publish_each :
      ((commands : List (Str × Str)) (r : R)
        → client.execute commands r ≡ add_each client commands r)
      → (ticks : List Tick) (r : R) → publish_batch client dump ticks r ≡ publish_each ticks r
  unfolding publish_batch
  publish_batch-publish_each ordered [] r = refl
  publish_batch-publish_each ordered (t ∷ ticks) r =
      rw (ordered (map (λ u. (data_field, dump u)) (t ∷ ticks)) r) (add_each-publish (t ∷ ticks) r)
