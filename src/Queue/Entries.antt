-- ===== src/Queue/Entries.antt =====
-- `_parse_entries` of queue/redis_stream.py over parts of a list of entries.
use post_trade_reconciliatio.Prelude.{
  ◌≡◌, refl, sym, ap, ◌∙◌, true, false, not, Option, none, some, List, [], ◌∷◌, ◌++◌, filter, any,
  Bool-cases, inl, inr,
}
use post_trade_reconciliatio.Prelude.Str.{Str, str_eq, same}
use post_trade_reconciliatio.Models.{Tick}
use post_trade_reconciliatio.Queue.{
  Text, Entry, ConsumedMessage, decoded, get, or_else, data_field, with_message, with_entry,
  parse_entries, read,
}
use post_trade_reconciliatio.Queue.Group.{concat, has_listed_id}

-- Two results one after the other.
abbrev pub both :
    Option (List ConsumedMessage) → Option (List ConsumedMessage) → Option (List ConsumedMessage)
both none r = none
both (some ms) none = none
both (some ms) (some others) = some (ms ++ others)

abbrev pub without : List Str → List ConsumedMessage → List ConsumedMessage
without ids = filter (λ m. not (any (same m.message_id) ids))

-- The second result has the first one's messages but the listed ones, if the first has any.
abbrev pub IsWithout :
    List Str → Option (List ConsumedMessage) → Option (List ConsumedMessage) → Type 0
IsWithout ids none r = Unit
IsWithout ids (some ms) r = r ≡ some (without ids ms)

module _ (validate : Str → Option Tick) where
  abbrev raw_of : Entry → Option Str
  raw_of e = or_else (get true data_field e.fields) (get false data_field e.fields)

  both-with_message :
      (msg_id : Text) (t : Option Tick) (r s : Option (List ConsumedMessage))
      → with_message validate msg_id t (both r s) ≡ both (with_message validate msg_id t r) s
  both-with_message msg_id none r s = refl
  both-with_message msg_id (some t) none s = refl
  both-with_message msg_id (some t) (some ms) none = refl
  both-with_message msg_id (some t) (some ms) (some others) = refl

  both-with_entry :
      (msg_id : Text) (raw : Option Str) (r s : Option (List ConsumedMessage))
      → with_entry validate msg_id raw (both r s) ≡ both (with_entry validate msg_id raw r) s
  both-with_entry msg_id none r s = refl
  both-with_entry msg_id (some raw) r s = both-with_message msg_id (validate raw) r s

  both-nil : (r : Option (List ConsumedMessage)) → r ≡ both (some []) r
  both-nil none = refl
  both-nil (some ms) = refl

  pub parse_entries-append :
      (xs ys : List Entry)
      → parse_entries validate (xs ++ ys)
        ≡ both (parse_entries validate xs) (parse_entries validate ys)
  unfolding parse_entries
  parse_entries-append [] ys = both-nil (parse_entries validate ys)
  parse_entries-append (e ∷ xs) ys =
      ap (with_entry validate e.msg_id (raw_of e)) (parse_entries-append xs ys)
      ∙ both-with_entry e.msg_id (raw_of e) (parse_entries validate xs) (parse_entries validate ys)

  elim-both :
      (r s : Option (List ConsumedMessage))
      → (elim r [
        | none ↦ none
        | some messages ↦ elim s [ none ↦ none | some others ↦ some (messages ++ others) ]
      ])
        ≡ both r s
  elim-both none s = refl
  elim-both (some messages) none = refl
  elim-both (some messages) (some others) = refl

  pub read-concat :
      (response : List (List Entry))
      → read validate response ≡ parse_entries validate (concat response)
  unfolding read parse_entries
  read-concat [] = refl
  read-concat (entries ∷ response) =
      elim-both (parse_entries validate entries) (read validate response)
      ∙ ap (both (parse_entries validate entries)) (read-concat response)
      ∙ sym (parse_entries-append entries (concat response))

  with_message-kept :
      (ids : List Str) (msg_id : Text) (t : Option Tick) (r r' : Option (List ConsumedMessage))
      → any (same (decoded msg_id)) ids ≡ false
      → IsWithout ids r r'
      → IsWithout ids (with_message validate msg_id t r) (with_message validate msg_id t r')
  with_message-kept ids msg_id none r r' e h = tt
  with_message-kept ids msg_id (some t) none r' e h = tt
  with_message-kept ids msg_id (some t) (some ms) r' e h =
      ap (with_message validate msg_id (some t)) h ∙ rw e refl

  with_entry-kept :
      (ids : List Str) (msg_id : Text) (raw : Option Str) (r r' : Option (List ConsumedMessage))
      → any (same (decoded msg_id)) ids ≡ false
      → IsWithout ids r r'
      → IsWithout ids (with_entry validate msg_id raw r) (with_entry validate msg_id raw r')
  with_entry-kept ids msg_id none r r' e h = h
  with_entry-kept ids msg_id (some raw) r r' e h =
      with_message-kept ids msg_id (validate raw) r r' e h

  with_message-dropped :
      (ids : List Str) (msg_id : Text) (t : Option Tick) (r r' : Option (List ConsumedMessage))
      → any (same (decoded msg_id)) ids ≡ true
      → IsWithout ids r r'
      → IsWithout ids (with_message validate msg_id t r) r'
  with_message-dropped ids msg_id none r r' e h = tt
  with_message-dropped ids msg_id (some t) none r' e h = tt
  with_message-dropped ids msg_id (some t) (some ms) r' e h = h ∙ rw e refl

  with_entry-dropped :
      (ids : List Str) (msg_id : Text) (raw : Option Str) (r r' : Option (List ConsumedMessage))
      → any (same (decoded msg_id)) ids ≡ true
      → IsWithout ids r r'
      → IsWithout ids (with_entry validate msg_id raw r) r'
  with_entry-dropped ids msg_id none r r' e h = h
  with_entry-dropped ids msg_id (some raw) r r' e h =
      with_message-dropped ids msg_id (validate raw) r r' e h

  -- Parsing commutes with leaving out the listed ids.
  pub parse_entries-IsWithout :
      (ids : List Str) (es : List Entry)
      → IsWithout ids
          (parse_entries validate es)
          (parse_entries validate (filter (λ e. not (has_listed_id ids e)) es))
  unfolding parse_entries
  parse_entries-IsWithout ids [] = refl
  parse_entries-IsWithout ids (e ∷ es) =
      let rest = parse_entries-IsWithout ids es in
      elim (Bool-cases (has_listed_id ids e)) [
        | inl l ↦ rw l (with_entry-dropped ids e.msg_id (raw_of e) _ _ l rest)
        | inr l ↦ rw l (with_entry-kept ids e.msg_id (raw_of e) _ _ l rest)
      ]
