-- ===== src/Queue/Recovery.antt =====
-- What the pending entries of a consumer group in queue/redis_stream.py keep of its deliveries.
use post_trade_reconciliatio.Prelude.{
  ℕ, ◌≤◌, ◌≡◌, refl, sym, ap, subst, ◌∙◌, not, Option, none, some, List, [], ◌∷◌, ◌++◌, filter,
  arith,
}
use post_trade_reconciliatio.Prelude.Str.{Str, str_eq}
use post_trade_reconciliatio.Models.{Tick}
use post_trade_reconciliatio.Queue.{ConsumedMessage, parse_entries, read}
use post_trade_reconciliatio.Queue.Group.{
  concat, has_listed_id, Group, ack_batch, pending_count, read_group, claim_stale,
}
use post_trade_reconciliatio.Queue.Entries.{
  both, without, IsWithout, read-concat, parse_entries-append, parse_entries-IsWithout,
}

-- What consumers of the group do: any of them reads, claims or acks.
pub data Event : Type 0 where
  reads : (consumer : Str) → (count : ℕ) → Event
  claims : (consumer : Str) → (min_idle_ms count : ℕ) → Event
  acks : (message_ids : List Str) → Event

-- What they have seen of it.
pub data Trace : Type 0 where
  delivered : List ConsumedMessage → Trace
  redelivered : List ConsumedMessage → Trace
  acked : List Str → Trace

-- The messages delivered and not acked since, on top of those open before.
abbrev pub unacked : List ConsumedMessage → List Trace → List ConsumedMessage
unacked open_ones [] = open_ones
unacked open_ones (delivered ms ∷ trace) = unacked (open_ones ++ ms) trace
unacked open_ones (redelivered ms ∷ trace) = unacked open_ones trace
unacked open_ones (acked ids ∷ trace) = unacked (without ids open_ones) trace

without-nothing : (ms : List ConsumedMessage) → without [] ms ≡ ms
without-nothing [] = refl
without-nothing (m ∷ ms) = ap (◌∷◌ m) (without-nothing ms)

module _ {G : Type 0} where
  abbrev after_messages :
      (List ConsumedMessage → Trace)
      → Option (List ConsumedMessage)
      → Option (List Trace × G)
      → Option (List Trace × G)
  after_messages seen none rest = none
  after_messages seen (some ms) none = none
  after_messages seen (some ms) (some (trace, g)) = some (seen ms ∷ trace, g)

  abbrev after_ack : List Str → Option (List Trace × G) → Option (List Trace × G)
  after_ack ids none = none
  after_ack ids (some (trace, g)) = some (acked ids ∷ trace, g)

pending_summary :
    (summary : Option ℕ) (n : ℕ)
    → summary ≡ some n
    → (elim summary [ none ↦ 0 | some pending ↦ pending ]) ≡ n
pending_summary none n e = ground (arith, e)
pending_summary (some pending) n e = ground (arith, e)

module _ {G : Type 0} (group : Group G) (validate : Str → Option Tick) where
  -- None if some read or claim raises.
  abbrev pub traced : List Event → G → Option (List Trace × G)
  traced [] g = some ([], g)
  traced (reads consumer count ∷ events) g =
      let (ms, g') = read_group group validate consumer count g in
      after_messages delivered ms (traced events g')
  traced (claims consumer min_idle_ms count ∷ events) g =
      let (ms, g') = claim_stale group validate consumer min_idle_ms count g in
      after_messages redelivered ms (traced events g')
  traced (acks message_ids ∷ events) g =
      after_ack message_ids (traced events (ack_batch group message_ids g))

  -- A consumer that claims every pending entry gets the messages that are open.
  abbrev pub Recovers : List ConsumedMessage → Option (List Trace × G) → Type 0
  Recovers open_ones none = Unit
  Recovers open_ones (some (trace, g)) =
      (consumer : Str) (count : ℕ)
      → pending_count group g ≤ count
      → (claim_stale group validate consumer 0 count g).0 ≡ some (unacked open_ones trace)

  after_read-Recovers :
      (open_ones : List ConsumedMessage) (r : Option (List ConsumedMessage))
      (rest : Option (List Trace × G))
      → ((ms : List ConsumedMessage) → r ≡ some ms → Recovers (open_ones ++ ms) rest)
      → Recovers open_ones (after_messages delivered r rest)
  after_read-Recovers open_ones none rest h = tt
  after_read-Recovers open_ones (some ms) none h = tt
  after_read-Recovers open_ones (some ms) (some (trace, g)) h = h ms refl

  after_claim-Recovers :
      (open_ones : List ConsumedMessage) (r : Option (List ConsumedMessage))
      (rest : Option (List Trace × G))
      → Recovers open_ones rest
      → Recovers open_ones (after_messages redelivered r rest)
  after_claim-Recovers open_ones none rest h = tt
  after_claim-Recovers open_ones (some ms) none h = tt
  after_claim-Recovers open_ones (some ms) (some (trace, g)) h = h

  after_ack-Recovers :
      (open_ones : List ConsumedMessage) (ids : List Str) (rest : Option (List Trace × G))
      → Recovers (without ids open_ones) rest
      → Recovers open_ones (after_ack ids rest)
  after_ack-Recovers open_ones ids none h = tt
  after_ack-Recovers open_ones ids (some (trace, g)) h = h

  pending-read :
      (consumer : Str) (count : ℕ) (g : G) (open_ones ms : List ConsumedMessage)
      → parse_entries validate (group.pending g) ≡ some open_ones
      → read validate (group.xreadgroup consumer count g).0 ≡ some ms
      → parse_entries validate (group.pending (group.xreadgroup consumer count g).1)
        ≡ some (open_ones ++ ms)
  pending-read consumer count g open_ones ms h e =
      let response = (group.xreadgroup consumer count g).0 in
      ap (parse_entries validate) (group.pending_read consumer count g)
      ∙ parse_entries-append validate (group.pending g) (concat response)
      ∙ ap (λ r. both r (parse_entries validate (concat response))) h
      ∙ ap (both (some open_ones)) (sym (read-concat validate response) ∙ e)

  pending-ack :
      (ids : List Str) (g : G) (open_ones : List ConsumedMessage)
      → parse_entries validate (group.pending g) ≡ some open_ones
      → parse_entries validate (group.pending (ack_batch group ids g))
        ≡ some (without ids open_ones)
  unfolding ack_batch
  pending-ack [] g open_ones h = h ∙ ap some (sym (without-nothing open_ones))
  pending-ack (i ∷ ids) g open_ones h =
      ap (parse_entries validate) (group.pending_ack (i ∷ ids) g)
      ∙ subst
          (λ r. IsWithout (i ∷ ids) r (
            parse_entries validate
              (filter (λ e. not (has_listed_id (i ∷ ids) e)) (group.pending g))))
          h (parse_entries-IsWithout validate (i ∷ ids) (group.pending g))

  -- Whatever the consumers of a group do, as long as no read or claim raises, a consumer that then
  -- claims all pending entries gets exactly the messages that were delivered, or open before, and
  -- that nobody has acked since, in the order of their delivery.
  pub traced-Recovers :
      (events : List Event) (g : G) (open_ones : List ConsumedMessage)
      → parse_entries validate (group.pending g) ≡ some open_ones
      → Recovers open_ones (traced events g)
  unfolding read_group claim_stale pending_count
  traced-Recovers [] g open_ones h = λ consumer count few.
      ap (parse_entries validate) (
        group.claimed consumer count g
          (subst (λ n. n ≤ count) (pending_summary (group.xpending g) _ (group.counted g)) few))
      ∙ h
  traced-Recovers (reads consumer count ∷ events) g open_ones h =
      after_read-Recovers open_ones _ _ (λ ms e.
        traced-Recovers events _ (open_ones ++ ms) (pending-read consumer count g open_ones ms h e))
  traced-Recovers (claims consumer min_idle_ms count ∷ events) g open_ones h =
      after_claim-Recovers open_ones _ _ (
        traced-Recovers events _ open_ones
          (ap (parse_entries validate) (group.pending_claim consumer min_idle_ms count g) ∙ h))
  traced-Recovers (acks ids ∷ events) g open_ones h =
      after_ack-Recovers open_ones ids _
        (traced-Recovers events _ (without ids open_ones) (pending-ack ids g open_ones h))
