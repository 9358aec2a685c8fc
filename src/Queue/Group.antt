-- ===== src/Queue/Group.antt =====
-- The consumer group of queue/redis_stream.py: `_create_group_sync`, and StreamConsumer's reads,
-- claims, acks and count over the group that Redis keeps.
use post_trade_reconciliatio.Prelude.{
  ℕ, ◌≤◌, ◌≡◌, Bool, not, Option, none, some, List, [], ◌∷◌, ◌++◌, filter, any, is_empty, length,
  if◌then◌else◌,
}
use post_trade_reconciliatio.Prelude.Str.{Str, str, str_eq, nat_eq, same, has_text}
use post_trade_reconciliatio.Models.{Tick}
use post_trade_reconciliatio.Queue.{Entry, ConsumedMessage, decoded, parse_entries, read}

abbrev pub concat : List (List Entry) → List Entry
concat [] = []
concat (entries ∷ response) = entries ++ concat response

abbrev pub has_listed_id : List Str → Entry → Bool
has_listed_id ids e = any (same (decoded e.msg_id)) ids

-- Redis's consumer group, of a state `G`: its commands, and of its documentation that an entry is
-- pending from its delivery to its acknowledgement, that XAUTOCLAIM leaves it pending, that it
-- claims all pending entries if none has to be idle and the count allows it, and that XPENDING
-- counts them.
pub record Group (G : Type 0) : Type 0 where
  pub xgroup_create : G → Option Str × G
  pub xreadgroup : Str → ℕ → G → List (List Entry) × G
  pub xautoclaim : Str → ℕ → ℕ → G → List Entry × G
  pub xack : List Str → G → G
  pub xpending : G → Option ℕ
  pub pending : G → List Entry
  pub pending_read :
      (consumer : Str) (count : ℕ) (g : G)
      → pending (xreadgroup consumer count g).1
        ≡ pending g ++ concat (xreadgroup consumer count g).0
  pub pending_claim :
      (consumer : Str) (min_idle count : ℕ) (g : G)
      → pending (xautoclaim consumer min_idle count g).1 ≡ pending g
  pub pending_ack :
      (ids : List Str) (g : G)
      → pending (xack ids g) ≡ filter (λ e. not (has_listed_id ids e)) (pending g)
  pub claimed :
      (consumer : Str) (count : ℕ) (g : G)
      → length (pending g) ≤ count
      → (xautoclaim consumer 0 count g).0 ≡ pending g
  pub counted : (g : G) → xpending g ≡ some (length (pending g))

module _ {G : Type 0} (group : Group G) where
  -- An error is swallowed if it says BUSYGROUP, and raised otherwise.
  abbrev pub created : Option Str × G → Option G
  created (none, g) = some g
  created (some error, g) = if has_text (str "BUSYGROUP") error then some g else none

  -- `_create_group_sync`
  unfoldable pub create_group : G → Option G
  create_group g = created (group.xgroup_create g)

  -- `ack_batch`
  unfoldable pub ack_batch : List Str → G → G
  ack_batch message_ids g = if is_empty message_ids then g else group.xack message_ids g

  -- `pending_count`
  unfoldable pub pending_count : G → ℕ
  pending_count g = elim (group.xpending g) [ none ↦ 0 | some pending ↦ pending ]

  module _ (model_validate_json : Str → Option Tick) where
    -- `read`; an empty reply has no entries.
    unfoldable pub read_group : Str → ℕ → G → Option (List ConsumedMessage) × G
    read_group consumer count g =
        let (response, g') = group.xreadgroup consumer count g in
        (read model_validate_json response, g')

    -- `claim_stale`
    unfoldable pub claim_stale : Str → ℕ → ℕ → G → Option (List ConsumedMessage) × G
    claim_stale consumer min_idle_ms count g =
        let (entries, g') = group.xautoclaim consumer min_idle_ms count g in
        (parse_entries model_validate_json entries, g')
