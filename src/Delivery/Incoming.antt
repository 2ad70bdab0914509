-- ===== src/Delivery/Incoming.antt =====
-- The messages of the receiving side:
-- native/network_core/crates/network-core/src/delivery/incoming.rs, and `close_peer` of
-- recovery.rs. The assertions of debug builds are left out.
use ssh_mobile.Base.{
  ℕ, ◌+◌, Bool, true, false, ◌||◌, not, List, [], ◌∷◌, Option, none, some, leb, if◌then◌else◌,
  length, str_beq, str_eq, nat_eq, Result, ok, err,
}
use ssh_mobile.Base.Sets.{contains}
use ssh_mobile.Base.Maps.{get, has, put, delete, modify, retain}
use ssh_mobile.Delivery.Keys.{Str, MessageId, Scope, scope_eq, dedup_eq, dedup_key}
use ssh_mobile.Delivery.Types.{
  OrderedMessage, OrderedChannelState, DeliveryStore, DeliveryConfig, DedupDecision, new,
  duplicate_in_flight, duplicate_processed, capacity_exceeded, channel_failed, ActiveIncomingRecord,
  in_flight, ordered_buffered, ProcessedDedupRecord, max_active_incoming_records, DeliveryError,
  invalid_scope, is_valid_scope_id,
}
use ssh_mobile.Delivery.Store.{prune_processed_dedup}
use ssh_mobile.Delivery.Ordered.{
  OrderedInsertResult, ready, buffered, rejected, new_channel, is_flying, insert,
}
use ssh_mobile.Delivery.Timeouts.{fail_ordered_channel, expire_incoming_locked}

abbrev pub echoed : ℕ → ActiveIncomingRecord → ActiveIncomingRecord
echoed epoch r = record r { recovery_epoch = epoch }

unfoldable pub incoming_recovery_epoch : DeliveryStore → Str → Str → MessageId → Option ℕ
incoming_recovery_epoch s peer channel id =
    elim (get (dedup_key peer channel id) s.incoming_active) [
      | some r ↦ some r.recovery_epoch
      | none ↦ elim (get (dedup_key peer channel id) s.processed_dedup) [
        | some r ↦ some r.recovery_epoch
        | none ↦ none
      ]
    ]

-- `reorder_buffer.values().any(..)`.
abbrev pub any_message : List (ℕ × OrderedMessage) → MessageId → Bool
any_message [] id = false
any_message ((n, m) ∷ rest) id = str_beq m.message_id id || any_message rest id

abbrev pub is_held : Option OrderedChannelState → MessageId → Bool
is_held none id = false
is_held (some c) id = is_flying c id || any_message c.reorder_buffer id

unfoldable pub abandon_incoming : DeliveryStore → Str → Str → MessageId → Bool × DeliveryStore
abandon_incoming s peer channel id =
    if not (has (dedup_key peer channel id) s.incoming_active)
    then (false, s)
    else if is_held (get (peer, channel) s.ordered) id
    then (true, (fail_ordered_channel s (peer, channel)).1)
    else (true, record s { incoming_active = delete (dedup_key peer channel id) s.incoming_active })

unfoldable pub reject_incoming : DeliveryStore → Str → Str → MessageId → Bool × DeliveryStore
reject_incoming s peer channel id = (
  has (dedup_key peer channel id) s.incoming_active,
  record s { incoming_active = delete (dedup_key peer channel id) s.incoming_active },
)

-- `ordered.in_flight = None`, and an empty buffer, in each channel of the peer.
abbrev pub emptied : Str → List (Scope × OrderedChannelState) → List (Scope × OrderedChannelState)
emptied peer [] = []
emptied peer (((name, channel), c) ∷ rest) =
    let others = emptied peer rest in
    if str_beq name peer
    then ((name, channel), record c { flying = none; reorder_buffer = []; reorder_bytes = 0 })
      ∷ others
    else ((name, channel), c) ∷ others

abbrev pub of_others : Str → List Scope → List Scope
of_others peer [] = []
of_others peer ((name, channel) ∷ rest) =
    let others = of_others peer rest in
    if str_beq name peer then others else (name, channel) ∷ others

unfoldable pub close_peer : DeliveryStore → Str → DeliveryStore
close_peer s peer = record s {
  incoming_active = retain (λ k r. not (str_beq k.peer_id peer)) s.incoming_active;
  processed_dedup = retain (λ k r. not (str_beq k.peer_id peer)) s.processed_dedup;
  ordered = emptied peer s.ordered;
  failed_ordered = of_others peer s.failed_ordered;
}

module _ (config : DeliveryConfig) where
  abbrev pub processed_at : ℕ → ℕ → ProcessedDedupRecord
  processed_at epoch now = record {
    expires_at = now + config.dedup_ttl;
    last_seen_at = now;
    recovery_epoch = epoch;
  }

  abbrev pub waiting : ℕ → ActiveIncomingRecord → ActiveIncomingRecord
  waiting now r = record r {
    state = in_flight;
    ack_deadline = some (now + config.application_ack_timeout);
  }

  abbrev pub buffering : ActiveIncomingRecord → ActiveIncomingRecord
  buffering r = record r { state = ordered_buffered; ack_deadline = none }

  -- `begin_incoming` after the two clean-ups.
  unfoldable pub register :
      DeliveryStore → Str → Str → MessageId → ℕ → ℕ → DedupDecision × DeliveryStore
  register s peer channel id epoch now =
      if contains s.failed_ordered (peer, channel)
      then (channel_failed, s)
      else if has (dedup_key peer channel id) s.incoming_active
      then (
        duplicate_in_flight,
        record s {
          incoming_active = modify (dedup_key peer channel id) (echoed epoch) s.incoming_active;
        },
      )
      else if has (dedup_key peer channel id) s.processed_dedup
      then (
        duplicate_processed,
        record s {
          processed_dedup =
              modify (dedup_key peer channel id) (λ r. processed_at epoch now) s.processed_dedup;
        },
      )
      else if leb max_active_incoming_records (length s.incoming_active)
      then (capacity_exceeded, s)
      else (
        new,
        record s {
          incoming_active =
              put (dedup_key peer channel id)
                (record {
                  ack_deadline = some (now + config.application_ack_timeout);
                  recovery_epoch = epoch;
                  state = in_flight;
                })
                s.incoming_active;
        },
      )

  unfoldable pub begin_incoming :
      DeliveryStore → Str → Str → MessageId → ℕ → ℕ → DedupDecision × DeliveryStore
  begin_incoming s peer channel id epoch now =
      register (prune_processed_dedup (expire_incoming_locked s now (some peer)).1 now) peer channel
        id epoch now

  unfoldable pub begin_incoming_checked :
      DeliveryStore
      → Str
      → Str
      → MessageId
      → ℕ
      → ℕ
      → Result DeliveryError DedupDecision × DeliveryStore
  begin_incoming_checked s peer channel id epoch now =
      if not (is_valid_scope_id peer) || not (is_valid_scope_id channel)
      then (err invalid_scope, s)
      else (let (decision, s') = begin_incoming s peer channel id epoch now in (ok decision, s'))

  abbrev pub channel_or_default : Option OrderedChannelState → OrderedChannelState
  channel_or_default none = new_channel
  channel_or_default (some c) = c

  -- The record of an active message after its insertion.
  abbrev pub after_insert : OrderedInsertResult → ℕ → ActiveIncomingRecord → ActiveIncomingRecord
  after_insert ready now r = waiting now r
  after_insert buffered now r = buffering r
  after_insert _ now r = r

  unfoldable pub accept_ordered :
      DeliveryStore → OrderedMessage → ℕ → OrderedInsertResult × DeliveryStore
  accept_ordered s m now =
      if not (is_valid_scope_id m.peer_id) || not (is_valid_scope_id m.channel_id)
      then (rejected, s)
      else if contains s.failed_ordered (m.peer_id, m.channel_id)
      then (rejected, s)
      else if not (has (dedup_key m.peer_id m.channel_id m.message_id) s.incoming_active)
      then (rejected, s)
      else (let (result, c) =
            insert m config.max_reorder_messages config.max_reorder_bytes config.max_sequence_gap
              (channel_or_default (get (m.peer_id, m.channel_id) s.ordered)) in
          (
            result,
            record s {
              ordered = put (m.peer_id, m.channel_id) c s.ordered;
              incoming_active =
                  modify (dedup_key m.peer_id m.channel_id m.message_id) (after_insert result now)
                    s.incoming_active;
            },
          ))
