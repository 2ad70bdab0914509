-- ===== src/Delivery/Completion.antt =====
-- `complete_incoming` of native/network_core/crates/network-core/src/delivery/incoming.rs.
use ssh_mobile.Base.{
  ℕ, Bool, true, false, not, Option, none, some, if◌then◌else◌, str_beq, str_eq, nat_eq,
}
use ssh_mobile.Base.Words.{saturating_add}
use ssh_mobile.Base.Maps.{get, has, put, delete, modify}
use ssh_mobile.Delivery.Keys.{
  DedupKey, Str, MessageId, Scope, scope_eq, DedupKey, dedup_eq, dedup_key,
}
use ssh_mobile.Delivery.Types.{
  OrderedMessage, OrderedChannelState, DeliveryStore, DeliveryConfig, ActiveIncomingState,
  in_flight, ordered_buffered,
}
use ssh_mobile.Delivery.Store.{HashOrder, remember_processed}
use ssh_mobile.Delivery.Ordered.{is_flying, acknowledge_ordered}
use ssh_mobile.Delivery.Incoming.{processed_at, waiting}

pub record IncomingCompletion : Type 0 where
  pub recovery_epoch : ℕ
  pub next_ordered : Option OrderedMessage

module _ (config : DeliveryConfig) where
  -- Whether `complete_incoming_at` refuses: another message is in flight in the channel, or this
  -- one is still in the buffer.
  abbrev pub is_early : Option OrderedChannelState → ActiveIncomingState → MessageId → Bool
  is_early none in_flight id = false
  is_early none ordered_buffered id = true
  is_early (some c) state id = elim c.flying [
    | some current ↦ not (str_beq current id)
    | none ↦ elim state [ in_flight ↦ false | ordered_buffered ↦ true ]
  ]

  -- The message that follows in the channel, from its buffer.
  abbrev pub following : Option OrderedChannelState → MessageId → Option OrderedMessage
  following none id = none
  following (some c) id =
      if is_flying c id then get (saturating_add c.expected_sequence 1) c.reorder_buffer else none

  abbrev pub key_of : OrderedMessage → DedupKey
  key_of m = dedup_key m.peer_id m.channel_id m.message_id

  -- `next_active` is missing or is not buffered.
  abbrev pub is_lost : DeliveryStore → Option OrderedMessage → Bool
  is_lost s none = false
  is_lost s (some m) = elim (get (key_of m) s.incoming_active) [
    | none ↦ true
    | some r ↦ elim r.state [ in_flight ↦ true | ordered_buffered ↦ false ]
  ]

  abbrev pub acknowledged_channel :
      DeliveryStore → Scope → MessageId → Option OrderedMessage × DeliveryStore
  acknowledged_channel s scope id = elim (get scope s.ordered) [
    | none ↦ (none, s)
    | some c ↦
        let (next, c') = acknowledge_ordered id c in
        (next, record s { ordered = put scope c' s.ordered })
  ]

  abbrev pub is_orphan : Option OrderedMessage → DeliveryStore → Bool
  is_orphan none s = false
  is_orphan (some m) s = not (has (key_of m) s.incoming_active)

  abbrev pub release_next : Option OrderedMessage → ℕ → DeliveryStore → DeliveryStore
  release_next none now s = s
  release_next (some m) now s = record s {
    incoming_active = modify (key_of m) (waiting config now) s.incoming_active;
  }

  module _ (o : HashOrder) where
    -- `complete_incoming_at` after the change of the channel, which released the given message.
    unfoldable pub finish_incoming :
        Option OrderedMessage
        → DeliveryStore
        → DedupKey
        → ℕ
        → ℕ
        → Option IncomingCompletion × DeliveryStore
    finish_incoming next s key epoch now =
        let removed = record s { incoming_active = delete key s.incoming_active } in
        if is_orphan next removed then (none, removed) else (
          some (record { recovery_epoch = epoch; next_ordered = next }),
          remember_processed o (release_next next now removed) key (processed_at config epoch now)
              config.dedup_max_entries,
        )

    -- `complete_incoming_at`.
    unfoldable pub complete_incoming :
        DeliveryStore → Str → Str → MessageId → ℕ → Option IncomingCompletion × DeliveryStore
    complete_incoming s peer channel id now =
        elim (get (dedup_key peer channel id) s.incoming_active) [
          | none ↦ (none, s)
          | some active ↦
              if is_early (get (peer, channel) s.ordered) active.state id
              then (none, s)
              else if is_lost s (following (get (peer, channel) s.ordered) id)
              then (none, s)
              else (let (next, acked) = acknowledged_channel s (peer, channel) id in
                  finish_incoming next acked (dedup_key peer channel id) active.recovery_epoch now)
        ]
