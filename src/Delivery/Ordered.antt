-- ===== src/Delivery/Ordered.antt =====
-- One ordered channel on the receiving side:
-- native/network_core/crates/network-core/src/delivery/ordered.rs. A method on `&mut self` returns
-- its result and the state after.
use ssh_mobile.Base.{
  ℕ, ◌-◌, Bool, false, ◌||◌, not, [], Option, none, some, ltb, leb, ◌==◌, if◌then◌else◌, length,
  str_beq, nat_eq,
}
use ssh_mobile.Base.Words.{saturating_add}
use ssh_mobile.Base.Maps.{get, put, delete}
use ssh_mobile.Delivery.Keys.{MessageId}
use ssh_mobile.Delivery.Types.{OrderedMessage, OrderedChannelState}

pub data OrderedInsertResult : Type 0 where
  ready buffered duplicate rejected : OrderedInsertResult

-- `OrderedChannelState::default`.
abbrev pub new_channel : OrderedChannelState
new_channel = record {
  expected_sequence = 0;
  flying = none;
  reorder_buffer = [];
  reorder_bytes = 0;
}

-- `in_flight == Some(message_id)`.
abbrev pub is_flying : OrderedChannelState → MessageId → Bool
is_flying c id = elim c.flying [ none ↦ false | some current ↦ str_beq current id ]

-- A message at the expected sequence.
unfoldable pub insert_expected :
    OrderedMessage → OrderedChannelState → OrderedInsertResult × OrderedChannelState
insert_expected m c = elim c.flying [
  | none ↦ (ready, record c { flying = some m.message_id })
  | some current ↦ if str_beq current m.message_id then (duplicate, c) else (rejected, c)
]

-- A message after a gap that fits the buffer.
unfoldable pub insert_later :
    OrderedMessage → OrderedChannelState → OrderedInsertResult × OrderedChannelState
insert_later m c = elim (get m.sequence c.reorder_buffer) [
  | some existing ↦
      if str_beq existing.message_id m.message_id then (duplicate, c) else (rejected, c)
  | none ↦ (
    buffered,
    record c {
      reorder_bytes = saturating_add c.reorder_bytes (length m.payload);
      reorder_buffer = put m.sequence m c.reorder_buffer;
    },
  )
]

abbrev pub is_beyond : OrderedMessage → ℕ → ℕ → ℕ → OrderedChannelState → Bool
is_beyond m max_messages max_bytes max_gap c =
    ltb max_gap (m.sequence - c.expected_sequence)
    || (leb max_messages (length c.reorder_buffer)
        || ltb max_bytes (saturating_add c.reorder_bytes (length m.payload)))

unfoldable pub insert :
    OrderedMessage → ℕ → ℕ → ℕ → OrderedChannelState → OrderedInsertResult × OrderedChannelState
insert m max_messages max_bytes max_gap c =
    if ltb m.sequence c.expected_sequence
    then (duplicate, c)
    else if m.sequence == c.expected_sequence
    then insert_expected m c
    else if is_beyond m max_messages max_bytes max_gap c
    then (rejected, c)
    else insert_later m c

-- `acknowledge`: the next message in order, when it is buffered, takes the place of the other.
unfoldable pub acknowledge_ordered :
    MessageId → OrderedChannelState → Option OrderedMessage × OrderedChannelState
acknowledge_ordered id c =
    if not (is_flying c id)
    then (none, c)
    else (let next = saturating_add c.expected_sequence 1 in
        elim (get next c.reorder_buffer) [
          | none ↦ (none, record c { flying = none; expected_sequence = next })
          | some m ↦ (
            some m,
            record c {
              flying = some m.message_id;
              expected_sequence = next;
              reorder_bytes = c.reorder_bytes - length m.payload;
              reorder_buffer = delete next c.reorder_buffer;
            },
          )
        ])
