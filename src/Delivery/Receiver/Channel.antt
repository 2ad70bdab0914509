-- ===== src/Delivery/Receiver/Channel.antt =====
-- The bounds of the buffer of a channel.
use ssh_mobile.Base.{
  ℕ, ◌≤◌, ◌<◌, ◌≡◌, refl, false, some, arith, ltb, ◌==◌, if◌then◌else◌, length, str_beq, nat_eq,
  Bool-cases, Option-cases, inl, inr,
}
use ssh_mobile.Base.Words.{saturating_add, u64_mod, u64_max}
use ssh_mobile.Base.Maps.{
  get, has, Unique, total, get-put, get-delete, put-Unique, delete-Unique, length-put_new,
  length-delete, total-put_new, total-delete,
}
use ssh_mobile.Delivery.Keys.{MessageId}
use ssh_mobile.Delivery.Types.{OrderedMessage, OrderedChannelState}
use ssh_mobile.Delivery.Ordered.{
  OrderedInsertResult, duplicate, rejected, new_channel, is_flying, insert_expected, insert_later,
  is_beyond, insert, acknowledge_ordered,
}

abbrev pub payload_size : OrderedMessage → ℕ
payload_size m = length m.payload

abbrev pub IsU64 : OrderedMessage → Type 0
IsU64 m = m.sequence < u64_mod

-- The buffer holds messages after the expected one, each under its own sequence, within the
-- limits, and its bytes are counted.
pub record IsChannel (max_messages max_bytes : ℕ) (c : OrderedChannelState) : Type 0 where
  pub unique : Unique c.reorder_buffer
  pub ahead :
      (k : ℕ) (m : OrderedMessage)
      → get k c.reorder_buffer ≡ some m
      → (c.expected_sequence < k) × (m.sequence ≡ k) × (k < u64_mod)
  pub counted : c.reorder_bytes ≡ total payload_size c.reorder_buffer
  pub few : length c.reorder_buffer ≤ max_messages
  pub small : c.reorder_bytes ≤ max_bytes

module _ (max_messages max_bytes max_gap : ℕ) where
  pub new_channel-IsChannel : IsChannel max_messages max_bytes new_channel
  unfolding get total
  new_channel-IsChannel = record {
    unique = tt;
    ahead = λ k m h. absurd cc;
    counted = refl;
    few = omega arith;
    small = omega arith;
  }

  insert_expected-IsChannel :
      (m : OrderedMessage) (c : OrderedChannelState)
      → IsChannel max_messages max_bytes c
      → IsChannel max_messages max_bytes (insert_expected m c).1
  unfolding insert_expected
  insert_expected-IsChannel m c v = ground arith

  insert_later-IsChannel :
      (m : OrderedMessage) (c : OrderedChannelState)
      → max_bytes < u64_max
      → IsU64 m
      → c.expected_sequence < m.sequence
      → is_beyond m max_messages max_bytes max_gap c ≡ false
      → IsChannel max_messages max_bytes c
      → IsChannel max_messages max_bytes (insert_later m c).1
  unfolding insert_later
  insert_later-IsChannel m c bound small later fits v =
      elim (Option-cases (get m.sequence c.reorder_buffer)) [
        | inl new ↦
            let fresh : has m.sequence c.reorder_buffer ≡ false = rw new in
            rw (new, insert_later)
              (record {
                unique = put-Unique m.sequence m c.reorder_buffer v.unique;
                ahead =
                    λ k x h. ground (arith, v.ahead k x, get-put m.sequence k m c.reorder_buffer);
                counted = ground (
                  arith,
                  v.counted,
                  total-put_new payload_size m.sequence m c.reorder_buffer fresh,
                );
                few = ground (arith, length-put_new m.sequence m c.reorder_buffer fresh);
                small = ground arith;
              })
        | inr (e, held) ↦ rw (held, insert_later) (kept e.message_id)
      ]
    where
      kept :
          (id : MessageId)
          → IsChannel max_messages max_bytes
              (if◌then◌else◌ {A = OrderedInsertResult × OrderedChannelState}
                (str_beq id m.message_id)
                (duplicate, c)
                (rejected, c)).1
      kept id = elim (Bool-cases (str_beq id m.message_id)) [
        | inl same ↦ rw same v
        | inr other ↦ rw other v
      ]

  pub insert-IsChannel :
      (m : OrderedMessage) (c : OrderedChannelState)
      → max_bytes < u64_max
      → IsU64 m
      → IsChannel max_messages max_bytes c
      → IsChannel max_messages max_bytes (insert m max_messages max_bytes max_gap c).1
  unfolding insert
  insert-IsChannel m c bound small v = elim (Bool-cases (ltb m.sequence c.expected_sequence)) [
    | inl old ↦ rw old v
    | inr le ↦ elim (Bool-cases (m.sequence == c.expected_sequence)) [
      | inl same ↦ rw (le, same) (insert_expected-IsChannel m c v)
      | inr other ↦ elim (Bool-cases (is_beyond m max_messages max_bytes max_gap c)) [
        | inl beyond ↦ rw (le, other, beyond) v
        | inr fits ↦
            rw (le, other, fits) (insert_later-IsChannel m c bound small (ground arith) fits v)
      ]
    ]
  ]

  pub acknowledge_ordered-IsChannel :
      (id : MessageId) (c : OrderedChannelState)
      → IsChannel max_messages max_bytes c
      → IsChannel max_messages max_bytes (acknowledge_ordered id c).1
  unfolding acknowledge_ordered
  acknowledge_ordered-IsChannel id c v = elim (Bool-cases (is_flying c id)) [
    | inr other ↦ rw other v
    | inl flying ↦
        elim (Option-cases (get (saturating_add c.expected_sequence 1) c.reorder_buffer)) [
          | inl gone ↦
              rw (flying, gone)
                (record {
                  unique = v.unique;
                  ahead = λ k x h. ground (arith, v.ahead k x h);
                  counted = v.counted;
                  few = v.few;
                  small = v.small;
                })
          | inr (m, held) ↦
              rw (flying, held)
                (record {
                  unique =
                      delete-Unique (saturating_add c.expected_sequence 1) c.reorder_buffer
                        v.unique;
                  ahead = λ k x h. ground (
                    arith,
                    v.ahead k x,
                    get-delete (saturating_add c.expected_sequence 1) k c.reorder_buffer v.unique,
                  );
                  counted = omega (
                    arith,
                    v.counted,
                    total-delete payload_size (saturating_add c.expected_sequence 1) m
                        c.reorder_buffer held,
                  );
                  few = omega (
                    arith,
                    v.few,
                    length-delete (saturating_add c.expected_sequence 1) c.reorder_buffer,
                  );
                  small = omega (arith, v.small);
                })
        ]
  ]
