-- ===== src/Delivery/Receiver/Release.antt =====
-- The order in which a channel releases its messages.
use ssh_mobile.Base.{
  ℕ, ◌+◌, ◌≤◌, ◌<◌, ◌≡◌, List, [], ◌∷◌, ◌++◌, Option, none, some, is_some, arith, if◌then◌else◌,
  length, nat_eq, Option-cases, inl, inr,
}
use ssh_mobile.Base.Words.{saturating_add, u64_mod, u64_max}
use ssh_mobile.Base.Maps.{get}
use ssh_mobile.Delivery.Keys.{MessageId}
use ssh_mobile.Delivery.Types.{OrderedMessage, OrderedChannelState}
use ssh_mobile.Delivery.Ordered.{
  OrderedInsertResult, ready, new_channel, insert_expected, insert_later, insert,
  acknowledge_ordered,
}
use ssh_mobile.Delivery.Receiver.Channel.{
  IsChannel, new_channel-IsChannel, insert-IsChannel, acknowledge_ordered-IsChannel,
}

-- What a channel is given: a message, or the acknowledgement of one by the application.
pub data Arrival : Type 0 where
  arrives : OrderedMessage → Arrival
  acks : MessageId → Arrival

abbrev pub IsWireSequence : Arrival → Type 0
IsWireSequence (arrives m) = m.sequence < u64_mod
IsWireSequence (acks id) = Unit {0}

abbrev pub AllWire : List Arrival → Type 0
AllWire [] = Unit {0}
AllWire (a ∷ rest) = IsWireSequence a × AllWire rest

abbrev pub if_ready : OrderedInsertResult → OrderedMessage → List OrderedMessage
if_ready ready m = m ∷ []
if_ready _ m = []

abbrev pub to_list : Option OrderedMessage → List OrderedMessage
to_list none = []
to_list (some m) = m ∷ []

-- The sequence of the next message to release.
abbrev pub next_release : OrderedChannelState → ℕ
next_release c = if is_some c.flying then c.expected_sequence + 1 else c.expected_sequence

-- The messages have the sequences from `n` on, without a gap and without a repetition.
abbrev pub IsConsecutive : ℕ → List OrderedMessage → Type 0
IsConsecutive n [] = Unit {0}
IsConsecutive n (m ∷ ms) = (m.sequence ≡ n) × IsConsecutive (n + 1) ms

module _ (max_messages max_bytes max_gap : ℕ) where
  -- The messages that go to the application, and the state after.
  unfoldable pub deliver : OrderedChannelState → Arrival → List OrderedMessage × OrderedChannelState
  deliver c (arrives m) =
      let (result, c') = insert m max_messages max_bytes max_gap c in (if_ready result m, c')
  deliver c (acks id) = let (next, c') = acknowledge_ordered id c in (to_list next, c')

  unfoldable pub deliver_all :
      OrderedChannelState → List Arrival → List OrderedMessage × OrderedChannelState
  deliver_all c [] = ([], c)
  deliver_all c (a ∷ rest) =
      let (now, c') = deliver c a in let (later, c'') = deliver_all c' rest in (now ++ later, c'')

  deliver-IsChannel :
      (c : OrderedChannelState) (a : Arrival)
      → max_bytes < u64_max
      → IsWireSequence a
      → IsChannel max_messages max_bytes c
      → IsChannel max_messages max_bytes (deliver c a).1
  unfolding deliver
  deliver-IsChannel c (arrives m) bound w v =
      insert-IsChannel max_messages max_bytes max_gap m c bound w v
  deliver-IsChannel c (acks id) bound w v =
      acknowledge_ordered-IsChannel max_messages max_bytes max_gap id c v

  insert-releases :
      (c : OrderedChannelState) (m : OrderedMessage)
      → IsConsecutive (next_release c) (deliver c (arrives m)).0
        × (next_release (deliver c (arrives m)).1
            ≡ next_release c + length (deliver c (arrives m)).0)
  unfolding deliver insert insert_expected insert_later
  insert-releases c m = ground arith

  acknowledge-releases :
      (c : OrderedChannelState) (id : MessageId)
      → c.expected_sequence < u64_max
      → IsChannel max_messages max_bytes c
      → IsConsecutive (next_release c) (deliver c (acks id)).0
        × (next_release (deliver c (acks id)).1 ≡ next_release c + length (deliver c (acks id)).0)
  unfolding deliver acknowledge_ordered
  acknowledge-releases c id small v =
      elim (Option-cases (get (saturating_add c.expected_sequence 1) c.reorder_buffer)) [
        | inl gone ↦ ground arith
        | inr (m, held) ↦
            let next = v.ahead (saturating_add c.expected_sequence 1) m held in ground (arith, next)
      ]

  deliver-releases :
      (c : OrderedChannelState) (a : Arrival)
      → c.expected_sequence < u64_max
      → IsChannel max_messages max_bytes c
      → IsConsecutive (next_release c) (deliver c a).0
        × (next_release (deliver c a).1 ≡ next_release c + length (deliver c a).0)
  deliver-releases c (arrives m) small v = insert-releases c m
  deliver-releases c (acks id) small v = acknowledge-releases c id small v

  expected_grows :
      (c : OrderedChannelState) (a : Arrival)
      → (deliver c a).1.expected_sequence ≤ c.expected_sequence + 1
  unfolding deliver insert insert_expected insert_later acknowledge_ordered
  expected_grows c (arrives m) = ground arith
  expected_grows c (acks id) = ground arith

  IsConsecutive-append :
      (n k : ℕ) (xs ys : List OrderedMessage)
      → k ≡ n + length xs
      → IsConsecutive n xs
      → IsConsecutive k ys
      → IsConsecutive n (xs ++ ys)
  IsConsecutive-append n k [] ys e a b = let same : k ≡ n = omega arith in rw same at b
  IsConsecutive-append n k (x ∷ xs) ys e a b =
      (a.0, IsConsecutive-append (n + 1) k xs ys (omega arith) a.1 b)

  release_from :
      (c : OrderedChannelState) (arrivals : List Arrival)
      → max_bytes < u64_max
      → AllWire arrivals
      → c.expected_sequence + length arrivals < u64_max
      → IsChannel max_messages max_bytes c
      → IsConsecutive (next_release c) (deliver_all c arrivals).0
        × IsChannel max_messages max_bytes (deliver_all c arrivals).1
  unfolding deliver_all
  release_from c [] bound w few v = (tt, v)
  release_from c (a ∷ rest) bound w few v =
      let (now, after) = deliver-releases c a (omega arith) v in
      let (later, v') =
        release_from (deliver c a).1 rest bound w.1 (omega (arith, expected_grows c a))
          (deliver-IsChannel c a bound w.0 v) in
      (
        IsConsecutive-append (next_release c) (next_release (deliver c a).1) (deliver c a).0
            (deliver_all (deliver c a).1 rest).0 after now later,
        v',
      )

  -- Whatever arrives, in whatever order, and whatever the application acknowledges: a channel
  -- releases its messages with the sequences 0, 1, 2, … without a gap and without a repetition,
  -- and its buffer stays within its limits. (The sequences are 64-bit, fewer than 2^64 - 1 things
  -- happen, and the limit of bytes is below the largest 64-bit number.)
  pub deliver_all_in_order :
      (arrivals : List Arrival)
      → max_bytes < u64_max
      → AllWire arrivals
      → length arrivals < u64_max
      → IsConsecutive 0 (deliver_all new_channel arrivals).0
        × IsChannel max_messages max_bytes (deliver_all new_channel arrivals).1
  deliver_all_in_order arrivals bound w few =
      release_from new_channel arrivals bound w (omega arith)
        (new_channel-IsChannel max_messages max_bytes max_gap)
