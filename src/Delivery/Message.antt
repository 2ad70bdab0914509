-- ===== src/Delivery/Message.antt =====
-- One message of the sending side: its state, its budget of attempts, its place in the store.
use ssh_mobile.Base.{
  ℕ, ◌+◌, Bool, true, false, ◌&&◌, ◌||◌, not, List, [], ◌∷◌, Option, none, some, ltb, leb, ◌==◌,
  if◌then◌else◌, length, str_beq, str_eq,
}
use ssh_mobile.Base.Words.{saturating_add}
use ssh_mobile.Base.Maps.{get, has, put}
use ssh_mobile.Delivery.Keys.{Str, MessageId, scope_eq, DeliveryIdentity, identity_of, identity_eq}
use ssh_mobile.Delivery.Types.{
  DeliveryPolicy, best_effort, latest_state, DeliveryState, queued, sending, sent_unacked, u32_max,
  RetryPolicy, delay_for_attempt, PendingMessage, DeliveryStore,
}
use ssh_mobile.Delivery.Store.{with_message}

abbrev pub is_best_effort : DeliveryPolicy → Bool
is_best_effort best_effort = true
is_best_effort _ = false

abbrev pub is_latest_state : DeliveryPolicy → Bool
is_latest_state latest_state = true
is_latest_state _ = false

abbrev pub is_sending : DeliveryState → Bool
is_sending sending = true
is_sending _ = false

abbrev pub is_queued : DeliveryState → Bool
is_queued queued = true
is_queued _ = false

abbrev pub is_sent_unacked : DeliveryState → Bool
is_sent_unacked sent_unacked = true
is_sent_unacked _ = false

abbrev pub or_zero : Option ℕ → ℕ
or_zero none = 0
or_zero (some n) = n

abbrev pub exceeds : Option ℕ → ℕ → Bool
exceeds none n = false
exceeds (some limit) n = ltb limit n

-- `u32::saturating_add(1)`.
abbrev pub next_attempt : ℕ → ℕ
next_attempt n = if ltb n u32_max then n + 1 else u32_max

-- The `LatestState` messages of a channel.
abbrev pub obsolete : Str → Str → List (DeliveryIdentity × PendingMessage) → List DeliveryIdentity
obsolete peer channel [] = []
obsolete peer channel ((k, m) ∷ rest) =
    let others = obsolete peer channel rest in
    if str_beq m.peer_id peer && (str_beq m.channel_id channel && is_latest_state m.policy)
    then k ∷ others
    else others

abbrev pub message_of :
    DeliveryStore
    → Str
    → Str
    → List ℕ
    → DeliveryPolicy
    → RetryPolicy
    → ℕ
    → MessageId
    → PendingMessage
message_of s peer channel payload policy retry now id = record {
  message_id = id;
  peer_id = peer;
  channel_id = channel;
  sequence = or_zero (get (peer, channel) s.next_sequences);
  payload = payload;
  policy = policy;
  state = queued;
  attempts = 0;
  created_at = now;
  expires_at = elim retry.ttl [ none ↦ none | some ttl ↦ some (now + ttl) ];
  recovery_epoch = or_zero (get peer s.recovery_epochs);
  retry_policy = retry;
  next_retry_at = now;
  retry_bytes = 0;
}

abbrev pub with_sequence : DeliveryStore → Str → Str → DeliveryStore
with_sequence s peer channel =
    let sequence = or_zero (get (peer, channel) s.next_sequences) in
    record s { next_sequences = put (peer, channel) (saturating_add sequence 1) s.next_sequences }

abbrev pub with_pending : DeliveryStore → PendingMessage → DeliveryStore
with_pending s message = if is_best_effort message.policy then s else record s {
  pending_bytes = s.pending_bytes + length message.payload;
  pending = put (identity_of message.peer_id message.message_id) message s.pending;
}

abbrev pub is_foreign_peer : DeliveryStore → Option Str → MessageId → Bool
is_foreign_peer s none id = false
is_foreign_peer s (some peer) id =
    not (has (identity_of peer id) s.pending)
    && (elim (with_message id s.pending) [ [] ↦ false | k ∷ ks ↦ true ])

-- The bytes that this attempt adds, from the second on.
abbrev pub retry_cost : PendingMessage → ℕ
retry_cost m =
    saturating_add m.retry_bytes (if ltb 1 (next_attempt m.attempts) then length m.payload else 0)

abbrev pub is_out_of_budget : PendingMessage → Bool
is_out_of_budget m =
    ltb m.retry_policy.max_attempts (next_attempt m.attempts)
    || exceeds m.retry_policy.max_total_retry_bytes (retry_cost m)

abbrev pub started : PendingMessage → PendingMessage
started m = record m {
  attempts = next_attempt m.attempts;
  retry_bytes = retry_cost m;
  state = sending;
}

-- Whether `begin_send` leaves the message alone.
abbrev pub is_not_due : PendingMessage → ℕ → Bool
is_not_due m now =
    is_sending m.state
    || (not (is_queued m.state) && not (is_sent_unacked m.state))
    || ltb now m.next_retry_at

abbrev pub differs : Option ℕ → ℕ → Bool
differs none n = false
differs (some attempt) n = not (n == attempt)

abbrev pub awaiting : ℕ → PendingMessage → PendingMessage
awaiting now m = record m {
  state = sent_unacked;
  next_retry_at = now + delay_for_attempt m.retry_policy m.attempts;
}

abbrev pub requeued : ℕ → PendingMessage → PendingMessage
requeued now m = record m {
  state = queued;
  next_retry_at = now + delay_for_attempt m.retry_policy m.attempts;
}

abbrev pub is_stale : Option ℕ → PendingMessage → Bool
is_stale none m = false
is_stale (some attempt) m = not (is_sending m.state) || not (m.attempts == attempt)

abbrev pub is_exhausted : PendingMessage → Bool
is_exhausted m =
    leb m.retry_policy.max_attempts m.attempts
    || exceeds m.retry_policy.max_total_retry_bytes
        (saturating_add m.retry_bytes (length m.payload))
