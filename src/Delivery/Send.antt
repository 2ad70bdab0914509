-- ===== src/Delivery/Send.antt =====
-- The sending side: native/network_core/crates/network-core/src/delivery/send.rs. A method takes
-- the store under its lock and returns its result and the store after it.
use ssh_mobile.Base.{
  ℕ, ◌+◌, Bool, true, false, ◌&&◌, ◌||◌, not, List, [], ◌∷◌, Option, none, some, ltb, leb,
  if◌then◌else◌, length, Result, ok, err, str_eq,
}
use ssh_mobile.Base.Words.{saturating_add}
use ssh_mobile.Base.Maps.{get, has, modify}
use ssh_mobile.Delivery.Keys.{Str, MessageId, scope_eq, DeliveryIdentity, identity_of, identity_eq}
use ssh_mobile.Delivery.Types.{
  DeliveryPolicy, DeliveryTerminalOutcome, acknowledged, expired, cancelled, failed, DeliveryError,
  invalid_scope, payload_too_large, invalid_retry_policy, queue_full, not_found, message_expired,
  retry_exhausted, AckResult, ack_acknowledged, ack_unknown, RetryDecision, retry_at, retry_failed,
  retry_expired, retry_not_found, is_valid_scope_id, RetryPolicy, is_valid_policy,
  delay_for_attempt, PendingMessage, DeliveryConfig, DeliveryStore,
}
use ssh_mobile.Delivery.Store.{
  HashOrder, is_expired, settle, resolve_pending_identity, next_message_id,
}
use ssh_mobile.Delivery.Message.{
  is_best_effort, is_latest_state, is_sending, obsolete, message_of, with_sequence, with_pending,
  is_foreign_peer, is_out_of_budget, started, is_not_due, differs, awaiting, requeued, is_stale,
  is_exhausted,
}

-- `mark_sent_inner`.
unfoldable pub mark_sent :
    DeliveryStore → Option Str → Option ℕ → MessageId → ℕ → Bool × DeliveryStore
mark_sent s peer attempt id now = elim (resolve_pending_identity s peer id) [
  | none ↦ (false, s)
  | some identity ↦ elim (get identity s.pending) [
    | none ↦ (false, s)
    | some m ↦
        if not (is_sending m.state) || differs attempt m.attempts
        then (false, s)
        else (true, record s { pending = modify identity (awaiting now) s.pending })
  ]
]

unfoldable pub terminal_outcome : DeliveryStore → Str → MessageId → Option DeliveryTerminalOutcome
terminal_outcome s peer id =
    if not (is_valid_scope_id peer) then none else get (identity_of peer id) s.terminal_outcomes

module _ (o : HashOrder) where
  -- `if remove_pending(..).is_some() { record_terminal(..) }` for each of them.
  unfoldable pub settle_all :
      DeliveryTerminalOutcome → List DeliveryIdentity → DeliveryStore → DeliveryStore
  settle_all outcome [] s = s
  settle_all outcome (k ∷ ks) s =
      settle_all outcome ks (if has k s.pending then settle o s k outcome else s)

  module _ (config : DeliveryConfig) where
    abbrev pub is_full : DeliveryStore → DeliveryPolicy → ℕ → Bool
    is_full s policy size =
        not (is_best_effort policy)
        && (leb config.max_pending_messages (length s.pending)
            || ltb config.max_pending_bytes (saturating_add s.pending_bytes size))

    abbrev pub without_obsolete : DeliveryStore → Str → Str → DeliveryPolicy → DeliveryStore
    without_obsolete s peer channel policy =
        if is_latest_state policy
        then settle_all cancelled (obsolete peer channel s.pending) s
        else s

    -- What `enqueue_at_inner` does with a free message id.
    unfoldable pub admit :
        DeliveryStore
        → Str
        → Str
        → List ℕ
        → DeliveryPolicy
        → RetryPolicy
        → ℕ
        → MessageId
        → Result DeliveryError PendingMessage × DeliveryStore
    admit s peer channel payload policy retry now id =
        let message = message_of s peer channel payload policy retry now id in
        (ok message, with_pending (with_sequence s peer channel) message)

    -- `enqueue_at_inner` from the test of the limits on; `none` when no draw is free.
    unfoldable pub enqueue_valid :
        DeliveryStore
        → Str
        → Str
        → List ℕ
        → DeliveryPolicy
        → RetryPolicy
        → ℕ
        → List MessageId
        → Option (Result DeliveryError PendingMessage × DeliveryStore)
    enqueue_valid s peer channel payload policy retry now draws =
        if is_full s policy (length payload)
        then some (err queue_full, s)
        else (elim (next_message_id s peer draws) [
          | none ↦ none
          | some id ↦ some (admit s peer channel payload policy retry now id)
        ])

    -- `enqueue_at_inner` with the draws of the random generator.
    unfoldable pub enqueue :
        DeliveryStore
        → Str
        → Str
        → List ℕ
        → DeliveryPolicy
        → RetryPolicy
        → ℕ
        → List MessageId
        → Option (Result DeliveryError PendingMessage × DeliveryStore)
    enqueue s peer channel payload policy retry now draws =
        if not (is_valid_scope_id peer) || not (is_valid_scope_id channel)
        then some (err invalid_scope, s)
        else if ltb config.max_payload_bytes (length payload)
        then some (err payload_too_large, s)
        else if not (is_valid_policy retry)
        then some (err invalid_retry_policy, s)
        else enqueue_valid (without_obsolete s peer channel policy) peer channel payload policy
            retry now draws

  unfoldable pub begin_send_found :
      DeliveryStore
      → DeliveryIdentity
      → PendingMessage
      → ℕ
      → Result DeliveryError (Option PendingMessage) × DeliveryStore
  begin_send_found s identity m now =
      if is_expired m now
      then (err message_expired, settle o s identity expired)
      else if is_not_due m now
      then (ok none, s)
      else if is_out_of_budget m
      then (err retry_exhausted, settle o s identity failed)
      else (ok (some (started m)), record s { pending = modify identity started s.pending })

  -- `begin_send_inner`.
  unfoldable pub begin_send :
      DeliveryStore
      → Option Str
      → MessageId
      → ℕ
      → Result DeliveryError (Option PendingMessage) × DeliveryStore
  begin_send s peer id now =
      if is_foreign_peer s peer id
      then (err invalid_scope, s)
      else (elim (resolve_pending_identity s peer id) [
        | none ↦ (err not_found, s)
        | some identity ↦ elim (get identity s.pending) [
          | none ↦ (err not_found, s)
          | some m ↦ begin_send_found s identity m now
        ]
      ])

  unfoldable pub mark_send_failed_found :
      DeliveryStore
      → Option ℕ
      → DeliveryIdentity
      → PendingMessage
      → ℕ
      → RetryDecision × DeliveryStore
  mark_send_failed_found s attempt identity m now =
      if is_expired m now
      then (retry_expired, settle o s identity expired)
      else if is_stale attempt m
      then (retry_not_found, s)
      else if is_exhausted m
      then (retry_failed, settle o s identity failed)
      else (
        retry_at (now + delay_for_attempt m.retry_policy m.attempts),
        record s { pending = modify identity (requeued now) s.pending },
      )

  -- `mark_send_failed_inner`.
  unfoldable pub mark_send_failed :
      DeliveryStore → Option Str → Option ℕ → MessageId → ℕ → RetryDecision × DeliveryStore
  mark_send_failed s peer attempt id now = elim (resolve_pending_identity s peer id) [
    | none ↦ (retry_not_found, s)
    | some identity ↦ elim (get identity s.pending) [
      | none ↦ (retry_not_found, s)
      | some m ↦ mark_send_failed_found s attempt identity m now
    ]
  ]

  unfoldable pub acknowledge : DeliveryStore → Str → MessageId → AckResult × DeliveryStore
  acknowledge s peer id =
      if not (is_valid_scope_id peer)
      then (ack_unknown, s)
      else if not (has (identity_of peer id) s.pending)
      then (ack_unknown, s)
      else (ack_acknowledged, settle o s (identity_of peer id) acknowledged)

  -- `cancel` of recovery.rs.
  unfoldable pub cancel : DeliveryStore → MessageId → Bool × DeliveryStore
  cancel s id = elim (resolve_pending_identity s none id) [
    | none ↦ (false, s)
    | some identity ↦
        if has identity s.pending then (true, settle o s identity cancelled) else (false, s)
  ]
