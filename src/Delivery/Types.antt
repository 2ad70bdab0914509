-- ===== src/Delivery/Types.antt =====
-- Identities, messages, policies and the store of
-- native/network_core/crates/network-core/src/delivery/mod.rs and store.rs. Strings are their
-- UTF-8 bytes; instants and durations are nanoseconds.
use ssh_mobile.Delivery.Keys.{
  Str, MessageId, Scope, scope_eq, DeliveryIdentity, identity_eq, DedupKey, dedup_eq,
}
use ssh_mobile.Base.{
  ℕ, ◌-◌, ◌*◌, ◌^◌, Bool, ◌&&◌, not, List, [], Option, none, some, min, ltb, leb, length, str_eq,
  Result, ok, err, if◌then◌else◌,
}

pub data DeliveryPolicy : Type 0 where
  best_effort latest_state acked acked_deduplicated : DeliveryPolicy
  session_bound_ordered resumable_transfer : DeliveryPolicy

pub data DeliveryState : Type 0 where
  queued sending sent_unacked state_acked state_expired state_cancelled state_failed : DeliveryState

pub data DeliveryTerminalOutcome : Type 0 where
  acknowledged expired cancelled failed : DeliveryTerminalOutcome

pub data DeliveryError : Type 0 where
  invalid_scope payload_too_large invalid_retry_policy queue_full : DeliveryError
  not_found message_expired retry_exhausted : DeliveryError

pub data BusinessRecoveryError : Type 0 where
  recoverable_transport_loss operation_expired resume_rejected : BusinessRecoveryError

pub data AckResult : Type 0 where
  ack_acknowledged ack_unknown : AckResult

pub data RetryDecision : Type 0 where
  retry_at : ℕ → RetryDecision
  retry_failed retry_expired retry_not_found : RetryDecision

pub data DedupDecision : Type 0 where
  new duplicate_in_flight duplicate_processed capacity_exceeded channel_failed : DedupDecision

abbrev pub max_scope_id_bytes : ℕ
max_scope_id_bytes = 128

abbrev pub max_terminal_outcomes : ℕ
max_terminal_outcomes = 4096

abbrev pub max_active_incoming_records : ℕ
max_active_incoming_records = 4096

abbrev pub u32_max : ℕ
u32_max = 4294967295

-- `Duration::MAX`.
abbrev pub duration_max : ℕ
duration_max = 18446744073709551615999999999

-- `is_valid_peer_id` is the same test.
unfoldable pub is_valid_scope_id : Str → Bool
is_valid_scope_id value = ltb 0 (length value) && leb (length value) max_scope_id_bytes

unfoldable pub new_identity : Str → MessageId → Result DeliveryError DeliveryIdentity
unfolding is_valid_scope_id
new_identity peer message =
    if not (is_valid_scope_id peer)
    then err invalid_scope
    else ok (record { peer_id = peer; message_id = message })

pub record RetryPolicy : Type 0 where
  pub max_attempts : ℕ
  pub initial_backoff : ℕ
  pub max_backoff : ℕ
  pub ttl : Option ℕ
  pub max_total_retry_bytes : Option ℕ

unfoldable pub is_valid_policy : RetryPolicy → Bool
is_valid_policy r = ltb 0 r.max_attempts && leb r.initial_backoff r.max_backoff

-- The shift is at most 31, so `1u32.checked_shl` succeeds.
unfoldable pub delay_for_attempt : RetryPolicy → ℕ → ℕ
delay_for_attempt r attempt =
    let shift = min (attempt - 1) 31 in
    min (min (r.initial_backoff * 2 ^ shift) duration_max) r.max_backoff

pub record PendingMessage : Type 0 where
  pub message_id : MessageId
  pub peer_id : Str
  pub channel_id : Str
  pub sequence : ℕ
  pub payload : List ℕ
  pub policy : DeliveryPolicy
  pub state : DeliveryState
  pub attempts : ℕ
  pub created_at : ℕ
  pub expires_at : Option ℕ
  pub recovery_epoch : ℕ
  pub retry_policy : RetryPolicy
  pub next_retry_at : ℕ
  pub retry_bytes : ℕ

pub record DeliveryConfig : Type 0 where
  pub max_pending_messages : ℕ
  pub max_pending_bytes : ℕ
  pub max_payload_bytes : ℕ
  pub dedup_max_entries : ℕ
  pub dedup_ttl : ℕ
  pub application_ack_timeout : ℕ
  pub max_reorder_messages : ℕ
  pub max_reorder_bytes : ℕ
  pub max_sequence_gap : ℕ

pub record OrderedMessage : Type 0 where
  pub peer_id : Str
  pub session_id : Str
  pub channel_id : Str
  pub message_id : MessageId
  pub sequence : ℕ
  pub policy : DeliveryPolicy
  pub payload : List ℕ

pub data ActiveIncomingState : Type 0 where
  in_flight ordered_buffered : ActiveIncomingState

pub record ActiveIncomingRecord : Type 0 where
  pub ack_deadline : Option ℕ
  pub recovery_epoch : ℕ
  pub state : ActiveIncomingState

pub record ProcessedDedupRecord : Type 0 where
  pub expires_at : ℕ
  pub last_seen_at : ℕ
  pub recovery_epoch : ℕ

-- The reorder buffer is keyed by sequence.
pub record OrderedChannelState : Type 0 where
  pub expected_sequence : ℕ
  pub flying : Option MessageId
  pub reorder_buffer : List (ℕ × OrderedMessage)
  pub reorder_bytes : ℕ

pub record DeliveryStore : Type 0 where
  pub pending : List (DeliveryIdentity × PendingMessage)
  pub pending_bytes : ℕ
  pub terminal_outcomes : List (DeliveryIdentity × DeliveryTerminalOutcome)
  pub next_sequences : List (Scope × ℕ)
  pub recovery_epochs : List (Str × ℕ)
  pub incoming_active : List (DedupKey × ActiveIncomingRecord)
  pub processed_dedup : List (DedupKey × ProcessedDedupRecord)
  pub ordered : List (Scope × OrderedChannelState)
  pub failed_ordered : List Scope

abbrev pub new_store : DeliveryStore
new_store = record {
  pending = [];
  pending_bytes = 0;
  terminal_outcomes = [];
  next_sequences = [];
  recovery_epochs = [];
  incoming_active = [];
  processed_dedup = [];
  ordered = [];
  failed_ordered = [];
}

-- `RetryDecision::recovery_error` and `DeliveryError::recovery_error`.
unfoldable pub decision_recovery_error : RetryDecision → Option BusinessRecoveryError
decision_recovery_error (retry_at t) = some recoverable_transport_loss
decision_recovery_error retry_failed = some operation_expired
decision_recovery_error retry_expired = some operation_expired
decision_recovery_error retry_not_found = none

unfoldable pub error_recovery_error : DeliveryError → Option BusinessRecoveryError
error_recovery_error message_expired = some operation_expired
error_recovery_error retry_exhausted = some operation_expired
error_recovery_error _ = none
