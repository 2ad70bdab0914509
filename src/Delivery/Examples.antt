-- ===== src/Delivery/Examples.antt =====
-- A short life of a message of native/network_core/crates/network-core/src/delivery/.
use mathlib.Core.List.{Perm}
use ssh_mobile.Base.{
  ℕ, ◌≤◌, ◌≡◌, refl, true, false, List, [], ◌∷◌, none, some, arith, ok, map, str_eq,
}
use ssh_mobile.Base.Maps.{get, has, put, delete, modify}
use ssh_mobile.Delivery.Keys.{Str, DeliveryIdentity, identity_of, identity_eq, scope_eq}
use ssh_mobile.Delivery.Types.{
  DeliveryConfig, DeliveryStore, RetryPolicy, PendingMessage, new_store, acked, acknowledged,
  ack_acknowledged, ack_unknown, is_valid_scope_id, is_valid_policy, sending,
}
use ssh_mobile.Delivery.Store.{
  HashOrder, IsIteration, is_expired, settle, next_message_id, remove_pending, record_terminal,
  resolve_pending_identity,
}
use ssh_mobile.Delivery.Message.{exceeds}
use ssh_mobile.Delivery.Send.{
  enqueue, enqueue_valid, admit, begin_send, begin_send_found, acknowledge, terminal_outcome,
}
use ssh_mobile.Delivery.Recovery.{recover_peer, of_peer, recovered, next_epoch}
use ssh_mobile.Base.Words.{saturating_add}
use ssh_mobile.Delivery.Types.{queued}
use ssh_mobile.Delivery.Keys.{scope_eq}
use ssh_mobile.Delivery.Message.{or_zero}
use ssh_mobile.Delivery.Sender.Enqueue.{enqueue-numbers}
use ssh_mobile.Delivery.Sender.Sound.{IsSound}
use ssh_mobile.Delivery.Sender.History.{Call, enqueues, run, step, run-IsSound}
use ssh_mobile.Delivery.Sender.Outcomes.{settle-outcome, acknowledge_once, begin_send-lease}
use ssh_mobile.Delivery.Sender.Snapshot.{IsOrdered, live, recover_peer-snapshot}

abbrev pub as_stored : HashOrder
as_stored = record { terminals = λ m. m; processed = λ m. m }

pub as_stored-IsIteration : IsIteration as_stored
as_stored-IsIteration = record {
  terminals_get = λ k m. refl;
  terminals_length = λ m. refl;
  processed_get = λ k m. refl;
  processed_length = λ m. refl;
}

abbrev pub small_config : DeliveryConfig
small_config = record {
  max_pending_messages = 4;
  max_pending_bytes = 64;
  max_payload_bytes = 16;
  dedup_max_entries = 4;
  dedup_ttl = 1000;
  application_ack_timeout = 100;
  max_reorder_messages = 2;
  max_reorder_bytes = 32;
  max_sequence_gap = 8;
}

abbrev three_attempts : RetryPolicy
three_attempts = record {
  max_attempts = 3;
  initial_backoff = 10;
  max_backoff = 100;
  ttl = some 500;
  max_total_retry_bytes = some 64;
}

abbrev pub peer : Str
peer = 80 ∷ []

abbrev pub chat : Str
chat = 67 ∷ []

abbrev pub id : List ℕ
id = 7 ∷ []

abbrev key : DeliveryIdentity
key = identity_of peer id

abbrev calls : List Call
calls = enqueues peer chat (1 ∷ 2 ∷ []) acked three_attempts 0 (id ∷ []) ∷ []

abbrev with_one : DeliveryStore
with_one = run small_config as_stored new_store calls

with_one-IsSound : IsSound small_config with_one
with_one-IsSound = run-IsSound small_config as_stored as_stored-IsIteration calls (omega arith)

is_pending : has key with_one.pending ≡ true
unfolding get put run step enqueue enqueue_valid admit next_message_id is_valid_scope_id
    is_valid_policy
is_pending = refl

abbrev settled : DeliveryStore
settled = (acknowledge as_stored with_one peer id).1

is_acknowledged : acknowledge as_stored with_one peer id ≡ (ack_acknowledged, settled)
unfolding get put run step enqueue enqueue_valid admit next_message_id is_valid_scope_id
    is_valid_policy acknowledge
is_acknowledged = refl

abbrev leased : PendingMessage
leased = record {
  message_id = id;
  peer_id = peer;
  channel_id = chat;
  sequence = 0;
  payload = 1 ∷ 2 ∷ [];
  policy = acked;
  state = sending;
  attempts = 1;
  created_at = 0;
  expires_at = some 500;
  recovery_epoch = 0;
  retry_policy = three_attempts;
  next_retry_at = 0;
  retry_bytes = 0;
}

abbrev after_lease : DeliveryStore
after_lease = (begin_send as_stored with_one (some peer) id 5).1

is_leased : begin_send as_stored with_one (some peer) id 5 ≡ (ok (some leased), after_lease)
unfolding get put modify run step enqueue enqueue_valid admit next_message_id is_valid_scope_id
    is_valid_policy begin_send begin_send_found resolve_pending_identity is_expired
is_leased = refl

is_live : is_expired leased 6 ≡ false
unfolding is_expired
is_live = refl

run-IsSound_example : IsSound small_config (run small_config as_stored new_store calls)
run-IsSound_example = run-IsSound small_config as_stored as_stored-IsIteration calls (omega arith)

settle-outcome_example :
    (get key (settle as_stored with_one key acknowledged).terminal_outcomes ≡ some acknowledged)
    × (has key (settle as_stored with_one key acknowledged).pending ≡ false)
settle-outcome_example =
    settle-outcome small_config as_stored as_stored-IsIteration with_one key acknowledged
      with_one-IsSound is_pending

acknowledge_once_example :
    (terminal_outcome settled peer id ≡ some acknowledged)
    × (acknowledge as_stored settled peer id ≡ (ack_unknown, settled))
acknowledge_once_example =
    acknowledge_once small_config as_stored as_stored-IsIteration with_one settled peer id
      with_one-IsSound is_acknowledged

is_gone : has key settled.pending ≡ false
unfolding get put delete run step enqueue enqueue_valid admit next_message_id is_valid_scope_id
    is_valid_policy acknowledge remove_pending record_terminal
is_gone = refl

begin_send-lease_example :
    (get key after_lease.pending ≡ some leased)
    × (sending ≡ sending)
    × (1 ≤ 1)
    × (1 ≤ 3)
    × (exceeds (some 64) 0 ≡ false)
    × (begin_send as_stored after_lease (some peer) id 6 ≡ (ok none, after_lease))
begin_send-lease_example =
    begin_send-lease as_stored with_one after_lease peer id leased 5 6 is_leased is_live

recover_peer-snapshot_example :
    Perm
      (recover_peer as_stored with_one peer 20).0.messages
      (map (recovered 20 (next_epoch with_one peer)) (live 20 (of_peer peer with_one.pending)))
    × IsOrdered (recover_peer as_stored with_one peer 20).0.messages
    × ((recover_peer as_stored with_one peer 20).0.recovery_epoch ≡ next_epoch with_one peer)
recover_peer-snapshot_example = recover_peer-snapshot as_stored with_one peer 20

is_valid : is_valid_policy three_attempts ≡ true
unfolding is_valid_policy
is_valid = refl

abbrev waiting : PendingMessage
waiting = record leased { state = queued; attempts = 0 }

accepts :
    enqueue as_stored small_config new_store peer chat (1 ∷ 2 ∷ []) acked three_attempts 0 (id ∷ [])
    ≡ some (ok waiting, with_one)
unfolding get put run step enqueue enqueue_valid admit next_message_id is_valid_scope_id
    is_valid_policy
accepts = refl

enqueue-numbers_example :
    (0 ≡ or_zero (get (peer, chat) new_store.next_sequences))
    × (get (peer, chat) with_one.next_sequences
        ≡ get (peer, chat) (put (peer, chat) (saturating_add 0 1) new_store.next_sequences))
enqueue-numbers_example =
    enqueue-numbers as_stored small_config new_store with_one peer chat (1 ∷ 2 ∷ []) acked
      three_attempts 0 (id ∷ []) waiting (peer, chat) accepts
