-- ===== src/Delivery/Receiver/Examples.antt =====
-- A short life of an ordered channel of
-- native/network_core/crates/network-core/src/delivery/incoming.rs.
use ssh_mobile.Base.{
  ℕ, ◌≡◌, refl, false, List, [], ◌∷◌, length, Option, none, some, arith, str_eq, nat_eq,
}
use ssh_mobile.Base.Maps.{get, put, delete, retain}
use ssh_mobile.Base.Sets.{contains}
use ssh_mobile.Delivery.Keys.{scope_eq, dedup_eq}
use ssh_mobile.Delivery.Types.{DeliveryStore, OrderedMessage, new_store, acked, new}
use ssh_mobile.Delivery.Examples.{small_config, as_stored, as_stored-IsIteration, peer, chat, id}
use ssh_mobile.Delivery.Store.{prune_processed_dedup, remember_processed, shrink_processed}
use ssh_mobile.Delivery.Timeouts.{
  fail_ordered_channel, expire_active, fail_each, expire_incoming_locked,
}
use ssh_mobile.Delivery.Ordered.{
  new_channel, insert, insert_expected, insert_later, acknowledge_ordered,
}
use ssh_mobile.Delivery.Incoming.{register, begin_incoming, close_peer}
use ssh_mobile.Delivery.Completion.{IncomingCompletion, complete_incoming, finish_incoming}
use ssh_mobile.Delivery.Receiver.Channel.{IsChannel}
use ssh_mobile.Delivery.Receiver.Release.{
  Arrival, arrives, acks, IsConsecutive, deliver_all, deliver_all_in_order,
}
use ssh_mobile.Delivery.Receiver.History.{
  Receive, begins, completes, expires, receive, receive_each, IsReceiver, receive_each-IsReceiver,
}
use ssh_mobile.Delivery.Receiver.Repeats.{complete_incoming_once}
use ssh_mobile.Delivery.Receiver.Closing.{expected_of, close_peer-expected}

abbrev numbered : ℕ → OrderedMessage
numbered n = record {
  peer_id = peer;
  session_id = [];
  channel_id = chat;
  message_id = n ∷ [];
  sequence = n;
  policy = acked;
  payload = 1 ∷ [];
}

abbrev arrivals : List Arrival
arrivals = arrives (numbered 1) ∷ arrives (numbered 0) ∷ acks (0 ∷ []) ∷ arrives (numbered 1) ∷ []

deliver_all_in_order_example :
    IsConsecutive 0 (deliver_all 2 64 8 new_channel arrivals).0
    × IsChannel 2 64 (deliver_all 2 64 8 new_channel arrivals).1
deliver_all_in_order_example =
    deliver_all_in_order 2 64 8 arrivals (omega arith)
      (omega arith, (omega arith, (tt, (omega arith, tt)))) (omega arith)

-- The second message arrives first and is released by the acknowledgement of the first.
releases : (deliver_all 2 64 8 new_channel arrivals).0 ≡ numbered 0 ∷ numbered 1 ∷ []
unfolding deliver_all ssh_mobile.Delivery.Receiver.Release.deliver insert insert_expected
    insert_later acknowledge_ordered get put delete
releases = refl

abbrev calls : List Receive
calls = begins peer chat id 1 0 ∷ []

receive_each-IsReceiver_example :
    IsReceiver small_config (receive_each small_config as_stored new_store calls)
receive_each-IsReceiver_example =
    receive_each-IsReceiver small_config as_stored as_stored-IsIteration calls

abbrev begun : DeliveryStore
begun = receive_each small_config as_stored new_store calls

begun-IsReceiver : IsReceiver small_config begun
begun-IsReceiver = receive_each-IsReceiver small_config as_stored as_stored-IsIteration calls

abbrev completed : Option IncomingCompletion × DeliveryStore
completed = complete_incoming small_config as_stored begun peer chat id 10

completes_it :
    complete_incoming small_config as_stored begun peer chat id 10
    ≡ (some (record { recovery_epoch = 1; next_ordered = none }), completed.1)
unfolding receive_each receive begin_incoming register prune_processed_dedup expire_incoming_locked
    expire_active fail_each complete_incoming finish_incoming get put retain contains
completes_it = refl

abbrev between : List Receive
between = begins peer chat id 2 12 ∷ expires peer 15 ∷ completes peer chat id 16 ∷ []

history_length : length completed.1.processed_dedup ≡ 1
unfolding receive_each receive begin_incoming register prune_processed_dedup expire_incoming_locked
    expire_active fail_each complete_incoming finish_incoming remember_processed shrink_processed
    get put retain contains delete
history_length = refl

complete_incoming_once_example : ¬ (
    (begin_incoming small_config
      (receive_each small_config as_stored completed.1 between)
      peer
      chat
      id
      2
      20).0
    ≡ new)
complete_incoming_once_example =
    complete_incoming_once small_config as_stored begun completed.1 peer chat id 2 10 20 between
      (record { recovery_epoch = 1; next_ordered = none }) as_stored-IsIteration begun-IsReceiver
      (omega arith) completes_it
      ((omega arith, omega arith), (tt, ((omega arith, omega arith), tt)))
      (omega (arith, history_length)) (omega arith)

close_peer-expected_example :
    (expected_of (get (peer, chat) (close_peer new_store peer).ordered)
      ≡ expected_of (get (peer, chat) new_store.ordered))
    × (contains (close_peer new_store peer).failed_ordered (peer, chat) ≡ false)
    × (get (peer, chat) (close_peer (fail_ordered_channel new_store (peer, chat)).1 peer).ordered
        ≡ none)
close_peer-expected_example = close_peer-expected new_store peer chat (peer, chat) tt
