-- ===== src/Delivery/Sender/Calls.antt =====
-- Each call of the sending side keeps the invariant.
use ssh_mobile.Base.{
  ℕ, ◌<◌, ◌≡◌, refl, false, List, [], ◌∷◌, Option, none, some, arith, length, Bool-cases,
  Option-cases, inl, inr,
}
use ssh_mobile.Base.Words.{u64_max}
use ssh_mobile.Base.Maps.{has}
use ssh_mobile.Delivery.Keys.{Str, MessageId, DeliveryIdentity, identity_of, identity_eq, scope_eq}
use ssh_mobile.Delivery.Types.{
  DeliveryTerminalOutcome, PendingMessage, DeliveryStore, DeliveryConfig, DeliveryPolicy,
  RetryPolicy, expired, failed, acknowledged, cancelled,
}
use ssh_mobile.Delivery.Store.{HashOrder, IsIteration, resolve_pending_identity, next_message_id}
use ssh_mobile.Delivery.Message.{
  started, awaiting, requeued, obsolete, is_best_effort, message_of, with_sequence,
}
use ssh_mobile.Delivery.Send.{
  settle_all, without_obsolete, is_full, admit, enqueue_valid, enqueue, begin_send_found,
  begin_send, mark_sent, mark_send_failed_found, mark_send_failed, acknowledge, cancel,
}
use ssh_mobile.Delivery.Sender.Sound.{IsSound, settle-IsSound, modify-IsSound, put-IsSound}

-- What a call of `enqueue` leaves; one that finds no free id changes nothing.
abbrev pub left_by : {A : Type 0} → DeliveryStore → Option (A × DeliveryStore) → DeliveryStore
left_by s none = s
left_by s (some r) = r.1

module _ (config : DeliveryConfig) (o : HashOrder) (law : IsIteration o) where
  begin_send_found-IsSound :
      (s : DeliveryStore) (k : DeliveryIdentity) (m : PendingMessage) (now : ℕ)
      → IsSound config s
      → IsSound config (begin_send_found o s k m now).1
  unfolding begin_send_found
  begin_send_found-IsSound s k m now v = ground (
    arith,
    settle-IsSound config o law s k expired v,
    settle-IsSound config o law s k failed v,
    modify-IsSound config o law s k started (λ x. refl) v,
  )

  pub begin_send-IsSound :
      (s : DeliveryStore) (peer : Option Str) (id : MessageId) (now : ℕ)
      → IsSound config s
      → IsSound config (begin_send o s peer id now).1
  unfolding begin_send
  begin_send-IsSound s peer id now v = grind (arith, begin_send_found-IsSound)

  pub mark_sent-IsSound :
      (s : DeliveryStore) (peer : Option Str) (attempt : Option ℕ) (id : MessageId) (now : ℕ)
      → IsSound config s
      → IsSound config (mark_sent s peer attempt id now).1
  unfolding mark_sent
  mark_sent-IsSound s peer attempt id now v =
      elim (Option-cases (resolve_pending_identity s peer id)) [
        | inl e ↦ rw (e, mark_sent) v
        | inr (k, e) ↦
            rw (e, mark_sent)
              (ground (arith, modify-IsSound config o law s k (awaiting now) (λ x. refl) v))
      ]

  mark_send_failed_found-IsSound :
      (s : DeliveryStore) (attempt : Option ℕ) (k : DeliveryIdentity) (m : PendingMessage) (now : ℕ)
      → IsSound config s
      → IsSound config (mark_send_failed_found o s attempt k m now).1
  unfolding mark_send_failed_found
  mark_send_failed_found-IsSound s attempt k m now v = ground (
    arith,
    settle-IsSound config o law s k expired v,
    settle-IsSound config o law s k failed v,
    modify-IsSound config o law s k (requeued now) (λ x. refl) v,
  )

  pub mark_send_failed-IsSound :
      (s : DeliveryStore) (peer : Option Str) (attempt : Option ℕ) (id : MessageId) (now : ℕ)
      → IsSound config s
      → IsSound config (mark_send_failed o s peer attempt id now).1
  unfolding mark_send_failed
  mark_send_failed-IsSound s peer attempt id now v = grind (arith, mark_send_failed_found-IsSound)

  pub acknowledge-IsSound :
      (s : DeliveryStore) (peer : Str) (id : MessageId)
      → IsSound config s
      → IsSound config (acknowledge o s peer id).1
  unfolding acknowledge
  acknowledge-IsSound s peer id v =
      ground (arith, settle-IsSound config o law s (identity_of peer id) acknowledged v)

  pub cancel-IsSound :
      (s : DeliveryStore) (id : MessageId) → IsSound config s → IsSound config (cancel o s id).1
  unfolding cancel
  cancel-IsSound s id v = elim (Option-cases (resolve_pending_identity s none id)) [
    | inl e ↦ rw (e, cancel) v
    | inr (k, e) ↦ rw (e, cancel) (ground (arith, settle-IsSound config o law s k cancelled v))
  ]

  settle_all-IsSound :
      (outcome : DeliveryTerminalOutcome) (ks : List DeliveryIdentity) (s : DeliveryStore)
      → IsSound config s
      → IsSound config (settle_all o outcome ks s)
  unfolding settle_all
  settle_all-IsSound outcome [] s v = v
  settle_all-IsSound outcome (k ∷ ks) s v =
      settle_all-IsSound outcome ks _ (ground (arith, settle-IsSound config o law s k outcome v))

  without_obsolete-IsSound :
      (s : DeliveryStore) (peer channel : Str) (policy : DeliveryPolicy)
      → IsSound config s
      → IsSound config (without_obsolete o config s peer channel policy)
  without_obsolete-IsSound s peer channel policy v =
      ground (arith, settle_all-IsSound cancelled (obsolete peer channel s.pending) s v)

  -- A drawn id is in use nowhere.
  pub next_message_id-fresh :
      (s : DeliveryStore) (peer : Str) (draws : List MessageId) (id : MessageId)
      → next_message_id s peer draws ≡ some id
      → (has (identity_of peer id) s.pending ≡ false)
        × (has (identity_of peer id) s.terminal_outcomes ≡ false)
  unfolding next_message_id
  next_message_id-fresh s peer [] id h = cc
  next_message_id-fresh s peer (d ∷ draws) id h =
      ground (arith, next_message_id-fresh s peer draws id)

  with_sequence-IsSound :
      (s : DeliveryStore) (peer channel : Str)
      → IsSound config s
      → IsSound config (with_sequence s peer channel)
  with_sequence-IsSound s peer channel v = record {
    unique = v.unique;
    settled_unique = v.settled_unique;
    counted = v.counted;
    apart = v.apart;
    few = v.few;
    within_messages = v.within_messages;
    within_bytes = v.within_bytes;
  }

  admit-IsSound :
      (s : DeliveryStore) (peer channel : Str) (payload : List ℕ) (policy : DeliveryPolicy)
      (retry : RetryPolicy) (now : ℕ) (id : MessageId)
      → config.max_pending_bytes < u64_max
      → IsSound config s
      → is_full o config s policy (length payload) ≡ false
      → has (identity_of peer id) s.pending ≡ false
      → has (identity_of peer id) s.terminal_outcomes ≡ false
      → IsSound config (admit o config s peer channel payload policy retry now id).1
  unfolding admit
  admit-IsSound s peer channel payload policy retry now id bound v room new unsettled =
      let next = with_sequence-IsSound s peer channel v in
      elim (Bool-cases (is_best_effort policy)) [
        | inl lossy ↦ rw lossy next
        | inr kept ↦ rw kept (
            put-IsSound config o law (with_sequence s peer channel) (identity_of peer id)
              (message_of s peer channel payload policy retry now id) next new unsettled
              (ground arith) (ground arith))
      ]

  enqueue_valid-IsSound :
      (s : DeliveryStore) (peer channel : Str) (payload : List ℕ) (policy : DeliveryPolicy)
      (retry : RetryPolicy) (now : ℕ) (draws : List MessageId)
      → config.max_pending_bytes < u64_max
      → IsSound config s
      → (t : DeliveryStore) → IsSound config t
      → IsSound config
          (left_by t (enqueue_valid o config s peer channel payload policy retry now draws))
  unfolding enqueue_valid
  enqueue_valid-IsSound s peer channel payload policy retry now draws bound v t w =
      elim (Bool-cases (is_full o config s policy (length payload))) [
        | inl full ↦ rw (full, enqueue_valid) v
        | inr room ↦ elim (Option-cases (next_message_id s peer draws)) [
          | inl e ↦ rw (room, enqueue_valid, e) w
          | inr (id, e) ↦
              let (new, unsettled) = next_message_id-fresh s peer draws id e in
              rw (room, enqueue_valid, e)
                (admit-IsSound s peer channel payload policy retry now id bound v room new
                  unsettled)
        ]
      ]

  pub enqueue-IsSound :
      (s : DeliveryStore) (peer channel : Str) (payload : List ℕ) (policy : DeliveryPolicy)
      (retry : RetryPolicy) (now : ℕ) (draws : List MessageId)
      → config.max_pending_bytes < u64_max
      → IsSound config s
      → IsSound config (left_by s (enqueue o config s peer channel payload policy retry now draws))
  unfolding enqueue
  enqueue-IsSound s peer channel payload policy retry now draws bound v = ground (
    arith,
    enqueue_valid-IsSound (without_obsolete o config s peer channel policy) peer channel payload
        policy retry now draws bound (without_obsolete-IsSound s peer channel policy v) s v,
  )
