-- ===== src/Delivery/Sender/Enqueue.antt =====
-- The sequence number that `enqueue` gives.
use ssh_mobile.Base.{
  ℕ, ◌≡◌, refl, ap, ◌∙◌, ◌||◌, not, List, [], ◌∷◌, some, arith, ltb, length, Bool-cases,
  Option-cases, inl, inr, ok, str_eq,
}
use ssh_mobile.Base.Words.{saturating_add}
use ssh_mobile.Base.Maps.{get, has, put}
use ssh_mobile.Delivery.Keys.{Str, MessageId, Scope, scope_eq, DeliveryIdentity, identity_eq}
use ssh_mobile.Delivery.Types.{
  DeliveryPolicy, DeliveryTerminalOutcome, cancelled, RetryPolicy, PendingMessage, DeliveryConfig,
  DeliveryStore, is_valid_scope_id, is_valid_policy,
}
use ssh_mobile.Delivery.Store.{HashOrder, settle, remove_pending, record_terminal, next_message_id}
use ssh_mobile.Delivery.Message.{or_zero, is_latest_state, obsolete}
use ssh_mobile.Delivery.Send.{settle_all, is_full, without_obsolete, admit, enqueue_valid, enqueue}

module _ (o : HashOrder) where
  settle-next_sequences :
      (s : DeliveryStore) (k : DeliveryIdentity) (outcome : DeliveryTerminalOutcome)
      → (settle o s k outcome).next_sequences ≡ s.next_sequences
  unfolding record_terminal remove_pending
  settle-next_sequences s k outcome = ground arith

  settle_all-next_sequences :
      (outcome : DeliveryTerminalOutcome) (ks : List DeliveryIdentity) (s : DeliveryStore)
      → (settle_all o outcome ks s).next_sequences ≡ s.next_sequences
  unfolding settle_all
  settle_all-next_sequences outcome [] s = refl
  settle_all-next_sequences outcome (k ∷ ks) s = elim (Bool-cases (has k s.pending)) [
    | inl there ↦
        rw (there, settle_all)
          (settle_all-next_sequences outcome ks (settle o s k outcome)
            ∙ settle-next_sequences s k outcome)
    | inr gone ↦ rw (gone, settle_all) (settle_all-next_sequences outcome ks s)
  ]

  module _ (config : DeliveryConfig) where
    without_obsolete-next_sequences :
        (s : DeliveryStore) (peer channel : Str) (policy : DeliveryPolicy)
        → (without_obsolete o config s peer channel policy).next_sequences ≡ s.next_sequences
    without_obsolete-next_sequences s peer channel policy =
        elim (Bool-cases (is_latest_state policy)) [
          | inl latest ↦
              rw latest (settle_all-next_sequences cancelled (obsolete peer channel s.pending) s)
          | inr other ↦ rw other
        ]

    enqueue_valid-admit :
        (s s' : DeliveryStore) (peer channel : Str) (payload : List ℕ) (policy : DeliveryPolicy)
        → (retry : RetryPolicy) (now : ℕ) (draws : List MessageId) (m : PendingMessage)
        → enqueue_valid o config s peer channel payload policy retry now draws ≡ some (ok m, s')
        → (id : MessageId) × (admit o config s peer channel payload policy retry now id
            ≡ (ok m, s'))
    unfolding enqueue_valid
    enqueue_valid-admit s s' peer channel payload policy retry now draws m h =
        elim (Bool-cases (is_full o config s policy (length payload))) [
          | inl full ↦ absurd (cc (rw full at h))
          | inr room ↦ elim (Option-cases (next_message_id s peer draws)) [
            | inl none_free ↦ absurd (cc (rw (room, enqueue_valid, none_free) at h))
            | inr (id, free) ↦ (id, cc (rw (room, enqueue_valid, free) at h))
          ]
        ]

    enqueue-admit :
        (s s' : DeliveryStore) (peer channel : Str) (payload : List ℕ) (policy : DeliveryPolicy)
        → (retry : RetryPolicy) (now : ℕ) (draws : List MessageId) (m : PendingMessage)
        → enqueue o config s peer channel payload policy retry now draws ≡ some (ok m, s')
        → enqueue_valid o config
            (without_obsolete o config s peer channel policy)
            peer
            channel
            payload
            policy
            retry
            now
            draws
          ≡ some (ok m, s')
    unfolding enqueue
    enqueue-admit s s' peer channel payload policy retry now draws m h =
        elim (Bool-cases (not (is_valid_scope_id peer) || not (is_valid_scope_id channel))) [
          | inl bad ↦ absurd (cc (rw bad at h))
          | inr scoped ↦ elim (Bool-cases (ltb config.max_payload_bytes (length payload))) [
            | inl large ↦ absurd (cc (rw (scoped, large) at h))
            | inr fits ↦ elim (Bool-cases (is_valid_policy retry)) [
              | inr invalid ↦ absurd (cc (rw (scoped, fits, invalid) at h))
              | inl valid ↦ rw (scoped, fits, valid) at h
            ]
          ]
        ]

    admit-numbers :
        (s s' : DeliveryStore) (peer channel : Str) (payload : List ℕ) (policy : DeliveryPolicy)
        → (retry : RetryPolicy) (now : ℕ) (id : MessageId) (m : PendingMessage) (scope : Scope)
        → admit o config s peer channel payload policy retry now id ≡ (ok m, s')
        → (m.sequence ≡ or_zero (get (peer, channel) s.next_sequences))
          × (get scope s'.next_sequences
              ≡ get scope (put (peer, channel) (saturating_add m.sequence 1) s.next_sequences))
    unfolding admit
    admit-numbers s s' peer channel payload policy retry now id m scope h = ground arith

    -- A message that `enqueue` accepts has the next sequence of its channel, from 0 on; the channel
    -- goes on with the one after it (u64 saturates), and the other channels with their own.
    pub enqueue-numbers :
        (s s' : DeliveryStore) (peer channel : Str) (payload : List ℕ) (policy : DeliveryPolicy)
        → (retry : RetryPolicy) (now : ℕ) (draws : List MessageId) (m : PendingMessage)
          (scope : Scope)
        → enqueue o config s peer channel payload policy retry now draws ≡ some (ok m, s')
        → (m.sequence ≡ or_zero (get (peer, channel) s.next_sequences))
          × (get scope s'.next_sequences
              ≡ get scope (put (peer, channel) (saturating_add m.sequence 1) s.next_sequences))
    enqueue-numbers s s' peer channel payload policy retry now draws m scope h =
        let t = without_obsolete o config s peer channel policy in
        let (id, admitted) =
          enqueue_valid-admit t s' peer channel payload policy retry now draws m
            (enqueue-admit s s' peer channel payload policy retry now draws m h) in
        let (number, after) =
          admit-numbers t s' peer channel payload policy retry now id m scope admitted in
        let same = without_obsolete-next_sequences s peer channel policy in
        (
          number ∙ ap (λ n. or_zero (get (peer, channel) n)) same,
          after ∙ ap (λ n. get scope (put (peer, channel) (saturating_add m.sequence 1) n)) same,
        )
