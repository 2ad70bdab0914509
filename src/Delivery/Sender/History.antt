-- ===== src/Delivery/Sender/History.antt =====
-- The invariant after any history of calls.
use ssh_mobile.Base.{
  ℕ, ◌<◌, ◌≡◌, refl, Bool, List, [], ◌∷◌, Option, none, some, arith, length, if◌then◌else◌,
  Bool-cases, inl, inr,
}
use ssh_mobile.Base.Words.{u64_max}
use ssh_mobile.Base.Maps.{modify}
use ssh_mobile.Delivery.Keys.{Str, MessageId, DeliveryIdentity, identity_eq}
use ssh_mobile.Delivery.Types.{
  PendingMessage, DeliveryStore, DeliveryConfig, DeliveryPolicy, RetryPolicy, expired, new_store,
}
use ssh_mobile.Delivery.Store.{HashOrder, IsIteration, is_expired}
use ssh_mobile.Delivery.Send.{enqueue, begin_send, mark_sent, mark_send_failed, acknowledge, cancel}
use ssh_mobile.Delivery.Recovery.{
  of_peer, recovered, after_retry, recover_each, retry_each, expire_each, recover_peer,
  retryable_messages, is_retryable, next_epoch,
}
use ssh_mobile.Delivery.Sender.Sound.{IsSound, settle-IsSound, modify-IsSound}
use ssh_mobile.Delivery.Sender.Calls.{
  left_by, enqueue-IsSound, begin_send-IsSound, mark_sent-IsSound, mark_send_failed-IsSound,
  acknowledge-IsSound, cancel-IsSound,
}

-- The calls that the runtime makes of the sending side, with the instants at which it makes them.
pub data Call : Type 0 where
  enqueues : Str → Str → List ℕ → DeliveryPolicy → RetryPolicy → ℕ → List MessageId → Call
  begins : Option Str → MessageId → ℕ → Call
  marks_sent : Option Str → Option ℕ → MessageId → ℕ → Call
  marks_failed : Option Str → Option ℕ → MessageId → ℕ → Call
  acknowledges : Str → MessageId → Call
  cancels : MessageId → Call
  recovers : Str → ℕ → Call
  retries : Str → ℕ → Call

module _ (config : DeliveryConfig) (o : HashOrder) where
  unfoldable pub step : DeliveryStore → Call → DeliveryStore
  step s (enqueues peer channel payload policy retry now draws) =
      left_by s (enqueue o config s peer channel payload policy retry now draws)
  step s (begins peer id now) = (begin_send o s peer id now).1
  step s (marks_sent peer attempt id now) = (mark_sent s peer attempt id now).1
  step s (marks_failed peer attempt id now) = (mark_send_failed o s peer attempt id now).1
  step s (acknowledges peer id) = (acknowledge o s peer id).1
  step s (cancels id) = (cancel o s id).1
  step s (recovers peer now) = (recover_peer o s peer now).1
  step s (retries peer now) = (retryable_messages o s peer now).1

  unfoldable pub run : DeliveryStore → List Call → DeliveryStore
  run s [] = s
  run s (c ∷ cs) = run (step s c) cs

  module _ (law : IsIteration o) where
    recover_each-IsSound :
        (now epoch : ℕ) (ms : List (DeliveryIdentity × PendingMessage)) (s : DeliveryStore)
        → IsSound config s
        → IsSound config (recover_each now epoch ms s).store
    unfolding recover_each
    recover_each-IsSound now epoch [] s v = v
    recover_each-IsSound now epoch ((k, m) ∷ rest) s v = elim (Bool-cases (is_expired m now)) [
      | inl late ↦ rw late (recover_each-IsSound now epoch rest s v)
      | inr live ↦ rw live (
          recover_each-IsSound now epoch rest _
            (modify-IsSound config o law s k (recovered now epoch) (λ x. refl) v))
    ]

    retry_each-IsSound :
        (now : ℕ) (ms : List (DeliveryIdentity × PendingMessage)) (s : DeliveryStore)
        → IsSound config s
        → IsSound config (retry_each now ms s).store
    unfolding retry_each
    retry_each-IsSound now [] s v = v
    retry_each-IsSound now ((k, m) ∷ rest) s v =
        let next =
          retry_each-IsSound now rest (record s { pending = modify k (after_retry now) s.pending })
            (modify-IsSound config o law s k (after_retry now) (λ x. ground arith) v) in
        elim (Bool-cases (is_expired m now)) [
          | inl late ↦ rw late (retry_each-IsSound now rest s v)
          | inr live ↦ elim (Bool-cases (is_retryable now m)) [
            | inl due ↦ rw (live, due) next
            | inr early ↦ rw (live, early) next
          ]
        ]

    expire_each-IsSound :
        (ks : List DeliveryIdentity) (s : DeliveryStore)
        → IsSound config s
        → IsSound config (expire_each o ks s)
    unfolding expire_each
    expire_each-IsSound [] s v = v
    expire_each-IsSound (k ∷ ks) s v =
        expire_each-IsSound ks _ (settle-IsSound config o law s k expired v)

    recover_peer-IsSound :
        (s : DeliveryStore) (peer : Str) (now : ℕ)
        → IsSound config s
        → IsSound config (recover_peer o s peer now).1
    unfolding recover_peer
    recover_peer-IsSound s peer now v = expire_each-IsSound _ _ (
        recover_each-IsSound now (next_epoch s peer) (of_peer peer s.pending) _ (record {
          unique = v.unique;
          settled_unique = v.settled_unique;
          counted = v.counted;
          apart = v.apart;
          few = v.few;
          within_messages = v.within_messages;
          within_bytes = v.within_bytes;
        }))

    step-IsSound :
        (s : DeliveryStore) (c : Call)
        → config.max_pending_bytes < u64_max
        → IsSound config s
        → IsSound config (step s c)
    unfolding step retryable_messages
    step-IsSound s (enqueues peer channel payload policy retry now draws) bound v =
        enqueue-IsSound config o law s peer channel payload policy retry now draws bound v
    step-IsSound s (begins peer id now) bound v = begin_send-IsSound config o law s peer id now v
    step-IsSound s (marks_sent peer attempt id now) bound v =
        mark_sent-IsSound config o law s peer attempt id now v
    step-IsSound s (marks_failed peer attempt id now) bound v =
        mark_send_failed-IsSound config o law s peer attempt id now v
    step-IsSound s (acknowledges peer id) bound v = acknowledge-IsSound config o law s peer id v
    step-IsSound s (cancels id) bound v = cancel-IsSound config o law s id v
    step-IsSound s (recovers peer now) bound v = recover_peer-IsSound s peer now v
    step-IsSound s (retries peer now) bound v =
        expire_each-IsSound _ _ (retry_each-IsSound now (of_peer peer s.pending) s v)

    run_from-IsSound :
        (s : DeliveryStore) (cs : List Call)
        → config.max_pending_bytes < u64_max
        → IsSound config s
        → IsSound config (run s cs)
    unfolding run
    run_from-IsSound s [] bound v = v
    run_from-IsSound s (c ∷ cs) bound v =
        run_from-IsSound (step s c) cs bound (step-IsSound s c bound v)

    -- After any history of calls on a new store, whatever the order of the hash maps and the random
    -- draws: the pending byte count is the sum of the pending payloads, no message is pending and
    -- settled at once, at most 4096 outcomes are kept, and the pending messages and bytes are within
    -- the configured limits (whose byte limit is below the largest u64).
    pub run-IsSound :
        (cs : List Call) → config.max_pending_bytes < u64_max → IsSound config (run new_store cs)
    unfolding ssh_mobile.Base.Maps.total ssh_mobile.Base.Maps.get
    run-IsSound cs bound = run_from-IsSound new_store cs bound (record {
      unique = tt;
      settled_unique = tt;
      counted = refl;
      apart = λ k p. refl;
      few = omega arith;
      within_messages = omega arith;
      within_bytes = omega arith;
    })
