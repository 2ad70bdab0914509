-- ===== src/Delivery/Recovery.antt =====
-- Recovery after a new connection:
-- native/network_core/crates/network-core/src/delivery/recovery.rs.
use ssh_mobile.Base.{
  ℕ, Bool, ◌&&◌, List, [], ◌∷◌, none, some, leb, if◌then◌else◌, Result, ok, err, not, str_beq,
  str_eq,
}
use ssh_mobile.Base.Words.{saturating_add}
use ssh_mobile.Base.Maps.{get, put, modify}
use ssh_mobile.Delivery.Keys.{Str, DeliveryIdentity, identity_eq}
use ssh_mobile.Delivery.Types.{
  queued, expired, DeliveryError, invalid_scope, is_valid_scope_id, PendingMessage, DeliveryStore,
}
use ssh_mobile.Delivery.Store.{HashOrder, is_expired, settle}
use ssh_mobile.Delivery.Message.{is_queued, is_sent_unacked}

pub record RecoverySnapshot : Type 0 where
  pub recovery_epoch : ℕ
  pub messages : List PendingMessage

-- The pending messages of a peer.
abbrev pub of_peer :
    Str → List (DeliveryIdentity × PendingMessage) → List (DeliveryIdentity × PendingMessage)
of_peer peer [] = []
of_peer peer ((k, m) ∷ rest) =
    let others = of_peer peer rest in if str_beq m.peer_id peer then (k, m) ∷ others else others

-- `sort_by_key(|message| message.sequence)`, which is stable.
unfoldable pub insert_by_sequence : PendingMessage → List PendingMessage → List PendingMessage
insert_by_sequence m [] = m ∷ []
insert_by_sequence m (x ∷ xs) =
    let rest = insert_by_sequence m xs in
    if leb m.sequence x.sequence then m ∷ (x ∷ xs) else x ∷ rest

unfoldable pub sort_by_sequence : List PendingMessage → List PendingMessage
unfolding insert_by_sequence
sort_by_sequence [] = []
sort_by_sequence (m ∷ ms) = insert_by_sequence m (sort_by_sequence ms)

abbrev pub recovered : ℕ → ℕ → PendingMessage → PendingMessage
recovered now epoch m = record m { state = queued; next_retry_at = now; recovery_epoch = epoch }

abbrev pub retried : ℕ → PendingMessage → PendingMessage
retried now m = record m { state = queued; next_retry_at = now }

-- What a pass over the messages of a peer collects.
pub record Pass : Type 0 where
  pub store : DeliveryStore
  pub messages : List PendingMessage
  pub expired_ids : List DeliveryIdentity

abbrev pub next_epoch : DeliveryStore → Str → ℕ
next_epoch s peer = elim (get peer s.recovery_epochs) [
  | none ↦ 1
  | some epoch ↦ saturating_add epoch 1
]

-- The loop of `recover_peer_at`.
unfoldable pub recover_each :
    ℕ → ℕ → List (DeliveryIdentity × PendingMessage) → DeliveryStore → Pass
recover_each now epoch [] s = record { store = s; messages = []; expired_ids = [] }
recover_each now epoch ((k, m) ∷ rest) s =
    if is_expired m now
    then (let p = recover_each now epoch rest s in record p { expired_ids = k ∷ p.expired_ids })
    else (let p =
          recover_each now epoch rest
            (record s { pending = modify k (recovered now epoch) s.pending }) in
        record p { messages = recovered now epoch m ∷ p.messages })

abbrev pub is_retryable : ℕ → PendingMessage → Bool
is_retryable now m =
    if is_sent_unacked m.state
    then leb m.next_retry_at now
    else is_queued m.state && leb m.next_retry_at now

abbrev pub after_retry : ℕ → PendingMessage → PendingMessage
after_retry now m = if is_sent_unacked m.state && leb m.next_retry_at now then retried now m else m

-- The loop of `retryable_messages`.
unfoldable pub retry_each : ℕ → List (DeliveryIdentity × PendingMessage) → DeliveryStore → Pass
retry_each now [] s = record { store = s; messages = []; expired_ids = [] }
retry_each now ((k, m) ∷ rest) s =
    if is_expired m now
    then (let p = retry_each now rest s in record p { expired_ids = k ∷ p.expired_ids })
    else (let p =
          retry_each now rest (record s { pending = modify k (after_retry now) s.pending }) in
        if is_retryable now m then record p { messages = after_retry now m ∷ p.messages } else p)

module _ (o : HashOrder) where
  unfoldable pub expire_each : List DeliveryIdentity → DeliveryStore → DeliveryStore
  expire_each [] s = s
  expire_each (k ∷ ks) s = expire_each ks (settle o s k expired)

  unfoldable pub recover_peer : DeliveryStore → Str → ℕ → RecoverySnapshot × DeliveryStore
  recover_peer s peer now =
      let epoch = next_epoch s peer in
      let s' = record s { recovery_epochs = put peer epoch s.recovery_epochs } in
      let p = recover_each now epoch (of_peer peer s'.pending) s' in
      (
        record { recovery_epoch = epoch; messages = sort_by_sequence p.messages },
        expire_each p.expired_ids p.store,
      )

  unfoldable pub retryable_messages : DeliveryStore → Str → ℕ → List PendingMessage × DeliveryStore
  retryable_messages s peer now =
      let p = retry_each now (of_peer peer s.pending) s in
      (sort_by_sequence p.messages, expire_each p.expired_ids p.store)

  unfoldable pub recover_peer_checked :
      DeliveryStore → Str → ℕ → Result DeliveryError RecoverySnapshot × DeliveryStore
  recover_peer_checked s peer now =
      if not (is_valid_scope_id peer)
      then (err invalid_scope, s)
      else (let (snapshot, s') = recover_peer s peer now in (ok snapshot, s'))
