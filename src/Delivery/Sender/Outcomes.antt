-- ===== src/Delivery/Sender/Outcomes.antt =====
-- Terminal outcomes and the retry budget of a message.
use ssh_mobile.Base.{
  ℕ, ◌≤◌, ◌≡◌, refl, ap, ◌∙◌, true, false, none, some, is_some, arith, Bool-cases, Option-cases,
  inl, inr, ok, err, str_eq,
}
use ssh_mobile.Base.Maps.{get, has, modify, get-put, get-delete, get-modify}
use ssh_mobile.Delivery.Keys.{Str, MessageId, DeliveryIdentity, identity_of, identity_eq}
use ssh_mobile.Delivery.Types.{
  DeliveryTerminalOutcome, PendingMessage, DeliveryStore, DeliveryConfig, acknowledged,
  ack_acknowledged, ack_unknown, DeliveryError, is_valid_scope_id, sending, invalid_scope,
  not_found,
}
use ssh_mobile.Delivery.Store.{
  HashOrder, IsIteration, settle, remove_pending, record_terminal, evict_terminal,
  resolve_pending_identity, is_expired,
}
use ssh_mobile.Delivery.Message.{started, is_out_of_budget, exceeds, is_foreign_peer}
use ssh_mobile.Delivery.Send.{begin_send_found, begin_send, acknowledge, terminal_outcome}
use ssh_mobile.Delivery.Sender.Sound.{IsSound, evict_terminal-room, identity_beq_refl}

module _ (config : DeliveryConfig) (o : HashOrder) (law : IsIteration o) where
  -- Settling a pending message takes it out and records exactly the given outcome.
  pub settle-outcome :
      (s : DeliveryStore) (k : DeliveryIdentity) (outcome : DeliveryTerminalOutcome)
      → IsSound config s
      → has k s.pending ≡ true
      → (get k (settle o s k outcome).terminal_outcomes ≡ some outcome)
        × (has k (settle o s k outcome).pending ≡ false)
  unfolding record_terminal remove_pending
  settle-outcome s k outcome v there = elim (Option-cases (get k s.pending)) [
    | inl gone ↦ cc
    | inr (m, held) ↦
        let (_, _, _, new_too, _) =
          evict_terminal-room config o law k s.terminal_outcomes v.settled_unique v.few in
        let unsettled = new_too k (v.apart k there) in
        rw (held, remove_pending, record_terminal, unsettled)
          (
            get-put k k outcome (evict_terminal o k s.terminal_outcomes) ∙ rw (identity_beq_refl k),
            ap is_some (get-delete k k s.pending v.unique) ∙ rw (identity_beq_refl k),
          )
  ]

  -- A message is acknowledged once: its outcome is then `acknowledged`, and the same
  -- acknowledgement again is unknown and changes nothing.
  pub acknowledge_once :
      (s s' : DeliveryStore) (peer : Str) (id : MessageId)
      → IsSound config s
      → acknowledge o s peer id ≡ (ack_acknowledged, s')
      → (terminal_outcome s' peer id ≡ some acknowledged)
        × (acknowledge o s' peer id ≡ (ack_unknown, s'))
  unfolding acknowledge terminal_outcome
  acknowledge_once s s' peer id v h =
      let k : DeliveryIdentity = identity_of peer id in
      let there : has k s.pending ≡ true = ground arith in
      let valid : is_valid_scope_id peer ≡ true = ground arith in
      let same : s' ≡ settle o s k acknowledged = ground arith in
      let (outcome, gone) = settle-outcome s k acknowledged v there in
      rw (valid, same) (outcome, rw gone)

module _ (o : HashOrder) where
  resolve_gone :
      (s : DeliveryStore) (peer : Str) (id : MessageId)
      → has (identity_of peer id) s.pending ≡ false
      → resolve_pending_identity s (some peer) id ≡ none
  unfolding resolve_pending_identity
  resolve_gone s peer id gone = rw gone

  late_begin :
      (s : DeliveryStore) (peer : Str) (id : MessageId) (now : ℕ)
      → has (identity_of peer id) s.pending ≡ false
      → ((begin_send o s (some peer) id now).1 ≡ s)
        × ((e : DeliveryError) × ((begin_send o s (some peer) id now).0 ≡ err e))
  unfolding begin_send
  late_begin s peer id now gone = elim (Bool-cases (is_foreign_peer s (some peer) id)) [
    | inl foreign ↦ rw (foreign, begin_send) (refl, (invalid_scope, refl))
    | inr own ↦ rw (own, begin_send, resolve_gone s peer id gone) (refl, (not_found, refl))
  ]

  begin_send-found :
      (s s' : DeliveryStore) (peer : Str) (id : MessageId) (m : PendingMessage) (now : ℕ)
      → begin_send o s (some peer) id now ≡ (ok (some m), s')
      → (x : PendingMessage) × (get (identity_of peer id) s.pending ≡ some x)
        × (begin_send_found o s (identity_of peer id) x now ≡ (ok (some m), s'))
  unfolding begin_send resolve_pending_identity
  begin_send-found s s' peer id m now h = ground arith

  begin_send_found-lease :
      (s s' : DeliveryStore) (k : DeliveryIdentity) (x m : PendingMessage) (now : ℕ)
      → begin_send_found o s k x now ≡ (ok (some m), s')
      → (m ≡ started x)
        × (s' ≡ record s { pending = modify k started s.pending })
        × (is_out_of_budget x ≡ false)
  unfolding begin_send_found
  begin_send_found-lease s s' k x m now h = ground arith

  -- A message that is being sent, and not expired, is not handed out.
  begin_send-busy :
      (s : DeliveryStore) (peer : Str) (id : MessageId) (m : PendingMessage) (now : ℕ)
      → get (identity_of peer id) s.pending ≡ some m
      → m.state ≡ sending
      → is_expired m now ≡ false
      → begin_send o s (some peer) id now ≡ (ok none, s)
  unfolding begin_send begin_send_found resolve_pending_identity
  begin_send-busy s peer id m now held busy live =
      rw (held, begin_send, held, live, begin_send_found, busy)

  -- A send lease: the attempt counts, within the budget of attempts and bytes, and the message is
  -- stored as being sent. A second call, at any instant before the message expires, gives no lease.
  pub begin_send-lease :
      (s s' : DeliveryStore) (peer : Str) (id : MessageId) (m : PendingMessage) (now later : ℕ)
      → begin_send o s (some peer) id now ≡ (ok (some m), s')
      → is_expired m later ≡ false
      → (get (identity_of peer id) s'.pending ≡ some m)
        × (m.state ≡ sending)
        × (1 ≤ m.attempts)
        × (m.attempts ≤ m.retry_policy.max_attempts)
        × (exceeds m.retry_policy.max_total_retry_bytes m.retry_bytes ≡ false)
        × (begin_send o s' (some peer) id later ≡ (ok none, s'))
  begin_send-lease s s' peer id m now later h live =
      let k : DeliveryIdentity = identity_of peer id in
      let (x, held, found) = begin_send-found s s' peer id m now h in
      let (same, after, budget) = begin_send_found-lease s s' k x m now found in
      let stored : get k s'.pending ≡ some m =
        rw (after, get-modify k k started s.pending, identity_beq_refl k, held, same) in
      let busy : m.state ≡ sending = rw same in
      (
        stored,
        busy,
        rw same (ground arith),
        rw same (ground arith),
        rw same (ground arith),
        begin_send-busy s' peer id m later stored busy live,
      )
