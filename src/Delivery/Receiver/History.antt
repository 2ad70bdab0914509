-- ===== src/Delivery/Receiver/History.antt =====
-- A history of calls of the receiving side.
use ssh_mobile.Base.{
  ℕ, zero, suc, ◌+◌, ◌-◌, ◌≤◌, ◌<◌, ◌≡◌, refl, sym, ap, ◌∙◌, Bool, true, false, not, ◌||◌, List, [],
  ◌∷◌, Option, none, some, is_some, arith, ltb, leb, ◌==◌, if◌then◌else◌, length, Bool-cases,
  Option-cases, inl, inr, str_beq, str_eq,
}
use ssh_mobile.Base.Maps.{get, has, put, delete, modify, retain, Unique, get-delete, has-modify}
use ssh_mobile.Base.Sets.{contains}
use ssh_mobile.Delivery.Keys.{Str, MessageId, Scope, scope_eq, DedupKey, dedup_eq, dedup_key}
use ssh_mobile.Delivery.Types.{
  DeliveryStore, DeliveryConfig, OrderedMessage, OrderedChannelState, ActiveIncomingRecord,
  max_active_incoming_records, new_store, is_valid_scope_id,
}
use ssh_mobile.Delivery.Store.{HashOrder, IsIteration, prune_processed_dedup}
use ssh_mobile.Delivery.Timeouts.{
  fail_ordered_channel, affected_keys, held_keys, expire_active, fail_each, expire_incoming_locked,
  expire_incoming, is_timed_out, is_in_order,
}
use ssh_mobile.Delivery.Ordered.{acknowledge_ordered}
use ssh_mobile.Delivery.Incoming.{
  register, begin_incoming, accept_ordered, abandon_incoming, reject_incoming, close_peer, is_held,
  echoed, processed_at, waiting,
}
use ssh_mobile.Delivery.Completion.{
  complete_incoming, finish_incoming, is_early, is_lost, following, acknowledged_channel, is_orphan,
  release_next, key_of,
}
use ssh_mobile.Delivery.Receiver.Dedup.{
  IsApart, delete-IsApart, delete_keys-IsApart, retain_active-IsApart, retain_processed-IsApart,
  modify_active-IsApart, modify_processed-IsApart, put_active-IsApart, remember-IsApart,
  dedup_beq_refl,
}

abbrev pub IsReceiver : DeliveryConfig → DeliveryStore → Type 0
IsReceiver config s = IsApart config s.incoming_active s.processed_dedup

-- The calls that the runtime makes of the receiving side, with their instants.
pub data Receive : Type 0 where
  begins : Str → Str → MessageId → ℕ → ℕ → Receive
  accepts : OrderedMessage → ℕ → Receive
  completes : Str → Str → MessageId → ℕ → Receive
  abandons : Str → Str → MessageId → Receive
  rejects : Str → Str → MessageId → Receive
  expires : Str → ℕ → Receive
  closes : Str → Receive

module _ (config : DeliveryConfig) where
  fail_ordered_channel-IsReceiver :
      (s : DeliveryStore) (scope : Scope)
      → IsReceiver config s
      → IsReceiver config (fail_ordered_channel s scope).1
  unfolding fail_ordered_channel
  fail_ordered_channel-IsReceiver s scope v =
      delete_keys-IsApart config
        (affected_keys scope (held_keys scope (get scope s.ordered)) s.incoming_active)
        s.incoming_active s.processed_dedup v

  expire_active-IsReceiver :
      (due : List (DedupKey × ActiveIncomingRecord)) (s : DeliveryStore)
      → IsReceiver config s
      → IsReceiver config (expire_active due s).store
  unfolding expire_active
  expire_active-IsReceiver [] s v = v
  expire_active-IsReceiver ((k, r) ∷ rest) s v = elim (Bool-cases (is_in_order s k)) [
    | inl ordered ↦ rw (ordered, expire_active) (expire_active-IsReceiver rest s v)
    | inr free ↦
        let w =
          expire_active-IsReceiver rest (record s { incoming_active = delete k s.incoming_active })
            (delete-IsApart config k s.incoming_active s.processed_dedup v) in
        elim (Bool-cases (has k s.incoming_active)) [
          | inl there ↦ rw (free, expire_active, there) w
          | inr gone ↦ rw (free, expire_active, gone) w
        ]
  ]

  fail_each-IsReceiver :
      (scopes : List Scope) (s : DeliveryStore)
      → IsReceiver config s
      → IsReceiver config (fail_each scopes s).1
  unfolding fail_each
  fail_each-IsReceiver [] s v = v
  fail_each-IsReceiver (scope ∷ scopes) s v =
      fail_each-IsReceiver scopes (fail_ordered_channel s scope).1
        (fail_ordered_channel-IsReceiver s scope v)

  pub expire_incoming_locked-IsReceiver :
      (s : DeliveryStore) (now : ℕ) (peer : Option Str)
      → IsReceiver config s
      → IsReceiver config (expire_incoming_locked s now peer).1
  unfolding expire_incoming_locked
  expire_incoming_locked-IsReceiver s now peer v =
      let due = retain (is_timed_out now peer) s.incoming_active in
      fail_each-IsReceiver (expire_active due s).scopes (expire_active due s).store
        (expire_active-IsReceiver due s v)

  register-IsReceiver :
      (s : DeliveryStore) (peer channel : Str) (id : MessageId) (epoch now : ℕ)
      → IsReceiver config s
      → IsReceiver config (register config s peer channel id epoch now).1
  unfolding register
  register-IsReceiver s peer channel id epoch now v =
      let k = dedup_key peer channel id in
      elim (Bool-cases (contains s.failed_ordered (peer, channel))) [
        | inl failed ↦ rw failed v
        | inr healthy ↦ elim (Bool-cases (has k s.incoming_active)) [
          | inl active ↦
              rw (healthy, active)
                (modify_active-IsApart config k (echoed epoch) s.incoming_active s.processed_dedup
                  v)
          | inr idle ↦ elim (Bool-cases (has k s.processed_dedup)) [
            | inl known ↦
                rw (healthy, idle, known)
                  (modify_processed-IsApart config k (λ r. processed_at config epoch now)
                    s.incoming_active s.processed_dedup v)
            | inr unknown ↦
                elim (Bool-cases (leb max_active_incoming_records (length s.incoming_active))) [
                  | inl full ↦ rw (healthy, idle, unknown, full) v
                  | inr room ↦
                      rw (healthy, idle, unknown, room)
                        (put_active-IsApart config k _ s.incoming_active s.processed_dedup unknown
                          (ground arith) v)
                ]
          ]
        ]
      ]

  -- After the two clean-ups with which `begin_incoming` starts.
  pub pruned-IsReceiver :
      (s : DeliveryStore) (now : ℕ) (peer : Str)
      → IsReceiver config s
      → IsReceiver config (prune_processed_dedup (expire_incoming_locked s now (some peer)).1 now)
  unfolding prune_processed_dedup
  pruned-IsReceiver s now peer v =
      let t = (expire_incoming_locked s now (some peer)).1 in
      retain_processed-IsApart config (λ k r. ltb now r.expires_at) t.incoming_active
        t.processed_dedup (expire_incoming_locked-IsReceiver s now (some peer) v)

  begin_incoming-IsReceiver :
      (s : DeliveryStore) (peer channel : Str) (id : MessageId) (epoch now : ℕ)
      → IsReceiver config s
      → IsReceiver config (begin_incoming config s peer channel id epoch now).1
  unfolding begin_incoming
  begin_incoming-IsReceiver s peer channel id epoch now v =
      register-IsReceiver (prune_processed_dedup (expire_incoming_locked s now (some peer)).1 now)
        peer channel id epoch now (pruned-IsReceiver s now peer v)

  accept_ordered-IsReceiver :
      (s : DeliveryStore) (m : OrderedMessage) (now : ℕ)
      → IsReceiver config s
      → IsReceiver config (accept_ordered config s m now).1
  unfolding accept_ordered
  accept_ordered-IsReceiver s m now v =
      let k = dedup_key m.peer_id m.channel_id m.message_id in
      elim (Bool-cases
        (not (is_valid_scope_id m.peer_id) || not (is_valid_scope_id m.channel_id))) [
          | inl bad ↦ rw bad v
          | inr valid ↦ elim (Bool-cases (contains s.failed_ordered (m.peer_id, m.channel_id))) [
            | inl failed ↦ rw (valid, failed) v
            | inr healthy ↦ elim (Bool-cases (has k s.incoming_active)) [
              | inr idle ↦ rw (valid, healthy, idle) v
              | inl active ↦
                  rw (valid, healthy, active)
                    (modify_active-IsApart config k _ s.incoming_active s.processed_dedup v)
            ]
          ]
        ]

  abandon_incoming-IsReceiver :
      (s : DeliveryStore) (peer channel : Str) (id : MessageId)
      → IsReceiver config s
      → IsReceiver config (abandon_incoming s peer channel id).1
  unfolding abandon_incoming
  abandon_incoming-IsReceiver s peer channel id v =
      let k = dedup_key peer channel id in
      elim (Bool-cases (has k s.incoming_active)) [
        | inr idle ↦ rw idle v
        | inl active ↦ elim (Bool-cases (is_held (get (peer, channel) s.ordered) id)) [
          | inl ordered ↦ rw (active, ordered) (fail_ordered_channel-IsReceiver s (peer, channel) v)
          | inr free ↦
              rw (active, free) (delete-IsApart config k s.incoming_active s.processed_dedup v)
        ]
      ]

  close_peer-IsReceiver :
      (s : DeliveryStore) (peer : Str) → IsReceiver config s → IsReceiver config (close_peer s peer)
  unfolding close_peer
  close_peer-IsReceiver s peer v =
      retain_processed-IsApart config (λ k r. not (str_beq k.peer_id peer)) _ s.processed_dedup
        (retain_active-IsApart config (λ k r. not (str_beq k.peer_id peer)) s.incoming_active
          s.processed_dedup v)

  module _ (o : HashOrder) where
    unfoldable pub receive : DeliveryStore → Receive → DeliveryStore
    receive s (begins peer channel id epoch now) =
        (begin_incoming config s peer channel id epoch now).1
    receive s (accepts m now) = (accept_ordered config s m now).1
    receive s (completes peer channel id now) = (complete_incoming config o s peer channel id now).1
    receive s (abandons peer channel id) = (abandon_incoming s peer channel id).1
    receive s (rejects peer channel id) = (reject_incoming s peer channel id).1
    receive s (expires peer now) = (expire_incoming s peer now).1
    receive s (closes peer) = close_peer s peer

    unfoldable pub receive_each : DeliveryStore → List Receive → DeliveryStore
    receive_each s [] = s
    receive_each s (c ∷ cs) = receive_each (receive s c) cs

  module _ (o : HashOrder) (law : IsIteration o) where
    finish_incoming-IsReceiver :
        (next : Option OrderedMessage) (s : DeliveryStore) (k : DedupKey) (epoch now : ℕ)
        → IsReceiver config s
        → IsReceiver config (finish_incoming config o next s k epoch now).1
    unfolding finish_incoming
    finish_incoming-IsReceiver next s k epoch now v =
        let removed : DeliveryStore = record s { incoming_active = delete k s.incoming_active } in
        let w : IsReceiver config removed =
          delete-IsApart config k s.incoming_active s.processed_dedup v in
        let gone : has k removed.incoming_active ≡ false =
          ap is_some (get-delete k k s.incoming_active v.active_unique) ∙ rw (dedup_beq_refl k) in
        elim (Bool-cases (is_orphan config next removed)) [
          | inl orphan ↦ rw orphan w
          | inr owned ↦ rw owned (
              remember-IsApart o law config (release_next config next now removed) k _
                (released_gone next removed k now gone) (released next removed now w))
        ]
      where
        released :
            (n : Option OrderedMessage) (t : DeliveryStore) (at_now : ℕ)
            → IsReceiver config t
            → IsReceiver config (release_next config n at_now t)
        released none t at_now w = w
        released (some m) t at_now w =
            modify_active-IsApart config (key_of config m) (waiting config at_now) t.incoming_active
              t.processed_dedup w

        released_gone :
            (n : Option OrderedMessage) (t : DeliveryStore) (j : DedupKey) (at_now : ℕ)
            → has j t.incoming_active ≡ false
            → has j (release_next config n at_now t).incoming_active ≡ false
        released_gone none t j at_now h = h
        released_gone (some m) t j at_now h =
            has-modify (key_of config m) j (waiting config at_now) t.incoming_active ∙ h

    pub complete_incoming-IsReceiver :
        (s : DeliveryStore) (peer channel : Str) (id : MessageId) (now : ℕ)
        → IsReceiver config s
        → IsReceiver config (complete_incoming config o s peer channel id now).1
    unfolding complete_incoming
    complete_incoming-IsReceiver s peer channel id now v =
        elim (Option-cases (get (dedup_key peer channel id) s.incoming_active)) [
          | inl gone ↦ rw (gone, complete_incoming) v
          | inr (active, held) ↦
              elim (Bool-cases (is_early config (get (peer, channel) s.ordered) active.state id)) [
                | inl early ↦ rw (held, complete_incoming, early) v
                | inr due ↦
                    elim (Bool-cases
                      (is_lost config s (following config (get (peer, channel) s.ordered) id))) [
                        | inl lost ↦ rw (held, complete_incoming, due, lost) v
                        | inr owned ↦
                            rw (held, complete_incoming, due, owned)
                              (acked (get (peer, channel) s.ordered) refl active)
                      ]
              ]
        ]
      where
        acked :
            (c : Option OrderedChannelState)
            → get (peer, channel) s.ordered ≡ c
            → (active : ActiveIncomingRecord)
            → IsReceiver config
                (finish_incoming config o
                  (acknowledged_channel config s (peer, channel) id).0
                  (acknowledged_channel config s (peer, channel) id).1
                  (dedup_key peer channel id)
                  active.recovery_epoch
                  now).1
        acked none e active =
            rw (e, acknowledged_channel)
              (finish_incoming-IsReceiver none s (dedup_key peer channel id) active.recovery_epoch
                now v)
        acked (some c) e active =
            rw (e, acknowledged_channel)
              (finish_incoming-IsReceiver (acknowledge_ordered id c).0 _ (dedup_key peer channel id)
                active.recovery_epoch now v)

    receive-IsReceiver :
        (s : DeliveryStore) (c : Receive) → IsReceiver config s → IsReceiver config (receive o s c)
    unfolding receive reject_incoming expire_incoming
    receive-IsReceiver s (begins peer channel id epoch now) v =
        begin_incoming-IsReceiver s peer channel id epoch now v
    receive-IsReceiver s (accepts m now) v = accept_ordered-IsReceiver s m now v
    receive-IsReceiver s (completes peer channel id now) v =
        complete_incoming-IsReceiver s peer channel id now v
    receive-IsReceiver s (abandons peer channel id) v =
        abandon_incoming-IsReceiver s peer channel id v
    receive-IsReceiver s (rejects peer channel id) v =
        delete-IsApart config (dedup_key peer channel id) s.incoming_active s.processed_dedup v
    receive-IsReceiver s (expires peer now) v =
        expire_incoming_locked-IsReceiver s now (some peer) v
    receive-IsReceiver s (closes peer) v = close_peer-IsReceiver s peer v

    pub receive_from-IsReceiver :
        (s : DeliveryStore) (cs : List Receive)
        → IsReceiver config s
        → IsReceiver config (receive_each o s cs)
    unfolding receive_each
    receive_from-IsReceiver s [] v = v
    receive_from-IsReceiver s (c ∷ cs) v =
        receive_from-IsReceiver (receive o s c) cs (receive-IsReceiver s c v)

    -- After any history of calls on a new store, whatever the order of the hash maps: no message is
    -- active and processed at once, at most 4096 messages are active, and the processed history is
    -- within its configured limit.
    pub receive_each-IsReceiver :
        (cs : List Receive) → IsReceiver config (receive_each o new_store cs)
    unfolding ssh_mobile.Base.Maps.get
    receive_each-IsReceiver cs = receive_from-IsReceiver new_store cs (record {
      active_unique = tt;
      processed_unique = tt;
      apart = λ k h. refl;
      few_active = omega arith;
      few_processed = omega arith;
    })
