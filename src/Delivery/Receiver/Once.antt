-- ===== src/Delivery/Receiver/Once.antt =====
-- A message that the application has completed.
use ssh_mobile.Base.{
  ℕ, ◌<◌, ◌≡◌, refl, sym, ap, ◌∙◌, true, false, List, [], ◌∷◌, Option, some, arith, ltb, ◌==◌,
  length, Bool-cases, Option-cases, inl, inr, str_eq,
}
use ssh_mobile.Base.Maps.{get, has, delete, retain, get-put, get-retain}
use ssh_mobile.Base.Sets.{contains}
use ssh_mobile.Delivery.Keys.{Str, MessageId, Scope, scope_eq, DedupKey, dedup_eq, dedup_key}
use ssh_mobile.Delivery.Types.{
  DeliveryStore, DeliveryConfig, OrderedMessage, ActiveIncomingRecord, ProcessedDedupRecord, new,
}
use ssh_mobile.Delivery.Store.{
  HashOrder, prune_processed_dedup, remember_processed, shrink_processed,
}
use ssh_mobile.Delivery.Timeouts.{
  fail_ordered_channel, expire_active, fail_each, expire_incoming_locked, is_in_order, is_timed_out,
}
use ssh_mobile.Delivery.Incoming.{register, processed_at}
use ssh_mobile.Delivery.Completion.{
  IncomingCompletion, complete_incoming, finish_incoming, acknowledged_channel, is_orphan,
  release_next, is_early, is_lost, following,
}
use ssh_mobile.Delivery.Receiver.Dedup.{dedup_beq_refl}
use ssh_mobile.Delivery.Receiver.History.{IsReceiver, expire_incoming_locked-IsReceiver}

fail_each_frame :
    (scopes : List Scope) (s : DeliveryStore)
    → (fail_each scopes s).1.processed_dedup ≡ s.processed_dedup
unfolding fail_each fail_ordered_channel
fail_each_frame [] s = refl
fail_each_frame (scope ∷ scopes) s = fail_each_frame scopes (fail_ordered_channel s scope).1

expire_active_frame :
    (due : List (DedupKey × ActiveIncomingRecord)) (s : DeliveryStore)
    → (expire_active due s).store.processed_dedup ≡ s.processed_dedup
unfolding expire_active
expire_active_frame [] s = refl
expire_active_frame ((k, r) ∷ rest) s = elim (Bool-cases (is_in_order s k)) [
  | inl ordered ↦ rw (ordered, expire_active) (expire_active_frame rest s)
  | inr free ↦
      let w =
        expire_active_frame rest (record s { incoming_active = delete k s.incoming_active }) in
      elim (Bool-cases (has k s.incoming_active)) [
        | inl there ↦ rw (free, expire_active, there) w
        | inr gone ↦ rw (free, expire_active, gone) w
      ]
]

pub expire_incoming_locked_frame :
    (s : DeliveryStore) (now : ℕ) (peer : Option Str)
    → (expire_incoming_locked s now peer).1.processed_dedup ≡ s.processed_dedup
unfolding expire_incoming_locked
expire_incoming_locked_frame s now peer =
    let due = retain (is_timed_out now peer) s.incoming_active in
    fail_each_frame (expire_active due s).scopes (expire_active due s).store
    ∙ expire_active_frame due s

module _ (config : DeliveryConfig) where
  pub register_known :
      (s : DeliveryStore) (peer channel : Str) (id : MessageId) (epoch now : ℕ)
      → IsReceiver config s
      → has (dedup_key peer channel id) s.processed_dedup ≡ true
      → ¬ ((register config s peer channel id epoch now).0 ≡ new)
  unfolding register
  register_known s peer channel id epoch now v known =
      let k = dedup_key peer channel id in
      elim (Bool-cases (contains s.failed_ordered (peer, channel))) [
        | inl failed ↦ rw failed (λ e. cc)
        | inr healthy ↦ elim (Bool-cases (has k s.incoming_active)) [
          | inl active ↦ absurd (cc (v.apart k active))
          | inr idle ↦ rw (healthy, idle, known) (λ e. cc)
        ]
      ]

  pub pruned-get :
      (s : DeliveryStore) (peer : Str) (k : DedupKey) (r : ProcessedDedupRecord) (now : ℕ)
      → IsReceiver config s
      → get k s.processed_dedup ≡ some r
      → now < r.expires_at
      → has k
          (prune_processed_dedup (expire_incoming_locked s now (some peer)).1 now).processed_dedup
        ≡ true
  unfolding prune_processed_dedup
  pruned-get s peer k r now v held alive =
      let t = (expire_incoming_locked s now (some peer)).1 in
      let w = expire_incoming_locked-IsReceiver config s now (some peer) v in
      let same : get k t.processed_dedup ≡ some r =
        ap (get k) (expire_incoming_locked_frame s now (some peer)) ∙ held in
      let fresh : ltb now r.expires_at ≡ true = ground arith in
      rw (
        get-retain (λ j x. ltb now x.expires_at) k t.processed_dedup w.processed_unique,
        same,
        fresh,
      )

  module _ (o : HashOrder) where
    remember-get :
        (s : DeliveryStore) (k : DedupKey) (r : ProcessedDedupRecord)
        → 0 < config.dedup_max_entries
        → get k (remember_processed o s k r config.dedup_max_entries).processed_dedup ≡ some r
    unfolding remember_processed
    remember-get s k r window =
        let kept = retain (λ j x. ltb r.last_seen_at x.expires_at) s.processed_dedup in
        let some_window : config.dedup_max_entries == 0 ≡ false = ground arith in
        rw some_window (
          get-put k k r (shrink_processed o config.dedup_max_entries (length kept) kept)
          ∙ rw (dedup_beq_refl k))

    finish-get :
        (next : Option OrderedMessage) (s s' : DeliveryStore) (k : DedupKey) (epoch now : ℕ)
        → (done : IncomingCompletion) → 0 < config.dedup_max_entries
        → finish_incoming config o next s k epoch now ≡ (some done, s')
        → get k s'.processed_dedup ≡ some (processed_at config epoch now)
    unfolding finish_incoming
    finish-get next s s' k epoch now done window h =
        let removed : DeliveryStore = record s { incoming_active = delete k s.incoming_active } in
        elim (Bool-cases (is_orphan config next removed)) [
          | inl orphan ↦ absurd (cc (rw orphan at h))
          | inr owned ↦
              let same = ap (λ x. x.1) (rw owned at h) in
              ap (λ t. get k t.processed_dedup) (sym same)
              ∙ remember-get (release_next config next now removed) k
                  (processed_at config epoch now) window
        ]

    pub complete-get :
        (s s' : DeliveryStore) (peer channel : Str) (id : MessageId) (now : ℕ)
        → (done : IncomingCompletion) → 0 < config.dedup_max_entries
        → complete_incoming config o s peer channel id now ≡ (some done, s')
        → (epoch : ℕ) × (get (dedup_key peer channel id) s'.processed_dedup
            ≡ some (processed_at config epoch now))
    unfolding complete_incoming
    complete-get s s' peer channel id now done window h =
        elim (Option-cases (get (dedup_key peer channel id) s.incoming_active)) [
          | inl gone ↦ absurd (cc (rw (gone, complete_incoming) at h))
          | inr (active, held) ↦
              elim (Bool-cases (is_early config (get (peer, channel) s.ordered) active.state id)) [
                | inl early ↦ absurd (cc (rw (held, complete_incoming, early) at h))
                | inr due ↦
                    elim (Bool-cases
                      (is_lost config s (following config (get (peer, channel) s.ordered) id))) [
                        | inl lost ↦ absurd (cc (rw (held, complete_incoming, due, lost) at h))
                        | inr owned ↦ (
                          active.recovery_epoch,
                          finish-get (acknowledged_channel config s (peer, channel) id).0
                              (acknowledged_channel config s (peer, channel) id).1 s'
                              (dedup_key peer channel id) active.recovery_epoch now done window
                              (rw (held, complete_incoming, due, owned) at h),
                        )
                      ]
              ]
        ]
