-- ===== src/Delivery/Receiver/Remembered.antt =====
-- A completed message in the processed history, while other calls come.
use ssh_mobile.Base.{
  ℕ, zero, suc, ◌+◌, ◌≤◌, ◌<◌, ◌≡◌, refl, ◌∙◌, Bool, true, false, List, Option, none, some, arith,
  ltb, leb, ◌==◌, length, Bool-cases, Option-cases, inl, inr, str_eq,
}
use ssh_mobile.Base.Maps.{
  get, has, put, modify, delete, retain, Unique, get-put, get-modify, get-retain, put-Unique,
  modify-Unique, retain-Unique, length-put, length-modify, length-retain,
}
use ssh_mobile.Base.Sets.{contains}
use ssh_mobile.Delivery.Keys.{Str, MessageId, scope_eq, DedupKey, dedup_eq, dedup_key}
use ssh_mobile.Delivery.Types.{
  DeliveryStore, DeliveryConfig, OrderedMessage, OrderedChannelState, max_active_incoming_records,
  ProcessedDedupRecord,
}
use ssh_mobile.Delivery.Store.{
  HashOrder, prune_processed_dedup, remember_processed, shrink_processed,
}
use ssh_mobile.Delivery.Timeouts.{expire_incoming_locked}
use ssh_mobile.Delivery.Incoming.{register, begin_incoming, processed_at}
use ssh_mobile.Delivery.Completion.{
  complete_incoming, finish_incoming, acknowledged_channel, is_orphan, release_next, is_early,
  is_lost, following,
}
use ssh_mobile.Delivery.Receiver.Once.{expire_incoming_locked_frame}

-- The history remembers a message until an instant, and has some entries at most.
pub record Keeps (k : DedupKey) (until used : ℕ) (m : List (DedupKey × ProcessedDedupRecord))
    : Type 0 where
  pub unique : Unique m
  pub entry : ProcessedDedupRecord
  pub found : get k m ≡ some entry
  pub alive : until ≤ entry.expires_at
  pub few : length m ≤ used

abbrev unexpired : ℕ → DedupKey → ProcessedDedupRecord → Bool
unexpired now k r = ltb now r.expires_at

prune-Keeps :
    (k : DedupKey) (until used now : ℕ) (m : List (DedupKey × ProcessedDedupRecord))
    → now < until
    → Keeps k until used m
    → Keeps k until used (retain (unexpired now) m)
prune-Keeps k until used now m early v =
    let live = v.alive in
    let fresh : ltb now v.entry.expires_at ≡ true = ground arith in
    record {
      unique = retain-Unique (unexpired now) m v.unique;
      entry = v.entry;
      found = get-retain (unexpired now) k m v.unique ∙ rw (v.found, fresh) refl;
      alive = live;
      few = let few = v.few in omega (arith, length-retain (unexpired now) m);
    }

shrink_small :
    (o : HashOrder) (bound fuel : ℕ) (m : List (DedupKey × ProcessedDedupRecord))
    → leb bound (length m) ≡ false
    → shrink_processed o bound fuel m ≡ m
unfolding shrink_processed
shrink_small o bound zero m h = refl
shrink_small o bound (suc fuel) m h = rw (shrink_processed, h) refl

module _ (config : DeliveryConfig) where
  modify-Keeps :
      (k j : DedupKey) (until used epoch now : ℕ) (m : List (DedupKey × ProcessedDedupRecord))
      → until ≤ now + config.dedup_ttl
      → Keeps k until used m
      → Keeps k until used (modify j (λ r. processed_at config epoch now) m)
  modify-Keeps k j until used epoch now m late v = elim (Bool-cases (dedup_eq.beq j k)) [
    | inl here ↦ record {
      unique = modify-Unique j (λ r. processed_at config epoch now) m v.unique;
      entry = processed_at config epoch now;
      found = get-modify j k (λ r. processed_at config epoch now) m ∙ rw (here, v.found) refl;
      alive = late;
      few = let f = v.few in omega (arith, length-modify j (λ r. processed_at config epoch now) m);
    }
    | inr other ↦ record {
      unique = modify-Unique j (λ r. processed_at config epoch now) m v.unique;
      entry = v.entry;
      found = get-modify j k (λ r. processed_at config epoch now) m ∙ rw other v.found;
      alive = v.alive;
      few = let f = v.few in omega (arith, length-modify j (λ r. processed_at config epoch now) m);
    }
  ]

  put-Keeps :
      (k j : DedupKey) (until used epoch now : ℕ) (m : List (DedupKey × ProcessedDedupRecord))
      → until ≤ now + config.dedup_ttl
      → Keeps k until used m
      → Keeps k until (suc used) (put j (processed_at config epoch now) m)
  put-Keeps k j until used epoch now m late v =
      let few : length (put j (processed_at config epoch now) m) ≤ suc used =
        (let f = v.few in omega (arith, length-put j (processed_at config epoch now) m)) in
      elim (Bool-cases (dedup_eq.beq j k)) [
        | inl here ↦ record {
          unique = put-Unique j (processed_at config epoch now) m v.unique;
          entry = processed_at config epoch now;
          found = get-put j k (processed_at config epoch now) m ∙ rw here refl;
          alive = late;
          few = few;
        }
        | inr other ↦ record {
          unique = put-Unique j (processed_at config epoch now) m v.unique;
          entry = v.entry;
          found = get-put j k (processed_at config epoch now) m ∙ rw other v.found;
          alive = v.alive;
          few = few;
        }
      ]

  pub more-Keeps :
      (k : DedupKey) (until used : ℕ) (m : List (DedupKey × ProcessedDedupRecord))
      → Keeps k until used m
      → Keeps k until (suc used) m
  more-Keeps k until used m v = record {
    unique = v.unique;
    entry = v.entry;
    found = v.found;
    alive = v.alive;
    few = let f = v.few in omega arith;
  }

  remember-Keeps :
      (o : HashOrder) (s : DeliveryStore) (k j : DedupKey) (until used epoch now : ℕ)
      → now < until
      → until ≤ now + config.dedup_ttl
      → used < config.dedup_max_entries
      → Keeps k until used s.processed_dedup
      → Keeps k until
          (suc used)
          (remember_processed o s j
            (processed_at config epoch now)
            config.dedup_max_entries).processed_dedup
  unfolding remember_processed
  remember-Keeps o s k j until used epoch now early late room v =
      let kept : List (DedupKey × ProcessedDedupRecord) =
        retain (unexpired now) s.processed_dedup in
      let w = prune-Keeps k until used now s.processed_dedup early v in
      let some_room : config.dedup_max_entries == 0 ≡ false = ground arith in
      let few = w.few in
      let fits : leb config.dedup_max_entries (length kept) ≡ false = ground arith in
      rw (some_room, shrink_small o config.dedup_max_entries (length kept) kept fits)
        (put-Keeps k j until used epoch now kept late w)

  register-Keeps :
      (s : DeliveryStore) (k : DedupKey) (peer channel : Str) (id : MessageId)
      (until used epoch now : ℕ)
      → until ≤ now + config.dedup_ttl
      → Keeps k until used s.processed_dedup
      → Keeps k until used (register config s peer channel id epoch now).1.processed_dedup
  unfolding register
  register-Keeps s k peer channel id until used epoch now late v =
      let j = dedup_key peer channel id in
      elim (Bool-cases (contains s.failed_ordered (peer, channel))) [
        | inl failed ↦ rw (register, failed) v
        | inr healthy ↦ elim (Bool-cases (has j s.incoming_active)) [
          | inl active ↦ rw (register, healthy, active) v
          | inr idle ↦ elim (Bool-cases (has j s.processed_dedup)) [
            | inl known ↦
                rw (register, healthy, idle, known)
                  (modify-Keeps k j until used epoch now s.processed_dedup late v)
            | inr unknown ↦
                elim (Bool-cases (leb max_active_incoming_records (length s.incoming_active))) [
                  | inl full ↦ rw (register, healthy, idle, unknown, full) v
                  | inr room ↦ rw (register, healthy, idle, unknown, room) v
                ]
          ]
        ]
      ]

  pub begin-Keeps :
      (s : DeliveryStore) (k : DedupKey) (peer channel : Str) (id : MessageId)
      (until used epoch now : ℕ)
      → now < until
      → until ≤ now + config.dedup_ttl
      → Keeps k until used s.processed_dedup
      → Keeps k until used (begin_incoming config s peer channel id epoch now).1.processed_dedup
  unfolding begin_incoming prune_processed_dedup
  begin-Keeps s k peer channel id until used epoch now early late v =
      let t : DeliveryStore = (expire_incoming_locked s now (some peer)).1 in
      let same = expire_incoming_locked_frame s now (some peer) in
      let w : Keeps k until used (retain (unexpired now) t.processed_dedup) =
        rw same (prune-Keeps k until used now s.processed_dedup early v) in
      register-Keeps (record t { processed_dedup = retain (unexpired now) t.processed_dedup }) k
        peer channel id until used epoch now late w

  module _ (o : HashOrder) where
    finish-Keeps :
        (next : Option OrderedMessage) (s : DeliveryStore) (k j : DedupKey)
        (until used epoch now : ℕ)
        → now < until
        → until ≤ now + config.dedup_ttl
        → used < config.dedup_max_entries
        → Keeps k until used s.processed_dedup
        → Keeps k until (suc used) (finish_incoming config o next s j epoch now).1.processed_dedup
    unfolding finish_incoming
    finish-Keeps next s k j until used epoch now early late room v =
        let removed : DeliveryStore = record s { incoming_active = delete j s.incoming_active } in
        elim (Bool-cases (is_orphan config next removed)) [
          | inl orphan ↦ rw (finish_incoming, orphan) (more-Keeps k until used s.processed_dedup v)
          | inr owned ↦
              rw (finish_incoming, owned)
                (remember-Keeps o (release_next config next now removed) k j until used epoch now
                  early late room (released next removed v))
        ]
      where
        released :
            (n : Option OrderedMessage) (t : DeliveryStore)
            → Keeps k until used t.processed_dedup
            → Keeps k until used (release_next config n now t).processed_dedup
        released none t w = w
        released (some m) t w = w

    pub complete-Keeps :
        (s : DeliveryStore) (k : DedupKey) (peer channel : Str) (id : MessageId)
        (until used now : ℕ)
        → now < until
        → until ≤ now + config.dedup_ttl
        → used < config.dedup_max_entries
        → Keeps k until used s.processed_dedup
        → Keeps k until
            (suc used)
            (complete_incoming config o s peer channel id now).1.processed_dedup
    unfolding complete_incoming
    complete-Keeps s k peer channel id until used now early late room v =
        elim (Option-cases (get (dedup_key peer channel id) s.incoming_active)) [
          | inl gone ↦ rw (complete_incoming, gone) same
          | inr (active, held) ↦
              elim (Bool-cases (is_early config (get (peer, channel) s.ordered) active.state id)) [
                | inl early' ↦ rw (complete_incoming, held, early') same
                | inr due ↦
                    elim (Bool-cases
                      (is_lost config s (following config (get (peer, channel) s.ordered) id))) [
                        | inl lost ↦ rw (complete_incoming, held, due, lost) same
                        | inr owned ↦
                            rw (complete_incoming, held, due, owned)
                              (finish-Keeps (acknowledged_channel config s (peer, channel) id).0
                                (acknowledged_channel config s (peer, channel) id).1 k
                                (dedup_key peer channel id) until used active.recovery_epoch now
                                early late room (acked (get (peer, channel) s.ordered) refl))
                      ]
              ]
        ]
      where
        same : Keeps k until (suc used) s.processed_dedup
        same = more-Keeps k until used s.processed_dedup v

        acked :
            (c : Option OrderedChannelState)
            → get (peer, channel) s.ordered ≡ c
            → Keeps k until used
                (acknowledged_channel config s (peer, channel) id).1.processed_dedup
        acked none e = rw (acknowledged_channel, e) v
        acked (some c) e = rw (acknowledged_channel, e) v
