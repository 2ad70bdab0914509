-- ===== src/Delivery/Receiver/Repeats.antt =====
-- A message that the application has completed and that arrives again.
use ssh_mobile.Base.{
  ℕ, suc, ◌+◌, ◌≤◌, ◌<◌, ◌≡◌, refl, ap, ◌∙◌, Bool, false, not, List, [], ◌∷◌, some, arith, length,
  str_eq, str_beq,
}
use ssh_mobile.Base.Maps.{get-retain, retain-Unique, length-retain}
use ssh_mobile.Delivery.Keys.{Str, MessageId, scope_eq, DedupKey, dedup_eq, dedup_key}
use ssh_mobile.Delivery.Types.{
  DeliveryStore, DeliveryConfig, OrderedMessage, ProcessedDedupRecord, new,
}
use ssh_mobile.Delivery.Store.{HashOrder, IsIteration, prune_processed_dedup}
use ssh_mobile.Delivery.Timeouts.{fail_ordered_channel, expire_incoming_locked, expire_incoming}
use ssh_mobile.Delivery.Incoming.{
  begin_incoming, accept_ordered, abandon_incoming, reject_incoming, close_peer, processed_at,
}
use ssh_mobile.Delivery.Completion.{IncomingCompletion, complete_incoming}
use ssh_mobile.Delivery.Receiver.Once.{
  expire_incoming_locked_frame, register_known, pruned-get, complete-get,
}
use ssh_mobile.Delivery.Receiver.Remembered.{Keeps, begin-Keeps, complete-Keeps}
use ssh_mobile.Delivery.Receiver.History.{
  IsReceiver, Receive, begins, accepts, completes, abandons, rejects, expires, closes, receive,
  receive_each, pruned-IsReceiver, complete_incoming-IsReceiver, receive_from-IsReceiver,
}

-- The call comes between two instants, and does not close the peer.
abbrev pub IsBetween : ℕ → ℕ → Str → Receive → Type 0
IsBetween from until peer (begins p channel id epoch now) = (from ≤ now) × (now < until)
IsBetween from until peer (accepts m now) = Unit {0}
IsBetween from until peer (completes p channel id now) = (from ≤ now) × (now < until)
IsBetween from until peer (abandons p channel id) = Unit {0}
IsBetween from until peer (rejects p channel id) = Unit {0}
IsBetween from until peer (expires p now) = Unit {0}
IsBetween from until peer (closes p) = str_beq peer p ≡ false

abbrev pub AreBetween : ℕ → ℕ → Str → List Receive → Type 0
AreBetween from until peer [] = Unit {0}
AreBetween from until peer (c ∷ cs) = IsBetween from until peer c × AreBetween from until peer cs

abbrev pub completions : List Receive → ℕ
completions [] = 0
completions (completes p channel id now ∷ cs) = suc (completions cs)
completions (begins p channel id epoch now ∷ cs) = completions cs
completions (accepts m now ∷ cs) = completions cs
completions (abandons p channel id ∷ cs) = completions cs
completions (rejects p channel id ∷ cs) = completions cs
completions (expires p now ∷ cs) = completions cs
completions (closes p ∷ cs) = completions cs

accept_ordered_frame :
    (config : DeliveryConfig) (s : DeliveryStore) (m : OrderedMessage) (now : ℕ)
    → (accept_ordered config s m now).1.processed_dedup ≡ s.processed_dedup
unfolding accept_ordered
accept_ordered_frame config s m now = ground arith

abandon_incoming_frame :
    (s : DeliveryStore) (peer channel : Str) (id : MessageId)
    → (abandon_incoming s peer channel id).1.processed_dedup ≡ s.processed_dedup
unfolding abandon_incoming fail_ordered_channel
abandon_incoming_frame s peer channel id = ground arith

close_peer-Keeps :
    (s : DeliveryStore) (k : DedupKey) (peer : Str) (until used : ℕ)
    → str_beq k.peer_id peer ≡ false
    → Keeps k until used s.processed_dedup
    → Keeps k until used (close_peer s peer).processed_dedup
unfolding close_peer
close_peer-Keeps s k peer until used other v =
    let others : DedupKey → ProcessedDedupRecord → Bool = λ j r. not (str_beq j.peer_id peer) in
    record {
      unique = retain-Unique others s.processed_dedup v.unique;
      entry = v.entry;
      found = get-retain others k s.processed_dedup v.unique ∙ rw (v.found, other) refl;
      alive = v.alive;
      few = let f = v.few in omega (arith, length-retain others s.processed_dedup);
    }

module _ (config : DeliveryConfig) (o : HashOrder) where
  receive_each-Keeps :
      (s : DeliveryStore) (k : DedupKey) (from until used : ℕ) (cs : List Receive)
      → until ≤ from + config.dedup_ttl
      → AreBetween from until k.peer_id cs
      → used + completions cs ≤ config.dedup_max_entries
      → Keeps k until used s.processed_dedup
      → (many : ℕ) × Keeps k until many (receive_each config o s cs).processed_dedup
  unfolding receive_each receive reject_incoming expire_incoming
  receive_each-Keeps s k from until used [] late times room v = (used, v)
  receive_each-Keeps s k from until used (begins p channel id epoch now ∷ cs) late times room v =
      receive_each-Keeps (begin_incoming config s p channel id epoch now).1 k from until used cs
        late times.1 room
        (begin-Keeps config s k p channel id until used epoch now times.0.1
          (let t = times.0.0 in omega arith) v)
  receive_each-Keeps s k from until used (accepts m now ∷ cs) late times room v =
      receive_each-Keeps (accept_ordered config s m now).1 k from until used cs late times.1 room
        (rw (accept_ordered_frame config s m now) v)
  receive_each-Keeps s k from until used (completes p channel id now ∷ cs) late times room v =
      receive_each-Keeps (complete_incoming config o s p channel id now).1 k from until (suc used)
        cs late times.1 (omega arith)
        (complete-Keeps config o s k p channel id until used now times.0.1
          (let t = times.0.0 in omega arith) (omega arith) v)
  receive_each-Keeps s k from until used (abandons p channel id ∷ cs) late times room v =
      receive_each-Keeps (abandon_incoming s p channel id).1 k from until used cs late times.1 room
        (rw (abandon_incoming_frame s p channel id) v)
  receive_each-Keeps s k from until used (rejects p channel id ∷ cs) late times room v =
      receive_each-Keeps (reject_incoming s p channel id).1 k from until used cs late times.1 room v
  receive_each-Keeps s k from until used (expires p now ∷ cs) late times room v =
      receive_each-Keeps (expire_incoming s p now).1 k from until used cs late times.1 room
        (rw (expire_incoming_locked_frame s now (some p)) v)
  receive_each-Keeps s k from until used (closes p ∷ cs) late times room v =
      receive_each-Keeps (close_peer s p) k from until used cs late times.1 room
        (close_peer-Keeps s k p until used times.0 v)

  -- A message that the application completed is not new when it arrives again before its history
  -- expires, whatever other calls of the receiving side come in between: they come after the
  -- completion and before the history expires, they do not close the peer, and the history has room
  -- for the messages that it holds after the completion and for those that are completed since.
  pub complete_incoming_once :
      (s s' : DeliveryStore) (peer channel : Str) (id : MessageId) (epoch now later : ℕ)
      (cs : List Receive)
      → (done : IncomingCompletion) → IsIteration o
      → IsReceiver config s
      → 0 < config.dedup_max_entries
      → complete_incoming config o s peer channel id now ≡ (some done, s')
      → AreBetween now (now + config.dedup_ttl) peer cs
      → length s'.processed_dedup + completions cs ≤ config.dedup_max_entries
      → later < now + config.dedup_ttl
      → ¬ (
          (begin_incoming config (receive_each config o s' cs) peer channel id epoch later).0 ≡ new)
  unfolding begin_incoming
  complete_incoming_once s s' peer channel id epoch now later cs done law v window h times room
        early =
      let k = dedup_key peer channel id in
      let after : IsReceiver config s' =
        rw (ap (λ x. x.1) h) at
          (complete_incoming-IsReceiver config o law s peer channel id now v) in
      let (seen, held) = complete-get config o s s' peer channel id now done window h in
      let t : DeliveryStore = receive_each config o s' cs in
      let (many, kept) =
        receive_each-Keeps s' k now (now + config.dedup_ttl) (length s'.processed_dedup) cs
          (omega arith) times room
          (record {
            unique = after.processed_unique;
            entry = processed_at config seen now;
            found = held;
            alive = omega arith;
            few = omega arith;
          }) in
      let w = receive_from-IsReceiver config o law s' cs after in
      let live = kept.alive in
      register_known config
        (prune_processed_dedup (expire_incoming_locked t later (some peer)).1 later) peer channel id
        epoch later (pruned-IsReceiver config t later peer w)
        (pruned-get config t peer k kept.entry later w kept.found (omega arith))
