-- ===== src/Delivery/Sender/Sound.antt =====
-- What holds of the sending side of the store, and the three changes that keep it.
use ssh_mobile.Base.{
  ℕ, ◌+◌, ◌≤◌, ◌<◌, ◌≡◌, refl, sym, ap, ◌∙◌, true, false, not, ◌&&◌, List, [], ◌∷◌, some, is_some,
  arith, length, leb, Bool-cases, Option-cases, inl, inr,
}
use ssh_mobile.Base.Maps.{
  get, has, put, delete, modify, Unique, total, get-put, get-delete, has-delete, put-Unique,
  delete-Unique, modify-Unique, length-put_new, length-delete, length-delete_some, total-put_new,
  total-delete, total-modify, has-modify, length-modify, length-put,
}
use ssh_mobile.Delivery.Keys.{DeliveryIdentity, identity_eq, identity_beq, identity_beq_iff}
use ssh_mobile.Delivery.Types.{
  DeliveryTerminalOutcome, PendingMessage, DeliveryStore, DeliveryConfig, max_terminal_outcomes,
}
use ssh_mobile.Delivery.Store.{
  HashOrder, IsIteration, remove_pending, first_key, evict_terminal, record_terminal, settle,
}

abbrev pub size_of : PendingMessage → ℕ
size_of m = length m.payload

-- The byte count is that of the pending payloads; no message is pending and settled at once; the
-- outcomes that are kept are bounded, and so are the pending messages and their bytes.
pub record IsSound (config : DeliveryConfig) (s : DeliveryStore) : Type 0 where
  pub unique : Unique s.pending
  pub settled_unique : Unique s.terminal_outcomes
  pub counted : s.pending_bytes ≡ total size_of s.pending
  pub apart : (k : DeliveryIdentity) → has k s.pending ≡ true → has k s.terminal_outcomes ≡ false
  pub few : length s.terminal_outcomes ≤ max_terminal_outcomes
  pub within_messages : length s.pending ≤ config.max_pending_messages
  pub within_bytes : s.pending_bytes ≤ config.max_pending_bytes

pub identity_beq_refl : (k : DeliveryIdentity) → identity_beq k k ≡ true
identity_beq_refl k = (identity_beq_iff k k).1 refl

has_first :
    {V : Type 0} (k : DeliveryIdentity) (v : V) (xs : List (DeliveryIdentity × V))
    → has k ((k, v) ∷ xs) ≡ true
unfolding get
has_first k v xs = rw (identity_beq_refl k)

was_fresh :
    (k : DeliveryIdentity) (m kept : List (DeliveryIdentity × DeliveryTerminalOutcome))
    → (has k m ≡ true → kept ≡ m)
    → has k kept ≡ false
    → has k m ≡ false
was_fresh k m kept same fresh = elim (Bool-cases (has k m)) [
  | inl was ↦ cc (same was)
  | inr new ↦ new
]

still_there :
    (k j : DeliveryIdentity) (m : List (DeliveryIdentity × PendingMessage))
    → has j (delete k m) ≡ true
    → has j m ≡ true
still_there k j m h = elim (Bool-cases (has j m)) [
  | inl there ↦ there
  | inr gone ↦ cc (has-delete k j m gone)
]

module _ (config : DeliveryConfig) (o : HashOrder) (law : IsIteration o) where
  -- A history of outcomes that is not empty has a first one, which it holds.
  first_terminal :
      (m xs : List (DeliveryIdentity × DeliveryTerminalOutcome))
      → o.terminals m ≡ xs
      → 0 < length m
      → (k : DeliveryIdentity) × (first_key (o.terminals m) ≡ some k) × (has k m ≡ true)
  first_terminal m [] e h = absurd (omega (arith, law.terminals_length m, ap length e))
  first_terminal m ((k, v) ∷ xs) e h =
      (k, rw e, ap is_some (sym (law.terminals_get k m) ∙ ap (get k) e) ∙ has_first k v xs)

  -- Making room leaves at most 4095 outcomes beside a new one, and adds none.
  pub evict_terminal-room :
      (k : DeliveryIdentity) (m : List (DeliveryIdentity × DeliveryTerminalOutcome))
      → Unique m
      → length m ≤ max_terminal_outcomes
      → Unique (evict_terminal o k m)
        × (length (evict_terminal o k m) ≤ max_terminal_outcomes)
        × (has k m ≡ false → length (evict_terminal o k m) + 1 ≤ max_terminal_outcomes)
        × ((j : DeliveryIdentity) → has j m ≡ false → has j (evict_terminal o k m) ≡ false)
        × (has k m ≡ true → evict_terminal o k m ≡ m)
  unfolding evict_terminal
  evict_terminal-room k m u few =
      elim (Bool-cases (not (has k m) && leb max_terminal_outcomes (length m))) [
        | inl full ↦
            let (old, first, held) = first_terminal m (o.terminals m) refl (ground arith) in
            rw (full, first)
              (
                delete-Unique old m u,
                omega (arith, length-delete old m),
                λ _. omega (arith, length-delete_some old m held),
                λ j h. has-delete old j m h,
                λ h. ground arith,
              )
        | inr room ↦ rw room (u, few, λ h. ground arith, λ j h. h, λ h. refl)
      ]

  -- The outcome is recorded unless one stands already.
  record_terminal-IsSound :
      (s : DeliveryStore) (k : DeliveryIdentity) (outcome : DeliveryTerminalOutcome)
      → IsSound config s
      → has k s.pending ≡ false
      → IsSound config (record_terminal o s k outcome)
  unfolding record_terminal
  record_terminal-IsSound s k outcome v gone =
      let kept = evict_terminal o k s.terminal_outcomes in
      let (unique, few, room, gone_too, same) =
        evict_terminal-room k s.terminal_outcomes v.settled_unique v.few in
      elim (Bool-cases (has k kept)) [
        | inl settled ↦ rw settled (record {
          unique = v.unique;
          settled_unique = unique;
          counted = v.counted;
          apart = λ j p. gone_too j (v.apart j p);
          few = few;
          within_messages = v.within_messages;
          within_bytes = v.within_bytes;
        })
        | inr fresh ↦
            let space = room (was_fresh k s.terminal_outcomes kept same fresh) in
            rw fresh (record {
              unique = v.unique;
              settled_unique = put-Unique k outcome kept unique;
              counted = v.counted;
              apart = λ j p.
                  ground (
                    arith,
                    get-put k j outcome kept,
                    gone_too j (v.apart j p),
                    identity_beq_iff k j,
                  );
              few = omega (arith, length-put k outcome kept, space);
              within_messages = v.within_messages;
              within_bytes = v.within_bytes;
            })
      ]

  remove_pending-IsSound :
      (s : DeliveryStore) (k : DeliveryIdentity)
      → IsSound config s
      → IsSound config (remove_pending s k).1 × (has k (remove_pending s k).1.pending ≡ false)
  unfolding remove_pending
  remove_pending-IsSound s k v = elim (Option-cases (get k s.pending)) [
    | inl none_there ↦ rw (none_there, remove_pending) (v, rw none_there)
    | inr (m, there) ↦
        rw (there, remove_pending)
          (
            record {
              unique = delete-Unique k s.pending v.unique;
              settled_unique = v.settled_unique;
              counted = omega (arith, v.counted, total-delete size_of k m s.pending there);
              apart = λ j p. v.apart j (still_there k j s.pending p);
              few = v.few;
              within_messages = omega (arith, length-delete k s.pending, v.within_messages);
              within_bytes = omega (arith, v.within_bytes);
            },
            ground (arith, get-delete k k s.pending v.unique, identity_beq_refl k),
          )
  ]

  pub settle-IsSound :
      (s : DeliveryStore) (k : DeliveryIdentity) (outcome : DeliveryTerminalOutcome)
      → IsSound config s
      → IsSound config (settle o s k outcome)
  settle-IsSound s k outcome v =
      let (sound, gone) = remove_pending-IsSound s k v in
      record_terminal-IsSound (remove_pending s k).1 k outcome sound gone

  -- A write to a pending message that keeps its payload.
  pub modify-IsSound :
      (s : DeliveryStore) (k : DeliveryIdentity) (f : PendingMessage → PendingMessage)
      → ((m : PendingMessage) → size_of (f m) ≡ size_of m)
      → IsSound config s
      → IsSound config (record s { pending = modify k f s.pending })
  modify-IsSound s k f same v = record {
    unique = modify-Unique k f s.pending v.unique;
    settled_unique = v.settled_unique;
    counted = v.counted ∙ sym (total-modify size_of k f s.pending same);
    apart = λ j p. v.apart j (sym (has-modify k j f s.pending) ∙ p);
    few = v.few;
    within_messages = omega (arith, length-modify k f s.pending, v.within_messages);
    within_bytes = v.within_bytes;
  }

  -- A new message that fits, under an identity that is in use nowhere.
  pub put-IsSound :
      (s : DeliveryStore) (k : DeliveryIdentity) (m : PendingMessage)
      → IsSound config s
      → has k s.pending ≡ false
      → has k s.terminal_outcomes ≡ false
      → length s.pending + 1 ≤ config.max_pending_messages
      → s.pending_bytes + size_of m ≤ config.max_pending_bytes
      → IsSound config
          (record s { pending = put k m s.pending; pending_bytes = s.pending_bytes + size_of m })
  put-IsSound s k m v new unsettled room bytes = record {
    unique = put-Unique k m s.pending v.unique;
    settled_unique = v.settled_unique;
    counted = omega (arith, v.counted, total-put_new size_of k m s.pending new);
    apart = λ j p. ground (arith, get-put k j m s.pending, v.apart j, identity_beq_iff k j);
    few = v.few;
    within_messages = omega (arith, length-put_new k m s.pending new);
    within_bytes = bytes;
  }
