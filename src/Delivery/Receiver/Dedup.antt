-- ===== src/Delivery/Receiver/Dedup.antt =====
-- Active and processed messages: the two maps of the receiving side.
use ssh_mobile.Base.{
  ℕ, zero, suc, ◌≤◌, ◌<◌, ◌≡◌, refl, sym, ap, ◌∙◌, Bool, true, false, List, [], ◌∷◌, none, some,
  is_some, arith, ltb, leb, ◌==◌, if◌then◌else◌, length, Bool-cases, Option-cases, inl, inr,
}
use ssh_mobile.Base.Maps.{
  get, has, put, delete, modify, retain, Unique, get-put, has-put, has-delete, has-retain,
  has-modify, put-Unique, delete-Unique, retain-Unique, modify-Unique, length-put, length-delete,
  length-delete_some, length-retain, length-modify,
}
use ssh_mobile.Delivery.Keys.{DedupKey, dedup_eq, dedup_beq_iff, dedup_beq}
use ssh_mobile.Delivery.Types.{
  DeliveryStore, DeliveryConfig, ActiveIncomingRecord, ProcessedDedupRecord,
  max_active_incoming_records,
}
use ssh_mobile.Delivery.Store.{
  HashOrder, IsIteration, oldest, oldest_from, shrink_processed, remember_processed,
}
use ssh_mobile.Delivery.Timeouts.{delete_keys}

abbrev pub Active : Type 0
Active = List (DedupKey × ActiveIncomingRecord)

abbrev pub Processed : Type 0
Processed = List (DedupKey × ProcessedDedupRecord)

-- No message is active and processed at once, and both maps are within their bounds.
pub record IsApart (config : DeliveryConfig) (active : Active) (processed : Processed)
    : Type 0 where
  pub active_unique : Unique active
  pub processed_unique : Unique processed
  pub apart : (k : DedupKey) → has k active ≡ true → has k processed ≡ false
  pub few_active : length active ≤ max_active_incoming_records
  pub few_processed : length processed ≤ config.dedup_max_entries

pub dedup_beq_refl : (k : DedupKey) → dedup_beq k k ≡ true
dedup_beq_refl k = (dedup_beq_iff k k).1 refl

was_there :
    {V : Type 0} (k j : DedupKey) (m : List (DedupKey × V))
    → has j (delete k m) ≡ true
    → has j m ≡ true
was_there k j m h = elim (Bool-cases (has j m)) [
  | inl there ↦ there
  | inr gone ↦ absurd (cc (has-delete k j m gone))
]

other_key :
    {V : Type 0} (k j : DedupKey) (m : List (DedupKey × V))
    → has k m ≡ false
    → has j m ≡ true
    → dedup_beq j k ≡ false
other_key k j m gone there = elim (Bool-cases (dedup_beq j k)) [
  | inl same ↦ let e : j ≡ k = (dedup_beq_iff j k).0 same in absurd cc
  | inr other ↦ other
]

was_kept :
    {V : Type 0} (p : DedupKey → V → Bool) (j : DedupKey) (m : List (DedupKey × V))
    → has j (retain p m) ≡ true
    → has j m ≡ true
was_kept p j m h = elim (Bool-cases (has j m)) [
  | inl there ↦ there
  | inr gone ↦ absurd (cc (has-retain p j m gone))
]

module _ (config : DeliveryConfig) where
  pub delete-IsApart :
      (k : DedupKey) (a : Active) (p : Processed)
      → IsApart config a p
      → IsApart config (delete k a) p
  delete-IsApart k a p v = record {
    active_unique = delete-Unique k a v.active_unique;
    processed_unique = v.processed_unique;
    apart = λ j h. v.apart j (was_there k j a h);
    few_active = omega (arith, v.few_active, length-delete k a);
    few_processed = v.few_processed;
  }

  pub delete_keys-IsApart :
      (ks : List DedupKey) (a : Active) (p : Processed)
      → IsApart config a p
      → IsApart config (delete_keys ks a) p
  delete_keys-IsApart [] a p v = v
  delete_keys-IsApart (k ∷ ks) a p v =
      delete_keys-IsApart ks (delete k a) p (delete-IsApart k a p v)

  pub retain_active-IsApart :
      (q : DedupKey → ActiveIncomingRecord → Bool) (a : Active) (p : Processed)
      → IsApart config a p
      → IsApart config (retain q a) p
  retain_active-IsApart q a p v = record {
    active_unique = retain-Unique q a v.active_unique;
    processed_unique = v.processed_unique;
    apart = λ j h. v.apart j (was_kept q j a h);
    few_active = omega (arith, v.few_active, length-retain q a);
    few_processed = v.few_processed;
  }

  pub retain_processed-IsApart :
      (q : DedupKey → ProcessedDedupRecord → Bool) (a : Active) (p : Processed)
      → IsApart config a p
      → IsApart config a (retain q p)
  retain_processed-IsApart q a p v = record {
    active_unique = v.active_unique;
    processed_unique = retain-Unique q p v.processed_unique;
    apart = λ j h. has-retain q j p (v.apart j h);
    few_active = v.few_active;
    few_processed = omega (arith, v.few_processed, length-retain q p);
  }

  pub modify_active-IsApart :
      (k : DedupKey) (f : ActiveIncomingRecord → ActiveIncomingRecord) (a : Active) (p : Processed)
      → IsApart config a p
      → IsApart config (modify k f a) p
  modify_active-IsApart k f a p v = record {
    active_unique = modify-Unique k f a v.active_unique;
    processed_unique = v.processed_unique;
    apart = λ j h. v.apart j (sym (has-modify k j f a) ∙ h);
    few_active = omega (arith, v.few_active, length-modify k f a);
    few_processed = v.few_processed;
  }

  pub modify_processed-IsApart :
      (k : DedupKey) (f : ProcessedDedupRecord → ProcessedDedupRecord) (a : Active) (p : Processed)
      → IsApart config a p
      → IsApart config a (modify k f p)
  modify_processed-IsApart k f a p v = record {
    active_unique = v.active_unique;
    processed_unique = modify-Unique k f p v.processed_unique;
    apart = λ j h. has-modify k j f p ∙ v.apart j h;
    few_active = v.few_active;
    few_processed = omega (arith, v.few_processed, length-modify k f p);
  }

  pub put_active-IsApart :
      (k : DedupKey) (r : ActiveIncomingRecord) (a : Active) (p : Processed)
      → has k p ≡ false
      → length a < max_active_incoming_records
      → IsApart config a p
      → IsApart config (put k r a) p
  put_active-IsApart k r a p h room v = record {
    active_unique = put-Unique k r a v.active_unique;
    processed_unique = v.processed_unique;
    apart = λ j there. ground (arith, v.apart j, get-put k j r a, dedup_beq_iff k j);
    few_active = omega (arith, room, length-put k r a);
    few_processed = v.few_processed;
  }

-- What shrinking the processed history leaves of it.
pub record IsShrunk (before after : Processed) : Type 0 where
  pub unique : Unique after
  pub kept : (j : DedupKey) → has j before ≡ false → has j after ≡ false

oldest_from-cons :
    (x y : DedupKey × ProcessedDedupRecord) (rest : Processed)
    → oldest_from x (y ∷ rest)
      ≡ oldest_from (if ltb y.1.last_seen_at x.1.last_seen_at then y else x) rest
unfolding oldest_from
oldest_from-cons x y rest = refl

skip_first :
    (j : DedupKey) (x : DedupKey × ProcessedDedupRecord) (xs : Processed)
    → has j xs ≡ true
    → has j (x ∷ xs) ≡ true
unfolding get
skip_first j (k, r) xs h = ground arith

skip_second :
    (j : DedupKey) (x y : DedupKey × ProcessedDedupRecord) (xs : Processed)
    → has j (x ∷ xs) ≡ true
    → has j (x ∷ (y ∷ xs)) ≡ true
unfolding get
skip_second j (k, r) (i, q) xs h = ground arith

first_there : (x : DedupKey × ProcessedDedupRecord) → has (oldest_from x []) (x ∷ []) ≡ true
unfolding get oldest_from
first_there (k, r) = rw (dedup_beq_refl k)

oldest_there :
    (x : DedupKey × ProcessedDedupRecord) (xs : Processed) → has (oldest_from x xs) (x ∷ xs) ≡ true
oldest_there x [] = first_there x
oldest_there x (y ∷ rest) = elim (Bool-cases (ltb y.1.last_seen_at x.1.last_seen_at)) [
  | inl younger ↦
      rw (oldest_from-cons x y rest, younger)
        (skip_first (oldest_from y rest) x (y ∷ rest) (oldest_there y rest))
  | inr older ↦
      rw (oldest_from-cons x y rest, older)
        (skip_second (oldest_from x rest) x y rest (oldest_there x rest))
]

module _ (o : HashOrder) (law : IsIteration o) where
  oldest_is_there :
      (m : Processed) (k : DedupKey) → oldest (o.processed m) ≡ some k → has k m ≡ true
  oldest_is_there m k h = go (o.processed m) refl h
    where
      go : (xs : Processed) → o.processed m ≡ xs → oldest xs ≡ some k → has k m ≡ true
      go [] e h' = absurd cc
      go (x ∷ rest) e h' =
          let same : oldest_from x rest ≡ k = cc in
          ap is_some (sym (law.processed_get k m) ∙ ap (get k) e)
          ∙ rw (← same) (oldest_there x rest)

  oldest-none : (m : Processed) → oldest (o.processed m) ≡ none → length m ≡ 0
  oldest-none m h = go (o.processed m) refl h
    where
      go : (xs : Processed) → o.processed m ≡ xs → oldest xs ≡ none → length m ≡ 0
      go [] e h' = sym (law.processed_length m) ∙ ap length e
      go (x ∷ rest) e h' = absurd cc

  shrink_processed-IsShrunk :
      (max_entries fuel : ℕ) (m : Processed)
      → 0 < max_entries
      → length m ≤ fuel
      → Unique m
      → IsShrunk m (shrink_processed o max_entries fuel m)
        × (length (shrink_processed o max_entries fuel m) < max_entries)
  unfolding shrink_processed
  shrink_processed-IsShrunk max_entries zero m some_room small u =
      (record { unique = u; kept = λ j h. h }, omega arith)
  shrink_processed-IsShrunk max_entries (suc fuel) m some_room small u =
      elim (Bool-cases (leb max_entries (length m))) [
        | inr fits ↦
            rw (fits, shrink_processed) (record { unique = u; kept = λ j h. h }, ground arith)
        | inl full ↦ elim (Option-cases (oldest (o.processed m))) [
          | inl empty ↦ absurd (ground (arith, oldest-none m empty))
          | inr (k, found) ↦
              let (shrunk, room) =
                shrink_processed-IsShrunk max_entries fuel (delete k m) some_room
                  (omega (arith, length-delete_some k m (oldest_is_there m k found)))
                  (delete-Unique k m u) in
              rw (full, shrink_processed, found)
                (
                  record {
                    unique = shrunk.unique;
                    kept = λ j h. shrunk.kept j (has-delete k j m h);
                  },
                  room,
                )
        ]
      ]

  -- A message that has just been taken out of the active ones goes into the history.
  pub remember-IsApart :
      (config : DeliveryConfig) (s : DeliveryStore) (k : DedupKey) (r : ProcessedDedupRecord)
      → has k s.incoming_active ≡ false
      → IsApart config s.incoming_active s.processed_dedup
      → IsApart config
          (remember_processed o s k r config.dedup_max_entries).incoming_active
          (remember_processed o s k r config.dedup_max_entries).processed_dedup
  unfolding remember_processed
  remember-IsApart config s k r gone v = elim (Bool-cases (config.dedup_max_entries == 0)) [
    | inl zero_window ↦ rw zero_window v
    | inr window ↦
        let kept = retain (λ j x. ltb r.last_seen_at x.expires_at) s.processed_dedup in
        let w =
          retain_processed-IsApart config (λ j x. ltb r.last_seen_at x.expires_at) s.incoming_active
            s.processed_dedup v in
        let (shrunk, room) =
          shrink_processed-IsShrunk config.dedup_max_entries (length kept) kept (ground arith)
            (omega arith) w.processed_unique in
        rw window (record {
          active_unique = v.active_unique;
          processed_unique = put-Unique k r _ shrunk.unique;
          apart = λ j there.
              has-put k j r (shrink_processed o config.dedup_max_entries (length kept) kept)
                (shrunk.kept j (w.apart j there)) (other_key k j s.incoming_active gone there);
          few_active = v.few_active;
          few_processed = omega (
            arith,
            room,
            length-put k r (shrink_processed o config.dedup_max_entries (length kept) kept),
          );
        })
  ]
