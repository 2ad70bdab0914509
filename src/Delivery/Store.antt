-- ===== src/Delivery/Store.antt =====
-- The helpers on the store: native/network_core/crates/network-core/src/delivery/recovery.rs.
use ssh_mobile.Base.{
  ℕ, ◌-◌, ◌≡◌, Bool, true, false, ◌&&◌, not, List, [], ◌∷◌, Option, none, some, ltb, leb, ◌==◌,
  if◌then◌else◌, length, str_beq,
}
use ssh_mobile.Base.Maps.{get, has, put, delete, retain}
use ssh_mobile.Delivery.Keys.{
  Str, MessageId, DeliveryIdentity, identity_of, identity_eq, DedupKey, dedup_eq,
}
use ssh_mobile.Delivery.Types.{
  PendingMessage, DeliveryStore, DeliveryTerminalOutcome, ProcessedDedupRecord,
  max_terminal_outcomes,
}

-- The order in which the standard library iterates a hash map. It is not specified, so the model
-- takes it from outside; `IsIteration` says that each entry comes once.
pub record HashOrder : Type 0 where
  pub terminals :
      List (DeliveryIdentity × DeliveryTerminalOutcome)
      → List (DeliveryIdentity × DeliveryTerminalOutcome)
  pub processed : List (DedupKey × ProcessedDedupRecord) → List (DedupKey × ProcessedDedupRecord)

pub record IsIteration (o : HashOrder) : Type 0 where
  pub terminals_get :
      (k : DeliveryIdentity) (m : List (DeliveryIdentity × DeliveryTerminalOutcome))
      → get k (o.terminals m) ≡ get k m
  pub terminals_length :
      (m : List (DeliveryIdentity × DeliveryTerminalOutcome)) → length (o.terminals m) ≡ length m
  pub processed_get :
      (k : DedupKey) (m : List (DedupKey × ProcessedDedupRecord)) → get k (o.processed m) ≡ get k m
  pub processed_length :
      (m : List (DedupKey × ProcessedDedupRecord)) → length (o.processed m) ≡ length m

unfoldable pub is_expired : PendingMessage → ℕ → Bool
is_expired message now = elim message.expires_at [ none ↦ false | some at ↦ leb at now ]

-- What was removed, and the store after.
unfoldable pub remove_pending :
    DeliveryStore → DeliveryIdentity → Option PendingMessage × DeliveryStore
remove_pending s identity = elim (get identity s.pending) [
  | none ↦ (none, s)
  | some message ↦ (
    some message,
    record s {
      pending = delete identity s.pending;
      pending_bytes = s.pending_bytes - length message.payload;
    },
  )
]

abbrev pub first_key {ℓ κ} : {K : Type ℓ} {V : Type κ} → List (K × V) → Option K
first_key [] = none
first_key ((k, v) ∷ m) = some k

-- Makes room for one outcome more.
unfoldable pub evict_terminal :
    HashOrder
    → DeliveryIdentity
    → List (DeliveryIdentity × DeliveryTerminalOutcome)
    → List (DeliveryIdentity × DeliveryTerminalOutcome)
evict_terminal o identity m =
    if not (has identity m) && leb max_terminal_outcomes (length m)
    then (elim (first_key (o.terminals m)) [ none ↦ m | some oldest ↦ delete oldest m ])
    else m

-- `entry(identity).or_insert(outcome)`: the first outcome stays.
unfoldable pub record_terminal :
    HashOrder → DeliveryStore → DeliveryIdentity → DeliveryTerminalOutcome → DeliveryStore
record_terminal o s identity outcome =
    let m = evict_terminal o identity s.terminal_outcomes in
    record s { terminal_outcomes = if has identity m then m else put identity outcome m }

-- `remove_pending` followed by `record_terminal`.
abbrev pub settle :
    HashOrder → DeliveryStore → DeliveryIdentity → DeliveryTerminalOutcome → DeliveryStore
settle o s identity outcome = record_terminal o (remove_pending s identity).1 identity outcome

abbrev pub with_message :
    MessageId → List (DeliveryIdentity × PendingMessage) → List DeliveryIdentity
with_message id [] = []
with_message id ((k, m) ∷ rest) =
    let others = with_message id rest in if str_beq k.message_id id then k ∷ others else others

abbrev the_only : List DeliveryIdentity → Option DeliveryIdentity
the_only [] = none
the_only (k ∷ []) = some k
the_only (k ∷ (j ∷ rest)) = none

-- Without a peer the message id must name one pending message only.
unfoldable pub resolve_pending_identity :
    DeliveryStore → Option Str → MessageId → Option DeliveryIdentity
resolve_pending_identity s none id = the_only (with_message id s.pending)
resolve_pending_identity s (some peer) id =
    if has (identity_of peer id) s.pending then some (identity_of peer id) else none

unfoldable pub prune_processed_dedup : DeliveryStore → ℕ → DeliveryStore
prune_processed_dedup s now = record s {
  processed_dedup = retain (λ k r. ltb now r.expires_at) s.processed_dedup;
}

-- `min_by_key(last_seen_at)`: the first of the least.
unfoldable pub oldest_from :
    DedupKey × ProcessedDedupRecord → List (DedupKey × ProcessedDedupRecord) → DedupKey
oldest_from x [] = x.0
oldest_from x (y ∷ rest) = oldest_from (if ltb y.1.last_seen_at x.1.last_seen_at then y else x) rest

abbrev pub oldest : List (DedupKey × ProcessedDedupRecord) → Option DedupKey
oldest [] = none
oldest (x ∷ rest) = some (oldest_from x rest)

-- `while processed.len() >= max_entries { remove the oldest }`; each round removes an entry, so
-- the length is enough fuel.
unfoldable pub shrink_processed :
    HashOrder
    → ℕ
    → ℕ
    → List (DedupKey × ProcessedDedupRecord)
    → List (DedupKey × ProcessedDedupRecord)
shrink_processed o max_entries ℕ.zero m = m
shrink_processed o max_entries (ℕ.suc fuel) m = elim (leb max_entries (length m)) [
  | false ↦ m
  | true ↦ elim (oldest (o.processed m)) [
    | none ↦ m
    | some k ↦ shrink_processed o max_entries fuel (delete k m)
  ]
]

unfoldable pub remember_processed :
    HashOrder → DeliveryStore → DedupKey → ProcessedDedupRecord → ℕ → DeliveryStore
remember_processed o s key rec max_entries =
    if max_entries == 0
    then s
    else (let kept = retain (λ k r. ltb rec.last_seen_at r.expires_at) s.processed_dedup in
        record s {
          processed_dedup = put key rec (shrink_processed o max_entries (length kept) kept);
        })

-- Draws of the random generator until one names neither a pending nor a settled message; `none`
-- when all the given draws are taken.
unfoldable pub next_message_id : DeliveryStore → Str → List MessageId → Option MessageId
next_message_id s peer [] = none
next_message_id s peer (draw ∷ draws) =
    let rest = next_message_id s peer draws in
    if not (has (identity_of peer draw) s.pending)
      && not (has (identity_of peer draw) s.terminal_outcomes)
    then some draw
    else rest
