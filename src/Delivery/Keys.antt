-- ===== src/Delivery/Keys.antt =====
-- The keys of the delivery maps: native/network_core/crates/network-core/src/delivery/mod.rs and
-- store.rs. Strings are their UTF-8 bytes.
use ssh_mobile.Base.{ℕ, ◌≡◌, ◌↔◌, Bool, true, ◌&&◌, List, Eq, str_eq, str_beq, str_beq_iff, arith}

abbrev pub Str : Type 0
Str = List ℕ

abbrev pub MessageId : Type 0
MessageId = List ℕ

abbrev pub Scope : Type 0
Scope = Str × Str

abbrev pub scope_beq : Scope → Scope → Bool
scope_beq (a, b) (c, d) = str_beq a c && str_beq b d

pub scope_beq_iff : (s t : Scope) → (scope_beq s t ≡ true) ↔ (s ≡ t)
scope_beq_iff (a, b) (c, d) = (
  λ h. ground (arith, str_beq_iff a c, str_beq_iff b d),
  λ h. ground (arith, str_beq_iff a c, str_beq_iff b d),
)

instance abbrev pub scope_eq : Eq Scope
scope_eq = record { beq = scope_beq; beq_iff = scope_beq_iff }

pub record DeliveryIdentity : Type 0 where
  pub peer_id : Str
  pub message_id : MessageId

abbrev pub identity_of : Str → MessageId → DeliveryIdentity
identity_of peer message = record { peer_id = peer; message_id = message }

abbrev pub identity_beq : DeliveryIdentity → DeliveryIdentity → Bool
identity_beq a b = str_beq a.peer_id b.peer_id && str_beq a.message_id b.message_id

pub identity_beq_iff : (a b : DeliveryIdentity) → (identity_beq a b ≡ true) ↔ (a ≡ b)
identity_beq_iff a b = (
  λ h. ground (arith, str_beq_iff a.peer_id b.peer_id, str_beq_iff a.message_id b.message_id),
  λ h. ground (arith, str_beq_iff a.peer_id b.peer_id, str_beq_iff a.message_id b.message_id),
)

instance abbrev pub identity_eq : Eq DeliveryIdentity
identity_eq = record { beq = identity_beq; beq_iff = identity_beq_iff }

pub record DedupKey : Type 0 where
  pub peer_id : Str
  pub channel_id : Str
  pub message_id : MessageId

abbrev pub dedup_beq : DedupKey → DedupKey → Bool
dedup_beq a b =
    str_beq a.peer_id b.peer_id
    && (str_beq a.channel_id b.channel_id && str_beq a.message_id b.message_id)

pub dedup_beq_iff : (a b : DedupKey) → (dedup_beq a b ≡ true) ↔ (a ≡ b)
dedup_beq_iff a b = (
  λ h. ground (
    arith,
    str_beq_iff a.peer_id b.peer_id,
    str_beq_iff a.channel_id b.channel_id,
    str_beq_iff a.message_id b.message_id,
  ),
  λ h. ground (
    arith,
    str_beq_iff a.peer_id b.peer_id,
    str_beq_iff a.channel_id b.channel_id,
    str_beq_iff a.message_id b.message_id,
  ),
)

instance abbrev pub dedup_eq : Eq DedupKey
dedup_eq = record { beq = dedup_beq; beq_iff = dedup_beq_iff }

abbrev pub dedup_key : Str → Str → MessageId → DedupKey
dedup_key peer channel message = record {
  peer_id = peer;
  channel_id = channel;
  message_id = message;
}
