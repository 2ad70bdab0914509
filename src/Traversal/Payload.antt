-- ===== src/Traversal/Payload.antt =====
-- The second candidate payload: the first part of
-- native/network_core/crates/network-nat/src/candidate_v2.rs. Its encoding is serde's.
use ssh_mobile.Base.{
  ℕ, ◌≡◌, ◌↔◌, ap, Bool, true, false, ◌&&◌, ◌||◌, not, List, [], ◌∷◌, ◌++◌, ltb, leb, ◌==◌,
  if◌then◌else◌, length, Result, ok, fail_if, ◌>>◌, Eq, arith, str_eq, str_beq, str_beq_iff,
}
use ssh_mobile.Traversal.Candidate.{
  String, SocketAddr, v4, v6, port, is_unspecified, CandidateKind, lan, public_ipv6,
  server_reflexive, port_mapped, relay, Candidate,
}
use ssh_mobile.Traversal.Exchange.{all_graphic}

abbrev pub candidate_payload_version : ℕ
candidate_payload_version = 2

abbrev pub max_candidate_id_bytes : ℕ
max_candidate_id_bytes = 128

abbrev pub max_interface_bytes : ℕ
max_interface_bytes = 128

pub data CandidateTransport : Type 0 where
  quic tcp websocket udp_datagram relayed : CandidateTransport

abbrev pub transport_order : CandidateTransport → ℕ
transport_order quic = 0
transport_order tcp = 1
transport_order websocket = 2
transport_order udp_datagram = 3
transport_order relayed = 4

abbrev pub transport_beq : CandidateTransport → CandidateTransport → Bool
transport_beq t u = transport_order t == transport_order u

pub record CandidatePayload : Type 0 where
  pub version : ℕ
  pub candidate_id : String
  pub endpoint : SocketAddr
  pub kind : CandidateKind
  pub transport_capabilities : List CandidateTransport
  pub priority : ℕ
  pub interface_name : String
  pub generation : ℕ

unfoldable pub from_candidate : Candidate → List CandidateTransport → CandidatePayload
from_candidate c transports = record {
  version = candidate_payload_version;
  candidate_id = c.candidate_id;
  endpoint = c.endpoint;
  kind = c.kind;
  transport_capabilities = transports;
  priority = c.priority;
  interface_name = c.interface_name;
  generation = c.generation;
}

pub data PayloadError : Type 0 where
  payload_version : ℕ → PayloadError
  payload_identity payload_endpoint missing_transport duplicate_transport : PayloadError
  duplicate_candidate_id payload_generation srflx_mismatch relay_mismatch : PayloadError
  candidate_set_too_large payload_too_large malformed_encoding : PayloadError

unfoldable pub is_bad_name : ℕ → String → Bool
is_bad_name limit name = length name == 0 || ltb limit (length name) || not (all_graphic name)

unfoldable pub has_transport : List CandidateTransport → CandidateTransport → Bool
has_transport [] t = false
has_transport (u ∷ us) t = transport_beq u t || has_transport us t

-- The loop over `seen`.
unfoldable pub repeats_transport : List CandidateTransport → List CandidateTransport → Bool
repeats_transport seen [] = false
repeats_transport seen (t ∷ ts) = has_transport seen t || repeats_transport (seen ++ (t ∷ [])) ts

abbrev pub is_reflexive : CandidateKind → Bool
is_reflexive server_reflexive = true
is_reflexive lan = false
is_reflexive public_ipv6 = false
is_reflexive port_mapped = false
is_reflexive relay = false

abbrev pub is_relay : CandidateKind → Bool
is_relay relay = true
is_relay lan = false
is_relay public_ipv6 = false
is_relay port_mapped = false
is_relay server_reflexive = false

-- Some transport is neither QUIC nor datagrams.
unfoldable pub any_other_than_udp : List CandidateTransport → Bool
any_other_than_udp [] = false
any_other_than_udp (t ∷ ts) =
    not (transport_beq t quic || transport_beq t udp_datagram) || any_other_than_udp ts

-- Some transport is not the relay.
unfoldable pub any_direct : List CandidateTransport → Bool
any_direct [] = false
any_direct (t ∷ ts) = not (transport_beq t relayed) || any_direct ts

unfoldable pub mismatches_relay : CandidatePayload → Bool
mismatches_relay c =
    if is_relay c.kind
    then any_direct c.transport_capabilities
    else has_transport c.transport_capabilities relayed

unfoldable pub validate_payload : CandidatePayload → Result PayloadError (Unit {0})
validate_payload c = do
  fail_if (not (c.version == candidate_payload_version)) (payload_version c.version)
  fail_if (is_bad_name max_candidate_id_bytes c.candidate_id) payload_identity
  fail_if (is_bad_name max_interface_bytes c.interface_name) payload_identity
  fail_if (is_unspecified c.endpoint || port c.endpoint == 0) payload_endpoint
  fail_if (length c.transport_capabilities == 0) missing_transport
  fail_if (repeats_transport [] c.transport_capabilities) duplicate_transport
  fail_if (c.generation == 0) payload_generation
  fail_if (is_reflexive c.kind && any_other_than_udp c.transport_capabilities) srflx_mismatch
  fail_if (mismatches_relay c) relay_mismatch

-- `sort_by_key`, which is stable.
unfoldable pub insert_transport :
    CandidateTransport → List CandidateTransport → List CandidateTransport
insert_transport t [] = t ∷ []
insert_transport t (u ∷ us) =
    let rest = insert_transport t us in
    if leb (transport_order t) (transport_order u) then t ∷ u ∷ us else u ∷ rest

unfoldable pub sort_transports : List CandidateTransport → List CandidateTransport
sort_transports [] = []
sort_transports (t ∷ ts) = insert_transport t (sort_transports ts)

unfoldable pub normalized : CandidatePayload → Result PayloadError CandidatePayload
normalized c = do
  validate_payload c
  ok (record c { transport_capabilities = sort_transports c.transport_capabilities })

-- `.filter(|transport| !matches!(transport, CandidateTransport::Relay))`.
unfoldable pub without_relay : List CandidateTransport → List CandidateTransport
without_relay [] = []
without_relay (t ∷ ts) =
    let rest = without_relay ts in if transport_beq t relayed then rest else t ∷ rest

unfoldable pub direct_transports : CandidatePayload → List CandidateTransport
direct_transports c = if is_relay c.kind then [] else without_relay c.transport_capabilities

pub record CandidateAttemptKey : Type 0 where
  pub candidate_id : String
  pub endpoint : SocketAddr
  pub generation : ℕ

unfoldable pub attempt_key : CandidatePayload → CandidateAttemptKey
attempt_key c = record {
  candidate_id = c.candidate_id;
  endpoint = c.endpoint;
  generation = c.generation;
}

abbrev pub addr_beq : SocketAddr → SocketAddr → Bool
addr_beq (v4 ip n) (v4 jp m) = ip == jp && n == m
addr_beq (v6 ip n flow scope) (v6 jp m glow tcope) =
    ip == jp && n == m && flow == glow && scope == tcope
addr_beq (v4 ip n) (v6 jp m flow scope) = false
addr_beq (v6 ip n flow scope) (v4 jp m) = false

abbrev pub attempt_key_beq : CandidateAttemptKey → CandidateAttemptKey → Bool
attempt_key_beq a b =
    str_beq a.candidate_id b.candidate_id
    && addr_beq a.endpoint b.endpoint
    && a.generation == b.generation

addr_beq-eq : (a b : SocketAddr) → addr_beq a b ≡ true → a ≡ b
addr_beq-eq (v4 ip n) (v4 jp m) e = ground arith
addr_beq-eq (v6 ip n flow scope) (v6 jp m glow tcope) e = ground arith
addr_beq-eq (v4 ip n) (v6 jp m flow scope) e = absurd (cc e)
addr_beq-eq (v6 ip n flow scope) (v4 jp m) e = absurd (cc e)

addr_beq_refl : (a : SocketAddr) → addr_beq a a ≡ true
addr_beq_refl (v4 ip n) = ground arith
addr_beq_refl (v6 ip n flow scope) = ground arith

pub attempt_key_beq_iff : (a b : CandidateAttemptKey) → (attempt_key_beq a b ≡ true) ↔ (a ≡ b)
attempt_key_beq_iff a b = (
  λ h. ground (arith, addr_beq-eq a.endpoint b.endpoint, str_beq_iff a.candidate_id b.candidate_id),
  λ h. ground (
    arith,
    addr_beq_refl a.endpoint,
    ap (λ (k : CandidateAttemptKey). addr_beq a.endpoint k.endpoint) h,
    str_beq_iff a.candidate_id b.candidate_id,
  ),
)

instance abbrev pub attempt_key_eq : Eq CandidateAttemptKey
attempt_key_eq = record { beq = attempt_key_beq; beq_iff = attempt_key_beq_iff }
