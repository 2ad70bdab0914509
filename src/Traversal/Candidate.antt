-- ===== src/Traversal/Candidate.antt =====
-- Candidates and their advertisements:
-- native/network_core/crates/network-nat/src/candidate.rs. A socket address is std's, with its
-- numbers; a loss rate is the bits of its float, which the code here only copies.
use ssh_mobile.Base.{
  ℕ, Bool, ◌||◌, List, ◌∷◌, ◌++◌, ltb, ◌==◌, if◌then◌else◌, length, Result, ok, err,
}

abbrev pub String : Type 0
String = List ℕ

pub data SocketAddr : Type 0 where
  -- The address and the port.
  v4 : ℕ → ℕ → SocketAddr
  -- The address, the port, the flow information and the scope.
  v6 : ℕ → ℕ → ℕ → ℕ → SocketAddr

abbrev pub port : SocketAddr → ℕ
port (v4 ip n) = n
port (v6 ip n flow scope) = n

-- `0.0.0.0` and `::`.
abbrev pub is_unspecified : SocketAddr → Bool
is_unspecified (v4 ip n) = ip == 0
is_unspecified (v6 ip n flow scope) = ip == 0

pub data CandidateKind : Type 0 where
  lan public_ipv6 server_reflexive port_mapped relay : CandidateKind

pub record Candidate : Type 0 where
  pub candidate_id : String
  pub endpoint : SocketAddr
  pub interface_name : String
  pub kind : CandidateKind
  pub priority : ℕ
  pub generation : ℕ
  pub rtt_ms : ℕ
  pub jitter_ms : ℕ
  pub loss_rate : ℕ
  pub last_success_timestamp : ℕ
  pub sample_count : ℕ

pub record CandidateAdvertisement : Type 0 where
  pub candidate_id : String
  pub endpoint : SocketAddr
  pub kind : CandidateKind
  pub priority : ℕ
  pub interface_name : String
  pub generation : ℕ

abbrev pub base_priority : CandidateKind → ℕ
base_priority lan = 100
base_priority public_ipv6 = 80
base_priority port_mapped = 60
base_priority server_reflexive = 40
base_priority relay = 10

-- `Candidate::new`. How an address prints is std's.
unfoldable pub new_candidate :
    (SocketAddr → String) → SocketAddr → CandidateKind → String → Candidate
new_candidate print endpoint kind interface_name = record {
  candidate_id = interface_name ++ (64 ∷ print endpoint);
  endpoint = endpoint;
  interface_name = interface_name;
  kind = kind;
  priority = base_priority kind;
  generation = 0;
  rtt_ms = 0;
  jitter_ms = 0;
  loss_rate = 0;
  last_success_timestamp = 0;
  sample_count = 0;
}

abbrev pub with_generation : Candidate → ℕ → Candidate
with_generation c generation = record c { generation = generation }

unfoldable pub advertisement : Candidate → CandidateAdvertisement
advertisement c = record {
  candidate_id = c.candidate_id;
  endpoint = c.endpoint;
  kind = c.kind;
  priority = c.priority;
  interface_name = c.interface_name;
  generation = c.generation;
}

-- The messages of the errors.
pub data NatError : Type 0 where
  invalid_identity unsupported_version invalid_size duplicate_or_stale : NatError
  too_many_candidates duplicate_ids : NatError

-- A candidate that has no sample yet.
unfoldable pub candidate_of : CandidateAdvertisement → Candidate
candidate_of a = record {
  candidate_id = a.candidate_id;
  endpoint = a.endpoint;
  interface_name = a.interface_name;
  kind = a.kind;
  priority = a.priority;
  generation = a.generation;
  rtt_ms = 0;
  jitter_ms = 0;
  loss_rate = 0;
  last_success_timestamp = 0;
  sample_count = 0;
}

unfoldable pub is_invalid : CandidateAdvertisement → Bool
is_invalid a =
    length a.candidate_id == 0
    || ltb 128 (length a.candidate_id)
    || length a.interface_name == 0
    || ltb 128 (length a.interface_name)
    || is_unspecified a.endpoint
    || port a.endpoint == 0

unfoldable pub from_advertisement : CandidateAdvertisement → Result NatError Candidate
from_advertisement a = if is_invalid a then err invalid_identity else ok (candidate_of a)
