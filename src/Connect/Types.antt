-- ===== src/Connect/Types.antt =====
-- The types of the peer supervisor:
-- native/network_core/crates/network-core/src/connect/peer_supervisor.rs, and the capabilities of
-- native/network_core/crates/network-core/src/connect/mod.rs.
use ssh_mobile.Base.{
  ℕ, ◌+◌, ◌/◌, ◌%◌, Bool, true, false, ◌&&◌, ◌||◌, not, List, [], ◌∷◌, Option, none, leb, ltb, ◌==◌,
  if◌then◌else◌, length, Result, ok, err,
}
use ssh_mobile.Base.Words.{saturating_add}

abbrev pub CommandId : Type 0
CommandId = List ℕ

abbrev pub peer_mailbox_capacity : ℕ
peer_mailbox_capacity = 32

abbrev pub max_peer_waiters : ℕ
max_peer_waiters = 64

abbrev pub max_peer_resources : ℕ
max_peer_resources = 64

abbrev pub max_active_peers : ℕ
max_active_peers = 64

abbrev pub max_configured_peers : ℕ
max_configured_peers = 256

pub data Limited : Type 0 where
  peer_waiters peer_resources peer_establishment configured_peers peer_supervisors : Limited
  active_peers : Limited

-- The errors of `CoreNetworkError` that the supervisor returns.
pub data CoreNetworkError : Type 0 where
  invalid_peer_id invalid_command_id supervisor_stopping duplicate_command : CoreNetworkError
  mailbox_full stale_intent cancelled no_route : CoreNetworkError
  resource_limit : Limited → CoreNetworkError

-- The codes of a failed attempt that the generated protocol tells apart here.
pub data NetworkErrorCode : Type 0 where
  no_route_code peer_offline_code peer_not_ready_code cancelled_code other_code : NetworkErrorCode

unfoldable pub core_error_for_attempt : NetworkErrorCode → CoreNetworkError
core_error_for_attempt no_route_code = no_route
core_error_for_attempt peer_offline_code = no_route
core_error_for_attempt peer_not_ready_code = no_route
core_error_for_attempt cancelled_code = cancelled
core_error_for_attempt other_code = cancelled

-- A peer id by its characters.
abbrev pub PeerId : Type 0
PeerId = List ℕ

-- `char::is_control`.
abbrev pub is_control : ℕ → Bool
is_control c = leb c 31 || (leb 127 c && leb c 159)

unfoldable pub has_control : List ℕ → Bool
has_control [] = false
has_control (c ∷ cs) = is_control c || has_control cs

unfoldable pub new_peer_id : List ℕ → Result CoreNetworkError PeerId
new_peer_id value =
    if length value == 0 || (ltb 128 (length value) || has_control value)
    then err invalid_peer_id
    else ok value

pub data PeerState : Type 0 where
  offline connecting online : PeerState

abbrev pub state_beq : PeerState → PeerState → Bool
state_beq offline offline = true
state_beq connecting connecting = true
state_beq online online = true
state_beq a b = false

abbrev pub IntentGeneration : Type 0
IntentGeneration = ℕ

abbrev pub next_generation : IntentGeneration → IntentGeneration
next_generation g = saturating_add g 1

pub data CommunicationClass : Type 0 where
  unspecified reliable_message reliable_stream bulk_transfer : CommunicationClass
  unreliable_datagram realtime_media : CommunicationClass

unfoldable pub default_communication_class : CommunicationClass → CommunicationClass
default_communication_class unspecified = reliable_message
default_communication_class other = other

-- The bits of a capability mask.
pub record PeerRequirement : Type 0 where
  pub message : Bool
  pub stream : Bool
  pub datagram : Bool

abbrev pub default_connection_capability : PeerRequirement
default_connection_capability = record { message = true; stream = true; datagram = false }

abbrev pub requirement_of : CommunicationClass → PeerRequirement
requirement_of reliable_stream = record { message = true; stream = true; datagram = false }
requirement_of bulk_transfer = record { message = true; stream = true; datagram = false }
requirement_of reliable_message = record { message = true; stream = false; datagram = false }
requirement_of unreliable_datagram = record { message = false; stream = false; datagram = true }
requirement_of realtime_media = default_connection_capability
requirement_of unspecified = default_connection_capability

unfoldable pub from_class : CommunicationClass → PeerRequirement
from_class c = requirement_of (default_communication_class c)

-- `mask & 7`.
unfoldable pub from_capability_mask : ℕ → PeerRequirement
from_capability_mask mask = record {
  message = mask % 2 == 1;
  stream = mask / 2 % 2 == 1;
  datagram = mask / 4 % 2 == 1;
}

abbrev pub bit : Bool → ℕ → ℕ
bit b n = if b then n else 0

unfoldable pub capability_mask : PeerRequirement → ℕ
capability_mask r = bit r.message 1 + bit r.stream 2 + bit r.datagram 4

abbrev pub implies : Bool → Bool → Bool
implies a b = not a || b

-- `provided & required == required`.
unfoldable pub is_satisfied_by : PeerRequirement → PeerRequirement → Bool
is_satisfied_by required provided =
    implies required.message provided.message
    && (implies required.stream provided.stream && implies required.datagram provided.datagram)

unfoldable pub extend_requirement : PeerRequirement → PeerRequirement → PeerRequirement
extend_requirement a b = record {
  message = a.message || b.message;
  stream = a.stream || b.stream;
  datagram = a.datagram || b.datagram;
}

abbrev pub bool_beq : Bool → Bool → Bool
bool_beq true b = b
bool_beq false b = not b

abbrev pub requirement_beq : PeerRequirement → PeerRequirement → Bool
requirement_beq a b =
    bool_beq a.message b.message && (bool_beq a.stream b.stream && bool_beq a.datagram b.datagram)

unfoldable pub communication_class : PeerRequirement → CommunicationClass
communication_class r =
    if r.stream
    then reliable_stream
    else if r.datagram
    then unreliable_datagram
    else reliable_message

pub record PeerIntent : Type 0 where
  pub generation : IntentGeneration
  pub class : CommunicationClass
  pub required_capabilities : ℕ
  pub command_id : CommandId

abbrev pub PeerCompletion : Type 0
PeerCompletion = Result CoreNetworkError PeerState

-- The oneshot sender of a waiter is known by the waiter's command.
pub record Waiter : Type 0 where
  pub generation : IntentGeneration
  pub requirement : PeerRequirement

pub record ConnectionTask : Type 0 where
  pub generation : IntentGeneration
  pub attempt_id : ℕ
  pub requirement : PeerRequirement

-- `PeerInner`, with the task and the counter that the supervisor keeps beside it.
pub record PeerSupervisor : Type 0 where
  pub state : PeerState
  pub generation : IntentGeneration
  pub active_requirement : Option PeerRequirement
  pub ready_requirement : Option PeerRequirement
  pub stopping : Bool
  pub waiters : List (CommandId × Waiter)
  pub resources : ℕ
  pub maintain_connection : Bool
  pub active_children : ℕ
  pub retry_scheduled : Bool
  pub business_work : ℕ
  pub configured : Bool
  pub connection_task : Option ConnectionTask
  pub next_attempt_id : ℕ

abbrev pub new_supervisor : PeerSupervisor
new_supervisor = record {
  state = offline;
  generation = 0;
  active_requirement = none;
  ready_requirement = none;
  stopping = false;
  waiters = [];
  resources = 0;
  maintain_connection = false;
  active_children = 0;
  retry_scheduled = false;
  business_work = 0;
  configured = false;
  connection_task = none;
  next_attempt_id = 1;
}

-- What `try_send` on the mailbox says.
pub data MailboxOutcome : Type 0 where
  accepted full gone : MailboxOutcome

-- What a call meets: the mailbox's answer, and which of the waiters the map's iteration gives first.
pub record Surroundings : Type 0 where
  pub answer : MailboxOutcome
  pub first_waiter : ℕ

abbrev pub Reply : Type 0
Reply = CommandId × PeerCompletion

-- The value of a call, the completions that it sends, the intent that it puts in the mailbox, and
-- the state after.
pub record Outcome {ℓ} (A : Type ℓ) : Type ℓ where
  pub value : A
  pub replies : List Reply
  pub queued : Option PeerIntent
  pub after : PeerSupervisor
