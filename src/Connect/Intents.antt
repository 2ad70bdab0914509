-- ===== src/Connect/Intents.antt =====
-- Connect intents: the first part of
-- native/network_core/crates/network-core/src/connect/peer_supervisor/intents.rs. What the mailbox
-- answers comes from outside.
use ssh_mobile.Base.{
  Bool, true, false, ◌&&◌, ◌||◌, not, List, [], ◌∷◌, Option, none, some, leb, ltb, ◌==◌,
  if◌then◌else◌, length, Result, ok, err, str_eq,
}
use ssh_mobile.Base.Maps.{has, put}
use ssh_mobile.Connect.Types.{
  CommandId, max_peer_waiters, peer_waiters, CoreNetworkError, invalid_command_id,
  supervisor_stopping, duplicate_command, mailbox_full, resource_limit, offline, connecting, online,
  state_beq, IntentGeneration, next_generation, CommunicationClass, PeerRequirement, from_class,
  capability_mask, is_satisfied_by, extend_requirement, requirement_beq, communication_class,
  PeerIntent, PeerCompletion, Waiter, PeerSupervisor, MailboxOutcome, Surroundings, accepted, full,
  gone, Reply, Outcome,
}

abbrev pub outcome {ℓ} : {A : Type ℓ} → A → List Reply → PeerSupervisor → Outcome A
outcome value replies after = record {
  value = value;
  replies = replies;
  queued = none;
  after = after;
}

abbrev pub requirement_or : Option PeerRequirement → PeerRequirement → PeerRequirement
requirement_or none r = r
requirement_or (some a) r = a

unfoldable pub is_current : PeerSupervisor → IntentGeneration → Bool
is_current s generation = not s.stopping && s.generation == generation

-- `for waiter in waiters { waiter.send(result) }`.
unfoldable pub reply_all : PeerCompletion → List (CommandId × Waiter) → List Reply
reply_all result [] = []
reply_all result ((id, waiter) ∷ waiters) = (id, result) ∷ reply_all result waiters

-- The state of a peer that has no path and no attempt.
abbrev pub reset : PeerSupervisor → PeerSupervisor
reset s = record s {
  state = offline;
  active_requirement = none;
  ready_requirement = none;
  retry_scheduled = false;
  waiters = [];
}

unfoldable pub fail_generation :
    PeerSupervisor → IntentGeneration → CoreNetworkError → List Reply × PeerSupervisor
fail_generation s generation error =
    if s.generation == generation then (reply_all (err error) s.waiters, reset s) else ([], s)

pub record PeerConnectIntent : Type 0 where
  pub generation : IntentGeneration
  pub is_new : Bool

-- What the lock section of `begin_connect_with_policy` has decided.
pub record Begun : Type 0 where
  pub is_new : Bool
  pub queue_intent : Bool
  pub begun : PeerSupervisor

abbrev pub add_waiter : PeerSupervisor → CommandId → PeerRequirement → PeerSupervisor
add_waiter s command_id requirement = record s {
  waiters =
      put command_id (record { generation = s.generation; requirement = requirement }) s.waiters;
}

unfoldable pub start_generation : PeerSupervisor → PeerRequirement → PeerSupervisor
start_generation s requirement = record s {
  generation = next_generation s.generation;
  state = connecting;
  active_requirement = some requirement;
  ready_requirement = none;
  retry_scheduled = true;
}

unfoldable pub join_generation : PeerSupervisor → PeerRequirement → PeerRequirement → Begun
join_generation s active requirement =
    let combined = extend_requirement active requirement in
    let changed = not (requirement_beq combined active) in
    let queue = changed && not s.retry_scheduled in
    record {
      is_new = false;
      queue_intent = queue;
      begun = record s {
        active_requirement = if changed then some combined else s.active_requirement;
        retry_scheduled = queue || s.retry_scheduled;
      };
    }

unfoldable pub begin : PeerSupervisor → CommunicationClass → Begun
begin s class =
    let requirement = from_class class in
    if state_beq s.state connecting
    then join_generation s (requirement_or s.active_requirement requirement) requirement
    else record { is_new = true; queue_intent = true; begun = start_generation s requirement }

-- A ready path serves the demand at once.
unfoldable pub is_served : PeerSupervisor → CommunicationClass → Bool
is_served s class =
    let requirement = from_class class in
    elim s.ready_requirement [
      | some ready ↦ is_satisfied_by requirement ready
      | none ↦
          state_beq s.state online
          && is_satisfied_by requirement (requirement_or s.active_requirement requirement)
    ]

abbrev pub Begin : Type 0
Begin = Outcome (Result CoreNetworkError PeerConnectIntent)

abbrev pub mailbox_error : MailboxOutcome → Option CoreNetworkError
mailbox_error accepted = none
mailbox_error full = some mailbox_full
mailbox_error gone = some supervisor_stopping

-- The intent goes to the mailbox, or the generation fails.
abbrev pub intent_for : PeerSupervisor → IntentGeneration → PeerRequirement → CommandId → PeerIntent
intent_for s generation fallback command_id =
    let active = requirement_or s.active_requirement fallback in
    record {
      generation = generation;
      class = communication_class active;
      required_capabilities = capability_mask active;
      command_id = command_id;
    }

unfoldable pub queue_intent :
    PeerSupervisor → IntentGeneration → Bool → PeerIntent → Surroundings → Begin
queue_intent s generation is_new intent around = elim (mailbox_error around.answer) [
  | none ↦ record {
    value = ok (record { generation = generation; is_new = is_new });
    replies = [];
    queued = some intent;
    after = s;
  }
  | some reason ↦
      let (replies, s') = fail_generation s generation reason in outcome (err reason) replies s'
]

unfoldable pub finish_begin : Begun → CommandId → PeerRequirement → Surroundings → Begin
finish_begin b command_id requirement around =
    let s = add_waiter b.begun command_id requirement in
    if b.queue_intent
    then queue_intent s s.generation b.is_new (intent_for s s.generation requirement command_id)
        around
    else outcome (ok (record { generation = s.generation; is_new = b.is_new })) [] s

unfoldable pub admit_waiter : PeerSupervisor → CommandId → CommunicationClass → Surroundings → Begin
admit_waiter s command_id class around =
    if has command_id s.waiters
    then outcome (err duplicate_command) [] s
    else if leb max_peer_waiters (length s.waiters)
    then outcome (err (resource_limit peer_waiters)) [] s
    else if is_served s class
    then outcome (ok (record { generation = s.generation; is_new = false }))
        ((command_id, ok online) ∷ []) s
    else finish_begin (begin s class) command_id (from_class class) around

-- `if inner.stopping { return Err(SupervisorStopping) }`.
unfoldable pub admit_unless :
    Bool → PeerSupervisor → CommandId → CommunicationClass → Bool → Surroundings → Begin
admit_unless true s command_id class maintain around = outcome (err supervisor_stopping) [] s
admit_unless false s command_id class maintain around =
    admit_waiter (record s { maintain_connection = maintain || s.maintain_connection }) command_id
      class around

unfoldable pub begin_connect_with_policy :
    PeerSupervisor → CommandId → CommunicationClass → Bool → Surroundings → Begin
begin_connect_with_policy s command_id class maintain around =
    if length command_id == 0 || ltb 128 (length command_id)
    then outcome (err invalid_command_id) [] s
    else admit_unless s.stopping s command_id class maintain around

abbrev pub begin_connect : PeerSupervisor → CommandId → CommunicationClass → Surroundings → Begin
begin_connect s command_id class = begin_connect_with_policy s command_id class true

abbrev pub ensure : PeerSupervisor → CommandId → CommunicationClass → Surroundings → Begin
ensure s command_id class = begin_connect_with_policy s command_id class false
