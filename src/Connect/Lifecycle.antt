-- ===== src/Connect/Lifecycle.antt =====
-- Invalidation, inbound paths, tasks and resources:
-- native/network_core/crates/network-core/src/connect/peer_supervisor/lifecycle.rs.
use ssh_mobile.Base.{
  ℕ, ◌+◌, ◌-◌, Bool, true, false, ◌&&◌, ◌||◌, not, [], Option, none, some, leb, ◌==◌, if◌then◌else◌,
  length, Result, ok, err, str_eq,
}
use ssh_mobile.Connect.Types.{
  max_peer_resources, peer_resources, peer_establishment, CoreNetworkError, supervisor_stopping,
  cancelled, resource_limit, offline, online, state_beq, IntentGeneration, next_generation,
  from_capability_mask, PeerCompletion, ConnectionTask, PeerSupervisor, Outcome,
}
use ssh_mobile.Connect.Intents.{outcome, reply_all, reset}

unfoldable pub mark_child_started :
    PeerSupervisor → Result CoreNetworkError (Unit {0}) × PeerSupervisor
mark_child_started s =
    if leb 1 s.active_children
    then (err (resource_limit peer_establishment), s)
    else (ok tt, record s { active_children = s.active_children + 1 })

-- `saturating_sub`.
abbrev pub mark_child_finished : PeerSupervisor → PeerSupervisor
mark_child_finished s = record s { active_children = s.active_children - 1 }

unfoldable pub cancel_connection_task : PeerSupervisor → PeerSupervisor
cancel_connection_task s = elim s.connection_task [
  | none ↦ s
  | some task ↦ mark_child_finished (record s { connection_task = none })
]

unfoldable pub take_connection_task :
    PeerSupervisor → IntentGeneration → ℕ → Option ConnectionTask × PeerSupervisor
take_connection_task s generation attempt_id = elim s.connection_task [
  | none ↦ (none, s)
  | some task ↦
      if task.generation == generation && task.attempt_id == attempt_id
      then (some task, record s { connection_task = none })
      else (none, s)
]

unfoldable pub cancel_connection_task_for : PeerSupervisor → IntentGeneration → PeerSupervisor
cancel_connection_task_for s generation = elim s.connection_task [
  | none ↦ s
  | some task ↦
      if task.generation == generation
      then mark_child_finished (record s { connection_task = none })
      else s
]

unfoldable pub invalidate_generation : PeerSupervisor → Bool → Bool → CoreNetworkError → Outcome ℕ
invalidate_generation s stopping clear_maintenance error =
    if not stopping && s.stopping
    then outcome 0 [] s
    else (let s' = record (reset s) {
      stopping = stopping || s.stopping;
      generation = next_generation s.generation;
      maintain_connection = not clear_maintenance && s.maintain_connection;
    } in
        outcome (length s.waiters) (reply_all (err error) s.waiters)
          (cancel_connection_task_for s' s.generation))

abbrev pub disconnect : PeerSupervisor → Outcome ℕ
disconnect s = invalidate_generation s false true cancelled

abbrev pub stop : PeerSupervisor → Outcome ℕ
stop s = invalidate_generation s true true supervisor_stopping

abbrev pub path_lost : PeerSupervisor → Outcome ℕ
path_lost s = invalidate_generation s false false cancelled

unfoldable pub acquire_resource :
    PeerSupervisor → Result CoreNetworkError (Unit {0}) × PeerSupervisor
acquire_resource s =
    if s.stopping
    then (err supervisor_stopping, s)
    else if leb max_peer_resources s.resources
    then (err (resource_limit peer_resources), s)
    else (ok tt, record s { resources = s.resources + 1 })

abbrev pub release_resource : PeerSupervisor → PeerSupervisor
release_resource s = record s { resources = s.resources - 1 }

unfoldable pub admit_inbound_with_capabilities :
    PeerSupervisor → Bool → ℕ → PeerCompletion × PeerSupervisor
admit_inbound_with_capabilities s authenticated capabilities =
    if not authenticated
    then (err cancelled, s)
    else if s.stopping
    then (err supervisor_stopping, s)
    else (let requirement = from_capability_mask capabilities in
        (
          ok online,
          record s {
            state = online;
            active_requirement = some requirement;
            ready_requirement = some requirement;
          },
        ))

abbrev pub set_configured : PeerSupervisor → Bool → PeerSupervisor
set_configured s configured = record s { configured = configured }

unfoldable pub can_evict : PeerSupervisor → Bool
can_evict s =
    state_beq s.state offline
    && (not s.maintain_connection
        && (length s.waiters == 0
            && (s.active_children == 0
                && (not s.retry_scheduled && (s.resources == 0 && s.business_work == 0)))))
