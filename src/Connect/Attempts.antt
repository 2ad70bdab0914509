-- ===== src/Connect/Attempts.antt =====
-- The attempts of a peer. What the task supervisor answers comes from outside:
-- native/network_core/crates/network-core/src/connect/peer_supervisor/attempts.rs.
use ssh_mobile.Base.{
  ℕ, ◌+◌, ◌%◌, Bool, true, false, [], Option, none, some, if◌then◌else◌, Result, ok, err, str_eq,
}
use ssh_mobile.Base.Words.{u64_mod}
use ssh_mobile.Connect.Types.{
  CoreNetworkError, supervisor_stopping, online, IntentGeneration, PeerRequirement,
  from_capability_mask, PeerIntent, PeerCompletion, ConnectionTask, PeerSupervisor, Surroundings,
  Outcome,
}
use ssh_mobile.Connect.Types.{NetworkErrorCode, core_error_for_attempt}
use ssh_mobile.Connect.Intents.{outcome, requirement_or, is_current}
use ssh_mobile.Connect.Completion.{complete_ready, complete_generation}
use ssh_mobile.Connect.Lifecycle.{
  mark_child_started, mark_child_finished, cancel_connection_task, take_connection_task,
}

-- The start of `start_attempt`: what the attempt has to provide, or nothing for a stale intent.
unfoldable pub take_intent : PeerSupervisor → PeerIntent → Option PeerRequirement × PeerSupervisor
take_intent s intent =
    if is_current s intent.generation
    then (
      some
          (requirement_or s.active_requirement (from_capability_mask intent.required_capabilities)),
      record s { retry_scheduled = false },
    )
    else (none, s)

abbrev pub dropping_value {ℓ} : {A : Type ℓ} → Outcome A → Outcome (Unit {0})
dropping_value o = record { value = tt; replies = o.replies; queued = o.queued; after = o.after }

unfoldable pub complete_attempt_without_task :
    PeerSupervisor → IntentGeneration → PeerCompletion → Bool → Surroundings → Outcome (Unit {0})
complete_attempt_without_task s generation completion child_started around =
    let s' = if child_started then mark_child_finished s else s in
    dropping_value (complete_generation s' generation completion around)

-- The task supervisor has started the attempt, or refuses.
unfoldable pub spawn_attempt :
    PeerSupervisor → PeerIntent → PeerRequirement → Bool → Surroundings → Outcome (Unit {0})
spawn_attempt s intent requirement spawned around =
    let s' = record s { next_attempt_id = (s.next_attempt_id + 1) % u64_mod } in
    if spawned
    then outcome tt [] (record s' {
      connection_task = some (record {
        generation = intent.generation;
        attempt_id = s.next_attempt_id;
        requirement = requirement;
      });
    })
    else complete_attempt_without_task s' intent.generation (err supervisor_stopping) true around

unfoldable pub start_child :
    Result CoreNetworkError (Unit {0})
    → PeerSupervisor
    → PeerIntent
    → PeerRequirement
    → Bool
    → Surroundings
    → Outcome (Unit {0})
start_child (ok u) s intent requirement spawned around =
    spawn_attempt s intent requirement spawned around
start_child (err error) s intent requirement spawned around =
    complete_attempt_without_task s intent.generation (err error) false around

unfoldable pub start_taken :
    Option PeerRequirement → PeerSupervisor → PeerIntent → Bool → Surroundings → Outcome (Unit {0})
start_taken none s intent spawned around = outcome tt [] s
start_taken (some requirement) s intent spawned around =
    let (started, s') = mark_child_started (cancel_connection_task s) in
    start_child started s' intent requirement spawned around

unfoldable pub start_attempt :
    PeerSupervisor → PeerIntent → Bool → Surroundings → Outcome (Unit {0})
start_attempt s intent spawned around =
    let (requirement, s') = take_intent s intent in start_taken requirement s' intent spawned around

abbrev pub emitted : Result CoreNetworkError ℕ → Option NetworkErrorCode → Option NetworkErrorCode
emitted (ok delivered) failure = failure
emitted (err error) failure = none

abbrev pub failure_of : Result NetworkErrorCode (Unit {0}) → Option NetworkErrorCode
failure_of (ok u) = none
failure_of (err code) = some code

abbrev pub completion_of : Result NetworkErrorCode (Unit {0}) → PeerCompletion
completion_of (ok u) = ok online
completion_of (err code) = err (core_error_for_attempt code)

-- The result of an attempt whose task is still the current one.
unfoldable pub finish_taken :
    Option ConnectionTask
    → PeerSupervisor
    → IntentGeneration
    → Result NetworkErrorCode (Unit {0})
    → Surroundings
    → Outcome (Option NetworkErrorCode)
finish_taken none s generation result around = outcome none [] s
finish_taken (some task) s generation result around =
    let done =
      complete_ready (mark_child_finished s) generation task.requirement (completion_of result)
        around in
    record {
      value = emitted done.value (failure_of result);
      replies = done.replies;
      queued = done.queued;
      after = done.after;
    }

-- The value is the code of the failed state that is emitted, if one is.
unfoldable pub finish_attempt :
    PeerSupervisor
    → IntentGeneration
    → ℕ
    → Result NetworkErrorCode (Unit {0})
    → Surroundings
    → Outcome (Option NetworkErrorCode)
finish_attempt s generation attempt_id result around =
    let (task, s') = take_connection_task s generation attempt_id in
    finish_taken task s' generation result around
