-- ===== src/Connect/Calls/Remembered.antt =====
-- No call forgets a waiter of the current generation.
use ssh_mobile.Base.{
  ℕ, ◌≡◌, ◌∙◌, Bool, true, false, List, Option, none, some, Result, ok, err, str_eq, arith,
}
use ssh_mobile.Base.Maps.{get, Unique}
use ssh_mobile.Connect.Types.{
  CommandId, PeerRequirement, supervisor_stopping, cancelled, CoreNetworkError, PeerIntent,
  PeerCompletion, Waiter, ConnectionTask, PeerSupervisor, new_supervisor, Surroundings,
  NetworkErrorCode,
}
use ssh_mobile.Connect.Completion.{complete_ready, complete_generation}
use ssh_mobile.Connect.Lifecycle.{
  mark_child_started, mark_child_finished, cancel_connection_task, take_connection_task,
  invalidate_generation, acquire_resource, admit_inbound_with_capabilities,
}
use ssh_mobile.Connect.Attempts.{
  take_intent, complete_attempt_without_task, spawn_attempt, start_child, start_taken,
  start_attempt, finish_taken, finish_attempt, completion_of,
}
use ssh_mobile.Connect.Calls.{
  PeerCall, begins, starts, finishes, disconnects, stops, loses_path, acquires, releases, admits,
  configures, call_peer, call_peer_each,
}
use ssh_mobile.Connect.Calls.Runs.{call_peer_each-IsPeer}
use ssh_mobile.Connect.Calls.Answers.{
  IsRemembered, begin_connect-IsRemembered, complete_ready-IsRemembered, has-reply_all,
}

-- What the calls about tasks leave alone.
record Keeps (s s' : PeerSupervisor) : Type 0 where
  waiters : s'.waiters ≡ s.waiters
  generation : s'.generation ≡ s.generation

cancel_connection_task-Keeps : (s : PeerSupervisor) → Keeps s (cancel_connection_task s)
unfolding cancel_connection_task
cancel_connection_task-Keeps s = record { waiters = ground arith; generation = ground arith }

complete_kept-IsRemembered :
    (s s' : PeerSupervisor) (generation : ℕ) (ready : PeerRequirement) (result : PeerCompletion)
    (around : Surroundings) (id : CommandId) (w : Waiter)
    → Unique s.waiters
    → get id s.waiters ≡ some w
    → w.generation ≡ s.generation
    → Keeps s s'
    → IsRemembered id
        (complete_ready s' generation ready result around).replies
        (complete_ready s' generation ready result around).after
complete_kept-IsRemembered s s' generation ready result around id w u found current k =
    complete_ready-IsRemembered s' generation ready result around id w (rw k.waiters u)
      (rw k.waiters found) (rw k.generation current)

module _ (s : PeerSupervisor) (id : CommandId) (w : Waiter) (u : Unique s.waiters)
    (found : get id s.waiters ≡ some w) (current : w.generation ≡ s.generation) where
  without_task-IsRemembered :
      (s' : PeerSupervisor) (generation : ℕ) (error : CoreNetworkError) (started : Bool)
      (around : Surroundings)
      → Keeps s s'
      → IsRemembered id
          (complete_attempt_without_task s' generation (err error) started around).replies
          (complete_attempt_without_task s' generation (err error) started around).after
  unfolding complete_attempt_without_task complete_generation
  without_task-IsRemembered s' generation error true around k =
      complete_kept-IsRemembered s (mark_child_finished s') generation _ (err error) around id w u
        found current (record { waiters = k.waiters; generation = k.generation })
  without_task-IsRemembered s' generation error false around k =
      complete_kept-IsRemembered s s' generation _ (err error) around id w u found current k

  spawn_attempt-IsRemembered :
      (s' : PeerSupervisor) (intent : PeerIntent) (r : PeerRequirement) (spawned : Bool)
      (around : Surroundings)
      → Keeps s s'
      → IsRemembered id
          (spawn_attempt s' intent r spawned around).replies
          (spawn_attempt s' intent r spawned around).after
  unfolding spawn_attempt
  spawn_attempt-IsRemembered s' intent r true around k = let same = k.waiters in ground arith
  spawn_attempt-IsRemembered s' intent r false around k =
      without_task-IsRemembered _ intent.generation supervisor_stopping true around
        (record { waiters = k.waiters; generation = k.generation })

  start_child-IsRemembered :
      (started : Result CoreNetworkError (Unit {0})) (s' : PeerSupervisor) (intent : PeerIntent)
      (r : PeerRequirement) (spawned : Bool) (around : Surroundings)
      → Keeps s s'
      → IsRemembered id
          (start_child started s' intent r spawned around).replies
          (start_child started s' intent r spawned around).after
  unfolding start_child
  start_child-IsRemembered (ok x) s' intent r spawned around k =
      spawn_attempt-IsRemembered s' intent r spawned around k
  start_child-IsRemembered (err error) s' intent r spawned around k =
      without_task-IsRemembered s' intent.generation error false around k

  started-Keeps : (s' : PeerSupervisor) → Keeps s s' → Keeps s (mark_child_started s').1
  unfolding mark_child_started
  started-Keeps s' k =
      let a = k.waiters in
      let b = k.generation in record { waiters = ground arith; generation = ground arith }

  start_taken-IsRemembered :
      (r : Option PeerRequirement) (s' : PeerSupervisor) (intent : PeerIntent) (spawned : Bool)
      (around : Surroundings)
      → Keeps s s'
      → IsRemembered id
          (start_taken r s' intent spawned around).replies
          (start_taken r s' intent spawned around).after
  unfolding start_taken
  start_taken-IsRemembered none s' intent spawned around k = let same = k.waiters in ground arith
  start_taken-IsRemembered (some r) s' intent spawned around k =
      let c = cancel_connection_task-Keeps s' in
      start_child-IsRemembered (mark_child_started (cancel_connection_task s')).0
        (mark_child_started (cancel_connection_task s')).1 intent r spawned around
        (started-Keeps (cancel_connection_task s')
          (record { waiters = c.waiters ∙ k.waiters; generation = c.generation ∙ k.generation }))

  take_intent-Keeps : (intent : PeerIntent) → Keeps s (take_intent s intent).1
  unfolding take_intent
  take_intent-Keeps intent = record { waiters = ground arith; generation = ground arith }

  finish_taken-IsRemembered :
      (task : Option ConnectionTask) (s' : PeerSupervisor) (generation : ℕ)
      (result : Result NetworkErrorCode (Unit {0})) (around : Surroundings)
      → Keeps s s'
      → IsRemembered id
          (finish_taken task s' generation result around).replies
          (finish_taken task s' generation result around).after
  unfolding finish_taken
  finish_taken-IsRemembered none s' generation result around k =
      let same = k.waiters in ground arith
  finish_taken-IsRemembered (some task) s' generation result around k =
      complete_kept-IsRemembered s (mark_child_finished s') generation task.requirement
        (completion_of result) around id w u found current
        (record { waiters = k.waiters; generation = k.generation })

  take_connection_task-Keeps :
      (generation attempt_id : ℕ) → Keeps s (take_connection_task s generation attempt_id).1
  unfolding take_connection_task
  take_connection_task-Keeps generation attempt_id = record {
    waiters = ground arith;
    generation = ground arith;
  }

  invalidate-IsRemembered :
      (stopping clear : Bool) (error : CoreNetworkError)
      → IsRemembered id
          (invalidate_generation s stopping clear error).replies
          (invalidate_generation s stopping clear error).after
  unfolding invalidate_generation
  invalidate-IsRemembered stopping clear error =
      ground (arith, has-reply_all id (err error) s.waiters)

  call_peer-IsRemembered : (c : PeerCall) → IsRemembered id (call_peer s c).0 (call_peer s c).1
  unfolding call_peer start_attempt finish_attempt acquire_resource admit_inbound_with_capabilities
  call_peer-IsRemembered (begins j class maintain around) =
      begin_connect-IsRemembered s j class maintain around id (rw found)
  call_peer-IsRemembered (starts intent spawned around) =
      start_taken-IsRemembered (take_intent s intent).0 (take_intent s intent).1 intent spawned
        around (take_intent-Keeps intent)
  call_peer-IsRemembered (finishes generation attempt_id result around) =
      finish_taken-IsRemembered (take_connection_task s generation attempt_id).0
        (take_connection_task s generation attempt_id).1 generation result around
        (take_connection_task-Keeps generation attempt_id)
  call_peer-IsRemembered disconnects = invalidate-IsRemembered false true cancelled
  call_peer-IsRemembered stops = invalidate-IsRemembered true true supervisor_stopping
  call_peer-IsRemembered loses_path = invalidate-IsRemembered false false cancelled
  call_peer-IsRemembered acquires = ground arith
  call_peer-IsRemembered releases = ground arith
  call_peer-IsRemembered (admits authenticated capabilities) = ground arith
  call_peer-IsRemembered (configures configured) = ground arith

-- Whatever the supervisor is called for, a command that waits for the current generation goes on
-- waiting or is sent a completion.
pub call_peer_answers :
    (cs : List PeerCall) (c : PeerCall) (id : CommandId) (w : Waiter)
    → get id (call_peer_each new_supervisor cs).waiters ≡ some w
    → w.generation ≡ (call_peer_each new_supervisor cs).generation
    → IsRemembered id
        (call_peer (call_peer_each new_supervisor cs) c).0
        (call_peer (call_peer_each new_supervisor cs) c).1
call_peer_answers cs c id w found current =
    call_peer-IsRemembered (call_peer_each new_supervisor cs) id w
      (call_peer_each-IsPeer cs).waiting.unique found current c
