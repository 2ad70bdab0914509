-- ===== src/Connect/Calls/Late.antt =====
-- A completion that comes late changes nothing.
use ssh_mobile.Base.{
  ℕ, ◌+◌, ◌≤◌, ◌<◌, ◌≡◌, refl, ◌∙◌, Bool, true, false, ◌||◌, ◌&&◌, not, List, [], ◌∷◌, Option, none,
  some, ◌==◌, Result, ok, err, str_eq, arith,
}
use ssh_mobile.Base.Words.{u64_max}
use ssh_mobile.Connect.Types.{
  CommandId, next_generation, CommunicationClass, PeerRequirement, from_class, mailbox_full,
  stale_intent, supervisor_stopping, cancelled, CoreNetworkError, PeerIntent, PeerCompletion,
  ConnectionTask, PeerSupervisor, Surroundings, NetworkErrorCode,
}
use ssh_mobile.Connect.Intents.{
  reset, fail_generation, Begun, add_waiter, start_generation, join_generation, begin, queue_intent,
  finish_begin, admit_waiter, begin_connect_with_policy, outcome, admit_unless,
}
use ssh_mobile.Connect.Completion.{
  complete_err, retry, complete_ok, complete_ready, complete_generation,
}
use ssh_mobile.Connect.Lifecycle.{
  mark_child_started, mark_child_finished, cancel_connection_task, take_connection_task,
  cancel_connection_task_for, invalidate_generation, acquire_resource,
  admit_inbound_with_capabilities,
}
use ssh_mobile.Connect.Attempts.{
  take_intent, complete_attempt_without_task, spawn_attempt, start_child, start_taken,
  start_attempt, finish_taken, finish_attempt,
}
use ssh_mobile.Connect.Calls.{
  PeerCall, begins, starts, finishes, disconnects, stops, loses_path, acquires, releases, admits,
  configures, call_peer, call_peer_each,
}
use ssh_mobile.Connect.Calls.Invariant.{IsPeer}
use ssh_mobile.Connect.Calls.Runs.{call_peer-IsPeer, invalidate_generation-IsPeer}

fail_generation_same :
    (s : PeerSupervisor) (generation : ℕ) (error : CoreNetworkError)
    → (fail_generation s generation error).1.generation ≡ s.generation
unfolding fail_generation
fail_generation_same s generation error = ground arith

finish_begin_same :
    (b : Begun) (id : CommandId) (r : PeerRequirement) (around : Surroundings)
    → (finish_begin b id r around).after.generation ≡ b.begun.generation
unfolding finish_begin queue_intent
finish_begin_same b id r around = ground (
  arith,
  fail_generation_same (add_waiter b.begun id r) b.begun.generation mailbox_full,
  fail_generation_same (add_waiter b.begun id r) b.begun.generation supervisor_stopping,
)

begin_mono :
    (s : PeerSupervisor) (class : CommunicationClass)
    → s.generation ≤ u64_max
    → s.generation ≤ (begin s class).begun.generation
unfolding begin start_generation join_generation
begin_mono s class word = ground arith

admit_waiter_mono :
    (s : PeerSupervisor) (id : CommandId) (class : CommunicationClass) (around : Surroundings)
    → s.generation ≤ u64_max
    → s.generation ≤ (admit_waiter s id class around).after.generation
unfolding admit_waiter
admit_waiter_mono s id class around word =
    ground (
      arith,
      begin_mono s class word,
      finish_begin_same (begin s class) id (from_class class) around,
    )

admit_unless_mono :
    (stopping : Bool) (s : PeerSupervisor) (id : CommandId) (class : CommunicationClass)
    (maintain : Bool) (around : Surroundings)
    → s.generation ≤ u64_max
    → s.generation ≤ (admit_unless stopping s id class maintain around).after.generation
unfolding admit_unless
admit_unless_mono true s id class maintain around word = omega arith
admit_unless_mono false s id class maintain around word =
    admit_waiter_mono (record s { maintain_connection = maintain || s.maintain_connection }) id
      class around word

begin_connect_mono :
    (s : PeerSupervisor) (id : CommandId) (class : CommunicationClass) (maintain : Bool)
    (around : Surroundings)
    → s.generation ≤ u64_max
    → s.generation ≤ (begin_connect_with_policy s id class maintain around).after.generation
unfolding begin_connect_with_policy
begin_connect_mono s id class maintain around word =
    ground (arith, admit_unless_mono s.stopping s id class maintain around word)

complete_ready_same :
    (s : PeerSupervisor) (generation : ℕ) (ready : PeerRequirement) (result : PeerCompletion)
    (around : Surroundings)
    → (complete_ready s generation ready result around).after.generation ≡ s.generation
unfolding complete_ready complete_err complete_ok retry fail_generation
complete_ready_same s generation ready (ok state) around = ground arith
complete_ready_same s generation ready (err error) around = ground arith

without_task_same :
    (s : PeerSupervisor) (generation : ℕ) (result : PeerCompletion) (started : Bool)
    (around : Surroundings)
    → (complete_attempt_without_task s generation result started around).after.generation
      ≡ s.generation
unfolding complete_attempt_without_task complete_generation
without_task_same s generation result true around =
    complete_ready_same (mark_child_finished s) generation _ result around
without_task_same s generation result false around =
    complete_ready_same s generation _ result around

cancel_connection_task_same :
    (s : PeerSupervisor) → (cancel_connection_task s).generation ≡ s.generation
unfolding cancel_connection_task
cancel_connection_task_same s = ground arith

cancel_connection_task_for_same :
    (s : PeerSupervisor) (generation : ℕ)
    → (cancel_connection_task_for s generation).generation ≡ s.generation
unfolding cancel_connection_task_for
cancel_connection_task_for_same s generation = ground arith

start_child_same :
    (started : Result CoreNetworkError (Unit {0})) (s : PeerSupervisor) (intent : PeerIntent)
    (r : PeerRequirement) (spawned : Bool) (around : Surroundings)
    → (start_child started s intent r spawned around).after.generation ≡ s.generation
unfolding start_child spawn_attempt
start_child_same (ok u) s intent r true around = refl
start_child_same (ok u) s intent r false around =
    without_task_same _ intent.generation _ true around
start_child_same (err error) s intent r spawned around =
    without_task_same s intent.generation _ false around

start_taken_same :
    (r : Option PeerRequirement) (s : PeerSupervisor) (intent : PeerIntent) (spawned : Bool)
    (around : Surroundings)
    → (start_taken r s intent spawned around).after.generation ≡ s.generation
unfolding start_taken mark_child_started
start_taken_same none s intent spawned around = refl
start_taken_same (some r) s intent spawned around =
    start_child_same (mark_child_started (cancel_connection_task s)).0
      (mark_child_started (cancel_connection_task s)).1 intent r spawned around
    ∙ ground (arith, cancel_connection_task_same s)

finish_taken_same :
    (task : Option ConnectionTask) (s : PeerSupervisor) (generation : ℕ)
    (result : Result NetworkErrorCode (Unit {0})) (around : Surroundings)
    → (finish_taken task s generation result around).after.generation ≡ s.generation
unfolding finish_taken
finish_taken_same none s generation result around = refl
finish_taken_same (some task) s generation result around =
    complete_ready_same (mark_child_finished s) generation task.requirement _ around

invalidate_generation_mono :
    (s : PeerSupervisor) (stopping clear : Bool) (error : CoreNetworkError)
    → s.generation ≤ u64_max
    → s.generation ≤ (invalidate_generation s stopping clear error).after.generation
unfolding invalidate_generation
invalidate_generation_mono s stopping clear error word = ground (
  arith,
  cancel_connection_task_for_same
      (record (reset s) {
        stopping = stopping || s.stopping;
        generation = next_generation s.generation;
        maintain_connection = not clear && s.maintain_connection;
      })
      s.generation,
)

invalidated_next :
    (s : PeerSupervisor) (clear : Bool) (error : CoreNetworkError)
    → s.stopping ≡ false
    → s.generation < u64_max
    → (invalidate_generation s false clear error).after.generation ≡ s.generation + 1
unfolding invalidate_generation
invalidated_next s clear error live small = ground (
  arith,
  cancel_connection_task_for_same
      (record (reset s) {
        stopping = false || s.stopping;
        generation = next_generation s.generation;
        maintain_connection = not clear && s.maintain_connection;
      })
      s.generation,
)

call_peer_mono :
    (s : PeerSupervisor) (c : PeerCall)
    → s.generation ≤ u64_max
    → s.generation ≤ (call_peer s c).1.generation
unfolding call_peer start_attempt finish_attempt take_intent take_connection_task acquire_resource
    admit_inbound_with_capabilities
call_peer_mono s (begins id class maintain around) word =
    begin_connect_mono s id class maintain around word
call_peer_mono s (starts intent spawned around) word = ground (
  arith,
  start_taken_same (take_intent s intent).0 (take_intent s intent).1 intent spawned around,
)
call_peer_mono s (finishes generation attempt_id result around) word = ground (
  arith,
  finish_taken_same (take_connection_task s generation attempt_id).0
      (take_connection_task s generation attempt_id).1 generation result around,
)
call_peer_mono s disconnects word = invalidate_generation_mono s false true cancelled word
call_peer_mono s stops word = invalidate_generation_mono s true true supervisor_stopping word
call_peer_mono s loses_path word = invalidate_generation_mono s false false cancelled word
call_peer_mono s acquires word = ground arith
call_peer_mono s releases word = omega arith
call_peer_mono s (admits authenticated capabilities) word = ground arith
call_peer_mono s (configures configured) word = omega arith

calls_mono :
    (s : PeerSupervisor) (cs : List PeerCall)
    → IsPeer s
    → s.generation ≤ (call_peer_each s cs).generation
unfolding call_peer_each
calls_mono s [] v = omega arith
calls_mono s (c ∷ cs) v =
    let now = call_peer_mono s c v.word in
    let later = calls_mono (call_peer s c).1 cs (call_peer-IsPeer s c v) in omega arith

-- Once a peer was disconnected, or lost its path, every completion for the generation before is
-- refused as stale, sends nothing and changes nothing, whatever calls come in between; the
-- generation is below the last one that a word holds.
pub complete_ready_late :
    (s : PeerSupervisor) (clear : Bool) (error : CoreNetworkError) (cs : List PeerCall)
    (ready : PeerRequirement) (result : PeerCompletion) (around : Surroundings)
    → IsPeer s
    → s.stopping ≡ false
    → s.generation < u64_max
    → complete_ready
        (call_peer_each (invalidate_generation s false clear error).after cs)
        s.generation
        ready
        result
        around
      ≡ outcome
          (err stale_intent)
          []
          (call_peer_each (invalidate_generation s false clear error).after cs)
unfolding complete_ready
complete_ready_late s clear error cs ready result around v live small =
    let s' : PeerSupervisor = (invalidate_generation s false clear error).after in
    let bumped = invalidated_next s clear error live small in
    let later = calls_mono s' cs (invalidate_generation-IsPeer s false clear error v) in
    let other : ((call_peer_each s' cs).stopping
          || not ((call_peer_each s' cs).generation == s.generation))
        ≡ true =
      ground arith in
    rw other refl
