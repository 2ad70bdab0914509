-- ===== src/Connect/Calls/Runs.antt =====
-- Every call keeps the supervisor consistent.
use ssh_mobile.Base.{
  ℕ, ◌+◌, ◌-◌, ◌≤◌, ◌≡◌, refl, ap, ◌∙◌, Bool, true, false, ◌||◌, ◌&&◌, not, List, [], ◌∷◌, Option,
  none, some, leb, ◌==◌, Result, ok, err, str_eq, arith, Bool-cases, Option-cases, inl, inr,
}
use mathlib.Core.Path.{subst}
use ssh_mobile.Base.Words.{u64_max}
use ssh_mobile.Connect.Types.{
  max_peer_resources, online, next_generation, PeerRequirement, from_capability_mask,
  supervisor_stopping, CoreNetworkError, PeerIntent, ConnectionTask, PeerSupervisor, new_supervisor,
  Surroundings, NetworkErrorCode,
}
use ssh_mobile.Connect.Intents.{is_current, reset}
use ssh_mobile.Connect.Completion.{complete_generation}
use ssh_mobile.Connect.Lifecycle.{
  mark_child_started, mark_child_finished, cancel_connection_task, take_connection_task,
  invalidate_generation, acquire_resource, admit_inbound_with_capabilities,
}
use ssh_mobile.Connect.Attempts.{
  take_intent, complete_attempt_without_task, spawn_attempt, start_child, start_taken,
  start_attempt, finish_taken, finish_attempt,
}
use ssh_mobile.Connect.Calls.{
  PeerCall, begins, starts, finishes, disconnects, stops, loses_path, acquires, releases, admits,
  configures, call_peer, call_peer_each,
}
use ssh_mobile.Connect.Calls.Invariant.{children_of, IsPeer, nobody-IsWaiting, next_generation_word}
use ssh_mobile.Connect.Calls.Begins.{other-IsPeer, begin_connect-IsPeer}
use ssh_mobile.Connect.Calls.Completes.{
  complete_online-IsPeer, complete_error-IsPeer, cancel_connection_task-IsPeer,
  cancel_connection_task_for-IsPeer,
}

invalidated-IsPeer :
    (s : PeerSupervisor) (stopping maintain : Bool) (generation : ℕ)
    → generation ≤ u64_max
    → IsPeer s
    → IsPeer (record (reset s) {
      stopping = stopping;
      generation = generation;
      maintain_connection = maintain;
    })
invalidated-IsPeer s stopping maintain generation word v = record {
  waiting = nobody-IsWaiting generation;
  idle = λ h. refl;
  known = λ h. absurd (cc h);
  stopped = λ h. refl;
  child = v.child;
  resources = v.resources;
  word = word;
}

pub invalidate_generation-IsPeer :
    (s : PeerSupervisor) (stopping clear : Bool) (error : CoreNetworkError)
    → IsPeer s
    → IsPeer (invalidate_generation s stopping clear error).after
unfolding invalidate_generation
invalidate_generation-IsPeer s stopping clear error v =
    elim (Bool-cases (not stopping && s.stopping)) [
      | inl late ↦ rw late v
      | inr live ↦ rw live (
          cancel_connection_task_for-IsPeer _ s.generation (
            invalidated-IsPeer s _ _ (next_generation s.generation)
              (next_generation_word s.generation) v))
    ]

resources-IsPeer :
    (s : PeerSupervisor) (n : ℕ)
    → n ≤ max_peer_resources
    → IsPeer s
    → IsPeer (record s { resources = n })
resources-IsPeer s n few v = record {
  waiting = v.waiting;
  idle = v.idle;
  known = v.known;
  stopped = v.stopped;
  child = v.child;
  resources = few;
  word = v.word;
}

acquire_resource-IsPeer : (s : PeerSupervisor) → IsPeer s → IsPeer (acquire_resource s).1
unfolding acquire_resource
acquire_resource-IsPeer s v = elim (Bool-cases (s.stopping || leb max_peer_resources s.resources)) [
  | inl refused ↦ let step : (acquire_resource s).1 ≡ s = ground arith in rw step v
  | inr free ↦
      let step : (acquire_resource s).1 ≡ record s { resources = s.resources + 1 } = ground arith in
      rw step (resources-IsPeer s (s.resources + 1) (ground arith) v)
]

admitted-IsPeer :
    (s : PeerSupervisor) (r : PeerRequirement)
    → s.stopping ≡ false
    → IsPeer s
    → IsPeer (record s { state = online; active_requirement = some r; ready_requirement = some r })
admitted-IsPeer s r live v = record {
  waiting = v.waiting;
  idle = λ h. absurd (cc h);
  known = λ h. refl;
  stopped = λ h. absurd (cc (live, h));
  child = v.child;
  resources = v.resources;
  word = v.word;
}

admit_inbound-IsPeer :
    (s : PeerSupervisor) (authenticated : Bool) (capabilities : ℕ)
    → IsPeer s
    → IsPeer (admit_inbound_with_capabilities s authenticated capabilities).1
unfolding admit_inbound_with_capabilities
admit_inbound-IsPeer s false capabilities v = v
admit_inbound-IsPeer s true capabilities v = elim (Bool-cases s.stopping) [
  | inl late ↦
      let step : (admit_inbound_with_capabilities s true capabilities).1 ≡ s = ground arith in
      rw step v
  | inr live ↦
      let r : PeerRequirement = from_capability_mask capabilities in
      let step : (admit_inbound_with_capabilities s true capabilities).1
          ≡ record s { state = online; active_requirement = some r; ready_requirement = some r } =
        ground arith in
      rw step (admitted-IsPeer s r live v)
]

retry_free-IsPeer :
    (s : PeerSupervisor) (b : Bool) → IsPeer s → IsPeer (record s { retry_scheduled = b })
retry_free-IsPeer s b v = record {
  waiting = v.waiting;
  idle = v.idle;
  known = v.known;
  stopped = v.stopped;
  child = v.child;
  resources = v.resources;
  word = v.word;
}

cancel_connection_task-none :
    (s : PeerSupervisor) → (cancel_connection_task s).connection_task ≡ none
unfolding cancel_connection_task
cancel_connection_task-none s = ground arith

take_intent-IsPeer :
    (s : PeerSupervisor) (intent : PeerIntent) → IsPeer s → IsPeer (take_intent s intent).1
unfolding take_intent
take_intent-IsPeer s intent v = elim (Bool-cases (is_current s intent.generation)) [
  | inl current ↦ rw current (retry_free-IsPeer s false v)
  | inr stale ↦ rw stale v
]

-- The child that is to be started or was taken from its task is counted, but has no task.
record IsSpawning (s : PeerSupervisor) : Type 0 where
  base : IsPeer (record s { active_children = 0 })
  counted : s.active_children ≡ 1
  alone : s.connection_task ≡ none

finished-IsPeer : (s : PeerSupervisor) → IsSpawning s → IsPeer (mark_child_finished s)
finished-IsPeer s v =
    let none_left : 0 ≡ s.active_children - 1 = (let one = v.counted in omega arith) in
    subst (λ n. IsPeer (record s { active_children = n })) none_left v.base

complete_error_default-IsPeer :
    (s : PeerSupervisor) (generation : ℕ) (error : CoreNetworkError) (around : Surroundings)
    → IsPeer s
    → IsPeer (complete_generation s generation (err error) around).after
unfolding complete_generation
complete_error_default-IsPeer s generation error around v =
    complete_error-IsPeer s generation _ error around v

spawn_attempt-IsPeer :
    (s : PeerSupervisor) (intent : PeerIntent) (r : PeerRequirement) (spawned : Bool)
    (around : Surroundings)
    → IsSpawning s
    → IsPeer (spawn_attempt s intent r spawned around).after
unfolding spawn_attempt complete_attempt_without_task
spawn_attempt-IsPeer s intent r true around v = record {
  waiting = v.base.waiting;
  idle = v.base.idle;
  known = v.base.known;
  stopped = v.base.stopped;
  child = v.counted;
  resources = v.base.resources;
  word = v.base.word;
}
spawn_attempt-IsPeer s intent r false around v =
    complete_error_default-IsPeer _ intent.generation supervisor_stopping around
      (other-IsPeer _ s.maintain_connection s.configured _ (finished-IsPeer s v))

-- A child is counted where none was.
started-IsSpawning :
    (s : PeerSupervisor)
    → IsPeer s
    → s.connection_task ≡ none
    → IsSpawning (record s { active_children = s.active_children + 1 })
started-IsSpawning s v alone =
    let zero_children : s.active_children ≡ 0 = v.child ∙ ap children_of alone in
    record {
      base = subst (λ n. IsPeer (record s { active_children = n })) zero_children v;
      counted = omega arith;
      alone = alone;
    }

start_taken-IsPeer :
    (r : Option PeerRequirement) (s : PeerSupervisor) (intent : PeerIntent) (spawned : Bool)
    (around : Surroundings)
    → IsPeer s
    → IsPeer (start_taken r s intent spawned around).after
unfolding start_taken mark_child_started start_child complete_attempt_without_task
start_taken-IsPeer none s intent spawned around v = v
start_taken-IsPeer (some r) s intent spawned around v =
    let s' : PeerSupervisor = cancel_connection_task s in
    let v' = cancel_connection_task-IsPeer s v in
    elim (Bool-cases (leb 1 s'.active_children)) [
      | inl crowded ↦
          rw (start_taken, mark_child_started, crowded)
            (complete_error_default-IsPeer s' intent.generation _ around v')
      | inr free ↦
          rw (start_taken, mark_child_started, free)
            (spawn_attempt-IsPeer _ intent r spawned around
              (started-IsSpawning s' v' (cancel_connection_task-none s)))
    ]

-- A task that is taken leaves its child counted.
taken_task-IsSpawning :
    (s : PeerSupervisor) (task : ConnectionTask)
    → IsPeer s
    → s.connection_task ≡ some task
    → IsSpawning (record s { connection_task = none })
taken_task-IsSpawning s task v has_task =
    let one : s.active_children ≡ 1 = v.child ∙ ap children_of has_task in
    record {
      base = record {
        waiting = v.waiting;
        idle = v.idle;
        known = v.known;
        stopped = v.stopped;
        child = refl;
        resources = v.resources;
        word = v.word;
      };
      counted = one;
      alone = refl;
    }

finish_taken-IsPeer :
    (s : PeerSupervisor) (task : ConnectionTask) (generation : ℕ)
    (result : Result NetworkErrorCode (Unit {0})) (around : Surroundings)
    → IsSpawning s
    → IsPeer (finish_taken (some task) s generation result around).after
unfolding finish_taken
finish_taken-IsPeer s task generation (ok u) around v =
    complete_online-IsPeer _ generation task.requirement around (finished-IsPeer s v)
finish_taken-IsPeer s task generation (err code) around v =
    complete_error-IsPeer _ generation task.requirement _ around (finished-IsPeer s v)

finish_attempt-IsPeer :
    (s : PeerSupervisor) (generation attempt_id : ℕ) (result : Result NetworkErrorCode (Unit {0}))
    (around : Surroundings)
    → IsPeer s
    → IsPeer (finish_attempt s generation attempt_id result around).after
unfolding finish_attempt take_connection_task finish_taken
finish_attempt-IsPeer s generation attempt_id result around v =
    elim (Option-cases s.connection_task) [
      | inl idle ↦
          let step : take_connection_task s generation attempt_id ≡ (none, s) = ground arith in
          rw (finish_attempt, step, finish_taken) v
      | inr (task, has_task) ↦
          elim (Bool-cases (task.generation == generation && task.attempt_id == attempt_id)) [
            | inl same ↦
                let step : take_connection_task s generation attempt_id
                    ≡ (some task, record s { connection_task = none }) =
                  ground arith in
                rw (finish_attempt, step)
                  (finish_taken-IsPeer _ task generation result around
                    (taken_task-IsSpawning s task v has_task))
            | inr other ↦
                let step : take_connection_task s generation attempt_id ≡ (none, s) =
                  ground arith in
                rw (finish_attempt, step, finish_taken) v
          ]
    ]

start_attempt-IsPeer :
    (s : PeerSupervisor) (intent : PeerIntent) (spawned : Bool) (around : Surroundings)
    → IsPeer s
    → IsPeer (start_attempt s intent spawned around).after
unfolding start_attempt
start_attempt-IsPeer s intent spawned around v =
    start_taken-IsPeer (take_intent s intent).0 (take_intent s intent).1 intent spawned around
      (take_intent-IsPeer s intent v)

pub call_peer-IsPeer : (s : PeerSupervisor) (c : PeerCall) → IsPeer s → IsPeer (call_peer s c).1
unfolding call_peer
call_peer-IsPeer s (begins id class maintain around) v =
    begin_connect-IsPeer s id class maintain around v
call_peer-IsPeer s (starts intent spawned around) v = start_attempt-IsPeer s intent spawned around v
call_peer-IsPeer s (finishes generation attempt_id result around) v =
    finish_attempt-IsPeer s generation attempt_id result around v
call_peer-IsPeer s disconnects v = invalidate_generation-IsPeer s false true _ v
call_peer-IsPeer s stops v = invalidate_generation-IsPeer s true true _ v
call_peer-IsPeer s loses_path v = invalidate_generation-IsPeer s false false _ v
call_peer-IsPeer s acquires v = acquire_resource-IsPeer s v
call_peer-IsPeer s releases v =
    resources-IsPeer s (s.resources - 1) (let few = v.resources in omega arith) v
call_peer-IsPeer s (admits authenticated capabilities) v =
    admit_inbound-IsPeer s authenticated capabilities v
call_peer-IsPeer s (configures configured) v =
    other-IsPeer s s.maintain_connection configured s.next_attempt_id v

calls_from-IsPeer :
    (s : PeerSupervisor) (cs : List PeerCall) → IsPeer s → IsPeer (call_peer_each s cs)
unfolding call_peer_each
calls_from-IsPeer s [] v = v
calls_from-IsPeer s (c ∷ cs) v = calls_from-IsPeer (call_peer s c).1 cs (call_peer-IsPeer s c v)

new_supervisor-IsPeer : IsPeer new_supervisor
new_supervisor-IsPeer = record {
  waiting = nobody-IsWaiting 0;
  idle = λ h. refl;
  known = λ h. absurd (cc h);
  stopped = λ h. refl;
  child = refl;
  resources = omega arith;
  word = omega arith;
}

-- After any calls on a new supervisor at most 64 commands wait, each once and none for a later
-- generation; an offline peer keeps nobody waiting; an online peer knows what its path provides; a
-- stopping peer is offline; one child is counted exactly while there is an attempt, and at most 64
-- resources are held.
pub call_peer_each-IsPeer : (cs : List PeerCall) → IsPeer (call_peer_each new_supervisor cs)
call_peer_each-IsPeer cs = calls_from-IsPeer new_supervisor cs new_supervisor-IsPeer
