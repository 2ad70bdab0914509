-- ===== src/Connect/Calls/Completes.antt =====
-- A completion keeps the supervisor consistent.
use ssh_mobile.Base.{
  ℕ, ◌≡◌, refl, ap, ◌∙◌, true, false, ◌||◌, not, List, Option, none, some, ltb, ◌==◌, length, ok,
  err, str_eq, arith, Bool-cases, Option-cases, inl, inr,
}
use ssh_mobile.Base.Maps.{retain}
use ssh_mobile.Connect.Types.{
  connecting, online, PeerRequirement, CoreNetworkError, ConnectionTask, PeerSupervisor,
  Surroundings, Reply,
}
use ssh_mobile.Connect.Intents.{mailbox_error}
use ssh_mobile.Connect.Completion.{
  pending_waiters, waiters_of, complete_err, retry, complete_ok, complete_ready, is_completed,
}
use ssh_mobile.Connect.Lifecycle.{
  mark_child_finished, cancel_connection_task, cancel_connection_task_for,
}
use ssh_mobile.Connect.Calls.Invariant.{
  children_of, IsPeer, reset-IsPeer, fail_generation-IsPeer, retain-IsWaiting,
}

pub retry-IsPeer :
    (s : PeerSupervisor) (generation : ℕ) (ready : PeerRequirement) (delivered : ℕ)
    (replies : List Reply) (around : Surroundings)
    → s.stopping ≡ false
    → IsPeer s
    → IsPeer (retry s generation ready delivered replies around).after
unfolding retry
retry-IsPeer s generation ready delivered replies around live v =
    let v' : IsPeer (record s { state = connecting; retry_scheduled = true }) = record {
      waiting = v.waiting;
      idle = λ h. absurd (cc h);
      known = λ h. absurd (cc h);
      stopped = λ h. absurd (cc (live, h));
      child = v.child;
      resources = v.resources;
      word = v.word;
    } in
    elim (Bool-cases s.retry_scheduled) [
      | inl waits ↦ rw (retry, waits) v'
      | inr free ↦ elim (Option-cases (mailbox_error around.answer)) [
        | inl taken ↦ rw (retry, free, taken) v'
        | inr (reason, refused) ↦
            rw (retry, free, refused)
              (fail_generation-IsPeer (record s { state = connecting; retry_scheduled = true })
                generation reason v')
      ]
    ]

pub complete_ok-IsPeer :
    (s : PeerSupervisor) (generation : ℕ) (ready : PeerRequirement) (around : Surroundings)
    → s.stopping ≡ false
    → IsPeer s
    → IsPeer (complete_ok s generation ready online around).after
unfolding complete_ok pending_waiters retain
complete_ok-IsPeer s generation ready around live v =
    let pending = pending_waiters generation ready s.waiters in
    let waits =
      retain-IsWaiting (λ id w. not (is_completed generation ready w)) s.waiters s.generation
        v.waiting in
    let s' : PeerSupervisor = record s { ready_requirement = some ready; waiters = pending } in
    elim (Bool-cases (ltb 0 (length (waiters_of generation pending)))) [
      | inl more ↦
          rw (more, complete_ok)
            (retry-IsPeer s' generation ready _ _ around live (record {
              waiting = waits;
              idle = λ h. rw (v.idle h) refl;
              known = λ h. refl;
              stopped = v.stopped;
              child = v.child;
              resources = v.resources;
              word = v.word;
            }))
      | inr none_left ↦
          rw (none_left, complete_ok)
            (record {
              waiting = waits;
              idle = λ h. absurd (cc h);
              known = λ h. refl;
              stopped = λ h. absurd (cc (live, h));
              child = v.child;
              resources = v.resources;
              word = v.word;
            })
    ]

pub complete_online-IsPeer :
    (s : PeerSupervisor) (generation : ℕ) (ready : PeerRequirement) (around : Surroundings)
    → IsPeer s
    → IsPeer (complete_ready s generation ready (ok online) around).after
unfolding complete_ready
complete_online-IsPeer s generation ready around v =
    elim (Bool-cases (s.stopping || not (s.generation == generation))) [
      | inl stale ↦ rw stale v
      | inr current ↦ rw current (complete_ok-IsPeer s generation ready around (ground arith) v)
    ]

pub complete_error-IsPeer :
    (s : PeerSupervisor) (generation : ℕ) (ready : PeerRequirement) (error : CoreNetworkError)
    (around : Surroundings)
    → IsPeer s
    → IsPeer (complete_ready s generation ready (err error) around).after
unfolding complete_ready complete_err
complete_error-IsPeer s generation ready error around v =
    elim (Bool-cases (s.stopping || not (s.generation == generation))) [
      | inl stale ↦ rw stale v
      | inr current ↦ rw current (reset-IsPeer s v.child v.resources v.word)
    ]

pub cancelled-IsPeer :
    (s : PeerSupervisor) (task : ConnectionTask)
    → s.connection_task ≡ some task
    → IsPeer s
    → IsPeer (mark_child_finished (record s { connection_task = none }))
cancelled-IsPeer s task some_task v =
    let one : s.active_children ≡ 1 = v.child ∙ ap children_of some_task in
    record {
      waiting = v.waiting;
      idle = v.idle;
      known = v.known;
      stopped = v.stopped;
      child = omega arith;
      resources = v.resources;
      word = v.word;
    }

pub cancel_connection_task-IsPeer :
    (s : PeerSupervisor) → IsPeer s → IsPeer (cancel_connection_task s)
unfolding cancel_connection_task
cancel_connection_task-IsPeer s v = go s.connection_task refl
  where
    go : (t : Option ConnectionTask) → s.connection_task ≡ t → IsPeer (cancel_connection_task s)
    go none e = rw (cancel_connection_task, e) v
    go (some task) e = rw (cancel_connection_task, e) (cancelled-IsPeer s task e v)

pub cancel_connection_task_for-IsPeer :
    (s : PeerSupervisor) (generation : ℕ)
    → IsPeer s
    → IsPeer (cancel_connection_task_for s generation)
unfolding cancel_connection_task_for
cancel_connection_task_for-IsPeer s generation v = elim (Option-cases s.connection_task) [
  | inl idle ↦ rw (cancel_connection_task_for, idle) v
  | inr (task, e) ↦ elim (Bool-cases (task.generation == generation)) [
    | inl same ↦ rw (cancel_connection_task_for, e, same) (cancelled-IsPeer s task e v)
    | inr other ↦ rw (cancel_connection_task_for, e, other) v
  ]
]
