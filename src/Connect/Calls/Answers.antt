-- ===== src/Connect/Calls/Answers.antt =====
-- Who is answered by a completion, and that nobody of the current generation is forgotten.
use ssh_mobile.Base.{
  ℕ, ◌≡◌, refl, Bool, true, false, ◌||◌, not, List, [], ◌∷◌, ◌++◌, none, some, ltb, leb, ◌==◌,
  if◌then◌else◌, length, Result, ok, err, str_eq, arith, Bool-cases, Option-cases, inl, inr,
}
use ssh_mobile.Base.Maps.{get, has, retain, Unique, get-put, get-retain}
use ssh_mobile.Connect.Types.{
  CommandId, max_peer_waiters, PeerState, CommunicationClass, PeerRequirement, from_class,
  mailbox_full, supervisor_stopping, CoreNetworkError, PeerIntent, PeerCompletion, Waiter,
  PeerSupervisor, Surroundings, Reply, Outcome,
}
use ssh_mobile.Connect.Intents.{
  reply_all, fail_generation, Begun, add_waiter, start_generation, join_generation, begin,
  is_served, mailbox_error, intent_for, queue_intent, finish_begin, admit_waiter,
  begin_connect_with_policy, admit_unless,
}
use ssh_mobile.Connect.Completion.{
  completed_waiters, pending_waiters, waiters_of, complete_err, retry, complete_ok, complete_ready,
  is_completed,
}

pub has-reply_all :
    (id : CommandId) (c : PeerCompletion) (waiters : List (CommandId × Waiter))
    → get id (reply_all c waiters) ≡ (if has id waiters then some c else none)
unfolding reply_all get
has-reply_all id c [] = refl
has-reply_all id c ((j, w) ∷ waiters) = ground (arith, has-reply_all id c waiters)

has-append : (id : CommandId) (xs ys : List Reply) → has id (xs ++ ys) ≡ (has id xs || has id ys)
unfolding get
has-append id [] ys = refl
has-append id ((j, c) ∷ xs) ys = ground (arith, has-append id xs ys)

-- The waiter is kept, or its command is answered.
abbrev pub IsRemembered : CommandId → List Reply → PeerSupervisor → Type 0
IsRemembered id replies s = (has id s.waiters || has id replies) ≡ true

pub fail_generation-IsRemembered :
    (s : PeerSupervisor) (generation : ℕ) (error : CoreNetworkError) (id : CommandId)
    → has id s.waiters ≡ true
    → IsRemembered id (fail_generation s generation error).0 (fail_generation s generation error).1
unfolding fail_generation get
fail_generation-IsRemembered s generation error id h =
    ground (arith, has-reply_all id (err error) s.waiters)

queue_intent-IsRemembered :
    (s : PeerSupervisor) (generation : ℕ) (is_new : Bool) (intent : PeerIntent)
    (around : Surroundings) (id : CommandId)
    → has id s.waiters ≡ true
    → IsRemembered id
        (queue_intent s generation is_new intent around).replies
        (queue_intent s generation is_new intent around).after
unfolding queue_intent
queue_intent-IsRemembered s generation is_new intent around id h =
    elim (Option-cases (mailbox_error around.answer)) [
      | inl taken ↦ rw (queue_intent, taken) (ground arith)
      | inr (reason, refused) ↦
          rw (queue_intent, refused) (fail_generation-IsRemembered s generation reason id h)
    ]

finish_begin-IsRemembered :
    (b : Begun) (j : CommandId) (r : PeerRequirement) (around : Surroundings) (id : CommandId)
    → has id b.begun.waiters ≡ true
    → IsRemembered id (finish_begin b j r around).replies (finish_begin b j r around).after
unfolding finish_begin
finish_begin-IsRemembered b j r around id h =
    let s : PeerSupervisor = add_waiter b.begun j r in
    let w : Waiter = record { generation = b.begun.generation; requirement = r } in
    let kept : has id s.waiters ≡ true = ground (arith, get-put j id w b.begun.waiters) in
    elim (Bool-cases b.queue_intent) [
      | inl queue ↦
          rw (finish_begin, queue)
            (queue_intent-IsRemembered s s.generation b.is_new (intent_for s s.generation r j)
              around id kept)
      | inr joined ↦ rw (finish_begin, joined) (ground arith)
    ]

begin_waiters :
    (s : PeerSupervisor) (class : CommunicationClass) → (begin s class).begun.waiters ≡ s.waiters
unfolding begin start_generation join_generation
begin_waiters s class = ground arith

admit_waiter-IsRemembered :
    (s : PeerSupervisor) (j : CommandId) (class : CommunicationClass) (around : Surroundings)
    (id : CommandId)
    → has id s.waiters ≡ true
    → IsRemembered id (admit_waiter s j class around).replies (admit_waiter s j class around).after
unfolding admit_waiter
admit_waiter-IsRemembered s j class around id h = elim (Bool-cases (has j s.waiters)) [
  | inl twice ↦ rw (admit_waiter, twice) (ground arith)
  | inr new ↦ elim (Bool-cases (leb max_peer_waiters (length s.waiters))) [
    | inl crowded ↦ rw (admit_waiter, new, crowded) (ground arith)
    | inr room ↦ elim (Bool-cases (is_served s class)) [
      | inl served ↦ rw (admit_waiter, new, room, served) (ground arith)
      | inr unserved ↦
          rw (admit_waiter, new, room, unserved)
            (finish_begin-IsRemembered (begin s class) j (from_class class) around id
              (rw (begin_waiters s class) h))
    ]
  ]
]

admit_unless-IsRemembered :
    (stopping : Bool) (s : PeerSupervisor) (j : CommandId) (class : CommunicationClass)
    (maintain : Bool) (around : Surroundings) (id : CommandId)
    → has id s.waiters ≡ true
    → IsRemembered id
        (admit_unless stopping s j class maintain around).replies
        (admit_unless stopping s j class maintain around).after
unfolding admit_unless
admit_unless-IsRemembered true s j class maintain around id h = ground arith
admit_unless-IsRemembered false s j class maintain around id h =
    admit_waiter-IsRemembered _ j class around id h

pub begin_connect-IsRemembered :
    (s : PeerSupervisor) (j : CommandId) (class : CommunicationClass) (maintain : Bool)
    (around : Surroundings) (id : CommandId)
    → has id s.waiters ≡ true
    → IsRemembered id
        (begin_connect_with_policy s j class maintain around).replies
        (begin_connect_with_policy s j class maintain around).after
unfolding begin_connect_with_policy
begin_connect-IsRemembered s j class maintain around id h =
    elim (Bool-cases (length j == 0 || ltb 128 (length j))) [
      | inl bad ↦ rw (begin_connect_with_policy, bad) (ground arith)
      | inr good ↦
          rw (begin_connect_with_policy, good)
            (admit_unless-IsRemembered s.stopping s j class maintain around id h)
    ]

retry-IsRemembered :
    (s : PeerSupervisor) (generation : ℕ) (ready : PeerRequirement) (delivered : ℕ)
    (replies : List Reply) (around : Surroundings) (id : CommandId)
    → (has id s.waiters || has id replies) ≡ true
    → IsRemembered id
        (retry s generation ready delivered replies around).replies
        (retry s generation ready delivered replies around).after
unfolding retry fail_generation get
retry-IsRemembered s generation ready delivered replies around id h = ground (
  arith,
  has-append id replies (reply_all (err mailbox_full) s.waiters),
  has-append id replies (reply_all (err supervisor_stopping) s.waiters),
  has-append id replies [],
  has-reply_all id (err mailbox_full) s.waiters,
  has-reply_all id (err supervisor_stopping) s.waiters,
)

pub split-has :
    (generation : ℕ) (ready : PeerRequirement) (state : PeerState)
    (waiters : List (CommandId × Waiter)) (id : CommandId) (w : Waiter)
    → Unique waiters
    → get id waiters ≡ some w
    → (get id (pending_waiters generation ready waiters)
        ≡ (if is_completed generation ready w then none else some w))
      × (get id (reply_all (ok state) (completed_waiters generation ready waiters))
          ≡ (if is_completed generation ready w then some (ok state) else none))
unfolding pending_waiters completed_waiters
split-has generation ready state waiters id w u found = (
  ground (arith, get-retain (λ j x. not (is_completed generation ready x)) id waiters u),
  ground (
    arith,
    get-retain (λ j x. is_completed generation ready x) id waiters u,
    has-reply_all id (ok state) (retain (λ j x. is_completed generation ready x) waiters),
  ),
)

complete_ok-IsRemembered :
    (s : PeerSupervisor) (generation : ℕ) (ready : PeerRequirement) (state : PeerState)
    (around : Surroundings) (id : CommandId) (w : Waiter)
    → Unique s.waiters
    → get id s.waiters ≡ some w
    → IsRemembered id
        (complete_ok s generation ready state around).replies
        (complete_ok s generation ready state around).after
unfolding complete_ok
complete_ok-IsRemembered s generation ready state around id w u found =
    let (kept, answered) = split-has generation ready state s.waiters id w u found in
    let pending = pending_waiters generation ready s.waiters in
    let replies = reply_all (ok state) (completed_waiters generation ready s.waiters) in
    let known : (has id pending || has id replies) ≡ true = ground arith in
    elim (Bool-cases (ltb 0 (length (waiters_of generation pending)))) [
      | inl more ↦
          rw (complete_ok, more)
            (retry-IsRemembered (record s { ready_requirement = some ready; waiters = pending })
              generation ready (length (completed_waiters generation ready s.waiters)) replies
              around id known)
      | inr none_left ↦ rw (complete_ok, none_left) known
    ]

complete_err-IsRemembered :
    (s : PeerSupervisor) (error : CoreNetworkError) (id : CommandId) (w : Waiter)
    → Unique s.waiters
    → get id s.waiters ≡ some w
    → w.generation ≡ s.generation
    → IsRemembered id
        (complete_err s s.generation error).replies
        (complete_err s s.generation error).after
unfolding complete_err waiters_of
complete_err-IsRemembered s error id w u found current = ground (
  arith,
  get-retain (λ j x. x.generation == s.generation) id s.waiters u,
  has-reply_all id (err error) (retain (λ j x. x.generation == s.generation) s.waiters),
)

pub complete_ready-IsRemembered :
    (s : PeerSupervisor) (generation : ℕ) (ready : PeerRequirement) (result : PeerCompletion)
    (around : Surroundings) (id : CommandId) (w : Waiter)
    → Unique s.waiters
    → get id s.waiters ≡ some w
    → w.generation ≡ s.generation
    → IsRemembered id
        (complete_ready s generation ready result around).replies
        (complete_ready s generation ready result around).after
unfolding complete_ready
complete_ready-IsRemembered s generation ready result around id w u found current =
    elim (Bool-cases (s.stopping || not (s.generation == generation))) [
      | inl stale ↦ rw (complete_ready, stale) (ground arith)
      | inr live ↦
          let same : generation ≡ s.generation = ground arith in
          rw (complete_ready, live) (answer same result)
    ]
  where
    answer :
        generation ≡ s.generation
        → (r : PeerCompletion)
        → let done : Outcome (Result CoreNetworkError ℕ) = elim r [
          | err error ↦ complete_err s generation error
          | ok state ↦ complete_ok s generation ready state around
        ] in
          IsRemembered id done.replies done.after
    answer same (ok state) = complete_ok-IsRemembered s generation ready state around id w u found
    answer same (err error) = rw same (complete_err-IsRemembered s error id w u found current)
