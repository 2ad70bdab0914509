-- ===== src/Connect/Calls/Completed.antt =====
-- What a completion does to each waiter.
use ssh_mobile.Base.{
  ℕ, ◌<◌, ◌≡◌, refl, ap, ◌∙◌, false, ◌||◌, ◌&&◌, not, List, none, some, ltb, ◌==◌, if◌then◌else◌,
  length, ok, err, str_eq, arith, Bool-cases, inl, inr,
}
use ssh_mobile.Base.Maps.{get, get-retain}
use ssh_mobile.Connect.Types.{
  CommandId, PeerState, PeerRequirement, is_satisfied_by, CoreNetworkError, Waiter, PeerSupervisor,
  Surroundings, accepted, Reply,
}
use ssh_mobile.Connect.Intents.{reply_all}
use ssh_mobile.Connect.Completion.{
  completed_waiters, pending_waiters, waiters_of, complete_err, retry, complete_ok, complete_ready,
}
use ssh_mobile.Connect.Calls.Invariant.{IsPeer}
use ssh_mobile.Connect.Calls.Answers.{split-has, has-reply_all}

retry-accepted :
    (s : PeerSupervisor) (generation : ℕ) (ready : PeerRequirement) (delivered : ℕ)
    (replies : List Reply) (around : Surroundings)
    → around.answer ≡ accepted
    → ((retry s generation ready delivered replies around).replies ≡ replies)
      × ((retry s generation ready delivered replies around).after.waiters ≡ s.waiters)
unfolding retry
retry-accepted s generation ready delivered replies around open_mailbox =
    (ground arith, ground arith)

complete_ok_exact :
    (s : PeerSupervisor) (generation : ℕ) (ready : PeerRequirement) (state : PeerState)
    (around : Surroundings)
    → around.answer ≡ accepted
    → ((complete_ok s generation ready state around).replies
        ≡ reply_all (ok state) (completed_waiters generation ready s.waiters))
      × ((complete_ok s generation ready state around).after.waiters
          ≡ pending_waiters generation ready s.waiters)
unfolding complete_ok
complete_ok_exact s generation ready state around open_mailbox =
    let pending = pending_waiters generation ready s.waiters in
    elim (Bool-cases (ltb 0 (length (waiters_of generation pending)))) [
      | inl more ↦ rw more (
          retry-accepted (record s { ready_requirement = some ready; waiters = pending }) generation
            ready _ _ around open_mailbox)
      | inr none_left ↦ rw none_left (refl, refl)
    ]

-- A path that is ready for the current generation answers just the commands of that generation
-- whose demand its capabilities cover, with the state that was reached; every other command goes on
-- waiting. The mailbox takes the intent of a further attempt.
pub complete_ready_exact :
    (s : PeerSupervisor) (ready : PeerRequirement) (state : PeerState) (around : Surroundings)
    (id : CommandId) (w : Waiter)
    → IsPeer s
    → s.stopping ≡ false
    → around.answer ≡ accepted
    → get id s.waiters ≡ some w
    → (get id (complete_ready s s.generation ready (ok state) around).replies ≡ (
        if w.generation == s.generation && is_satisfied_by w.requirement ready
        then some (ok state)
        else none))
      × (get id (complete_ready s s.generation ready (ok state) around).after.waiters ≡ (
          if w.generation == s.generation && is_satisfied_by w.requirement ready
          then none
          else some w))
unfolding complete_ready
complete_ready_exact s ready state around id w v live open_mailbox found =
    let (kept, answered) =
      split-has s.generation ready state s.waiters id w v.waiting.unique found in
    let current : (s.stopping || not (s.generation == s.generation)) ≡ false = ground arith in
    let (replies, waiters) = complete_ok_exact s s.generation ready state around open_mailbox in
    rw current (ap (get id) replies ∙ answered, ap (get id) waiters ∙ kept)

-- While the mailbox takes intents, a command that still waits for an earlier generation is answered
-- by no completion of the current one: a success lets it wait on, and a failure forgets it without
-- an answer. The supervisor does not stop.
pub complete_ready_overtaken :
    (s : PeerSupervisor) (ready : PeerRequirement) (state : PeerState) (error : CoreNetworkError)
    (around : Surroundings) (id : CommandId) (w : Waiter)
    → IsPeer s
    → s.stopping ≡ false
    → around.answer ≡ accepted
    → get id s.waiters ≡ some w
    → w.generation < s.generation
    → ((get id (complete_ready s s.generation ready (ok state) around).replies ≡ none)
        × (get id (complete_ready s s.generation ready (ok state) around).after.waiters ≡ some w))
      × ((get id (complete_ready s s.generation ready (err error) around).replies ≡ none)
          × (get id (complete_ready s s.generation ready (err error) around).after.waiters ≡ none))
unfolding complete_ready complete_err waiters_of get
complete_ready_overtaken s ready state error around id w v live open_mailbox found older =
    let other : (w.generation == s.generation) ≡ false = ground arith in
    let current : (s.stopping || not (s.generation == s.generation)) ≡ false = ground arith in
    let (replied, waits) =
      complete_ready_exact s ready state around id w v live open_mailbox found in
    let forgotten : get id (reply_all (err error) (waiters_of s.generation s.waiters)) ≡ none =
      ground (
        arith,
        get-retain (λ j x. x.generation == s.generation) id s.waiters v.waiting.unique,
        has-reply_all id (err error) (waiters_of s.generation s.waiters),
      ) in
    ((rw other at replied, rw other at waits), rw current (forgotten, refl))
