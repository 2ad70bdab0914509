-- ===== src/Connect/Completion.antt =====
-- Completions: the second part of
-- native/network_core/crates/network-core/src/connect/peer_supervisor/intents.rs.
use ssh_mobile.Base.{
  ℕ, Bool, true, false, ◌&&◌, ◌||◌, not, List, [], ◌++◌, Option, none, some, ltb, ◌==◌,
  if◌then◌else◌, length, get_elem?, Result, ok, err, str_eq,
}
use ssh_mobile.Base.Maps.{retain}
use ssh_mobile.Connect.Types.{
  CommandId, CoreNetworkError, stale_intent, PeerState, connecting, IntentGeneration,
  PeerRequirement, from_class, is_satisfied_by, reliable_message, PeerCompletion, Waiter,
  PeerSupervisor, Surroundings, Reply, Outcome,
}
use ssh_mobile.Connect.Intents.{
  outcome, requirement_or, reply_all, reset, fail_generation, mailbox_error, intent_for,
}

abbrev pub is_completed : IntentGeneration → PeerRequirement → Waiter → Bool
is_completed generation ready waiter =
    waiter.generation == generation && is_satisfied_by waiter.requirement ready

-- The waiters that the ready path serves, and the others.
unfoldable pub completed_waiters :
    IntentGeneration → PeerRequirement → List (CommandId × Waiter) → List (CommandId × Waiter)
completed_waiters generation ready = retain (λ id waiter. is_completed generation ready waiter)

unfoldable pub pending_waiters :
    IntentGeneration → PeerRequirement → List (CommandId × Waiter) → List (CommandId × Waiter)
pending_waiters generation ready = retain (λ id waiter. not (is_completed generation ready waiter))

-- `.filter(|(_, waiter)| waiter.generation == generation)`.
unfoldable pub waiters_of : IntentGeneration → List (CommandId × Waiter) → List (CommandId × Waiter)
waiters_of generation = retain (λ id waiter. waiter.generation == generation)

abbrev pub Complete : Type 0
Complete = Outcome (Result CoreNetworkError ℕ)

unfoldable pub complete_err : PeerSupervisor → IntentGeneration → CoreNetworkError → Complete
complete_err s generation error =
    let waiters = waiters_of generation s.waiters in
    outcome (ok (length waiters)) (reply_all (err error) waiters) (reset s)

-- A demand that the path does not serve tries again, if no intent waits already.
abbrev pub named : Option (CommandId × Waiter) → CommandId
named none = []
named (some (id, waiter)) = id

unfoldable pub retry :
    PeerSupervisor → IntentGeneration → PeerRequirement → ℕ → List Reply → Surroundings → Complete
retry s generation ready delivered replies around =
    let s' = record s { state = connecting; retry_scheduled = true } in
    let first = named (get_elem? s.waiters around.first_waiter) in
    if s.retry_scheduled
    then outcome (ok delivered) replies s'
    else elim (mailbox_error around.answer) [
      | none ↦ record {
        value = ok delivered;
        replies = replies;
        queued = some (intent_for s generation ready first);
        after = s';
      }
      | some reason ↦
          let (failed, s'') = fail_generation s' generation reason in
          outcome (err reason) (replies ++ failed) s''
    ]

unfoldable pub complete_ok :
    PeerSupervisor → IntentGeneration → PeerRequirement → PeerState → Surroundings → Complete
complete_ok s generation ready state around =
    let done = completed_waiters generation ready s.waiters in
    let pending = pending_waiters generation ready s.waiters in
    let replies = reply_all (ok state) done in
    let s' = record s { ready_requirement = some ready; waiters = pending } in
    if ltb 0 (length (waiters_of generation pending))
    then retry s' generation ready (length done) replies around
    else outcome (ok (length done)) replies
        (record s' { state = state; active_requirement = some ready; retry_scheduled = false })

unfoldable pub complete_ready :
    PeerSupervisor → IntentGeneration → PeerRequirement → PeerCompletion → Surroundings → Complete
complete_ready s generation ready result around =
    if s.stopping || not (s.generation == generation)
    then outcome (err stale_intent) [] s
    else elim result [
      | err error ↦ complete_err s generation error
      | ok state ↦ complete_ok s generation ready state around
    ]

unfoldable pub complete_generation :
    PeerSupervisor → IntentGeneration → PeerCompletion → Surroundings → Complete
complete_generation s generation result around =
    complete_ready s generation (requirement_or s.active_requirement (from_class reliable_message))
      result around
