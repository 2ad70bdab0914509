-- ===== src/Connect/Calls/Examples.antt =====
-- Runs of a supervisor, and the theorems on them at concrete calls.
use ssh_mobile.Base.{
  ◌≡◌, refl, true, false, ◌&&◌, List, [], ◌∷◌, none, some, ◌==◌, if◌then◌else◌, ok, err, arith,
  str_eq,
}
use ssh_mobile.Base.Maps.{get, put, retain}
use ssh_mobile.Connect.Types.{
  CommandId, reliable_message, unreliable_datagram, is_satisfied_by, from_class,
  default_communication_class, Waiter, PeerRequirement, PeerSupervisor, new_supervisor,
  Surroundings, accepted, online, cancelled, stale_intent, from_capability_mask, PeerIntent,
}
use ssh_mobile.Connect.Intents.{
  begin_connect_with_policy, admit_unless, admit_waiter, is_served, begin, start_generation,
  finish_begin, queue_intent, outcome, reply_all, is_current,
}
use ssh_mobile.Connect.Completion.{
  complete_ready, complete_ok, completed_waiters, pending_waiters, waiters_of,
}
use ssh_mobile.Connect.Lifecycle.{
  admit_inbound_with_capabilities, invalidate_generation, cancel_connection_task,
  mark_child_started, take_connection_task,
}
use ssh_mobile.Connect.Attempts.{
  start_attempt, take_intent, start_taken, start_child, spawn_attempt, finish_attempt, finish_taken,
}
use ssh_mobile.Connect.Calls.{
  PeerCall, begins, admits, disconnects, starts, finishes, call_peer, call_peer_each,
}
use ssh_mobile.Connect.Calls.Invariant.{IsPeer}
use ssh_mobile.Connect.Calls.Runs.{call_peer_each-IsPeer}
use ssh_mobile.Connect.Calls.Answers.{IsRemembered}
use ssh_mobile.Connect.Calls.Remembered.{call_peer_answers}
use ssh_mobile.Connect.Calls.Completed.{complete_ready_exact, complete_ready_overtaken}
use ssh_mobile.Connect.Calls.Late.{complete_ready_late}

abbrev quiet : Surroundings
quiet = record { answer = accepted; first_waiter = 0 }

abbrev call_a : CommandId
call_a = 97 ∷ []

abbrev call_b : CommandId
call_b = 98 ∷ []

abbrev waiter_a : Waiter
unfolding from_class default_communication_class
waiter_a = record { generation = 1; requirement = from_class reliable_message }

abbrev asked : List PeerCall
asked = begins call_a reliable_message true quiet ∷ []

-- A peer connects to us while we are connecting, and then a datagram is wanted.
abbrev overtaken : List PeerCall
overtaken =
    begins call_a reliable_message true quiet
    ∷ admits true 3
    ∷ begins call_b unreliable_datagram true quiet
    ∷ []

abbrev intent : PeerIntent
intent = record {
  generation = 1;
  class = reliable_message;
  required_capabilities = 1;
  command_id = call_a;
}

-- The attempt of a command succeeds, and the command is told.
connected :
    (call_peer
      (call_peer_each new_supervisor
        (begins call_a reliable_message true quiet ∷ starts intent true quiet ∷ []))
      (finishes 1 1 (ok tt) quiet)).0
    ≡ (call_a, ok online) ∷ []
unfolding call_peer call_peer_each begin_connect_with_policy admit_unless admit_waiter is_served
    begin start_generation finish_begin queue_intent get put retain start_attempt take_intent
    start_taken cancel_connection_task mark_child_started start_child spawn_attempt finish_attempt
    take_connection_task finish_taken complete_ready complete_ok completed_waiters pending_waiters
    waiters_of reply_all is_satisfied_by from_class default_communication_class is_current
connected = refl

call_peer_each-IsPeer_example : IsPeer (call_peer_each new_supervisor overtaken)
call_peer_each-IsPeer_example = call_peer_each-IsPeer overtaken

call_peer_answers_example :
    IsRemembered call_a
      (call_peer (call_peer_each new_supervisor asked) disconnects).0
      (call_peer (call_peer_each new_supervisor asked) disconnects).1
unfolding call_peer call_peer_each begin_connect_with_policy admit_unless admit_waiter is_served
    begin start_generation finish_begin queue_intent get put from_class default_communication_class
call_peer_answers_example = call_peer_answers asked disconnects call_a waiter_a refl refl

abbrev stream : PeerRequirement
stream = record { message = true; stream = true; datagram = false }

complete_ready_exact_example :
    (get call_a
        (complete_ready
          (call_peer_each new_supervisor asked)
          (call_peer_each new_supervisor asked).generation
          stream
          (ok online)
          quiet).replies
      ≡ (if 1 == (call_peer_each new_supervisor asked).generation
            && is_satisfied_by waiter_a.requirement stream
          then some (ok online)
          else none))
    × (get call_a
          (complete_ready
            (call_peer_each new_supervisor asked)
            (call_peer_each new_supervisor asked).generation
            stream
            (ok online)
            quiet).after.waiters
        ≡ (if 1 == (call_peer_each new_supervisor asked).generation
              && is_satisfied_by waiter_a.requirement stream
            then none
            else some waiter_a))
unfolding call_peer call_peer_each begin_connect_with_policy admit_unless admit_waiter is_served
    begin start_generation finish_begin queue_intent get put from_class default_communication_class
complete_ready_exact_example =
    complete_ready_exact (call_peer_each new_supervisor asked) stream online quiet call_a waiter_a
      (call_peer_each-IsPeer asked) refl refl refl

abbrev after_overtaken : PeerSupervisor
after_overtaken = call_peer_each new_supervisor overtaken

complete_ready_overtaken_example :
    ((get call_a
          (complete_ready after_overtaken after_overtaken.generation stream
            (ok online)
            quiet).replies
        ≡ none)
      × (get call_a
            (complete_ready after_overtaken after_overtaken.generation stream
              (ok online)
              quiet).after.waiters
          ≡ some waiter_a))
    × ((get call_a
            (complete_ready after_overtaken after_overtaken.generation stream
              (err cancelled)
              quiet).replies
          ≡ none)
        × (get call_a
              (complete_ready after_overtaken after_overtaken.generation stream
                (err cancelled)
                quiet).after.waiters
            ≡ none))
unfolding call_peer call_peer_each begin_connect_with_policy admit_unless admit_waiter is_served
    begin start_generation finish_begin queue_intent get put from_class default_communication_class
    admit_inbound_with_capabilities from_capability_mask is_satisfied_by
complete_ready_overtaken_example =
    complete_ready_overtaken after_overtaken stream online cancelled quiet call_a waiter_a
      (call_peer_each-IsPeer overtaken) refl refl refl (omega arith)

complete_ready_late_example :
    complete_ready
      (call_peer_each
        (invalidate_generation (call_peer_each new_supervisor asked) false true cancelled).after
        asked)
      (call_peer_each new_supervisor asked).generation
      stream
      (ok online)
      quiet
    ≡ outcome (err stale_intent) [] (
        call_peer_each
          (invalidate_generation (call_peer_each new_supervisor asked) false true cancelled).after
          asked)
unfolding call_peer call_peer_each begin_connect_with_policy admit_unless admit_waiter is_served
    begin start_generation finish_begin queue_intent get put from_class default_communication_class
complete_ready_late_example =
    complete_ready_late (call_peer_each new_supervisor asked) true cancelled asked stream
      (ok online) quiet (call_peer_each-IsPeer asked) refl (omega arith)
