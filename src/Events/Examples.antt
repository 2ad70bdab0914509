-- ===== src/Events/Examples.antt =====
-- Lanes over a queue in memory, and the theorems on them at concrete events.
use ssh_mobile.Base.{
  ℕ, ◌≡◌, refl, List, [], ◌∷◌, ◌++◌, Option, none, some, ltb, if◌then◌else◌, length, arith,
}
use ssh_mobile.Events.Lanes.{
  result, bulk, NetworkEvent, Mailbox, IsFifo, EventLanes, new_lanes, channel_message,
  command_result_v2, send, send_result, send_reserving, send_reserved, admit_event, admit_reserved,
  reserve_bytes, received, drop_result, advance_schedule, try_recv_lane, end_burst, try_recv_rounds,
  try_recv,
}
use ssh_mobile.Events.History.{
  Act, sends, sends_result, resumes, drops, polls, run_lanes, Delivers, run_lanes_serves,
}
use ssh_mobile.Events.Bytes.{IsLanes}
use ssh_mobile.Events.Bytes.Runs.{run_lanes-IsLanes}

abbrev take_first : ℕ → List NetworkEvent → Option (NetworkEvent × (ℕ × List NetworkEvent))
take_first n [] = none
take_first n (e ∷ es) = some (e, (n, es))

abbrev memory : Mailbox
memory = record {
  Queue = ℕ × List NetworkEvent;
  new = λ n. (n, []);
  try_send = λ e q. if ltb (length q.1) q.0 then some (q.0, q.1 ++ (e ∷ [])) else none;
  try_recv = λ q. take_first q.0 q.1;
  contents = λ q. q.1;
  capacity = λ q. q.0;
}

take_first_empty : (n : ℕ) (es : List NetworkEvent) → take_first n es ≡ none → es ≡ []
take_first_empty n [] h = refl
take_first_empty n (e ∷ es) h = cc

take_first_first :
    (n k : ℕ) (es rest : List NetworkEvent) (e : NetworkEvent)
    → take_first n es ≡ some (e, (k, rest))
    → (es ≡ e ∷ rest) × (k ≡ n)
take_first_first n k [] rest e h = absurd (cc h)
take_first_first n k (f ∷ es) rest e h = ground arith

memory-IsFifo : IsFifo memory
memory-IsFifo = record {
  new_empty = λ n. refl;
  new_capacity = λ n. refl;
  send_full = λ e q h. ground arith;
  send_room = λ e q q' h. ground arith;
  send_last = λ e q q' h. ground arith;
  send_capacity = λ e q q' h. ground arith;
  recv_empty = λ q h. take_first_empty q.0 q.1 h;
  recv_first = λ q q' e h. (take_first_first q.0 q'.0 q.1 q'.1 e h).0;
  recv_capacity = λ q q' e h. (take_first_first q.0 q'.0 q.1 q'.1 e h).1;
}

abbrev message : NetworkEvent
message = record { payload = some channel_message; encoded_len = 100; content = [] }

abbrev outcome : NetworkEvent
outcome = record { payload = some command_result_v2; encoded_len = 40; content = [] }

abbrev poll_17 : List Act
poll_17 =
    polls ∷ polls ∷ polls ∷ polls ∷ polls ∷ polls ∷ polls ∷ polls ∷ polls ∷ polls ∷ polls ∷ polls
    ∷ polls ∷ polls ∷ polls ∷ polls ∷ polls ∷ []

abbrev waiting : EventLanes memory
waiting = (send memory (new_lanes memory) message).1

-- The result goes before the message.
result_first :
    (run_lanes memory waiting (sends_result outcome ∷ polls ∷ polls ∷ polls ∷ [])).0
    ≡ some (result, outcome) ∷ some (bulk, message) ∷ none ∷ []
unfolding run_lanes send send_result send_reserving send_reserved admit_event admit_reserved
    reserve_bytes received advance_schedule try_recv_lane end_burst try_recv_rounds try_recv
result_first = refl

-- A result that finds its channel full keeps its bytes.
abbrev full_lane : EventLanes memory
full_lane = record (new_lanes memory) {
  result_lane = record { queue = (1, outcome ∷ []); queued_bytes = 40 };
}

bytes_kept : (send_result memory full_lane outcome).1.result_lane.queued_bytes ≡ 80
unfolding send_result send_reserving send_reserved reserve_bytes
bytes_kept = refl

bytes_back :
    (drop_result memory (send_result memory full_lane outcome).1 0).result_lane.queued_bytes ≡ 40
unfolding send_result send_reserving send_reserved reserve_bytes drop_result
bytes_back = refl

run_lanes_serves_example :
    Delivers bulk message (run_lanes memory waiting (sends_result outcome ∷ poll_17)).0
unfolding send admit_event admit_reserved reserve_bytes
run_lanes_serves_example =
    run_lanes_serves memory waiting bulk message [] (sends_result outcome ∷ poll_17) memory-IsFifo
      refl (omega arith)

run_lanes-IsLanes_example :
    IsLanes memory
      (run_lanes memory
        (new_lanes memory)
        (sends message ∷ sends_result outcome ∷ resumes 0 ∷ drops 0 ∷ polls ∷ [])).1
run_lanes-IsLanes_example =
    run_lanes-IsLanes memory
      (sends message ∷ sends_result outcome ∷ resumes 0 ∷ drops 0 ∷ polls ∷ []) memory-IsFifo
