-- ===== src/Events/Lanes/Send.antt =====
-- The sending side: `QueuedByteReservation` and `EventSender`.
use ssh_mobile.Base.{
  ℕ, ◌+◌, ◌-◌, ◌%◌, Bool, true, false, ◌||◌, [], ◌∷◌, ◌++◌, Option, none, some, ltb, if◌then◌else◌,
  get_elem?,
}
use ssh_mobile.Base.Words.{u64_mod, saturating_add}
use ssh_mobile.Events.Lanes.State.{
  result, lane_beq, max_bytes_of, max_event_bytes, max_result_event_queue_bytes, EventSendError,
  too_large, wrong_lane, NetworkEvent, classify, Mailbox, EventLane, EventLanes, event_lane,
  set_lane, remove_at,
}

module _ (m : Mailbox) where
  -- `QueuedByteReservation::try_new`, the exchange of which nobody disturbs.
  unfoldable pub reserve_bytes : EventLane m → ℕ → ℕ → Option (EventLane m)
  reserve_bytes l bytes limit =
      let next = saturating_add l.queued_bytes bytes in
      if ltb limit next then none else some (record l { queued_bytes = next })

  -- `fetch_sub`, which wraps.
  abbrev pub fetch_sub : ℕ → ℕ → ℕ
  fetch_sub counter bytes = (counter + u64_mod - bytes) % u64_mod

  -- The reservation, dropped or committed.
  pub data Admission : Type 0 where
    admitted : EventLane m → Admission
    no_bytes : Admission
    -- The channel is full; the reservation is given back.
    no_room : EventLane m → Admission

  unfoldable pub admit_reserved : EventLane m → NetworkEvent → Admission
  admit_reserved l event = elim (m.try_send event l.queue) [
    | none ↦ no_room (record l { queued_bytes = fetch_sub l.queued_bytes event.encoded_len })
    | some queue ↦ admitted (record l { queue = queue })
  ]

  unfoldable pub admit_event : EventLane m → NetworkEvent → ℕ → Admission
  admit_event l event limit = elim (reserve_bytes l event.encoded_len limit) [
    | none ↦ no_bytes
    | some reserved ↦ admit_reserved reserved event
  ]

  abbrev pub lane_after : EventLane m → Admission → EventLane m
  lane_after l (admitted l') = l'
  lane_after l no_bytes = l
  lane_after l (no_room l') = l'

  abbrev pub is_admitted : Admission → Bool
  is_admitted (admitted l) = true
  is_admitted no_bytes = false
  is_admitted (no_room l) = false

  -- `EventSender::send`: whether the event was taken.
  unfoldable pub send : EventLanes m → NetworkEvent → Bool × EventLanes m
  send s event =
      let lane = classify event in
      if ltb max_event_bytes event.encoded_len || lane_beq lane result
      then (false, s)
      else (let outcome = admit_event (event_lane m lane s) event (max_bytes_of lane) in
          (is_admitted outcome, set_lane m lane (lane_after (event_lane m lane s) outcome) s))

  pub data SendStep : Type 0 where
    sent waits_for_bytes waits_for_room : SendStep
    refused : EventSendError → SendStep

  -- `result_sender.send(event).await` with the bytes reserved: the reservation is committed, or
  -- kept while the task waits.
  unfoldable pub send_reserved : EventLanes m → NetworkEvent → EventLane m → SendStep × EventLanes m
  send_reserved s event reserved = elim (m.try_send event reserved.queue) [
    | none ↦
        (waits_for_room, record s { result_lane = reserved; waiting = s.waiting ++ (event ∷ []) })
    | some queue ↦ (sent, record s { result_lane = record reserved { queue = queue } })
  ]

  unfoldable pub send_reserving : EventLanes m → NetworkEvent → SendStep × EventLanes m
  send_reserving s event =
      elim (reserve_bytes s.result_lane event.encoded_len max_result_event_queue_bytes) [
        | none ↦ (waits_for_bytes, s)
        | some reserved ↦ send_reserved s event reserved
      ]

  -- `EventSender::send_result` up to its first wait. A task that waits for bytes tries again from
  -- the start when it is woken.
  unfoldable pub send_result : EventLanes m → NetworkEvent → SendStep × EventLanes m
  send_result s event =
      if lane_beq (classify event) result
      then (if ltb max_event_bytes event.encoded_len
          then (refused too_large, s)
          else send_reserving s event)
      else (refused wrong_lane, s)

  -- A task that waits for room is woken: the event goes to the channel, if there is room.
  unfoldable pub resume_result : EventLanes m → ℕ → EventLanes m
  resume_result s n = elim (get_elem? s.waiting n) [
    | none ↦ s
    | some event ↦ elim (m.try_send event s.result_lane.queue) [
      | none ↦ s
      | some queue ↦ record s {
        result_lane = record s.result_lane { queue = queue };
        waiting = remove_at n s.waiting;
      }
    ]
  ]

  -- A task that waits for room is dropped: `Drop` of the reservation gives the bytes back.
  unfoldable pub drop_result : EventLanes m → ℕ → EventLanes m
  drop_result s n = elim (get_elem? s.waiting n) [
    | none ↦ s
    | some event ↦ record s {
      result_lane = record s.result_lane {
        queued_bytes = fetch_sub s.result_lane.queued_bytes event.encoded_len;
      };
      waiting = remove_at n s.waiting;
    }
  ]
