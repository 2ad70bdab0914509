-- ===== src/Events/Lanes/Receive.antt =====
-- The receiving side: `EventReceiver` and its schedule.
use ssh_mobile.Base.{ℕ, zero, suc, Option, none, some, leb, if◌then◌else◌}
use ssh_mobile.Base.Words.{saturating_add}
use ssh_mobile.Events.Lanes.State.{
  RuntimeEventLane, lane_beq, next_lane, burst, NetworkEvent, Mailbox, EventLanes, event_lane,
  set_lane,
}
use ssh_mobile.Events.Lanes.Send.{fetch_sub}

module _ (m : Mailbox) where
  -- `EventReceiver::received` with `release`.
  unfoldable pub received : EventLanes m → RuntimeEventLane → NetworkEvent → m.Queue → EventLanes m
  received s lane event queue =
      let l = event_lane m lane s in
      let counted = record l {
        queue = queue;
        queued_bytes = fetch_sub m l.queued_bytes event.encoded_len;
      } in
      let before = if lane_beq s.scheduled_lane lane then s.scheduled_burst else 0 in
      record (set_lane m lane counted s) {
        scheduled_lane = lane;
        scheduled_burst = saturating_add before 1;
      }

  unfoldable pub advance_schedule : EventLanes m → EventLanes m
  advance_schedule s = record s { scheduled_lane = next_lane s.scheduled_lane; scheduled_burst = 0 }

  unfoldable pub try_recv_lane :
      EventLanes m → RuntimeEventLane → Option (RuntimeEventLane × NetworkEvent × EventLanes m)
  try_recv_lane s lane = elim (m.try_recv (event_lane m lane s).queue) [
    | none ↦ none
    | some (event, queue) ↦ some (lane, event, received s lane event queue)
  ]

  -- `if scheduled_burst >= scheduled_lane.burst() { advance_schedule() }`.
  unfoldable pub end_burst : EventLanes m → EventLanes m
  end_burst s = if leb (burst s.scheduled_lane) s.scheduled_burst then advance_schedule s else s

  -- `for _ in 0..n` in `try_recv`.
  unfoldable pub try_recv_rounds :
      ℕ → EventLanes m → Option (RuntimeEventLane × NetworkEvent) × EventLanes m
  try_recv_rounds zero s = (none, s)
  try_recv_rounds (suc n) s =
      let s' = end_burst s in
      let rest = try_recv_rounds n (advance_schedule s') in
      elim (try_recv_lane s' s'.scheduled_lane) [
        | none ↦ rest
        | some (lane, event, s'') ↦ (some (lane, event), s'')
      ]

  -- `EventReceiver::try_recv`: the event, the lane that it came from, and the state after.
  unfoldable pub try_recv : EventLanes m → Option (RuntimeEventLane × NetworkEvent) × EventLanes m
  try_recv s = try_recv_rounds 3 s
