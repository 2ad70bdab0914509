-- ===== src/Events/Lanes/State.antt =====
-- The lanes, their limits and their state; the channels are a parameter, with what their
-- documentation says of `try_send` and `try_recv`.
use ssh_mobile.Base.{
  ℕ, zero, suc, ◌≤◌, ◌<◌, ◌≡◌, Bool, true, false, List, [], ◌∷◌, ◌++◌, Option, none, some, length,
}

abbrev pub result_event_mailbox_capacity : ℕ
result_event_mailbox_capacity = 256

abbrev pub control_event_mailbox_capacity : ℕ
control_event_mailbox_capacity = 256

abbrev pub data_event_mailbox_capacity : ℕ
data_event_mailbox_capacity = 128

abbrev pub max_result_event_queue_bytes : ℕ
max_result_event_queue_bytes = 4194304

abbrev pub max_control_event_queue_bytes : ℕ
max_control_event_queue_bytes = 4194304

abbrev pub max_data_event_queue_bytes : ℕ
max_data_event_queue_bytes = 8388608

abbrev pub max_event_bytes : ℕ
max_event_bytes = 1048576

abbrev pub result_event_burst : ℕ
result_event_burst = 8

abbrev pub control_event_burst : ℕ
control_event_burst = 8

abbrev pub data_event_burst : ℕ
data_event_burst = 1

pub data RuntimeEventLane : Type 0 where
  result control bulk : RuntimeEventLane

abbrev pub lane_beq : RuntimeEventLane → RuntimeEventLane → Bool
lane_beq result result = true
lane_beq control control = true
lane_beq bulk bulk = true
lane_beq a b = false

abbrev pub next_lane : RuntimeEventLane → RuntimeEventLane
next_lane result = control
next_lane control = bulk
next_lane bulk = result

abbrev pub burst : RuntimeEventLane → ℕ
burst result = result_event_burst
burst control = control_event_burst
burst bulk = data_event_burst

abbrev pub capacity_of : RuntimeEventLane → ℕ
capacity_of result = result_event_mailbox_capacity
capacity_of control = control_event_mailbox_capacity
capacity_of bulk = data_event_mailbox_capacity

abbrev pub max_bytes_of : RuntimeEventLane → ℕ
max_bytes_of result = max_result_event_queue_bytes
max_bytes_of control = max_control_event_queue_bytes
max_bytes_of bulk = max_data_event_queue_bytes

pub data EventSendError : Type 0 where
  closed too_large wrong_lane : EventSendError

-- The payloads of the generated `NetworkEvent` that the lanes tell apart.
pub data Payload : Type 0 where
  command_result_v2 transfer_progress peer_transfer_progress channel_message : Payload
  ssh_stream_data_received other_payload : Payload

pub record NetworkEvent : Type 0 where
  pub payload : Option Payload
  pub encoded_len : ℕ
  pub content : List ℕ

abbrev pub classify_payload : Option Payload → RuntimeEventLane
classify_payload none = control
classify_payload (some command_result_v2) = result
classify_payload (some transfer_progress) = bulk
classify_payload (some peer_transfer_progress) = bulk
classify_payload (some channel_message) = bulk
classify_payload (some ssh_stream_data_received) = bulk
classify_payload (some other_payload) = control

abbrev pub classify : NetworkEvent → RuntimeEventLane
classify event = classify_payload event.payload

-- A bounded channel between live senders and a live receiver.
pub record Mailbox : Type 1 where
  pub Queue : Type 0
  pub new : ℕ → Queue
  pub try_send : NetworkEvent → Queue → Option Queue
  pub try_recv : Queue → Option (NetworkEvent × Queue)
  -- What waits in it, and how much it takes.
  pub contents : Queue → List NetworkEvent
  pub capacity : Queue → ℕ

-- A channel is first in, first out; it refuses an event only when it is full, and hands none out
-- only when it is empty.
pub record IsFifo (m : Mailbox) : Type 0 where
  pub new_empty : (n : ℕ) → m.contents (m.new n) ≡ []
  pub new_capacity : (n : ℕ) → m.capacity (m.new n) ≡ n
  pub send_full :
      (e : NetworkEvent) (q : m.Queue)
      → m.try_send e q ≡ none
      → m.capacity q ≤ length (m.contents q)
  pub send_room :
      (e : NetworkEvent) (q q' : m.Queue)
      → m.try_send e q ≡ some q'
      → length (m.contents q) < m.capacity q
  pub send_last :
      (e : NetworkEvent) (q q' : m.Queue)
      → m.try_send e q ≡ some q'
      → m.contents q' ≡ m.contents q ++ (e ∷ [])
  pub send_capacity :
      (e : NetworkEvent) (q q' : m.Queue) → m.try_send e q ≡ some q' → m.capacity q' ≡ m.capacity q
  pub recv_empty : (q : m.Queue) → m.try_recv q ≡ none → m.contents q ≡ []
  pub recv_first :
      (q q' : m.Queue) (e : NetworkEvent)
      → m.try_recv q ≡ some (e, q')
      → m.contents q ≡ e ∷ m.contents q'
  pub recv_capacity :
      (q q' : m.Queue) (e : NetworkEvent)
      → m.try_recv q ≡ some (e, q')
      → m.capacity q' ≡ m.capacity q

pub record EventLane (m : Mailbox) : Type 0 where
  pub queue : m.Queue
  pub queued_bytes : ℕ

pub record EventLanes (m : Mailbox) : Type 0 where
  pub result_lane : EventLane m
  pub control_lane : EventLane m
  pub data_lane : EventLane m
  -- The results whose tasks hold a reservation of bytes and wait for room in the channel.
  pub waiting : List NetworkEvent
  pub scheduled_lane : RuntimeEventLane
  pub scheduled_burst : ℕ

-- A vector without its entry at an index.
abbrev pub remove_at : ℕ → List NetworkEvent → List NetworkEvent
remove_at n [] = []
remove_at zero (e ∷ es) = es
remove_at (suc n) (e ∷ es) = e ∷ remove_at n es

module _ (m : Mailbox) where
  abbrev pub new_lane : RuntimeEventLane → EventLane m
  new_lane lane = record { queue = m.new (capacity_of lane); queued_bytes = 0 }

  -- `BoundedEventLanes::channel`.
  abbrev pub new_lanes : EventLanes m
  new_lanes = record {
    result_lane = new_lane result;
    control_lane = new_lane control;
    data_lane = new_lane bulk;
    waiting = [];
    scheduled_lane = result;
    scheduled_burst = 0;
  }

  abbrev pub event_lane : RuntimeEventLane → EventLanes m → EventLane m
  event_lane result s = s.result_lane
  event_lane control s = s.control_lane
  event_lane bulk s = s.data_lane

  abbrev pub set_lane : RuntimeEventLane → EventLane m → EventLanes m → EventLanes m
  set_lane result l s = record s { result_lane = l }
  set_lane control l s = record s { control_lane = l }
  set_lane bulk l s = record s { data_lane = l }
