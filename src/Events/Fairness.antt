-- ===== src/Events/Fairness.antt =====
-- No lane starves.
use ssh_mobile.Base.{
  ℕ, zero, suc, ◌+◌, ◌-◌, ◌≤◌, ◌<◌, ◌≡◌, refl, sym, ap, ◌∙◌, ◌⊎◌, inl, inr, true, false, List, [],
  ◌∷◌, Option, none, some, ltb, leb, if◌then◌else◌, arith, Bool-cases, Option-cases,
}
use mathlib.Core.Path.{subst}
use ssh_mobile.Events.Lanes.{
  RuntimeEventLane, result, control, bulk, lane_beq, next_lane, burst, NetworkEvent, Mailbox,
  IsFifo, EventLanes, event_lane, received, advance_schedule, try_recv_lane, end_burst,
  try_recv_rounds, try_recv,
}

-- How many events of other lanes come before a lane's turn.
abbrev pub wait_of : RuntimeEventLane → RuntimeEventLane → ℕ → ℕ
wait_of result result b = if ltb b 8 then 0 else 9
wait_of result control b = (8 - b) + 1
wait_of result bulk b = 1 - b
wait_of control result b = 8 - b
wait_of control control b = if ltb b 8 then 0 else 9
wait_of control bulk b = (1 - b) + 8
wait_of bulk result b = (8 - b) + 8
wait_of bulk control b = 8 - b
wait_of bulk bulk b = if ltb b 1 then 0 else 16

-- How many lanes come before a lane.
abbrev steps_to : RuntimeEventLane → RuntimeEventLane → ℕ
steps_to result result = 0
steps_to result control = 2
steps_to result bulk = 1
steps_to control result = 1
steps_to control control = 0
steps_to control bulk = 2
steps_to bulk result = 2
steps_to bulk control = 1
steps_to bulk bulk = 0

module _ (m : Mailbox) where
  abbrev pub contents_of : RuntimeEventLane → EventLanes m → List NetworkEvent
  contents_of lane s = m.contents (event_lane m lane s).queue

  abbrev pub wait : RuntimeEventLane → EventLanes m → ℕ
  wait lane s = wait_of lane s.scheduled_lane s.scheduled_burst

  -- A poll hands out the first event of lane `t`, or brings its turn nearer.
  abbrev pub Serves :
      RuntimeEventLane
      → EventLanes m
      → Option (RuntimeEventLane × NetworkEvent) × EventLanes m
      → Type 0
  Serves t s (none, s') = ⊥
  Serves t s (some (lane, event), s') =
      ((lane ≡ t) × (contents_of t s ≡ event ∷ contents_of t s'))
      ⊎ ((wait t s' < wait t s) × (contents_of t s' ≡ contents_of t s))

module _ (m : Mailbox) (law : IsFifo m) where
  received-Serves :
      (t lane : RuntimeEventLane) (s : EventLanes m) (event : NetworkEvent) (queue : m.Queue)
      → s.scheduled_lane ≡ lane
      → s.scheduled_burst < burst lane
      → m.contents (event_lane m lane s).queue ≡ event ∷ m.contents queue
      → Serves m t s (some (lane, event), received m s lane event queue)
  unfolding received
  received-Serves result result s event queue at short first = inl (refl, first)
  received-Serves result control s event queue at short first = inr (ground arith, refl)
  received-Serves result bulk s event queue at short first = inr (ground arith, refl)
  received-Serves control result s event queue at short first = inr (ground arith, refl)
  received-Serves control control s event queue at short first = inl (refl, first)
  received-Serves control bulk s event queue at short first = inr (ground arith, refl)
  received-Serves bulk result s event queue at short first = inr (ground arith, refl)
  received-Serves bulk control s event queue at short first = inr (ground arith, refl)
  received-Serves bulk bulk s event queue at short first = inl (refl, first)

  Serves-mono :
      (t : RuntimeEventLane) (s s' : EventLanes m)
      (r : Option (RuntimeEventLane × NetworkEvent) × EventLanes m)
      → wait m t s' ≤ wait m t s
      → contents_of m t s' ≡ contents_of m t s
      → Serves m t s' r
      → Serves m t s r
  Serves-mono t s s' (none, s'') w c h = h
  Serves-mono t s s' (some (lane, event), s'') w c (inl (here, first)) = inl (here, sym c ∙ first)
  Serves-mono t s s' (some (lane, event), s'') w c (inr (nearer, same)) =
      inr (omega arith, same ∙ c)

  pub lane_of_schedule :
      (t : RuntimeEventLane) (s : EventLanes m) (lane : RuntimeEventLane) (b : ℕ)
      → event_lane m t (record s { scheduled_lane = lane; scheduled_burst = b }) ≡ event_lane m t s
  lane_of_schedule result s lane b = refl
  lane_of_schedule control s lane b = refl
  lane_of_schedule bulk s lane b = refl

  pub event_lane-end_burst :
      (t : RuntimeEventLane) (s : EventLanes m) → event_lane m t (end_burst m s) ≡ event_lane m t s
  unfolding end_burst advance_schedule
  event_lane-end_burst t s = elim (Bool-cases (leb (burst s.scheduled_lane) s.scheduled_burst)) [
    | inl over ↦ rw over (lane_of_schedule t s _ _)
    | inr under ↦ rw under
  ]

  burst_pos : (lane : RuntimeEventLane) → 0 < burst lane
  burst_pos result = omega arith
  burst_pos control = omega arith
  burst_pos bulk = omega arith

  -- A lane whose burst is over waits as if the next lane began.
  wait_over :
      (t lane : RuntimeEventLane) (b : ℕ)
      → burst lane ≤ b
      → wait_of t (next_lane lane) 0 ≡ wait_of t lane b
  wait_over result result b h = ground arith
  wait_over result control b h = ground arith
  wait_over result bulk b h = ground arith
  wait_over control result b h = ground arith
  wait_over control control b h = ground arith
  wait_over control bulk b h = ground arith
  wait_over bulk result b h = ground arith
  wait_over bulk control b h = ground arith
  wait_over bulk bulk b h = ground arith

  short-end_burst :
      (s : EventLanes m) → (end_burst m s).scheduled_burst < burst (end_burst m s).scheduled_lane
  unfolding end_burst advance_schedule
  short-end_burst s = elim (Bool-cases (leb (burst s.scheduled_lane) s.scheduled_burst)) [
    | inl over ↦ rw over (burst_pos (next_lane s.scheduled_lane))
    | inr under ↦ rw under (ground arith)
  ]

  wait-end_burst : (t : RuntimeEventLane) (s : EventLanes m) → wait m t (end_burst m s) ≡ wait m t s
  unfolding end_burst advance_schedule
  wait-end_burst t s = elim (Bool-cases (leb (burst s.scheduled_lane) s.scheduled_burst)) [
    | inl over ↦ rw over (wait_over t s.scheduled_lane s.scheduled_burst (ground arith))
    | inr under ↦ rw under
  ]

  -- Passing over an empty lane.
  passes :
      (t lane : RuntimeEventLane) (b : ℕ)
      → lane_beq t lane ≡ false
      → (wait_of t (next_lane lane) 0 ≤ wait_of t lane b)
        × (suc (steps_to t (next_lane lane)) ≡ steps_to t lane)
  passes result result b h = absurd (cc h)
  passes result control b h = omega arith
  passes result bulk b h = omega arith
  passes control result b h = omega arith
  passes control control b h = absurd (cc h)
  passes control bulk b h = omega arith
  passes bulk result b h = omega arith
  passes bulk control b h = omega arith
  passes bulk bulk b h = absurd (cc h)

  pub lane_beq_eq : (t lane : RuntimeEventLane) → lane_beq t lane ≡ true → t ≡ lane
  lane_beq_eq result result h = refl
  lane_beq_eq result control h = cc
  lane_beq_eq result bulk h = cc
  lane_beq_eq control result h = cc
  lane_beq_eq control control h = refl
  lane_beq_eq control bulk h = cc
  lane_beq_eq bulk result h = cc
  lane_beq_eq bulk control h = cc
  lane_beq_eq bulk bulk h = refl

  end_burst_fresh : (s : EventLanes m) → end_burst m (advance_schedule m s) ≡ advance_schedule m s
  unfolding end_burst advance_schedule
  end_burst_fresh s =
      let fresh : leb (burst (next_lane s.scheduled_lane)) 0 ≡ false =
        (let p = burst_pos (next_lane s.scheduled_lane) in ground arith) in
      rw fresh

  pub event_lane-advance_schedule :
      (t : RuntimeEventLane) (s : EventLanes m)
      → event_lane m t (advance_schedule m s) ≡ event_lane m t s
  unfolding advance_schedule
  event_lane-advance_schedule t s = lane_of_schedule t s _ _

  advance_wait :
      (t : RuntimeEventLane) (s : EventLanes m) (w : ℕ)
      → wait_of t (next_lane s.scheduled_lane) 0 ≤ w
      → wait m t (advance_schedule m s) ≤ w
  unfolding advance_schedule
  advance_wait t s w h = h

  steps_left :
      (t : RuntimeEventLane) (s : EventLanes m) (n : ℕ)
      → suc (steps_to t (next_lane s.scheduled_lane)) ≡ steps_to t s.scheduled_lane
      → steps_to t s.scheduled_lane < suc n
      → steps_to t (advance_schedule m s).scheduled_lane < n
  unfolding advance_schedule
  steps_left t s n e h = omega arith

  try_recv_rounds-Serves :
      (n : ℕ) (t : RuntimeEventLane) (s : EventLanes m) (event : NetworkEvent)
      (rest : List NetworkEvent)
      → contents_of m t s ≡ event ∷ rest
      → steps_to t (end_burst m s).scheduled_lane < n
      → Serves m t s (try_recv_rounds m n s)
  unfolding try_recv_rounds try_recv_lane
  try_recv_rounds-Serves zero t s event rest head near = absurd (omega arith)
  try_recv_rounds-Serves (suc n) t s event rest head near =
      let s' : EventLanes m = end_burst m s in
      let lane : RuntimeEventLane = s'.scheduled_lane in
      let kept : contents_of m t s' ≡ contents_of m t s =
        ap (λ l. m.contents l.queue) (event_lane-end_burst t s) in
      elim (Option-cases (m.try_recv (event_lane m lane s').queue)) [
        | inr ((got, queue), found) ↦
            let step : try_recv_rounds m (suc n) s
                ≡ (some (lane, got), received m s' lane got queue) =
              rw (try_recv_rounds, found) in
            rw step (
              Serves-mono t s s' (some (lane, got), received m s' lane got queue)
                (let w = wait-end_burst t s in omega arith) kept
                (received-Serves t lane s' got queue refl (short-end_burst s)
                  (law.recv_first _ queue got found)))
        | inl empty ↦ elim (Bool-cases (lane_beq t lane)) [
          | inl here ↦
              let gone : contents_of m t s' ≡ [] =
                subst (λ l. contents_of m l s' ≡ []) (sym (lane_beq_eq t lane here))
                  (law.recv_empty _ empty) in
              absurd (cc (gone, kept, head))
          | inr away ↦
              let next : EventLanes m = advance_schedule m s' in
              let step : try_recv_rounds m (suc n) s ≡ try_recv_rounds m n next =
                rw (try_recv_rounds, empty) in
              let (sooner, closer) = passes t lane s'.scheduled_burst away in
              let turn : wait m t next ≤ wait m t s =
                advance_wait t s' (wait m t s) (rw (sym (wait-end_burst t s)) sooner) in
              let same : contents_of m t next ≡ contents_of m t s =
                ap (λ l. m.contents l.queue) (event_lane-advance_schedule t s') ∙ kept in
              rw step (
                Serves-mono t s next (try_recv_rounds m n next) turn same (
                  try_recv_rounds-Serves n t next event rest (same ∙ head)
                    (rw (end_burst_fresh s') (steps_left t s' n closer near))))
        ]
      ]

  steps_bound : (t lane : RuntimeEventLane) → steps_to t lane < 3
  steps_bound result result = omega arith
  steps_bound result control = omega arith
  steps_bound result bulk = omega arith
  steps_bound control result = omega arith
  steps_bound control control = omega arith
  steps_bound control bulk = omega arith
  steps_bound bulk result = omega arith
  steps_bound bulk control = omega arith
  steps_bound bulk bulk = omega arith

  pub try_recv-Serves :
      (t : RuntimeEventLane) (s : EventLanes m) (event : NetworkEvent) (rest : List NetworkEvent)
      → contents_of m t s ≡ event ∷ rest
      → Serves m t s (try_recv m s)
  unfolding try_recv
  try_recv-Serves t s event rest head =
      try_recv_rounds-Serves 3 t s event rest head (steps_bound t _)
