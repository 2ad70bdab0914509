-- ===== src/Events/History.antt =====
-- Any sends and polls of the event lanes.
use ssh_mobile.Base.{
  ℕ, suc, ◌≤◌, ◌<◌, ◌≡◌, refl, sym, ap, ◌∙◌, ◌⊎◌, inl, inr, ◌||◌, List, [], ◌∷◌, ◌++◌, Option, none,
  some, ltb, arith, Bool-cases, Option-cases, get_elem?,
}
use mathlib.Core.List.{append-nil}
use ssh_mobile.Base.Words.{saturating_add}
use ssh_mobile.Events.Lanes.{
  RuntimeEventLane, result, control, bulk, lane_beq, NetworkEvent, Mailbox, IsFifo, classify,
  max_event_bytes, EventLane, EventLanes, event_lane, set_lane, try_recv, send, send_result,
  admit_event, admit_reserved, reserve_bytes, admitted, no_bytes, no_room, lane_after, fetch_sub,
  max_bytes_of, send_reserved, send_reserving, resume_result, drop_result, remove_at,
}
use ssh_mobile.Events.Fairness.{contents_of, wait, wait_of, Serves, try_recv-Serves}

-- A send of any event, an attempt to send a command result, a waiting result that is tried again
-- or dropped, and a poll.
pub data Act : Type 0 where
  sends sends_result : NetworkEvent → Act
  resumes drops : ℕ → Act
  polls : Act

abbrev pub count_polls : List Act → ℕ
count_polls [] = 0
count_polls (sends e ∷ acts) = count_polls acts
count_polls (sends_result e ∷ acts) = count_polls acts
count_polls (resumes n ∷ acts) = count_polls acts
count_polls (drops n ∷ acts) = count_polls acts
count_polls (polls ∷ acts) = suc (count_polls acts)

-- The event came from the lane.
abbrev pub Delivers :
    RuntimeEventLane → NetworkEvent → List (Option (RuntimeEventLane × NetworkEvent)) → Type 0
Delivers t event [] = ⊥
Delivers t event (x ∷ xs) = (x ≡ some (t, event)) ⊎ Delivers t event xs

module _ (m : Mailbox) where
  -- What the polls hand out, and the state after.
  unfoldable pub run_lanes :
      EventLanes m → List Act → List (Option (RuntimeEventLane × NetworkEvent)) × EventLanes m
  run_lanes s [] = ([], s)
  run_lanes s (sends e ∷ acts) = run_lanes (send m s e).1 acts
  run_lanes s (sends_result e ∷ acts) = run_lanes (send_result m s e).1 acts
  run_lanes s (resumes n ∷ acts) = run_lanes (resume_result m s n) acts
  run_lanes s (drops n ∷ acts) = run_lanes (drop_result m s n) acts
  run_lanes s (polls ∷ acts) =
      let (got, s') = try_recv m s in let (more, s'') = run_lanes s' acts in (got ∷ more, s'')

  -- A send only adds behind what waits.
  pub record Appends (t : RuntimeEventLane) (s s' : EventLanes m) : Type 0 where
    pub turn : wait m t s' ≡ wait m t s
    pub extra : List NetworkEvent
    pub behind : contents_of m t s' ≡ contents_of m t s ++ extra

module _ (m : Mailbox) (law : IsFifo m) where
  admit_event-contents :
      (l : EventLane m) (e : NetworkEvent) (limit : ℕ)
      → (extra : List NetworkEvent) × (m.contents (lane_after m l (admit_event m l e limit)).queue
          ≡ m.contents l.queue ++ extra)
  unfolding admit_event admit_reserved reserve_bytes
  admit_event-contents l e limit =
      elim (Bool-cases (ltb limit (saturating_add l.queued_bytes e.encoded_len))) [
        | inl over ↦
            let step : admit_event m l e limit ≡ no_bytes = rw (admit_event, over) in
            rw step ([], sym (append-nil (m.contents l.queue)))
        | inr fits ↦
            let reserved : EventLane m = record l {
              queued_bytes = saturating_add l.queued_bytes e.encoded_len;
            } in
            elim (Option-cases (m.try_send e l.queue)) [
              | inl full ↦
                  let step : admit_event m l e limit
                      ≡ no_room (record reserved {
                        queued_bytes = fetch_sub m reserved.queued_bytes e.encoded_len;
                      }) =
                    rw (admit_event, fits, admit_reserved, full) in
                  rw step ([], sym (append-nil (m.contents l.queue)))
              | inr (queue, taken) ↦
                  let step : admit_event m l e limit
                      ≡ admitted (record reserved { queue = queue }) =
                    rw (admit_event, fits, admit_reserved, taken) in
                  rw step (e ∷ [], law.send_last e l.queue queue taken)
            ]
      ]

  set_lane-contents :
      (t lane : RuntimeEventLane) (l : EventLane m) (s : EventLanes m) (extra : List NetworkEvent)
      → m.contents l.queue ≡ contents_of m lane s ++ extra
      → (more : List NetworkEvent) × (contents_of m t (set_lane m lane l s)
          ≡ contents_of m t s ++ more)
  set_lane-contents result result l s extra e = (extra, e)
  set_lane-contents result control l s extra e = ([], sym (append-nil _))
  set_lane-contents result bulk l s extra e = ([], sym (append-nil _))
  set_lane-contents control result l s extra e = ([], sym (append-nil _))
  set_lane-contents control control l s extra e = (extra, e)
  set_lane-contents control bulk l s extra e = ([], sym (append-nil _))
  set_lane-contents bulk result l s extra e = ([], sym (append-nil _))
  set_lane-contents bulk control l s extra e = ([], sym (append-nil _))
  set_lane-contents bulk bulk l s extra e = (extra, e)

  set_lane-wait :
      (t lane : RuntimeEventLane) (l : EventLane m) (s : EventLanes m)
      → wait m t (set_lane m lane l s) ≡ wait m t s
  set_lane-wait t result l s = refl
  set_lane-wait t control l s = refl
  set_lane-wait t bulk l s = refl

  set_lane-Appends :
      (t lane : RuntimeEventLane) (s : EventLanes m) (e : NetworkEvent) (limit : ℕ)
      → Appends m t s (
          set_lane m lane
            (lane_after m (event_lane m lane s) (admit_event m (event_lane m lane s) e limit))
            s)
  set_lane-Appends t lane s e limit =
      let (extra, there) = admit_event-contents (event_lane m lane s) e limit in
      let (more, here) = set_lane-contents t lane _ s extra there in
      record { turn = set_lane-wait t lane _ s; extra = more; behind = here }

  nothing-Appends : (t : RuntimeEventLane) (s : EventLanes m) → Appends m t s s
  nothing-Appends t s = record { turn = refl; extra = []; behind = sym (append-nil _) }

  send-Appends :
      (t : RuntimeEventLane) (s : EventLanes m) (e : NetworkEvent) → Appends m t s (send m s e).1
  unfolding send
  send-Appends t s e =
      elim (Bool-cases (ltb max_event_bytes e.encoded_len || lane_beq (classify e) result)) [
        | inl bad ↦ rw bad (nothing-Appends t s)
        | inr good ↦ rw good (set_lane-Appends t (classify e) s e (max_bytes_of (classify e)))
      ]

  -- The result lane after its channel took an event, or its counter changed.
  result-Appends :
      (t : RuntimeEventLane) (s : EventLanes m) (l : EventLane m) (waiting : List NetworkEvent)
      (extra : List NetworkEvent)
      → m.contents l.queue ≡ m.contents s.result_lane.queue ++ extra
      → Appends m t s (record s { result_lane = l; waiting = waiting })
  result-Appends result s l waiting extra e = record { turn = refl; extra = extra; behind = e }
  result-Appends control s l waiting extra e = record {
    turn = refl;
    extra = [];
    behind = sym (append-nil _);
  }
  result-Appends bulk s l waiting extra e = record {
    turn = refl;
    extra = [];
    behind = sym (append-nil _);
  }

  send_reserved-Appends :
      (t : RuntimeEventLane) (s : EventLanes m) (e : NetworkEvent) (l : EventLane m)
      → m.contents l.queue ≡ m.contents s.result_lane.queue
      → Appends m t s (send_reserved m s e l).1
  unfolding send_reserved
  send_reserved-Appends t s e l same = elim (Option-cases (m.try_send e l.queue)) [
    | inl full ↦
        rw (send_reserved, full)
          (result-Appends t s l (s.waiting ++ (e ∷ [])) [] (same ∙ sym (append-nil _)))
    | inr (queue, taken) ↦
        rw (send_reserved, taken)
          (result-Appends t s (record l { queue = queue }) s.waiting (e ∷ [])
            (law.send_last e l.queue queue taken ∙ ap (λ xs. xs ++ (e ∷ [])) same))
  ]

  send_reserving-Appends :
      (t : RuntimeEventLane) (s : EventLanes m) (e : NetworkEvent)
      → Appends m t s (send_reserving m s e).1
  unfolding send_reserving reserve_bytes
  send_reserving-Appends t s e =
      elim (Bool-cases
        (ltb (max_bytes_of result) (saturating_add s.result_lane.queued_bytes e.encoded_len))) [
          | inl over ↦ rw (send_reserving, reserve_bytes, over) (nothing-Appends t s)
          | inr fits ↦
              rw (send_reserving, reserve_bytes, fits)
                (send_reserved-Appends t s e
                  (record s.result_lane {
                    queued_bytes = saturating_add s.result_lane.queued_bytes e.encoded_len;
                  })
                  refl)
        ]

  send_result-Appends :
      (t : RuntimeEventLane) (s : EventLanes m) (e : NetworkEvent)
      → Appends m t s (send_result m s e).1
  unfolding send_result
  send_result-Appends t s e = elim (Bool-cases (lane_beq (classify e) result)) [
    | inr wrong ↦ rw wrong (nothing-Appends t s)
    | inl right ↦ elim (Bool-cases (ltb max_event_bytes e.encoded_len)) [
      | inl large ↦ rw (right, large) (nothing-Appends t s)
      | inr small ↦ rw (right, small) (send_reserving-Appends t s e)
    ]
  ]

  resume_result-Appends :
      (t : RuntimeEventLane) (s : EventLanes m) (n : ℕ) → Appends m t s (resume_result m s n)
  unfolding resume_result
  resume_result-Appends t s n = elim (Option-cases (get_elem? s.waiting n)) [
    | inl gone ↦ rw (resume_result, gone) (nothing-Appends t s)
    | inr (e, found) ↦ elim (Option-cases (m.try_send e s.result_lane.queue)) [
      | inl full ↦ rw (resume_result, found, full) (nothing-Appends t s)
      | inr (queue, taken) ↦
          rw (resume_result, found, taken)
            (result-Appends t s (record s.result_lane { queue = queue }) (remove_at n s.waiting)
              (e ∷ []) (law.send_last e s.result_lane.queue queue taken))
    ]
  ]

  drop_result-Appends :
      (t : RuntimeEventLane) (s : EventLanes m) (n : ℕ) → Appends m t s (drop_result m s n)
  unfolding drop_result
  drop_result-Appends t s n = elim (Option-cases (get_elem? s.waiting n)) [
    | inl gone ↦ rw (drop_result, gone) (nothing-Appends t s)
    | inr (e, found) ↦
        rw (drop_result, found)
          (result-Appends t s
            (record s.result_lane {
              queued_bytes = fetch_sub m s.result_lane.queued_bytes e.encoded_len;
            })
            (remove_at n s.waiting) [] (sym (append-nil _)))
  ]

  -- One poll, with what follows it.
  polled :
      (t : RuntimeEventLane) (s : EventLanes m) (event : NetworkEvent)
      (r : Option (RuntimeEventLane × NetworkEvent) × EventLanes m) (n : ℕ)
      (rest : List NetworkEvent) (more : List (Option (RuntimeEventLane × NetworkEvent)))
      → contents_of m t s ≡ event ∷ rest
      → wait m t s < suc n
      → ((contents_of m t r.1 ≡ event ∷ rest) → wait m t r.1 < n → Delivers t event more)
      → Serves m t s r
      → Delivers t event (r.0 ∷ more)
  polled t s event (none, s') n rest more head near then_on h = absurd h
  polled t s event (some (lane, got), s') n rest more head near then_on (inl (here, first)) =
      inl (cc (here, first, head))
  polled t s event (some (lane, got), s') n rest more head near then_on (inr (nearer, same)) =
      inr (then_on (same ∙ head) (omega arith))

  run_lanes-Delivers :
      (t : RuntimeEventLane) (s : EventLanes m) (event : NetworkEvent) (rest : List NetworkEvent)
      (acts : List Act)
      → contents_of m t s ≡ event ∷ rest
      → wait m t s < count_polls acts
      → Delivers t event (run_lanes m s acts).0
  unfolding run_lanes
  run_lanes-Delivers t s event rest [] head near = absurd (omega arith)
  run_lanes-Delivers t s event rest (sends e ∷ acts) head near =
      let a = send-Appends t s e in
      run_lanes-Delivers t (send m s e).1 event (rest ++ a.extra) acts
        (a.behind ∙ ap (λ xs. xs ++ a.extra) head) (let w = a.turn in omega arith)
  run_lanes-Delivers t s event rest (sends_result e ∷ acts) head near =
      let a = send_result-Appends t s e in
      run_lanes-Delivers t (send_result m s e).1 event (rest ++ a.extra) acts
        (a.behind ∙ ap (λ xs. xs ++ a.extra) head) (let w = a.turn in omega arith)
  run_lanes-Delivers t s event rest (resumes n ∷ acts) head near =
      let a = resume_result-Appends t s n in
      run_lanes-Delivers t (resume_result m s n) event (rest ++ a.extra) acts
        (a.behind ∙ ap (λ xs. xs ++ a.extra) head) (let w = a.turn in omega arith)
  run_lanes-Delivers t s event rest (drops n ∷ acts) head near =
      let a = drop_result-Appends t s n in
      run_lanes-Delivers t (drop_result m s n) event (rest ++ a.extra) acts
        (a.behind ∙ ap (λ xs. xs ++ a.extra) head) (let w = a.turn in omega arith)
  run_lanes-Delivers t s event rest (polls ∷ acts) head near =
      polled t s event (try_recv m s) (count_polls acts) rest (run_lanes m (try_recv m s).1 acts).0
        head near (λ head' near'. run_lanes-Delivers t (try_recv m s).1 event rest acts head' near')
        (try_recv-Serves m law t s event rest head)

  wait_bound : (t lane : RuntimeEventLane) (b : ℕ) → wait_of t lane b ≤ 16
  wait_bound result result b = ground arith
  wait_bound result control b = ground arith
  wait_bound result bulk b = ground arith
  wait_bound control result b = ground arith
  wait_bound control control b = ground arith
  wait_bound control bulk b = ground arith
  wait_bound bulk result b = ground arith
  wait_bound bulk control b = ground arith
  wait_bound bulk bulk b = ground arith

-- The event that waits first in a lane is handed out by one of the next 17 polls, whatever waits
-- in the other lanes and whatever is sent in between.
pub run_lanes_serves :
    (m : Mailbox) (s : EventLanes m) (t : RuntimeEventLane) (event : NetworkEvent)
    (rest : List NetworkEvent) (acts : List Act)
    → IsFifo m
    → contents_of m t s ≡ event ∷ rest
    → 17 ≤ count_polls acts
    → Delivers t event (run_lanes m s acts).0
run_lanes_serves m s t event rest acts law head enough =
    let w = wait_bound m law t s.scheduled_lane s.scheduled_burst in
    run_lanes-Delivers m law t s event rest acts head (omega arith)
