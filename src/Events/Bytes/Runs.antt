-- ===== src/Events/Bytes/Runs.antt =====
-- The lanes under any sends and polls.
use ssh_mobile.Base.{
  ℕ, zero, suc, ◌+◌, ◌≡◌, refl, inl, inr, ◌||◌, List, [], ◌∷◌, ◌++◌, some, ltb, arith, Bool-cases,
  Option-cases, get_elem?, All, leb,
}
use ssh_mobile.Base.Words.{saturating_add}
use ssh_mobile.Events.Lanes.{
  RuntimeEventLane, result, control, bulk, lane_beq, NetworkEvent, Mailbox, IsFifo, classify,
  max_event_bytes, EventLane, EventLanes, event_lane, set_lane, received, burst, advance_schedule,
  end_burst, try_recv_lane, try_recv_rounds, try_recv, send, send_result, reserve_bytes, fetch_sub,
  max_bytes_of, send_reserved, send_reserving, resume_result, drop_result, remove_at, new_lanes,
}
use ssh_mobile.Events.Fairness.{lane_beq_eq}
use ssh_mobile.Events.History.{Act, sends, sends_result, resumes, drops, polls, run_lanes}
use ssh_mobile.Events.Bytes.{
  BelongsTo, IsLane, IsLanes, held_in, sizes, sizes-append, sizes-remove_at, All-remove_at,
  All-snoc, reserved-IsLane, pushed-IsLane, released-IsLane, admit_event-IsLane, taken-IsLane,
  new_lane-IsLane,
}

-- A property of every lane.
by_lane :
    (P : RuntimeEventLane → Type 0)
    → P result
    → P control
    → P bulk
    → (lane : RuntimeEventLane) → P lane
by_lane P r c b result = r
by_lane P r c b control = c
by_lane P r c b bulk = b

module _ (m : Mailbox) (law : IsFifo m) where
  set_lane-IsLanes :
      (lane : RuntimeEventLane) (l : EventLane m) (s : EventLanes m)
      → IsLane m lane (held_in m lane s) l
      → IsLanes m s
      → IsLanes m (set_lane m lane l s)
  set_lane-IsLanes result l s v w = record {
    lanes = by_lane _ v (w.lanes control) (w.lanes bulk);
    results = w.results;
  }
  set_lane-IsLanes control l s v w = record {
    lanes = by_lane _ (w.lanes result) v (w.lanes bulk);
    results = w.results;
  }
  set_lane-IsLanes bulk l s v w = record {
    lanes = by_lane _ (w.lanes result) (w.lanes control) v;
    results = w.results;
  }

  -- The result lane with the tasks that wait for it.
  waiting-IsLanes :
      (l : EventLane m) (waiting : List NetworkEvent) (s : EventLanes m)
      → IsLane m result (sizes waiting) l
      → All (BelongsTo result) waiting
      → IsLanes m s
      → IsLanes m (record s { result_lane = l; waiting = waiting })
  waiting-IsLanes l waiting s v a w = record {
    lanes = by_lane _ v (w.lanes control) (w.lanes bulk);
    results = a;
  }

  scheduled-IsLanes :
      (s : EventLanes m) (lane : RuntimeEventLane) (b : ℕ)
      → IsLanes m s
      → IsLanes m (record s { scheduled_lane = lane; scheduled_burst = b })
  scheduled-IsLanes s lane b v = record {
    lanes = by_lane _ (v.lanes result) (v.lanes control) (v.lanes bulk);
    results = v.results;
  }

  received-IsLanes :
      (s : EventLanes m) (lane : RuntimeEventLane) (e : NetworkEvent) (queue : m.Queue)
      → m.try_recv (event_lane m lane s).queue ≡ some (e, queue)
      → IsLanes m s
      → IsLanes m (received m s lane e queue)
  unfolding received
  received-IsLanes s lane e queue got v = scheduled-IsLanes _ lane _ (
      set_lane-IsLanes lane _ s
        (taken-IsLane m law lane (held_in m lane s) (event_lane m lane s) e queue got
          (v.lanes lane))
        v)

  advance_schedule-IsLanes : (s : EventLanes m) → IsLanes m s → IsLanes m (advance_schedule m s)
  unfolding advance_schedule
  advance_schedule-IsLanes s v = scheduled-IsLanes s _ 0 v

  end_burst-IsLanes : (s : EventLanes m) → IsLanes m s → IsLanes m (end_burst m s)
  unfolding end_burst
  end_burst-IsLanes s v = elim (Bool-cases (leb (burst s.scheduled_lane) s.scheduled_burst)) [
    | inl over ↦ rw (end_burst, over) (advance_schedule-IsLanes s v)
    | inr goes ↦ rw (end_burst, goes) v
  ]

  try_recv_rounds-IsLanes :
      (n : ℕ) (s : EventLanes m) → IsLanes m s → IsLanes m (try_recv_rounds m n s).1
  unfolding try_recv_rounds try_recv_lane
  try_recv_rounds-IsLanes zero s v = v
  try_recv_rounds-IsLanes (suc n) s v =
      let s' : EventLanes m = end_burst m s in
      let lane : RuntimeEventLane = s'.scheduled_lane in
      let v' = end_burst-IsLanes s v in
      elim (Option-cases (m.try_recv (event_lane m lane s').queue)) [
        | inl empty ↦
            let next : EventLanes m = advance_schedule m s' in
            let step : try_recv_rounds m (suc n) s ≡ try_recv_rounds m n next =
              rw (try_recv_rounds, empty) in
            rw step (try_recv_rounds-IsLanes n next (advance_schedule-IsLanes s' v'))
        | inr ((e, queue), got) ↦
            let step : try_recv_rounds m (suc n) s ≡ (some (lane, e), received m s' lane e queue) =
              rw (try_recv_rounds, got) in
            rw step (received-IsLanes s' lane e queue got v')
      ]

  send-IsLanes : (s : EventLanes m) (e : NetworkEvent) → IsLanes m s → IsLanes m (send m s e).1
  unfolding send
  send-IsLanes s e v =
      elim (Bool-cases (ltb max_event_bytes e.encoded_len || lane_beq (classify e) result)) [
        | inl bad ↦ rw bad v
        | inr good ↦ rw good (
            set_lane-IsLanes (classify e) _ s
              (admit_event-IsLane m law (classify e) (held_in m (classify e) s)
                (event_lane m (classify e) s) e refl (v.lanes (classify e)))
              v)
      ]

  send_reserved-IsLanes :
      (s : EventLanes m) (e : NetworkEvent) (l : EventLane m)
      → BelongsTo result e
      → IsLane m result (sizes s.waiting + e.encoded_len) l
      → IsLanes m s
      → IsLanes m (send_reserved m s e l).1
  unfolding send_reserved
  send_reserved-IsLanes s e l b v w = elim (Option-cases (m.try_send e l.queue)) [
    | inl full ↦
        let sum : sizes (s.waiting ++ (e ∷ [])) ≡ sizes s.waiting + e.encoded_len =
          omega (arith, sizes-append s.waiting (e ∷ [])) in
        rw (send_reserved, full)
          (waiting-IsLanes l (s.waiting ++ (e ∷ [])) s (rw sum v)
            (All-snoc result s.waiting e w.results b) w)
    | inr (queue, taken) ↦
        rw (send_reserved, taken)
          (waiting-IsLanes (record l { queue = queue }) s.waiting s
            (pushed-IsLane m law result (sizes s.waiting + e.encoded_len) (sizes s.waiting) l e
              queue b taken (omega arith) v)
            w.results w)
  ]

  send_reserving-IsLanes :
      (s : EventLanes m) (e : NetworkEvent)
      → BelongsTo result e
      → IsLanes m s
      → IsLanes m (send_reserving m s e).1
  unfolding send_reserving reserve_bytes
  send_reserving-IsLanes s e b v =
      elim (Bool-cases
        (ltb (max_bytes_of result) (saturating_add s.result_lane.queued_bytes e.encoded_len))) [
          | inl over ↦ rw (send_reserving, reserve_bytes, over) v
          | inr fits ↦
              rw (send_reserving, reserve_bytes, fits)
                (send_reserved-IsLanes s e
                  (record s.result_lane {
                    queued_bytes = saturating_add s.result_lane.queued_bytes e.encoded_len;
                  })
                  b
                  (reserved-IsLane m law result (sizes s.waiting) s.result_lane e fits
                    (v.lanes result))
                  v)
        ]

  send_result-IsLanes :
      (s : EventLanes m) (e : NetworkEvent) → IsLanes m s → IsLanes m (send_result m s e).1
  unfolding send_result
  send_result-IsLanes s e v = elim (Bool-cases (lane_beq (classify e) result)) [
    | inr wrong ↦ rw wrong v
    | inl right ↦ elim (Bool-cases (ltb max_event_bytes e.encoded_len)) [
      | inl large ↦ rw (right, large) v
      | inr fine ↦
          rw (right, fine)
            (send_reserving-IsLanes s e (lane_beq_eq m law (classify e) result right) v)
    ]
  ]

  resume_result-IsLanes : (s : EventLanes m) (n : ℕ) → IsLanes m s → IsLanes m (resume_result m s n)
  unfolding resume_result
  resume_result-IsLanes s n v = elim (Option-cases (get_elem? s.waiting n)) [
    | inl gone ↦ rw (resume_result, gone) v
    | inr (e, found) ↦ elim (Option-cases (m.try_send e s.result_lane.queue)) [
      | inl full ↦ rw (resume_result, found, full) v
      | inr (queue, taken) ↦
          let (own, rest) = All-remove_at result n s.waiting e found v.results in
          rw (resume_result, found, taken)
            (waiting-IsLanes (record s.result_lane { queue = queue }) (remove_at n s.waiting) s
              (pushed-IsLane m law result (sizes s.waiting) (sizes (remove_at n s.waiting))
                s.result_lane e queue own taken (sizes-remove_at n s.waiting e found)
                (v.lanes result))
              rest v)
    ]
  ]

  drop_result-IsLanes : (s : EventLanes m) (n : ℕ) → IsLanes m s → IsLanes m (drop_result m s n)
  unfolding drop_result
  drop_result-IsLanes s n v = elim (Option-cases (get_elem? s.waiting n)) [
    | inl gone ↦ rw (drop_result, gone) v
    | inr (e, found) ↦
        let (own, rest) = All-remove_at result n s.waiting e found v.results in
        rw (drop_result, found)
          (waiting-IsLanes
            (record s.result_lane {
              queued_bytes = fetch_sub m s.result_lane.queued_bytes e.encoded_len;
            })
            (remove_at n s.waiting) s
            (released-IsLane m law result (sizes s.waiting) (sizes (remove_at n s.waiting))
              e.encoded_len s.result_lane (sizes-remove_at n s.waiting e found) (v.lanes result))
            rest v)
  ]

  run_from-IsLanes :
      (s : EventLanes m) (acts : List Act) → IsLanes m s → IsLanes m (run_lanes m s acts).1
  unfolding run_lanes try_recv
  run_from-IsLanes s [] v = v
  run_from-IsLanes s (sends e ∷ acts) v = run_from-IsLanes (send m s e).1 acts (send-IsLanes s e v)
  run_from-IsLanes s (sends_result e ∷ acts) v =
      run_from-IsLanes (send_result m s e).1 acts (send_result-IsLanes s e v)
  run_from-IsLanes s (resumes n ∷ acts) v =
      run_from-IsLanes (resume_result m s n) acts (resume_result-IsLanes s n v)
  run_from-IsLanes s (drops n ∷ acts) v =
      run_from-IsLanes (drop_result m s n) acts (drop_result-IsLanes s n v)
  run_from-IsLanes s (polls ∷ acts) v =
      run_from-IsLanes (try_recv m s).1 acts (try_recv_rounds-IsLanes 3 s v)

  new_lanes-IsLanes : IsLanes m (new_lanes m)
  new_lanes-IsLanes = record {
    lanes =
        by_lane _ (new_lane-IsLane m law result) (new_lane-IsLane m law control)
          (new_lane-IsLane m law bulk);
    results = tt;
  }

-- After any sends, results that wait and are tried again or dropped, and polls of new lanes, every
-- lane counts exactly the bytes of the events in it and of the results that wait for room with their
-- bytes reserved; it holds no more bytes and no more events than its limits, and holds only events
-- of its own class.
pub run_lanes-IsLanes :
    (m : Mailbox) (acts : List Act) → IsFifo m → IsLanes m (run_lanes m (new_lanes m) acts).1
run_lanes-IsLanes m acts law = run_from-IsLanes m law (new_lanes m) acts (new_lanes-IsLanes m law)
