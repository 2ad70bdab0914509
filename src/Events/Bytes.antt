-- ===== src/Events/Bytes.antt =====
-- What a lane holds is counted and bounded.
pub mod Runs
use ssh_mobile.Base.{
  ℕ, zero, suc, ◌+◌, ◌≤◌, ◌<◌, ◌≡◌, refl, ◌∙◌, inl, inr, false, ◌||◌, List, [], ◌∷◌, ◌++◌, some,
  ltb, arith, Bool-cases, Option-cases, get_elem?, length, length-append, All,
}
use ssh_mobile.Base.Words.{saturating_add}
use ssh_mobile.Events.Lanes.{
  RuntimeEventLane, result, control, bulk, lane_beq, capacity_of, NetworkEvent, Mailbox, IsFifo,
  classify, max_event_bytes, EventLane, EventLanes, event_lane, set_lane, received,
  advance_schedule, end_burst, try_recv_lane, try_recv_rounds, try_recv, send, send_result,
  admit_event, admit_reserved, reserve_bytes, admitted, no_bytes, no_room, lane_after, fetch_sub,
  max_bytes_of, remove_at, new_lanes, new_lane,
}
use ssh_mobile.Events.Fairness.{
  lane_of_schedule, lane_beq_eq, event_lane-end_burst, event_lane-advance_schedule,
}
use ssh_mobile.Events.History.{Act, sends, sends_result, polls, run_lanes}

-- The bytes that the events take.
abbrev pub sizes : List NetworkEvent → ℕ
sizes [] = 0
sizes (e ∷ es) = e.encoded_len + sizes es

pub sizes-append : (xs ys : List NetworkEvent) → sizes (xs ++ ys) ≡ sizes xs + sizes ys
sizes-append [] ys = omega arith
sizes-append (x ∷ xs) ys = omega (arith, sizes-append xs ys)

abbrev pub BelongsTo : RuntimeEventLane → NetworkEvent → Type 0
BelongsTo lane e = classify e ≡ lane

pub All-snoc :
    (lane : RuntimeEventLane) (xs : List NetworkEvent) (e : NetworkEvent)
    → All (BelongsTo lane) xs
    → BelongsTo lane e
    → All (BelongsTo lane) (xs ++ (e ∷ []))
All-snoc lane [] e a b = (b, tt)
All-snoc lane (x ∷ xs) e a b = (a.0, All-snoc lane xs e a.1 b)

-- A lane counts the bytes of its events and of those that wait with a reservation, within its bytes
-- and its capacity, and holds only its own.
pub record IsLane (m : Mailbox) (lane : RuntimeEventLane) (held : ℕ) (l : EventLane m)
    : Type 0 where
  pub counted : l.queued_bytes ≡ sizes (m.contents l.queue) + held
  pub within : l.queued_bytes ≤ max_bytes_of lane
  pub bounded : m.capacity l.queue ≡ capacity_of lane
  pub room : length (m.contents l.queue) ≤ m.capacity l.queue
  pub own : All (BelongsTo lane) (m.contents l.queue)

-- The bytes that are reserved in a lane by tasks that wait.
abbrev pub held_in : (m : Mailbox) → RuntimeEventLane → EventLanes m → ℕ
held_in m result s = sizes s.waiting
held_in m control s = 0
held_in m bulk s = 0

abbrev pub AreLanes : (m : Mailbox) → EventLanes m → Type 0
AreLanes m s = (lane : RuntimeEventLane) → IsLane m lane (held_in m lane s) (event_lane m lane s)

pub record IsLanes (m : Mailbox) (s : EventLanes m) : Type 0 where
  pub lanes : AreLanes m s
  pub results : All (BelongsTo result) s.waiting

pub sizes-remove_at :
    (n : ℕ) (es : List NetworkEvent) (e : NetworkEvent)
    → get_elem? es n ≡ some e
    → sizes es ≡ e.encoded_len + sizes (remove_at n es)
sizes-remove_at n [] e h = absurd (cc h)
sizes-remove_at zero (x ∷ es) e h = ground arith
sizes-remove_at (suc n) (x ∷ es) e h = omega (arith, sizes-remove_at n es e h)

pub All-remove_at :
    (lane : RuntimeEventLane) (n : ℕ) (es : List NetworkEvent) (e : NetworkEvent)
    → get_elem? es n ≡ some e
    → All (BelongsTo lane) es
    → BelongsTo lane e × All (BelongsTo lane) (remove_at n es)
All-remove_at lane n [] e h a = absurd (cc h)
All-remove_at lane zero (x ∷ es) e h a = (ground (arith, a.0), a.1)
All-remove_at lane (suc n) (x ∷ es) e h a =
    let (own, rest) = All-remove_at lane n es e h a.1 in (own, (a.0, rest))

small : (lane : RuntimeEventLane) → max_bytes_of lane < 16777216
small result = omega arith
small control = omega arith
small bulk = omega arith

module _ (m : Mailbox) (law : IsFifo m) where
  -- The reservation of an event.
  pub reserved-IsLane :
      (lane : RuntimeEventLane) (held : ℕ) (l : EventLane m) (e : NetworkEvent)
      → ltb (max_bytes_of lane) (saturating_add l.queued_bytes e.encoded_len) ≡ false
      → IsLane m lane held l
      → IsLane m lane
          (held + e.encoded_len)
          (record l { queued_bytes = saturating_add l.queued_bytes e.encoded_len })
  reserved-IsLane lane held l e fits v =
      let bound = small lane in
      let sum : saturating_add l.queued_bytes e.encoded_len ≡ l.queued_bytes + e.encoded_len =
        ground arith in
      let less : l.queued_bytes + e.encoded_len ≤ max_bytes_of lane = ground arith in
      rw sum (record {
        counted = let c = v.counted in omega arith;
        within = less;
        bounded = v.bounded;
        room = v.room;
        own = v.own;
      })

  -- A reserved event goes to the channel.
  pub pushed-IsLane :
      (lane : RuntimeEventLane) (held rest : ℕ) (l : EventLane m) (e : NetworkEvent)
      (queue : m.Queue)
      → BelongsTo lane e
      → m.try_send e l.queue ≡ some queue
      → held ≡ e.encoded_len + rest
      → IsLane m lane held l
      → IsLane m lane rest (record l { queue = queue })
  pushed-IsLane lane held rest l e queue b taken h v =
      let last = law.send_last e l.queue queue taken in
      let same = law.send_capacity e l.queue queue taken in
      let had = law.send_room e l.queue queue taken in
      let sum = sizes-append (m.contents l.queue) (e ∷ []) in
      record {
        counted = rw last (let c = v.counted in omega (arith, sum));
        within = v.within;
        bounded = same ∙ v.bounded;
        room = rw (last, same) (omega (arith, length-append {0} (m.contents l.queue) (e ∷ [])));
        own = rw last (All-snoc lane (m.contents l.queue) e v.own b);
      }

  -- A reservation is given back.
  pub released-IsLane :
      (lane : RuntimeEventLane) (held rest bytes : ℕ) (l : EventLane m)
      → held ≡ bytes + rest
      → IsLane m lane held l
      → IsLane m lane rest (record l { queued_bytes = fetch_sub m l.queued_bytes bytes })
  released-IsLane lane held rest bytes l h v =
      let bound = small lane in
      let c = v.counted in
      let within = v.within in
      let left : fetch_sub m l.queued_bytes bytes ≡ sizes (m.contents l.queue) + rest =
        omega arith in
      record {
        counted = left;
        within = rw left (omega arith);
        bounded = v.bounded;
        room = v.room;
        own = v.own;
      }

  pub admit_event-IsLane :
      (lane : RuntimeEventLane) (held : ℕ) (l : EventLane m) (e : NetworkEvent)
      → BelongsTo lane e
      → IsLane m lane held l
      → IsLane m lane held (lane_after m l (admit_event m l e (max_bytes_of lane)))
  unfolding admit_event admit_reserved reserve_bytes
  admit_event-IsLane lane held l e b v =
      elim (Bool-cases (ltb (max_bytes_of lane) (saturating_add l.queued_bytes e.encoded_len))) [
        | inl over ↦
            let step : admit_event m l e (max_bytes_of lane) ≡ no_bytes = rw (admit_event, over) in
            rw step v
        | inr fits ↦
            let reserved : EventLane m = record l {
              queued_bytes = saturating_add l.queued_bytes e.encoded_len;
            } in
            let w = reserved-IsLane lane held l e fits v in
            elim (Option-cases (m.try_send e l.queue)) [
              | inl full ↦
                  let step : admit_event m l e (max_bytes_of lane)
                      ≡ no_room (record reserved {
                        queued_bytes = fetch_sub m reserved.queued_bytes e.encoded_len;
                      }) =
                    rw (admit_event, fits, admit_reserved, full) in
                  rw step (
                    released-IsLane lane (held + e.encoded_len) held e.encoded_len reserved
                      (omega arith) w)
              | inr (queue, taken) ↦
                  let step : admit_event m l e (max_bytes_of lane)
                      ≡ admitted (record reserved { queue = queue }) =
                    rw (admit_event, fits, admit_reserved, taken) in
                  rw step (
                    pushed-IsLane lane (held + e.encoded_len) held reserved e queue b taken
                      (omega arith) w)
            ]
      ]

  pub taken-IsLane :
      (lane : RuntimeEventLane) (held : ℕ) (l : EventLane m) (e : NetworkEvent) (queue : m.Queue)
      → m.try_recv l.queue ≡ some (e, queue)
      → IsLane m lane held l
      → IsLane m lane held
          (record l { queue = queue; queued_bytes = fetch_sub m l.queued_bytes e.encoded_len })
  taken-IsLane lane held l e queue got v =
      let first = law.recv_first l.queue queue e got in
      let same = law.recv_capacity l.queue queue e got in
      let count : l.queued_bytes ≡ e.encoded_len + sizes (m.contents queue) + held =
        rw first at v.counted in
      let own : BelongsTo lane e × All (BelongsTo lane) (m.contents queue) = rw first at v.own in
      let room : suc (length (m.contents queue)) ≤ m.capacity l.queue = rw first at v.room in
      let within = v.within in
      let bound = small lane in
      let left : fetch_sub m l.queued_bytes e.encoded_len ≡ sizes (m.contents queue) + held =
        omega arith in
      record {
        counted = left;
        within = rw left (omega arith);
        bounded = same ∙ v.bounded;
        room = rw same (omega arith);
        own = own.1;
      }

  pub new_lane-IsLane : (lane : RuntimeEventLane) → IsLane m lane 0 (new_lane m lane)
  new_lane-IsLane lane =
      let empty = law.new_empty (capacity_of lane) in
      record {
        counted = rw empty refl;
        within = zero_le (max_bytes_of lane);
        bounded = law.new_capacity (capacity_of lane);
        room = rw empty (zero_le (m.capacity (m.new (capacity_of lane))));
        own = rw empty tt;
      }
    where
      zero_le : (n : ℕ) → 0 ≤ n
      zero_le n = omega arith
