-- ===== src/Media/Queue/Calls.antt =====
-- Any calls on the queue of screen video.
use ssh_mobile.Base.{
  ℕ, ◌≤◌, ◌<◌, ◌≡◌, refl, Bool, true, false, List, [], ◌∷◌, Option, none, some, leb, length, Result,
  ok, err, arith, All, Bool-cases, Option-cases, inl, inr,
}
use ssh_mobile.Media.Queue.{
  EncodedVideoFrame, VideoQueue, VideoFrameError, KeyframeRequestReason, new_queue, validate_frame,
  is_non_monotonic, is_not_after, evict_stale, remove_delta, room_for, enqueue_fresh, enqueue_frame,
  pop_front, pop, request_keyframe, on_disconnect, on_decoder_reset, clear, take_keyframe_request,
  screen_video_queue_capacity, disconnected, decoder_reset,
}
use ssh_mobile.Media.Queue.Bounds.{
  Follows, IsAscending, IsUpTo, IsHeld, IsQueue, All-map, All-remove_delta,
  IsAscending-remove_delta, evict_stale-IsQueue, push-IsQueue,
}

newer_than : (last : Option ℕ) (n m : ℕ) → is_not_after m last ≡ false → IsUpTo last n → n < m
newer_than none n m h a = absurd a
newer_than (some k) n m h a = ground arith

held-Follows :
    (q : VideoQueue) (f g : EncodedVideoFrame)
    → is_non_monotonic q f ≡ false
    → f.keyframe ≡ false
    → IsHeld q g
    → Follows g f × (validate_frame g ≡ ok tt)
held-Follows q f g newer delta h = (
  (
    newer_than q.last_sequence g.sequence f.sequence (ground arith) h.0,
    newer_than q.last_timestamp g.timestamp f.timestamp (ground arith) h.1,
    delta,
  ),
  h.2,
)

room_for-kept :
    (key : Bool) (fs kept : List EncodedVideoFrame) (dropped : ℕ) (P : EncodedVideoFrame → Type 0)
    → room_for key fs ≡ some (kept, dropped)
    → length fs ≤ screen_video_queue_capacity
    → IsAscending fs
    → (key ≡ false → All P fs)
    → (length kept < screen_video_queue_capacity) × IsAscending kept × All P kept
unfolding room_for
room_for-kept true fs kept dropped P h short a p =
    let same : [] ≡ kept = cc in rw (← same) (omega arith, tt, tt)
room_for-kept false fs kept dropped P h short a p =
    elim (Bool-cases (leb screen_video_queue_capacity (length fs))) [
      | inr room ↦ let same : fs ≡ kept = cc (rw room at h) in rw (← same) (ground arith, a, p refl)
      | inl full ↦ elim (Option-cases (remove_delta fs)) [
        | inl stuck ↦ absurd (cc (rw (full, room_for, stuck) at h))
        | inr (rest, found) ↦
            let same : rest ≡ kept = cc (rw (full, room_for, found) at h) in
            let (b, size) = IsAscending-remove_delta fs rest found a in
            rw (← same) (omega (arith, size), b, All-remove_delta P fs rest found (p refl))
      ]
    ]

enqueue_fresh-IsQueue :
    (q : VideoQueue) (f : EncodedVideoFrame) (now : ℕ)
    → validate_frame f ≡ ok tt
    → IsQueue q
    → IsQueue (enqueue_fresh q f now).1
unfolding enqueue_fresh
enqueue_fresh-IsQueue q f now valid v = elim (Bool-cases (leb f.expires_at now)) [
  | inl stale ↦ rw stale (record { short = v.short; ascending = v.ascending; held = v.held })
  | inr live ↦ elim (Bool-cases (is_non_monotonic q f)) [
    | inl older ↦
        rw (live, older) (record { short = v.short; ascending = v.ascending; held = v.held })
    | inr newer ↦ elim (Option-cases (room_for f.keyframe q.frames)) [
      | inl stuck ↦
          rw (live, newer, enqueue_fresh, stuck)
            (record { short = v.short; ascending = v.ascending; held = v.held })
      | inr ((kept, dropped), found) ↦
          let (room, a, after) =
            room_for-kept f.keyframe q.frames kept dropped
              (λ g. Follows g f × (validate_frame g ≡ ok tt)) found v.short v.ascending
              (λ delta. All-map q.frames (λ g h. held-Follows q f g newer delta h) v.held) in
          rw (live, newer, enqueue_fresh, found) (push-IsQueue q f kept dropped room a after valid)
    ]
  ]
]

enqueue_frame-IsQueue :
    (q : VideoQueue) (f : EncodedVideoFrame) (now : ℕ)
    → IsQueue q
    → IsQueue (enqueue_frame q f now).1
unfolding enqueue_frame
enqueue_frame-IsQueue q f now v = go (validate_frame f) refl
  where
    go :
        (r : Result VideoFrameError (Unit {0}))
        → validate_frame f ≡ r
        → IsQueue (enqueue_frame q f now).1
    go (err e) bad = rw (bad, enqueue_frame) v
    go (ok u) good =
        rw (good, enqueue_frame)
          (enqueue_fresh-IsQueue (evict_stale q now) f now good (evict_stale-IsQueue q now v))

pop_front-IsQueue : (q : VideoQueue) → IsQueue q → IsQueue (pop_front q).1
pop_front-IsQueue q v = go q.frames refl
  where
    go : (fs : List EncodedVideoFrame) → q.frames ≡ fs → IsQueue (pop_front q).1
    go [] e = rw (e, pop_front) v
    go (f ∷ fs) e =
        rw (e, pop_front)
          (record {
            short = (let n = v.short in omega (arith, rw e at n));
            ascending = (rw e at v.ascending).1;
            held = (rw e at v.held).1;
          })

-- The calls on a queue.
pub data QueueCall : Type 0 where
  enqueues : EncodedVideoFrame → ℕ → QueueCall
  pops : ℕ → QueueCall
  disconnects resets clears takes : QueueCall
  requests : KeyframeRequestReason → QueueCall

unfoldable pub call : VideoQueue → QueueCall → VideoQueue
call q (enqueues f now) = (enqueue_frame q f now).1
call q (pops now) = (pop q now).1
call q disconnects = on_disconnect q
call q resets = on_decoder_reset q
call q clears = clear q
call q takes = (take_keyframe_request q).1
call q (requests reason) = request_keyframe q reason

unfoldable pub call_each : VideoQueue → List QueueCall → VideoQueue
call_each q [] = q
call_each q (c ∷ cs) = call_each (call q c) cs

request_keyframe-IsQueue :
    (q : VideoQueue) (reason : KeyframeRequestReason)
    → IsQueue q
    → IsQueue (request_keyframe q reason)
unfolding request_keyframe
request_keyframe-IsQueue q reason v = elim (Option-cases q.pending_keyframe_request) [
  | inl idle ↦
      rw (idle, request_keyframe)
        (record { short = v.short; ascending = v.ascending; held = v.held })
  | inr (r, waits) ↦ rw (waits, request_keyframe) v
]

emptied-IsQueue : (q : VideoQueue) → q.frames ≡ [] → IsQueue q
emptied-IsQueue q e = record { short = rw e (omega arith); ascending = rw e tt; held = rw e tt }

call-IsQueue : (q : VideoQueue) (c : QueueCall) → IsQueue q → IsQueue (call q c)
unfolding call pop on_disconnect on_decoder_reset clear take_keyframe_request
call-IsQueue q (enqueues f now) v = enqueue_frame-IsQueue q f now v
call-IsQueue q (pops now) v = pop_front-IsQueue (evict_stale q now) (evict_stale-IsQueue q now v)
call-IsQueue q disconnects v = request_keyframe-IsQueue _ disconnected (emptied-IsQueue _ refl)
call-IsQueue q resets v = request_keyframe-IsQueue _ decoder_reset (emptied-IsQueue _ refl)
call-IsQueue q clears v = emptied-IsQueue _ refl
call-IsQueue q takes v = record { short = v.short; ascending = v.ascending; held = v.held }
call-IsQueue q (requests reason) v = request_keyframe-IsQueue q reason v

call_from-IsQueue : (q : VideoQueue) (cs : List QueueCall) → IsQueue q → IsQueue (call_each q cs)
unfolding call_each
call_from-IsQueue q [] v = v
call_from-IsQueue q (c ∷ cs) v = call_from-IsQueue (call q c) cs (call-IsQueue q c v)

-- After any calls on a new queue it holds at most three frames, each of them valid, in the order of
-- their sequences and timestamps, and a keyframe only in front.
pub call_each-IsQueue : (cs : List QueueCall) → IsQueue (call_each new_queue cs)
call_each-IsQueue cs = call_from-IsQueue new_queue cs (emptied-IsQueue new_queue refl)
