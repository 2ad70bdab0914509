-- ===== src/Media/Qos/Calls.antt =====
-- Any calls on the media queues.
use ssh_mobile.Base.{
  ℕ, ◌≤◌, ◌<◌, ◌≡◌, refl, true, List, [], ◌∷◌, Option, none, some, length, arith, Bool-cases, inl,
  inr,
}
use ssh_mobile.Base.Words.{u64_max}
use ssh_mobile.Media.Qos.{
  MediaKind, audio, video, data_channel, MediaQosPolicy, MediaFrame, MediaQos, lane_of, empty_lane,
  from_config, enqueue_media, pop_lane, pop_kind, pop_next, next_kind, not_empty, evict_expired,
  request_media_keyframe, on_connection_lost, take_media_keyframe,
}
use ssh_mobile.Media.Qos.Lanes.{
  IsLane, IsQos, total_bytes, lane_of-IsLane, with_lane-IsQos, cleared-IsLane, evict_expired-IsQos,
  enqueue_media-IsQos,
}

pop_lane-IsQos : (kind : MediaKind) (q : MediaQos) → IsQos q → IsQos (pop_lane kind q).1
unfolding pop_lane
pop_lane-IsQos kind q v = go (lane_of kind q).frames refl
  where
    go : (fs : List MediaFrame) → (lane_of kind q).frames ≡ fs → IsQos (pop_lane kind q).1
    go [] e = rw (e, pop_lane) v
    go (f ∷ fs) e =
        let w = lane_of-IsLane kind q v in
        let short : length (f ∷ fs) ≤ (lane_of kind q).policy.max_frames = rw e at w.short in
        let counted : (lane_of kind q).bytes ≡ total_bytes (f ∷ fs) = rw e at w.counted in
        rw (e, pop_lane)
          (with_lane-IsQos kind _ _
            (record {
              some_frames = w.some_frames;
              some_bytes = w.some_bytes;
              counted = omega (arith, counted);
              short = omega (arith, short);
              small = omega (arith, w.small);
            })
            v)

pop_kind-IsQos : (kind : Option MediaKind) (q : MediaQos) → IsQos q → IsQos (pop_kind kind q).1
unfolding pop_kind
pop_kind-IsQos none q v = v
pop_kind-IsQos (some kind) q v = pop_lane-IsQos kind q v

request_media_keyframe-IsQos : (q : MediaQos) → IsQos q → IsQos (request_media_keyframe q)
unfolding request_media_keyframe
request_media_keyframe-IsQos q v = elim (Bool-cases q.keyframe_requested) [
  | inl asked ↦ rw (asked, request_media_keyframe) v
  | inr idle ↦ rw (idle, request_media_keyframe) v
]

-- The calls on the media queues.
pub data QosCall : Type 0 where
  enqueues : MediaFrame → ℕ → QosCall
  pops : ℕ → QosCall
  loses takes : QosCall

unfoldable pub call_media : MediaQos → QosCall → MediaQos
call_media q (enqueues f now) = (enqueue_media q f now).1
call_media q (pops now) = (pop_next q now).1
call_media q loses = on_connection_lost q
call_media q takes = (take_media_keyframe q).1

unfoldable pub call_media_each : MediaQos → List QosCall → MediaQos
call_media_each q [] = q
call_media_each q (c ∷ cs) = call_media_each (call_media q c) cs

call_media-IsQos : (q : MediaQos) (c : QosCall) → IsQos q → IsQos (call_media q c)
unfolding call_media pop_next on_connection_lost take_media_keyframe
call_media-IsQos q (enqueues f now) v = enqueue_media-IsQos q f now v
call_media-IsQos q (pops now) v =
    pop_kind-IsQos (next_kind (evict_expired q now)) (evict_expired q now)
      (evict_expired-IsQos q now v)
call_media-IsQos q loses v =
    request_media_keyframe-IsQos _
      (cleared-IsLane true q.audio_lane v.0, cleared-IsLane true q.video_lane v.1, v.2)
call_media-IsQos q takes v = v

call_media_from-IsQos : (q : MediaQos) (cs : List QosCall) → IsQos q → IsQos (call_media_each q cs)
unfolding call_media_each
call_media_from-IsQos q [] v = v
call_media_from-IsQos q (c ∷ cs) v =
    call_media_from-IsQos (call_media q c) cs (call_media-IsQos q c v)

-- A policy that lets a frame in.
abbrev pub IsUsable : MediaQosPolicy → Type 0
IsUsable p = (1 ≤ p.max_frames) × (p.max_bytes < u64_max)

empty_lane-IsLane : (p : MediaQosPolicy) → IsUsable p → IsLane (empty_lane p)
empty_lane-IsLane p u = record {
  some_frames = u.0;
  some_bytes = u.1;
  counted = refl;
  short = omega arith;
  small = omega arith;
}

-- After any calls on new queues, each queue counts its bytes exactly and is within the frames and
-- the bytes of its policy (the policies allow a frame, and fewer bytes than the largest u64).
pub call_media_each-IsQos :
    (a v d : MediaQosPolicy) (cs : List QosCall)
    → IsUsable a
    → IsUsable v
    → IsUsable d
    → IsQos (call_media_each (from_config a v d) cs)
unfolding from_config
call_media_each-IsQos a v d cs ua uv ud =
    call_media_from-IsQos _ cs
      (empty_lane-IsLane a ua, empty_lane-IsLane v uv, empty_lane-IsLane d ud)

-- The queue that `pop_next` serves is not empty, and no queue with frames has a higher priority.
pub next_kind-greatest :
    (q : MediaQos) (k j : MediaKind)
    → next_kind q ≡ some k
    → not_empty (lane_of j q) ≡ true
    → (not_empty (lane_of k q) ≡ true)
      × ((lane_of j q).policy.priority ≤ (lane_of k q).policy.priority)
unfolding next_kind
next_kind-greatest q audio audio h s = ground arith
next_kind-greatest q audio video h s = ground arith
next_kind-greatest q audio data_channel h s = ground arith
next_kind-greatest q video audio h s = ground arith
next_kind-greatest q video video h s = ground arith
next_kind-greatest q video data_channel h s = ground arith
next_kind-greatest q data_channel audio h s = ground arith
next_kind-greatest q data_channel video h s = ground arith
next_kind-greatest q data_channel data_channel h s = ground arith
