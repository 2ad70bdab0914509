-- ===== src/Media/Qos.antt =====
-- The media queues: `MediaQos` of native/network_core/crates/network-webrtc/src/qos.rs. The arrays
-- of policies, queues and byte counts, which have one entry for each kind, are three lanes.
-- Instants and durations are nanoseconds.
pub mod Lanes
pub mod Calls
pub mod Examples
use ssh_mobile.Base.{
  ℕ, ◌+◌, ◌-◌, Bool, true, false, ◌&&◌, ◌||◌, not, List, [], ◌∷◌, ◌++◌, Option, none, some, ltb,
  leb, ◌==◌, if◌then◌else◌, length, Result, ok, err,
}
use ssh_mobile.Base.Words.{saturating_add}

pub data MediaKind : Type 0 where
  audio video data_channel : MediaKind

pub record MediaQosPolicy : Type 0 where
  pub max_frames : ℕ
  pub max_bytes : ℕ
  pub ttl : ℕ
  pub priority : ℕ
  pub discard_old : Bool

abbrev pub audio_policy : MediaQosPolicy
audio_policy = record {
  max_frames = 64;
  max_bytes = 262144;
  ttl = 250000000;
  priority = 2;
  discard_old = true;
}

abbrev pub video_policy : MediaQosPolicy
video_policy = record {
  max_frames = 4;
  max_bytes = 4194304;
  ttl = 250000000;
  priority = 1;
  discard_old = true;
}

abbrev pub data_channel_policy : MediaQosPolicy
data_channel_policy = record {
  max_frames = 64;
  max_bytes = 1048576;
  ttl = 5000000000;
  priority = 3;
  discard_old = false;
}

pub record MediaFrame : Type 0 where
  pub kind : MediaKind
  pub sequence : ℕ
  pub timestamp_ms : ℕ
  pub keyframe : Bool
  pub expires_at : ℕ
  pub payload : List ℕ

pub data EnqueueResult : Type 0 where
  accepted : EnqueueResult
  accepted_after_dropping : ℕ → EnqueueResult
  dropped_incoming : EnqueueResult

pub data QosError : Type 0 where
  empty_payload payload_too_large queue_full : QosError

pub record QosStats : Type 0 where
  pub enqueued : ℕ
  pub dequeued : ℕ
  pub dropped_expired : ℕ
  pub dropped_overflow : ℕ
  pub dropped_on_disconnect : ℕ
  pub rejected_backpressure : ℕ
  pub keyframe_requests : ℕ

pub record Lane : Type 0 where
  pub policy : MediaQosPolicy
  pub frames : List MediaFrame
  pub bytes : ℕ

pub record MediaQos : Type 0 where
  pub audio_lane : Lane
  pub video_lane : Lane
  pub data_lane : Lane
  pub stats : QosStats
  pub keyframe_requested : Bool

abbrev pub lane_of : MediaKind → MediaQos → Lane
lane_of audio q = q.audio_lane
lane_of video q = q.video_lane
lane_of data_channel q = q.data_lane

abbrev pub with_lane : MediaKind → Lane → MediaQos → MediaQos
with_lane audio l q = record q { audio_lane = l }
with_lane video l q = record q { video_lane = l }
with_lane data_channel l q = record q { data_lane = l }

abbrev pub empty_lane : MediaQosPolicy → Lane
empty_lane policy = record { policy = policy; frames = []; bytes = 0 }

-- `from_config`.
unfoldable pub from_config : MediaQosPolicy → MediaQosPolicy → MediaQosPolicy → MediaQos
from_config for_audio for_video for_data = record {
  audio_lane = empty_lane for_audio;
  video_lane = empty_lane for_video;
  data_lane = empty_lane for_data;
  stats = record {
    enqueued = 0;
    dequeued = 0;
    dropped_expired = 0;
    dropped_overflow = 0;
    dropped_on_disconnect = 0;
    rejected_backpressure = 0;
    keyframe_requests = 0;
  };
  keyframe_requested = false;
}

-- The frames and bytes that stay, and how many frames have expired.
unfoldable pub evict_front : ℕ → List MediaFrame → ℕ → (List MediaFrame × ℕ) × ℕ
evict_front now [] bytes = (([], bytes), 0)
evict_front now (f ∷ fs) bytes =
    let (kept, dropped) = evict_front now fs (bytes - length f.payload) in
    if leb f.expires_at now then (kept, dropped + 1) else ((f ∷ fs, bytes), 0)

unfoldable pub evict_lane : ℕ → Lane → Lane × ℕ
evict_lane now l =
    let (kept, dropped) = evict_front now l.frames l.bytes in
    (record l { frames = kept.0; bytes = kept.1 }, dropped)

unfoldable pub evict_expired : MediaQos → ℕ → MediaQos
evict_expired q now =
    let (a, n) = evict_lane now q.audio_lane in
    let (v, m) = evict_lane now q.video_lane in
    let (d, k) = evict_lane now q.data_lane in
    record q {
      audio_lane = a;
      video_lane = v;
      data_lane = d;
      stats = record q.stats {
        dropped_expired = saturating_add q.stats.dropped_expired (n + m + k);
      };
    }

abbrev pub is_over : MediaQosPolicy → ℕ → ℕ → ℕ → Bool
is_over policy size count bytes =
    leb policy.max_frames count || ltb policy.max_bytes (saturating_add bytes size)

-- The loop that makes room; `none` when the policy does not discard. The queue, the bytes and the
-- number of frames that were dropped.
unfoldable pub make_room :
    MediaQosPolicy → ℕ → List MediaFrame → ℕ → Option ((List MediaFrame × ℕ) × ℕ)
make_room policy size [] bytes =
    if not (is_over policy size 0 bytes)
    then some (([], bytes), 0)
    else if not policy.discard_old
    then none
    else some (([], bytes), 0)
make_room policy size (f ∷ fs) bytes =
    let rest = make_room policy size fs (bytes - length f.payload) in
    if not (is_over policy size (length (f ∷ fs)) bytes)
    then some ((f ∷ fs, bytes), 0)
    else if not policy.discard_old
    then none
    else (elim rest [ none ↦ none | some (kept, dropped) ↦ some (kept, dropped + 1) ])

abbrev pub result_of : ℕ → EnqueueResult
result_of dropped = if dropped == 0 then accepted else accepted_after_dropping dropped

abbrev pub is_video : MediaKind → Bool
is_video video = true
is_video _ = false

abbrev pub any_keyframe : List MediaFrame → Bool
any_keyframe [] = false
any_keyframe (f ∷ fs) = f.keyframe || any_keyframe fs

-- A keyframe of video replaces what waits.
abbrev pub cleared : Bool → Lane → Lane
cleared true l = record l { frames = []; bytes = 0 }
cleared false l = l

-- The end of `enqueue`: room is made, and the frame joins.
unfoldable pub push : MediaQos → MediaFrame → Lane → Result QosError EnqueueResult × MediaQos
push q f l = elim (make_room l.policy (length f.payload) l.frames l.bytes) [
  | none ↦ (
    err queue_full,
    record q {
      stats = record q.stats {
        rejected_backpressure = saturating_add q.stats.rejected_backpressure 1;
      };
    },
  )
  | some (kept, dropped) ↦ (
    ok (result_of dropped),
    with_lane f.kind
        (record l { frames = kept.0 ++ (f ∷ []); bytes = saturating_add kept.1 (length f.payload) })
        (record q {
          stats = record q.stats {
            dropped_overflow = saturating_add q.stats.dropped_overflow dropped;
            enqueued = saturating_add q.stats.enqueued 1;
          };
        }),
  )
]

-- `enqueue` from the eviction on.
unfoldable pub enqueue_live : MediaQos → MediaFrame → Result QosError EnqueueResult × MediaQos
enqueue_live q f =
    let l = lane_of f.kind q in
    if is_video f.kind
      && (not f.keyframe
          && (any_keyframe l.frames
              && is_over l.policy (length f.payload) (length l.frames) l.bytes))
    then (
      ok dropped_incoming,
      record q {
        stats = record q.stats { dropped_overflow = saturating_add q.stats.dropped_overflow 1 };
      },
    )
    else push q f (cleared (is_video f.kind && f.keyframe) l)

unfoldable pub enqueue_media : MediaQos → MediaFrame → ℕ → Result QosError EnqueueResult × MediaQos
enqueue_media q f now =
    if length f.payload == 0
    then (err empty_payload, q)
    else if ltb (lane_of f.kind q).policy.max_bytes (length f.payload)
    then (err payload_too_large, q)
    else if leb f.expires_at now
    then (
      ok dropped_incoming,
      record q {
        stats = record q.stats { dropped_expired = saturating_add q.stats.dropped_expired 1 };
      },
    )
    else enqueue_live (evict_expired q now) f

abbrev pub not_empty : Lane → Bool
not_empty l = elim l.frames [ [] ↦ false | f ∷ fs ↦ true ]

-- `max_by_key` of the priority over the kinds whose queue is not empty: the last of the greatest.
abbrev pub better : MediaQos → Option MediaKind → MediaKind → Option MediaKind
better q none kind = if not_empty (lane_of kind q) then some kind else none
better q (some best) kind =
    if not_empty (lane_of kind q)
      && leb (lane_of best q).policy.priority (lane_of kind q).policy.priority
    then some kind
    else some best

unfoldable pub next_kind : MediaQos → Option MediaKind
next_kind q = better q (better q (better q none audio) video) data_channel

-- The front of a lane, which is not empty.
unfoldable pub pop_lane : MediaKind → MediaQos → Option MediaFrame × MediaQos
pop_lane kind q = elim (lane_of kind q).frames [
  | [] ↦ (none, q)
  | f ∷ fs ↦ (
    some f,
    with_lane kind
        (record (lane_of kind q) { frames = fs; bytes = (lane_of kind q).bytes - length f.payload })
        (record q { stats = record q.stats { dequeued = saturating_add q.stats.dequeued 1 } }),
  )
]

unfoldable pub pop_kind : Option MediaKind → MediaQos → Option MediaFrame × MediaQos
pop_kind none q = (none, q)
pop_kind (some kind) q = pop_lane kind q

unfoldable pub pop_next : MediaQos → ℕ → Option MediaFrame × MediaQos
pop_next q now = pop_kind (next_kind (evict_expired q now)) (evict_expired q now)

unfoldable pub request_media_keyframe : MediaQos → MediaQos
request_media_keyframe q = if q.keyframe_requested then q else record q {
  keyframe_requested = true;
  stats = record q.stats { keyframe_requests = saturating_add q.stats.keyframe_requests 1 };
}

-- Audio and video are dropped, the data channel is kept.
unfoldable pub on_connection_lost : MediaQos → MediaQos
on_connection_lost q = request_media_keyframe (record q {
  audio_lane = cleared true q.audio_lane;
  video_lane = cleared true q.video_lane;
  stats = record q.stats {
    dropped_on_disconnect =
        saturating_add (saturating_add q.stats.dropped_on_disconnect (length q.audio_lane.frames))
          (length q.video_lane.frames);
  };
})

unfoldable pub take_media_keyframe : MediaQos → Bool × MediaQos
take_media_keyframe q = (q.keyframe_requested, record q { keyframe_requested = false })
