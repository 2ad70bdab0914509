-- ===== src/Media/Qos/Lanes.antt =====
-- The bounds and the byte counts of the media queues.
use ssh_mobile.Base.{
  ℕ, ◌+◌, ◌-◌, ◌≤◌, ◌<◌, ◌≡◌, refl, ap, ◌∙◌, Bool, true, false, ◌&&◌, not, List, [], ◌∷◌, ◌++◌,
  some, ltb, leb, ◌==◌, length, arith, Bool-cases, Option-cases, inl, inr, length-append,
}
use ssh_mobile.Base.Words.{saturating_add, u64_max}
use ssh_mobile.Media.Qos.{
  MediaKind, audio, video, data_channel, MediaQosPolicy, MediaFrame, Lane, MediaQos, lane_of,
  with_lane, evict_front, evict_lane, evict_expired, is_over, make_room, cleared, push,
  enqueue_live, enqueue_media, is_video, any_keyframe,
}

abbrev pub total_bytes : List MediaFrame → ℕ
total_bytes [] = 0
total_bytes (f ∷ fs) = length f.payload + total_bytes fs

-- A lane counts its bytes and is within the limits of its policy.
pub record IsLane (l : Lane) : Type 0 where
  pub some_frames : 1 ≤ l.policy.max_frames
  pub some_bytes : l.policy.max_bytes < u64_max
  pub counted : l.bytes ≡ total_bytes l.frames
  pub short : length l.frames ≤ l.policy.max_frames
  pub small : l.bytes ≤ l.policy.max_bytes

total_bytes-append :
    (fs : List MediaFrame) (f : MediaFrame)
    → total_bytes (fs ++ (f ∷ [])) ≡ total_bytes fs + length f.payload
total_bytes-append [] f = omega arith
total_bytes-append (g ∷ gs) f = omega (arith, total_bytes-append gs f)

evict_front-counts :
    (now : ℕ) (fs : List MediaFrame) (bytes : ℕ)
    → bytes ≡ total_bytes fs
    → ((evict_front now fs bytes).0.1 ≡ total_bytes (evict_front now fs bytes).0.0)
      × (length (evict_front now fs bytes).0.0 ≤ length fs)
      × ((evict_front now fs bytes).0.1 ≤ bytes)
unfolding evict_front
evict_front-counts now [] bytes h = (h, omega arith, omega arith)
evict_front-counts now (f ∷ fs) bytes h = elim (Bool-cases (leb f.expires_at now)) [
  | inr live ↦ rw live (h, omega arith, omega arith)
  | inl late ↦
      let (counted, short, small) =
        evict_front-counts now fs (bytes - length f.payload) (omega arith) in
      rw late (counted, omega (arith, short), omega (arith, small))
]

evict_lane-IsLane : (now : ℕ) (l : Lane) → IsLane l → IsLane (evict_lane now l).0
unfolding evict_lane
evict_lane-IsLane now l v =
    let (counted, short, small) = evict_front-counts now l.frames l.bytes v.counted in
    record {
      some_frames = v.some_frames;
      some_bytes = v.some_bytes;
      counted = counted;
      short = omega (arith, v.short, short);
      small = omega (arith, v.small, small);
    }

-- What `make_room` leaves, when it does not refuse, has room for the frame.
make_room-fits :
    (policy : MediaQosPolicy) (size : ℕ) (fs kept : List MediaFrame) (bytes kept_bytes dropped : ℕ)
    → 1 ≤ policy.max_frames
    → policy.max_bytes < u64_max
    → size ≤ policy.max_bytes
    → bytes ≡ total_bytes fs
    → make_room policy size fs bytes ≡ some ((kept, kept_bytes), dropped)
    → (kept_bytes ≡ total_bytes kept)
      × (length kept < policy.max_frames)
      × (kept_bytes + size ≤ policy.max_bytes)
unfolding make_room
make_room-fits policy size [] kept bytes kept_bytes dropped one big fits h r = ground arith
make_room-fits policy size (f ∷ fs) kept bytes kept_bytes dropped one big fits h r =
    elim (Bool-cases (is_over policy size (length (f ∷ fs)) bytes)) [
      | inr room ↦ ground arith
      | inl over ↦ elim (Option-cases (make_room policy size fs (bytes - length f.payload))) [
        | inl stuck ↦ ground arith
        | inr (((xs, n), k), found) ↦
            let later =
              make_room-fits policy size fs xs (bytes - length f.payload) n k one big fits
                (omega arith) found in
            ground (arith, later)
      ]
    ]

abbrev pub IsQos : MediaQos → Type 0
IsQos q = IsLane q.audio_lane × IsLane q.video_lane × IsLane q.data_lane

pub lane_of-IsLane : (kind : MediaKind) (q : MediaQos) → IsQos q → IsLane (lane_of kind q)
lane_of-IsLane audio q v = v.0
lane_of-IsLane video q v = v.1
lane_of-IsLane data_channel q v = v.2

pub with_lane-IsQos :
    (kind : MediaKind) (l : Lane) (q : MediaQos) → IsLane l → IsQos q → IsQos (with_lane kind l q)
with_lane-IsQos audio l q w v = (w, v.1, v.2)
with_lane-IsQos video l q w v = (v.0, w, v.2)
with_lane-IsQos data_channel l q w v = (v.0, v.1, w)

pub cleared-IsLane : (b : Bool) (l : Lane) → IsLane l → IsLane (cleared b l)
cleared-IsLane false l v = v
cleared-IsLane true l v = record {
  some_frames = v.some_frames;
  some_bytes = v.some_bytes;
  counted = refl;
  short = omega arith;
  small = omega arith;
}

pub evict_expired-IsQos : (q : MediaQos) (now : ℕ) → IsQos q → IsQos (evict_expired q now)
unfolding evict_expired
evict_expired-IsQos q now v = (
  evict_lane-IsLane now q.audio_lane v.0,
  evict_lane-IsLane now q.video_lane v.1,
  evict_lane-IsLane now q.data_lane v.2,
)

joined-IsLane :
    (l : Lane) (f : MediaFrame) (kept : List MediaFrame) (bytes dropped : ℕ)
    → IsLane l
    → length f.payload ≤ l.policy.max_bytes
    → make_room l.policy (length f.payload) l.frames l.bytes ≡ some ((kept, bytes), dropped)
    → IsLane
        (record l { frames = kept ++ (f ∷ []); bytes = saturating_add bytes (length f.payload) })
joined-IsLane l f kept bytes dropped v fits room =
    let (counted, short, small) =
      make_room-fits l.policy (length f.payload) l.frames kept l.bytes bytes dropped v.some_frames
        v.some_bytes fits v.counted room in
    let exact : saturating_add bytes (length f.payload) ≡ bytes + length f.payload =
      ground (arith, v.some_bytes) in
    record {
      some_frames = v.some_frames;
      some_bytes = v.some_bytes;
      counted = exact ∙ omega (arith, counted, total_bytes-append kept f);
      short = omega (arith, short, length-append kept (f ∷ []));
      small = omega (arith, exact, small);
    }

push-IsQos :
    (q : MediaQos) (f : MediaFrame) (l : Lane)
    → length f.payload ≤ l.policy.max_bytes
    → IsLane l
    → IsQos q
    → IsQos (push q f l).1
unfolding push
push-IsQos q f l fits w v =
    elim (Option-cases (make_room l.policy (length f.payload) l.frames l.bytes)) [
      | inl full ↦ rw (full, push) v
      | inr (((kept, bytes), dropped), room) ↦
          rw (room, push)
            (with_lane-IsQos f.kind _ _ (joined-IsLane l f kept bytes dropped w fits room) v)
    ]

cleared-policy : (b : Bool) (l : Lane) → (cleared b l).policy ≡ l.policy
cleared-policy true l = refl
cleared-policy false l = refl

evicted-policy :
    (kind : MediaKind) (q : MediaQos) (now : ℕ)
    → (lane_of kind (evict_expired q now)).policy ≡ (lane_of kind q).policy
unfolding evict_expired evict_lane
evicted-policy audio q now = refl
evicted-policy video q now = refl
evicted-policy data_channel q now = refl

enqueue_live-IsQos :
    (q : MediaQos) (f : MediaFrame)
    → length f.payload ≤ (lane_of f.kind q).policy.max_bytes
    → IsQos q
    → IsQos (enqueue_live q f).1
unfolding enqueue_live
enqueue_live-IsQos q f fits v =
    let l = lane_of f.kind q in
    let b = is_video f.kind && f.keyframe in
    let w = lane_of-IsLane f.kind q v in
    let pushed =
      push-IsQos q f (cleared b l) (omega (arith, fits, ap (λ p. p.max_bytes) (cleared-policy b l)))
        (cleared-IsLane b l w) v in
    elim (Bool-cases (
      is_video f.kind
      && (not f.keyframe
          && (any_keyframe l.frames
              && is_over l.policy (length f.payload) (length l.frames) l.bytes)))) [
                | inl protects ↦ rw protects v
                | inr free ↦ rw free pushed
              ]

pub enqueue_media-IsQos :
    (q : MediaQos) (f : MediaFrame) (now : ℕ) → IsQos q → IsQos (enqueue_media q f now).1
unfolding enqueue_media
enqueue_media-IsQos q f now v = elim (Bool-cases (length f.payload == 0)) [
  | inl empty ↦ rw empty v
  | inr filled ↦ elim (Bool-cases (ltb (lane_of f.kind q).policy.max_bytes (length f.payload))) [
    | inl large ↦ rw (filled, large) v
    | inr fits ↦ elim (Bool-cases (leb f.expires_at now)) [
      | inl late ↦ rw (filled, fits, late) v
      | inr live ↦
          let within : length f.payload ≤ (lane_of f.kind q).policy.max_bytes = ground arith in
          rw (filled, fits, live)
            (enqueue_live-IsQos (evict_expired q now) f
              (omega (arith, within, ap (λ p. p.max_bytes) (evicted-policy f.kind q now)))
              (evict_expired-IsQos q now v))
    ]
  ]
]
