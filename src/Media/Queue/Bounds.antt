-- ===== src/Media/Queue/Bounds.antt =====
-- What the queue of screen video holds.
use ssh_mobile.Base.{
  ℕ, ◌+◌, ◌≤◌, ◌<◌, ◌≡◌, false, List, [], ◌∷◌, ◌++◌, Option, none, some, leb, length, ok, arith,
  All, Bool-cases, Option-cases, inl, inr, length-append,
}
use ssh_mobile.Media.Queue.{
  EncodedVideoFrame, VideoQueue, validate_frame, drop_stale, evict_stale, remove_delta, push,
  screen_video_queue_capacity,
}

-- A delta that comes after another frame, in sequence and in time.
abbrev pub Follows : EncodedVideoFrame → EncodedVideoFrame → Type 0
Follows f g = (f.sequence < g.sequence) × (f.timestamp < g.timestamp) × (g.keyframe ≡ false)

-- Each frame is followed by deltas that come after it.
abbrev pub IsAscending : List EncodedVideoFrame → Type 0
IsAscending [] = Unit {0}
IsAscending (f ∷ fs) = All (Follows f) fs × IsAscending fs

abbrev pub IsUpTo : Option ℕ → ℕ → Type 0
IsUpTo none n = ⊥
IsUpTo (some last) n = n ≤ last

-- A valid frame that is not after the last one.
abbrev pub IsHeld : VideoQueue → EncodedVideoFrame → Type 0
IsHeld q f =
    IsUpTo q.last_sequence f.sequence
    × IsUpTo q.last_timestamp f.timestamp
    × (validate_frame f ≡ ok tt)

pub record IsQueue (q : VideoQueue) : Type 0 where
  pub short : length q.frames ≤ screen_video_queue_capacity
  pub ascending : IsAscending q.frames
  pub held : All (IsHeld q) q.frames

module _ (P : EncodedVideoFrame → Type 0) where
  All-append :
      (fs : List EncodedVideoFrame) (f : EncodedVideoFrame)
      → All P fs
      → P f
      → All P (fs ++ (f ∷ []))
  All-append [] f a p = (p, tt)
  All-append (g ∷ gs) f a p = (a.0, All-append gs f a.1 p)

  All-drop_stale : (now : ℕ) (fs : List EncodedVideoFrame) → All P fs → All P (drop_stale now fs).0
  unfolding drop_stale
  All-drop_stale now [] a = tt
  All-drop_stale now (f ∷ fs) a = elim (Bool-cases (leb f.expires_at now)) [
    | inl late ↦ rw late (All-drop_stale now fs a.1)
    | inr live ↦ rw live a
  ]

  pub All-remove_delta :
      (fs gs : List EncodedVideoFrame) → remove_delta fs ≡ some gs → All P fs → All P gs
  unfolding remove_delta
  All-remove_delta [] gs h a = absurd cc
  All-remove_delta (f ∷ fs) gs h a = elim (Bool-cases f.keyframe) [
    | inr delta ↦ let same : fs ≡ gs = cc (rw delta at h) in rw (← same) a.1
    | inl key ↦ elim (Option-cases (remove_delta fs)) [
      | inl stuck ↦ absurd (cc (rw (key, stuck) at h))
      | inr (rest, found) ↦
          let same : f ∷ rest ≡ gs = cc (rw (key, found) at h) in
          rw (← same) (a.0, All-remove_delta fs rest found a.1)
    ]
  ]

pub All-map :
    {P Q : EncodedVideoFrame → Type 0} (fs : List EncodedVideoFrame)
    → ((f : EncodedVideoFrame) → P f → Q f)
    → All P fs
    → All Q fs
All-map [] h a = tt
All-map (f ∷ fs) h a = (h f a.0, All-map fs h a.1)

IsAscending-append :
    (fs : List EncodedVideoFrame) (f : EncodedVideoFrame)
    → IsAscending fs
    → All (λ g. Follows g f) fs
    → IsAscending (fs ++ (f ∷ []))
IsAscending-append [] f a h = (tt, tt)
IsAscending-append (g ∷ gs) f a h =
    (All-append (Follows g) gs f a.0 h.0, IsAscending-append gs f a.1 h.1)

IsAscending-drop_stale :
    (now : ℕ) (fs : List EncodedVideoFrame) → IsAscending fs → IsAscending (drop_stale now fs).0
unfolding drop_stale
IsAscending-drop_stale now [] a = tt
IsAscending-drop_stale now (f ∷ fs) a = elim (Bool-cases (leb f.expires_at now)) [
  | inl late ↦ rw late (IsAscending-drop_stale now fs a.1)
  | inr live ↦ rw live a
]

length-drop_stale :
    (now : ℕ) (fs : List EncodedVideoFrame) → length (drop_stale now fs).0 ≤ length fs
unfolding drop_stale
length-drop_stale now [] = omega arith
length-drop_stale now (f ∷ fs) = ground (arith, length-drop_stale now fs)

pub IsAscending-remove_delta :
    (fs gs : List EncodedVideoFrame)
    → remove_delta fs ≡ some gs
    → IsAscending fs
    → IsAscending gs × (length gs + 1 ≡ length fs)
unfolding remove_delta
IsAscending-remove_delta [] gs h a = absurd cc
IsAscending-remove_delta (f ∷ fs) gs h a = elim (Bool-cases f.keyframe) [
  | inr delta ↦ let same : fs ≡ gs = cc (rw delta at h) in rw (← same) (a.1, omega arith)
  | inl key ↦ elim (Option-cases (remove_delta fs)) [
    | inl stuck ↦ absurd (cc (rw (key, stuck) at h))
    | inr (rest, found) ↦
        let same : f ∷ rest ≡ gs = cc (rw (key, found) at h) in
        let (tail, size) = IsAscending-remove_delta fs rest found a.1 in
        rw (← same) ((All-remove_delta (Follows f) fs rest found a.0, tail), omega (arith, size))
  ]
]

pub evict_stale-IsQueue : (q : VideoQueue) (now : ℕ) → IsQueue q → IsQueue (evict_stale q now)
unfolding evict_stale
evict_stale-IsQueue q now v = record {
  short = omega (arith, v.short, length-drop_stale now q.frames);
  ascending = IsAscending-drop_stale now q.frames v.ascending;
  held = All-drop_stale (IsHeld q) now q.frames v.held;
}

-- What `push` needs of the frames that stay.
pub push-IsQueue :
    (q : VideoQueue) (f : EncodedVideoFrame) (kept : List EncodedVideoFrame) (dropped : ℕ)
    → length kept < screen_video_queue_capacity
    → IsAscending kept
    → All (λ g. Follows g f × (validate_frame g ≡ ok tt)) kept
    → validate_frame f ≡ ok tt
    → IsQueue (push q f kept dropped).1
unfolding push
push-IsQueue q f kept dropped room a h valid = record {
  short = omega (arith, room, length-append kept (f ∷ []));
  ascending = IsAscending-append kept f a (All-map kept (λ g p. p.0) h);
  held =
      All-append _ kept f
        (All-map kept (λ g p. (omega (arith, p.0.0), omega (arith, p.0.1), p.1)) h)
        (omega arith, omega arith, valid);
}
