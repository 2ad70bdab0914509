-- ===== src/Media/Queue.antt =====
-- The queue of screen video: `VideoQueue` of
-- native/network_core/crates/network-webrtc/src/media/queue.rs. A method on `&mut self` returns
-- its result and the queue after. Instants are nanoseconds.
pub mod Bounds
pub mod Calls
use ssh_mobile.Base.{
  ℕ, ◌+◌, ◌*◌, Bool, true, false, ◌||◌, not, List, [], ◌∷◌, ◌++◌, Option, none, some, ltb, leb,
  ◌==◌, if◌then◌else◌, length, Result, ok, err,
}
use ssh_mobile.Base.Words.{saturating_add}
use ssh_mobile.Media.AnnexB.{is_valid_annex_b}

abbrev pub max_encoded_video_frame_bytes : ℕ
max_encoded_video_frame_bytes = 4194304

abbrev pub screen_video_queue_capacity : ℕ
screen_video_queue_capacity = 3

abbrev pub max_screen_video_width : ℕ
max_screen_video_width = 7680

abbrev pub max_screen_video_height : ℕ
max_screen_video_height = 4320

abbrev pub max_screen_video_pixels : ℕ
max_screen_video_pixels = 33177600

abbrev pub u32_max : ℕ
u32_max = 4294967295

pub data VideoCodec : Type 0 where
  h264 vp8 av1 : VideoCodec

pub record EncodedVideoFrame : Type 0 where
  pub codec : VideoCodec
  pub sequence : ℕ
  pub timestamp : ℕ
  pub width : ℕ
  pub height : ℕ
  pub keyframe : Bool
  pub payload : List ℕ
  pub expires_at : ℕ

pub data VideoEnqueueResult : Type 0 where
  accepted : VideoEnqueueResult
  accepted_after_dropping : ℕ → VideoEnqueueResult
  dropped_incoming dropped_as_stale : VideoEnqueueResult

pub data VideoFrameError : Type 0 where
  unsupported_codec : VideoCodec → VideoFrameError
  empty_payload payload_too_large invalid_access_unit : VideoFrameError
  timestamp_out_of_range invalid_resolution : VideoFrameError

pub data KeyframeRequestReason : Type 0 where
  disconnected decoder_reset ice_restart packet_loss : KeyframeRequestReason

pub record VideoMediaStats : Type 0 where
  pub enqueued : ℕ
  pub dequeued : ℕ
  pub dropped_stale : ℕ
  pub dropped_overflow : ℕ
  pub dropped_unsafe_delta : ℕ
  pub dropped_on_disconnect : ℕ
  pub keyframe_requests : ℕ

pub record VideoQueue : Type 0 where
  pub frames : List EncodedVideoFrame
  pub last_sequence : Option ℕ
  pub last_timestamp : Option ℕ
  pub pending_keyframe_request : Option KeyframeRequestReason
  pub stats : VideoMediaStats

abbrev pub new_queue : VideoQueue
new_queue = record {
  frames = [];
  last_sequence = none;
  last_timestamp = none;
  pending_keyframe_request = none;
  stats = record {
    enqueued = 0;
    dequeued = 0;
    dropped_stale = 0;
    dropped_overflow = 0;
    dropped_unsafe_delta = 0;
    dropped_on_disconnect = 0;
    keyframe_requests = 0;
  };
}

abbrev pub is_bad_resolution : EncodedVideoFrame → Bool
is_bad_resolution f =
    f.width == 0
    || (f.height == 0
        || (ltb max_screen_video_width f.width
            || (ltb max_screen_video_height f.height
                || ltb max_screen_video_pixels (f.width * f.height))))

unfoldable pub validate_frame : EncodedVideoFrame → Result VideoFrameError (Unit {0})
validate_frame f = elim f.codec [
  | vp8 ↦ err (unsupported_codec vp8)
  | av1 ↦ err (unsupported_codec av1)
  | h264 ↦
      if length f.payload == 0
      then err empty_payload
      else if ltb max_encoded_video_frame_bytes (length f.payload)
      then err payload_too_large
      else if ltb u32_max f.timestamp
      then err timestamp_out_of_range
      else if is_bad_resolution f
      then err invalid_resolution
      else if not (is_valid_annex_b f.payload)
      then err invalid_access_unit
      else ok tt
]

abbrev pub is_not_after : ℕ → Option ℕ → Bool
is_not_after n none = false
is_not_after n (some last) = leb n last

abbrev pub is_non_monotonic : VideoQueue → EncodedVideoFrame → Bool
is_non_monotonic q f =
    is_not_after f.sequence q.last_sequence || is_not_after f.timestamp q.last_timestamp

-- The frames that stay, and how many are stale.
unfoldable pub drop_stale : ℕ → List EncodedVideoFrame → List EncodedVideoFrame × ℕ
drop_stale now [] = ([], 0)
drop_stale now (f ∷ fs) =
    let (kept, dropped) = drop_stale now fs in
    if leb f.expires_at now then (kept, saturating_add dropped 1) else (f ∷ fs, 0)

unfoldable pub evict_stale : VideoQueue → ℕ → VideoQueue
evict_stale q now =
    let (kept, dropped) = drop_stale now q.frames in
    record q {
      frames = kept;
      stats = record q.stats { dropped_stale = saturating_add q.stats.dropped_stale dropped };
    }

-- Without the first frame that is no keyframe.
unfoldable pub remove_delta : List EncodedVideoFrame → Option (List EncodedVideoFrame)
remove_delta [] = none
remove_delta (f ∷ fs) =
    let rest = remove_delta fs in
    if not f.keyframe then some fs else (elim rest [ none ↦ none | some gs ↦ some (f ∷ gs) ])

-- The frames that stay when a frame comes in, and the number of those that do not: a keyframe
-- replaces all, a delta takes the place of a delta in a full queue.
unfoldable pub room_for : Bool → List EncodedVideoFrame → Option (List EncodedVideoFrame × ℕ)
room_for true fs = some ([], length fs)
room_for false fs =
    if leb screen_video_queue_capacity (length fs)
    then (elim (remove_delta fs) [ none ↦ none | some kept ↦ some (kept, 1) ])
    else some (fs, 0)

abbrev pub result_of : ℕ → VideoEnqueueResult
result_of dropped = if dropped == 0 then accepted else accepted_after_dropping dropped

abbrev pub count_unsafe : VideoQueue → VideoQueue
count_unsafe q = record q {
  stats = record q.stats { dropped_unsafe_delta = saturating_add q.stats.dropped_unsafe_delta 1 };
}

-- The end of `enqueue`, with the frames that stay and the number of those that do not.
unfoldable pub push :
    VideoQueue → EncodedVideoFrame → List EncodedVideoFrame → ℕ → VideoEnqueueResult × VideoQueue
push q f kept dropped = (
  result_of dropped,
  record q {
    frames = kept ++ (f ∷ []);
    last_sequence = some f.sequence;
    last_timestamp = some f.timestamp;
    stats = record q.stats {
      dropped_overflow = saturating_add q.stats.dropped_overflow dropped;
      enqueued = saturating_add q.stats.enqueued 1;
    };
  },
)

-- `enqueue` of a valid frame into a queue without stale frames in front.
unfoldable pub enqueue_fresh : VideoQueue → EncodedVideoFrame → ℕ → VideoEnqueueResult × VideoQueue
enqueue_fresh q f now =
    if leb f.expires_at now
    then (
      dropped_as_stale,
      record q {
        stats = record q.stats { dropped_stale = saturating_add q.stats.dropped_stale 1 };
      },
    )
    else if is_non_monotonic q f
    then (dropped_incoming, count_unsafe q)
    else (elim (room_for f.keyframe q.frames) [
      | none ↦ (dropped_incoming, count_unsafe q)
      | some (kept, dropped) ↦ push q f kept dropped
    ])

unfoldable pub enqueue_frame :
    VideoQueue → EncodedVideoFrame → ℕ → Result VideoFrameError VideoEnqueueResult × VideoQueue
enqueue_frame q f now = elim (validate_frame f) [
  | err e ↦ (err e, q)
  | ok u ↦ let (result, q') = enqueue_fresh (evict_stale q now) f now in (ok result, q')
]

abbrev pub pop_front : VideoQueue → Option EncodedVideoFrame × VideoQueue
pop_front q = elim q.frames [
  | [] ↦ (none, q)
  | f ∷ fs ↦ (
    some f,
    record q {
      frames = fs;
      stats = record q.stats { dequeued = saturating_add q.stats.dequeued 1 };
    },
  )
]

unfoldable pub pop : VideoQueue → ℕ → Option EncodedVideoFrame × VideoQueue
pop q now = pop_front (evict_stale q now)

unfoldable pub request_keyframe : VideoQueue → KeyframeRequestReason → VideoQueue
request_keyframe q reason = elim q.pending_keyframe_request [
  | some r ↦ q
  | none ↦ record q {
    pending_keyframe_request = some reason;
    stats = record q.stats { keyframe_requests = saturating_add q.stats.keyframe_requests 1 };
  }
]

abbrev pub dropped_all : VideoQueue → VideoQueue
dropped_all q = record q {
  frames = [];
  last_sequence = none;
  last_timestamp = none;
  stats = record q.stats {
    dropped_on_disconnect = saturating_add q.stats.dropped_on_disconnect (length q.frames);
  };
}

unfoldable pub on_disconnect : VideoQueue → VideoQueue
on_disconnect q = request_keyframe (dropped_all q) disconnected

unfoldable pub on_decoder_reset : VideoQueue → VideoQueue
on_decoder_reset q =
    request_keyframe (record (dropped_all q) { pending_keyframe_request = none }) decoder_reset

unfoldable pub clear : VideoQueue → VideoQueue
clear q = record q {
  frames = [];
  last_sequence = none;
  last_timestamp = none;
  pending_keyframe_request = none;
}

unfoldable pub take_keyframe_request : VideoQueue → Option KeyframeRequestReason × VideoQueue
take_keyframe_request q = (q.pending_keyframe_request, record q { pending_keyframe_request = none })
