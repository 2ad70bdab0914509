-- ===== src/Media/Examples.antt =====
-- Frames of native/network_core/crates/network-webrtc/src/media/queue.rs.
use ssh_mobile.Base.{ℕ, ◌≡◌, refl, Bool, true, false, List, [], ◌∷◌, some, length, map}
use ssh_mobile.Media.AnnexB.{
  check_nalus, is_valid_annex_b, is_valid_annex_b-total, next_start_code, scan_start_code,
}
use ssh_mobile.Media.Queue.{
  EncodedVideoFrame, h264, new_queue, validate_frame, enqueue_frame, enqueue_fresh, evict_stale,
  drop_stale, room_for, remove_delta, push,
}
use ssh_mobile.Media.Queue.Bounds.{IsQueue}
use ssh_mobile.Media.Queue.Calls.{QueueCall, enqueues, call, call_each, call_each-IsQueue}

abbrev nalu : List ℕ
nalu = 0 ∷ 0 ∷ 0 ∷ 1 ∷ 0x65 ∷ 9 ∷ []

abbrev frame : ℕ → Bool → EncodedVideoFrame
frame n key = record {
  codec = h264;
  sequence = n;
  timestamp = n;
  width = 640;
  height = 480;
  keyframe = key;
  payload = nalu;
  expires_at = 100;
}

abbrev calls : List QueueCall
calls =
    enqueues (frame 1 true) 0
    ∷ enqueues (frame 2 false) 0
    ∷ enqueues (frame 3 false) 0
    ∷ enqueues (frame 4 false) 0
    ∷ enqueues (frame 4 false) 0
    ∷ []

-- The fourth frame takes the place of the second; its repetition is dropped.
keeps_three : map (λ f. f.sequence) (call_each new_queue calls).frames ≡ 1 ∷ 3 ∷ 4 ∷ []
unfolding call_each call enqueue_frame enqueue_fresh evict_stale drop_stale room_for remove_delta
    push validate_frame is_valid_annex_b check_nalus next_start_code scan_start_code
keeps_three = refl

call_each-IsQueue_example : IsQueue (call_each new_queue calls)
call_each-IsQueue_example = call_each-IsQueue calls

is_valid_annex_b-total_example :
    check_nalus (length nalu) nalu 0 false ≡ some (is_valid_annex_b nalu)
is_valid_annex_b-total_example = is_valid_annex_b-total nalu
