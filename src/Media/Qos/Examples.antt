-- ===== src/Media/Qos/Examples.antt =====
-- Two frames in the media queues of native/network_core/crates/network-webrtc/src/qos.rs.
use ssh_mobile.Base.{◌≡◌, refl, true, false, List, [], ◌∷◌, some, arith}
use ssh_mobile.Media.Qos.{
  MediaFrame, MediaQos, audio, data_channel, audio_policy, video_policy, data_channel_policy,
  from_config, lane_of, not_empty, next_kind, enqueue_media, enqueue_live, evict_expired,
  evict_lane, evict_front, push, make_room,
}
use ssh_mobile.Media.Qos.Lanes.{IsQos}
use ssh_mobile.Media.Qos.Calls.{
  QosCall, enqueues, call_media, call_media_each, call_media_each-IsQos,
}

abbrev sound : MediaFrame
sound = record {
  kind = audio;
  sequence = 1;
  timestamp_ms = 1;
  keyframe = false;
  expires_at = 100;
  payload = 1 ∷ 2 ∷ [];
}

abbrev qos_calls : List QosCall
qos_calls = enqueues sound 0 ∷ enqueues (record sound { kind = data_channel }) 1 ∷ []

abbrev after_qos_calls : MediaQos
after_qos_calls =
    call_media_each (from_config audio_policy video_policy data_channel_policy) qos_calls

call_media_each-IsQos_example :
    IsQos (call_media_each (from_config audio_policy video_policy data_channel_policy) qos_calls)
call_media_each-IsQos_example =
    call_media_each-IsQos audio_policy video_policy data_channel_policy qos_calls
      (omega arith, omega arith) (omega arith, omega arith) (omega arith, omega arith)

serves_data : next_kind after_qos_calls ≡ some data_channel
unfolding call_media_each call_media enqueue_media enqueue_live evict_expired evict_lane evict_front
    push make_room from_config next_kind
serves_data = refl

sound_waits : not_empty (lane_of audio after_qos_calls) ≡ true
unfolding call_media_each call_media enqueue_media enqueue_live evict_expired evict_lane evict_front
    push make_room from_config
sound_waits = refl
