-- ===== src/Stream/Buffer.antt =====
-- The bytes of the streams of a peer:
-- native/network_core/crates/network-core/src/stream/manager_buffer.rs. A method that waits in a
-- loop is here one round of the loop under the lock, and says when it would wait.
use ssh_mobile.Base.{
  ℕ, ◌+◌, ◌-◌, ◌%◌, Bool, true, ◌||◌, not, List, [], ◌∷◌, ◌++◌, ltb, leb, ◌==◌, if◌then◌else◌,
  length, take, drop, none, some, Result, ok, err,
}
use ssh_mobile.Base.Maps.{get, put}
use ssh_mobile.Base.Words.{u64_mod}
use ssh_mobile.Stream.Codec.{Bytes, StreamError, not_found, closed, invalid_argument, invalid_frame}
use ssh_mobile.Stream.Entry.{
  is_event, StreamKey, key_eq, SendStream, StreamEntry, wake, StreamState,
}

abbrev pub max_per_stream_buffer_capacity : ℕ
max_per_stream_buffer_capacity = 262144

unfoldable pub register_quic_send :
    StreamState → StreamKey → SendStream → Result StreamError (Unit {0}) × StreamState
register_quic_send s key send = elim (get key s.streams) [
  | none ↦ (err not_found, s)
  | some entry ↦
      (ok tt, record s { streams = put key (record entry { quic_send = some send }) s.streams })
]

unfoldable pub send_guard : StreamState → StreamKey → Result StreamError (Unit {0})
send_guard s key = elim (get key s.streams) [
  | none ↦ err not_found
  | some entry ↦ if entry.send_closed then err closed else ok tt
]

unfoldable pub next_send_seq : StreamState → StreamKey → Result StreamError ℕ
next_send_seq s key = elim (get key s.streams) [
  | none ↦ err not_found
  | some entry ↦ if entry.send_closed then err closed else ok entry.next_send_seq
]

unfoldable pub bump_send_seq :
    StreamState → StreamKey → ℕ → Result StreamError (Unit {0}) × StreamState
bump_send_seq s key count = elim (get key s.streams) [
  | none ↦ (err not_found, s)
  | some entry ↦
      if entry.send_closed
      then (err closed, s)
      else (let next = (entry.next_send_seq + count) % u64_mod in
          (ok tt, record s { streams = put key (record entry { next_send_seq = next }) s.streams }))
]

-- `quic_send_bytes` before the write.
unfoldable pub take_quic_send :
    StreamState → StreamKey → Result StreamError SendStream × StreamState
take_quic_send s key = elim (get key s.streams) [
  | none ↦ (err not_found, s)
  | some entry ↦ if entry.send_closed then (err closed, s) else elim entry.quic_send [
    | none ↦ (err closed, s)
    | some send ↦
        (ok send, record s { streams = put key (record entry { quic_send = none }) s.streams })
  ]
]

-- `quic_send_bytes` after the write, which has succeeded or not.
unfoldable pub finish_quic_write :
    StreamState → StreamKey → SendStream → Bool → Result StreamError (Unit {0}) × StreamState
finish_quic_write s key send written =
    let result = if written then ok tt else err closed in
    elim (get key s.streams) [
      | none ↦ (result, s)
      | some entry ↦
          if entry.send_closed
          then (err closed, s)
          else if written
          then (
            result,
            record s { streams = put key (record entry { quic_send = some send }) s.streams },
          )
          else (result, s)
    ]

unfoldable pub quic_finish_send :
    StreamState → StreamKey → Result StreamError (Unit {0}) × StreamState
quic_finish_send s key = elim (get key s.streams) [
  | none ↦ (err not_found, s)
  | some entry ↦ if entry.send_closed then (ok tt, s) else elim entry.quic_send [
    | none ↦ (err closed, s)
    | some send ↦
        (ok tt, record s { streams = put key (record entry { quic_send = none }) s.streams })
  ]
]

pub data BytesStep : Type 0 where
  -- Already received, or late for a close: nothing is done.
  dropped : BytesStep
  -- The buffer holds this many bytes now.
  appended : ℕ → BytesStep
  waits : BytesStep
  refused : StreamError → BytesStep

unfoldable pub append_bytes : StreamEntry → Bytes → StreamEntry
append_bytes entry bytes = wake (record entry {
  next_recv_seq = (entry.next_recv_seq + 1) % u64_mod;
  recv_bytes = entry.recv_bytes + length bytes;
  recv_chunks = entry.recv_chunks ++ (bytes ∷ []);
})

-- One round of the first loop of `handle_bytes`.
unfoldable pub handle_bytes : StreamState → StreamKey → ℕ → Bytes → BytesStep × StreamState
handle_bytes s key seq bytes = elim (get key s.streams) [
  | none ↦ (refused not_found, s)
  | some entry ↦
      if entry.recv_closed || entry.send_closed
      then (dropped, s)
      else if ltb seq entry.next_recv_seq
      then (dropped, s)
      else if not (seq == entry.next_recv_seq)
      then (refused invalid_frame, s)
      else if leb (entry.recv_bytes + length bytes) max_per_stream_buffer_capacity
      then (
        appended (entry.recv_bytes + length bytes),
        record s { streams = put key (append_bytes entry bytes) s.streams },
      )
      else (waits, s)
]

-- The test of the second loop of `handle_bytes`: the writer need not wait for the drainer.
unfoldable pub is_taken : StreamState → StreamKey → ℕ → Bool
is_taken s key after = elim (get key s.streams) [
  | none ↦ true
  | some entry ↦ not (is_event entry.consumer) || ltb entry.recv_bytes after
]

pub data DrainStep : Type 0 where
  -- The stream is gone.
  ends : DrainStep
  emits : Bytes → DrainStep
  emits_closed : DrainStep
  idles : DrainStep

unfoldable pub pop_chunk :
    StreamState → StreamKey → StreamEntry → List Bytes → DrainStep × StreamState
pop_chunk s key entry [] = if entry.recv_closed then (emits_closed, s) else (idles, s)
pop_chunk s key entry (chunk ∷ chunks) = (
  emits chunk,
  record s {
    streams =
        put key
          (wake
            (record entry { recv_bytes = entry.recv_bytes - length chunk; recv_chunks = chunks }))
          s.streams;
  },
)

-- One round of `drain_events`.
unfoldable pub drain_events : StreamState → StreamKey → DrainStep × StreamState
unfolding pop_chunk
drain_events s key = elim (get key s.streams) [
  | none ↦ (ends, s)
  | some entry ↦ pop_chunk s key entry entry.recv_chunks
]

-- The inner loop of `receive`: what fills a buffer of `room` bytes, and the chunks left.
unfoldable pub fill : ℕ → List Bytes → Bytes × List Bytes
fill room [] = ([], [])
fill room (chunk ∷ chunks) =
    let rest = fill (room - length chunk) chunks in
    if room == 0
    then ([], chunk ∷ chunks)
    else if leb (length chunk) room
    then (chunk ++ rest.0, rest.1)
    else (take room chunk, drop room chunk ∷ chunks)

pub data ReceiveStep : Type 0 where
  -- The bytes written to the buffer; none at the end of the stream.
  received : Bytes → ReceiveStep
  waits_for_bytes : ReceiveStep
  failed : StreamError → ReceiveStep

unfoldable pub finish_receive :
    StreamState → StreamKey → StreamEntry → Bytes → ReceiveStep × StreamState
finish_receive s key entry filled =
    if ltb 0 (length filled)
    then (
      received filled,
      record s {
        streams =
            put key (wake (record entry { recv_bytes = entry.recv_bytes - length filled }))
              s.streams;
      },
    )
    else (
      if entry.recv_closed then received [] else waits_for_bytes,
      record s { streams = put key entry s.streams },
    )

-- One round of `receive` with a buffer of `room` bytes.
unfoldable pub receive_bytes : StreamState → StreamKey → ℕ → ReceiveStep × StreamState
unfolding finish_receive
receive_bytes s key room = elim (get key s.streams) [
  | none ↦ (failed not_found, s)
  | some entry ↦
      if is_event entry.consumer
      then (failed invalid_argument, s)
      else (let (filled, chunks) = fill room entry.recv_chunks in
          finish_receive s key (record entry { recv_chunks = chunks }) filled)
]
