-- ===== src/Stream/Calls/Edits.antt =====
-- What a call does to the streams of a peer: it writes an entry, opens a stream, or ends streams.
use ssh_mobile.Base.{
  ℕ, ◌+◌, ◌≤◌, ◌≡◌, refl, ap, Bool, false, List, [], ◌∷◌, none, some, leb, ltb, ◌==◌, ◌||◌, is_some,
  length, concat, arith, Bool-cases, Option-cases, inl, inr, length-append,
}
use ssh_mobile.Base.Maps.{get, has, put}
use ssh_mobile.Base.Sets.{contains}
use ssh_mobile.Stream.Codec.{Bytes, max_service_bytes}
use ssh_mobile.Stream.Entry.{
  is_event, StreamConsumer, StreamKey, key_eq, StreamEntry, new_entry, StreamState,
  max_concurrent_streams, max_retired_stream_keys, wake, PathLease, SendStream,
}
use ssh_mobile.Stream.Registry.{
  open_stream, bind_lease, take_lease, restore_lease, handle_close, close_local, close_all,
  close_inactive, remove_stream, remove_streams, inactive_keys,
}
use ssh_mobile.Stream.Buffer.{
  register_quic_send, bump_send_seq, take_quic_send, finish_quic_write, quic_finish_send,
  handle_bytes, append_bytes, drain_events, pop_chunk, receive_bytes, fill, finish_receive,
  max_per_stream_buffer_capacity,
}
use ssh_mobile.Stream.Pipe.Refines.{append_bytes-IsCounted, taken, taken-IsCounted}
use ssh_mobile.Stream.Calls.{
  StreamCall, opens, binds, restores, takes, takes_send, finishes_send, peer_closes, local_closes,
  drains, registers, bumps, finishes_write, writes, reads, closes_all, closes_inactive, call_stream,
}

-- The buffer holds what it says, and no more than it may.
abbrev pub IsBuffered : StreamEntry → Type 0
IsBuffered e =
    (e.recv_bytes ≡ length (concat e.recv_chunks)) × (e.recv_bytes ≤ max_per_stream_buffer_capacity)

pub data Edits (s t : StreamState) : Type 0 where
  keeps : t ≡ s → Edits s t
  writes_entry :
      (key : StreamKey) (e e' : StreamEntry)
      → get key s.streams ≡ some e
      → (IsBuffered e → IsBuffered e')
      → t ≡ record s { streams = put key e' s.streams }
      → Edits s t
  opens_entry :
      (key : StreamKey) (consumer : StreamConsumer)
      → leb max_concurrent_streams (length s.streams) ≡ false
      → has key s.streams ≡ false
      → t ≡ record s { streams = put key (new_entry consumer) s.streams }
      → Edits s t
  removes : (keys : List StreamKey) → t ≡ remove_streams keys s → Edits s t
  ends_entry :
      (key : StreamKey) (e e' : StreamEntry)
      → get key s.streams ≡ some e
      → (IsBuffered e → IsBuffered e')
      → t ≡ remove_stream (record s { streams = put key e' s.streams }) key
      → Edits s t
  clears : t ≡ (close_all s).1 → Edits s t

module _ (s : StreamState) (key : StreamKey) where
  -- A call that first looks its stream up.
  Edits-of_get :
      (t : StreamState)
      → (get key s.streams ≡ none → Edits s t)
      → ((e : StreamEntry) → get key s.streams ≡ some e → Edits s t)
      → Edits s t
  Edits-of_get t f g = elim (Option-cases (get key s.streams)) [
    | inl gone ↦ f gone
    | inr (e, found) ↦ g e found
  ]

open_stream-Edits :
    (s : StreamState) (key : StreamKey) (service : Bytes) (consumer : StreamConsumer)
    → Edits s (open_stream s key service consumer).1
unfolding open_stream
open_stream-Edits s key service consumer =
    elim (Bool-cases (length service == 0 || ltb max_service_bytes (length service))) [
      | inl bad ↦ rw (bad) (keeps refl)
      | inr good ↦ elim (Bool-cases (leb max_concurrent_streams (length s.streams))) [
        | inl full ↦ rw (good, full) (keeps refl)
        | inr room ↦ elim (Bool-cases (has key s.streams)) [
          | inl twice ↦ rw (good, room, twice) (keeps refl)
          | inr new ↦ elim (Bool-cases (contains s.retired key)) [
            | inl spent ↦ rw (good, room, new, spent) (keeps refl)
            | inr fresh ↦ elim (Bool-cases (leb max_retired_stream_keys (length s.retired))) [
              | inl over ↦ rw (good, room, new, fresh, over) (keeps refl)
              | inr under ↦
                  rw (good, room, new, fresh, under) (opens_entry key consumer room new refl)
            ]
          ]
        ]
      ]
    ]

bind_lease-Edits :
    (s : StreamState) (key : StreamKey) (lease : PathLease) → Edits s (bind_lease s key lease).1
unfolding bind_lease
bind_lease-Edits s key lease =
    Edits-of_get s key _ (λ gone. rw (bind_lease, gone) (keeps refl))
      λ e found. elim (Bool-cases (is_some e.path_lease)) [
        | inl bound ↦ rw (bind_lease, found, bound) (keeps refl)
        | inr free ↦ rw (bind_lease, found, free) (writes_entry key e _ found (λ b. b) refl)
      ]

take_lease-Edits : (s : StreamState) (key : StreamKey) → Edits s (take_lease s key).1
unfolding take_lease
take_lease-Edits s key =
    Edits-of_get s key _ (λ gone. rw (take_lease, gone) (keeps refl))
      λ e found. elim (Bool-cases e.send_closed) [
        | inl shut ↦ rw (take_lease, found, shut) (keeps refl)
        | inr live ↦ elim (Option-cases e.path_lease) [
          | inl bare ↦ rw (take_lease, found, live, bare) (keeps refl)
          | inr (lease, bound) ↦
              rw (take_lease, found, live, bound) (writes_entry key e _ found (λ b. b) refl)
        ]
      ]

restore_lease-Edits :
    (s : StreamState) (key : StreamKey) (lease : PathLease) → Edits s (restore_lease s key lease).1
unfolding restore_lease
restore_lease-Edits s key lease =
    Edits-of_get s key _ (λ gone. rw (restore_lease, gone) (keeps refl))
      λ e found. elim (Bool-cases (e.recv_closed || is_some e.path_lease)) [
        | inl shut ↦ rw (restore_lease, found, shut) (keeps refl)
        | inr free ↦ rw (restore_lease, found, free) (writes_entry key e _ found (λ b. b) refl)
      ]

handle_close-Edits : (s : StreamState) (key : StreamKey) → Edits s (handle_close s key)
unfolding handle_close
handle_close-Edits s key =
    Edits-of_get s key _ (λ gone. rw (handle_close, gone) (keeps refl))
      λ e found. elim (Bool-cases e.recv_closed) [
        | inl twice ↦ rw (handle_close, found, twice) (keeps refl)
        | inr first ↦ elim (Bool-cases e.send_closed) [
          | inl both ↦
              rw (handle_close, found, first, both) (ends_entry key e _ found (λ b. b) refl)
          | inr half ↦
              rw (handle_close, found, first, half) (writes_entry key e _ found (λ b. b) refl)
        ]
      ]

close_local-Edits : (s : StreamState) (key : StreamKey) → Edits s (close_local s key)
unfolding close_local
close_local-Edits s key =
    Edits-of_get s key _ (λ gone. rw (close_local, gone) (keeps refl))
      λ e found. elim (Bool-cases e.send_closed) [
        | inl twice ↦ rw (close_local, found, twice) (keeps refl)
        | inr first ↦ elim (Bool-cases e.recv_closed) [
          | inl both ↦ rw (close_local, found, first, both) (ends_entry key e _ found (λ b. b) refl)
          | inr half ↦
              rw (close_local, found, first, half) (writes_entry key e _ found (λ b. b) refl)
        ]
      ]

register_quic_send-Edits :
    (s : StreamState) (key : StreamKey) (send : SendStream)
    → Edits s (register_quic_send s key send).1
unfolding register_quic_send
register_quic_send-Edits s key send =
    Edits-of_get s key _ (λ gone. rw (register_quic_send, gone) (keeps refl))
      λ e found. rw (register_quic_send, found) (writes_entry key e _ found (λ b. b) refl)

bump_send_seq-Edits :
    (s : StreamState) (key : StreamKey) (count : ℕ) → Edits s (bump_send_seq s key count).1
unfolding bump_send_seq
bump_send_seq-Edits s key count =
    Edits-of_get s key _ (λ gone. rw (bump_send_seq, gone) (keeps refl))
      λ e found. elim (Bool-cases e.send_closed) [
        | inl shut ↦ rw (bump_send_seq, found, shut) (keeps refl)
        | inr live ↦ rw (bump_send_seq, found, live) (writes_entry key e _ found (λ b. b) refl)
      ]

take_quic_send-Edits : (s : StreamState) (key : StreamKey) → Edits s (take_quic_send s key).1
unfolding take_quic_send
take_quic_send-Edits s key =
    Edits-of_get s key _ (λ gone. rw (take_quic_send, gone) (keeps refl))
      λ e found. elim (Bool-cases e.send_closed) [
        | inl shut ↦ rw (take_quic_send, found, shut) (keeps refl)
        | inr live ↦ elim (Option-cases e.quic_send) [
          | inl bare ↦ rw (take_quic_send, found, live, bare) (keeps refl)
          | inr (send, had) ↦
              rw (take_quic_send, found, live, had) (writes_entry key e _ found (λ b. b) refl)
        ]
      ]

quic_finish_send-Edits : (s : StreamState) (key : StreamKey) → Edits s (quic_finish_send s key).1
unfolding quic_finish_send
quic_finish_send-Edits s key =
    Edits-of_get s key _ (λ gone. rw (quic_finish_send, gone) (keeps refl))
      λ e found. elim (Bool-cases e.send_closed) [
        | inl shut ↦ rw (quic_finish_send, found, shut) (keeps refl)
        | inr live ↦ elim (Option-cases e.quic_send) [
          | inl bare ↦ rw (quic_finish_send, found, live, bare) (keeps refl)
          | inr (send, had) ↦
              rw (quic_finish_send, found, live, had) (writes_entry key e _ found (λ b. b) refl)
        ]
      ]

finish_quic_write-Edits :
    (s : StreamState) (key : StreamKey) (send : SendStream) (written : Bool)
    → Edits s (finish_quic_write s key send written).1
unfolding finish_quic_write
finish_quic_write-Edits s key send written =
    Edits-of_get s key _ (λ gone. rw (finish_quic_write, gone) (keeps refl))
      λ e found. elim (Bool-cases e.send_closed) [
        | inl shut ↦ rw (finish_quic_write, found, shut) (keeps refl)
        | inr live ↦ elim (Bool-cases written) [
          | inl done ↦
              rw (finish_quic_write, found, live, done) (writes_entry key e _ found (λ b. b) refl)
          | inr lost ↦ rw (finish_quic_write, found, live, lost) (keeps refl)
        ]
      ]

append_bytes-IsBuffered :
    (e : StreamEntry) (bytes : Bytes)
    → e.recv_bytes + length bytes ≤ max_per_stream_buffer_capacity
    → IsBuffered e
    → IsBuffered (append_bytes e bytes)
unfolding append_bytes
append_bytes-IsBuffered e bytes room b = (append_bytes-IsCounted e bytes b.0, room)

handle_bytes-Edits :
    (s : StreamState) (key : StreamKey) (seq : ℕ) (bytes : Bytes)
    → Edits s (handle_bytes s key seq bytes).1
unfolding handle_bytes
handle_bytes-Edits s key seq bytes =
    Edits-of_get s key _ (λ gone. rw (handle_bytes, gone) (keeps refl))
      λ e found. elim (Bool-cases (e.recv_closed || e.send_closed)) [
        | inl late ↦ rw (handle_bytes, found, late) (keeps refl)
        | inr live ↦ elim (Bool-cases (ltb seq e.next_recv_seq)) [
          | inl again ↦ rw (handle_bytes, found, live, again) (keeps refl)
          | inr new ↦ elim (Bool-cases (seq == e.next_recv_seq)) [
            | inr gap ↦ rw (handle_bytes, found, live, new, gap) (keeps refl)
            | inl next ↦
                elim (Bool-cases
                  (leb (e.recv_bytes + length bytes) max_per_stream_buffer_capacity)) [
                    | inr full ↦ rw (handle_bytes, found, live, new, next, full) (keeps refl)
                    | inl room ↦
                        rw (handle_bytes, found, live, new, next, room)
                          (writes_entry key e (append_bytes e bytes) found
                            (append_bytes-IsBuffered e bytes (ground arith)) refl)
                  ]
          ]
        ]
      ]

pop_chunk-Edits :
    (s : StreamState) (key : StreamKey) (e : StreamEntry) (chunks : List Bytes)
    → get key s.streams ≡ some e
    → e.recv_chunks ≡ chunks
    → Edits s (pop_chunk s key e chunks).1
unfolding pop_chunk
pop_chunk-Edits s key e [] found eq = elim (Bool-cases e.recv_closed) [
  | inl shut ↦ rw shut (keeps refl)
  | inr live ↦ rw live (keeps refl)
]
pop_chunk-Edits s key e (chunk ∷ chunks) found eq =
    writes_entry key e _ found
      (λ b.
        omega (arith, ap (λ xs. length (concat xs)) eq, length-append {0} chunk (concat chunks)))
      refl

drain_events-Edits : (s : StreamState) (key : StreamKey) → Edits s (drain_events s key).1
unfolding drain_events
drain_events-Edits s key =
    Edits-of_get s key _ (λ gone. rw (drain_events, gone) (keeps refl))
      λ e found. rw (drain_events, found) (pop_chunk-Edits s key e e.recv_chunks found refl)

taken-IsBuffered : (e : StreamEntry) (room : ℕ) → IsBuffered e → IsBuffered (taken e room)
unfolding taken
taken-IsBuffered e room b = (taken-IsCounted e room b.0, omega arith)

-- A read of nothing may still drop empty chunks.
abbrev unread : StreamEntry → ℕ → StreamEntry
unread e room = record e { recv_chunks = (fill room e.recv_chunks).1 }

unread-IsBuffered :
    (e : StreamEntry) (room : ℕ)
    → ltb 0 (length (fill room e.recv_chunks).0) ≡ false
    → IsBuffered e
    → IsBuffered (unread e room)
unfolding taken
unread-IsBuffered e room none_read b =
    let counted = taken-IsCounted e room b.0 in (ground arith, b.1)

receive_bytes-Edits :
    (s : StreamState) (key : StreamKey) (room : ℕ) → Edits s (receive_bytes s key room).1
unfolding receive_bytes finish_receive taken
receive_bytes-Edits s key room =
    Edits-of_get s key _ (λ gone. rw (receive_bytes, gone) (keeps refl))
      λ e found. elim (Bool-cases (is_event e.consumer)) [
        | inl evented ↦ rw (receive_bytes, found, evented) (keeps refl)
        | inr polled ↦ elim (Bool-cases (ltb 0 (length (fill room e.recv_chunks).0))) [
          | inl some_bytes ↦
              rw (receive_bytes, found, polled, finish_receive, some_bytes)
                (writes_entry key e (wake (taken e room)) found (taken-IsBuffered e room) refl)
          | inr no_bytes ↦
              rw (receive_bytes, found, polled, finish_receive, no_bytes)
                (writes_entry key e (unread e room) found (unread-IsBuffered e room no_bytes) refl)
        ]
      ]

pub call_stream-Edits : (s : StreamState) (c : StreamCall) → Edits s (call_stream s c)
unfolding call_stream close_inactive
call_stream-Edits s (opens key service consumer) = open_stream-Edits s key service consumer
call_stream-Edits s (binds key lease) = bind_lease-Edits s key lease
call_stream-Edits s (restores key lease) = restore_lease-Edits s key lease
call_stream-Edits s (takes key) = take_lease-Edits s key
call_stream-Edits s (takes_send key) = take_quic_send-Edits s key
call_stream-Edits s (finishes_send key) = quic_finish_send-Edits s key
call_stream-Edits s (peer_closes key) = handle_close-Edits s key
call_stream-Edits s (local_closes key) = close_local-Edits s key
call_stream-Edits s (drains key) = drain_events-Edits s key
call_stream-Edits s (registers key send) = register_quic_send-Edits s key send
call_stream-Edits s (bumps key count) = bump_send_seq-Edits s key count
call_stream-Edits s (finishes_write key send written) = finish_quic_write-Edits s key send written
call_stream-Edits s (writes key seq bytes) = handle_bytes-Edits s key seq bytes
call_stream-Edits s (reads key room) = receive_bytes-Edits s key room
call_stream-Edits s closes_all = clears refl
call_stream-Edits s (closes_inactive is_active) = removes (inactive_keys is_active s.streams) refl
