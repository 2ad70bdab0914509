-- ===== src/Stream/Pipe.antt =====
-- What a stream promises: a pipe of bytes. The chunks, the wakes, the leases and the send halves
-- are forgotten.
pub mod Refines
pub mod History
use ssh_mobile.Base.{
  ℕ, zero, suc, ◌+◌, ◌-◌, ◌%◌, ◌≤◌, ◌≡◌, refl, sym, ap, ◌∙◌, Bool, true, false, ◌||◌, not, List, [],
  ◌∷◌, ◌++◌, ltb, leb, ◌==◌, if◌then◌else◌, length, take, drop, Option, none, some, arith,
  Bool-cases, Option-cases, inl, inr, concat, concat-append, take-append_ge, drop-append_ge,
  take-append_le, drop-append_le, length-append, append-nil, length-take, length-drop,
}
use mathlib.Core.Path.{subst}
use ssh_mobile.Base.Maps.{
  get, has, put, delete, Unique, get-put, get-delete, put-Unique, delete-Unique,
}
use ssh_mobile.Base.Words.{u64_mod}
use ssh_mobile.Stream.Codec.{Bytes, StreamError, not_found, invalid_argument, invalid_frame}
use ssh_mobile.Stream.Entry.{
  is_event, StreamKey, key_eq, key_beq_iff, StreamEntry, StreamState, wake,
}
use ssh_mobile.Stream.Registry.{handle_close, close_local, remove_stream}
use ssh_mobile.Stream.Buffer.{
  BytesStep, dropped, appended, waits, refused, handle_bytes, append_bytes, fill, ReceiveStep,
  received, waits_for_bytes, failed, receive_bytes, finish_receive, max_per_stream_buffer_capacity,
}

-- The bytes to be read, and what decides about more of them.
pub record Pipe : Type 0 where
  pub evented : Bool
  pub bytes : Bytes
  pub next_seq : ℕ
  pub write_closed : Bool
  pub read_closed : Bool

abbrev pub view : StreamEntry → Pipe
view e = record {
  evented = is_event e.consumer;
  bytes = concat e.recv_chunks;
  next_seq = e.next_recv_seq;
  write_closed = e.recv_closed;
  read_closed = e.send_closed;
}

abbrev pub pipe_of : StreamKey → StreamState → Option Pipe
pipe_of key s = elim (get key s.streams) [ none ↦ none | some e ↦ some (view e) ]

-- The calls that a pipe knows.
pub data PipeCall : Type 0 where
  writes : ℕ → Bytes → PipeCall
  reads : ℕ → PipeCall
  peer_closes local_closes : PipeCall

pub data PipeResult : Type 0 where
  wrote : BytesStep → PipeResult
  read : ReceiveStep → PipeResult
  closes : PipeResult

unfoldable pub write_pipe : Pipe → ℕ → Bytes → BytesStep × Pipe
write_pipe p seq bytes =
    if p.write_closed || p.read_closed || ltb seq p.next_seq
    then (dropped, p)
    else if not (seq == p.next_seq)
    then (refused invalid_frame, p)
    else if leb (length p.bytes + length bytes) max_per_stream_buffer_capacity
    then (
      appended (length p.bytes + length bytes),
      record p { bytes = p.bytes ++ bytes; next_seq = (p.next_seq + 1) % u64_mod },
    )
    else (waits, p)

-- A read takes as many bytes as there are and as fit.
unfoldable pub read_pipe : Pipe → ℕ → ReceiveStep × Pipe
read_pipe p room =
    if p.evented
    then (failed invalid_argument, p)
    else if ltb 0 (length (take room p.bytes))
    then (received (take room p.bytes), record p { bytes = drop room p.bytes })
    else if p.write_closed
    then (received [], p)
    else (waits_for_bytes, p)

-- A pipe ends when both sides have closed it.
unfoldable pub close_pipe : Pipe → Bool → Bool → Option Pipe
close_pipe p write_closed read_closed =
    if write_closed
    then (if read_closed
        then none
        else some (record p { write_closed = write_closed; read_closed = read_closed }))
    else some (record p { write_closed = write_closed; read_closed = read_closed })

unfoldable pub call_pipe : Option Pipe → PipeCall → PipeResult × Option Pipe
call_pipe none (writes seq bytes) = (wrote (refused not_found), none)
call_pipe none (reads room) = (read (failed not_found), none)
call_pipe none peer_closes = (closes, none)
call_pipe none local_closes = (closes, none)
call_pipe (some p) (writes seq bytes) =
    let (step, p') = write_pipe p seq bytes in (wrote step, some p')
call_pipe (some p) (reads room) = let (step, p') = read_pipe p room in (read step, some p')
call_pipe (some p) peer_closes =
    (closes, if p.write_closed then some p else close_pipe p true p.read_closed)
call_pipe (some p) local_closes =
    (closes, if p.read_closed then some p else close_pipe p p.write_closed true)

-- The same calls on the manager.
unfoldable pub call_manager : StreamState → StreamKey → PipeCall → PipeResult × StreamState
call_manager s key (writes seq bytes) =
    let (step, s') = handle_bytes s key seq bytes in (wrote step, s')
call_manager s key (reads room) = let (step, s') = receive_bytes s key room in (read step, s')
call_manager s key peer_closes = (closes, handle_close s key)
call_manager s key local_closes = (closes, close_local s key)
