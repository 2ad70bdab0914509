-- ===== src/Stream/Calls.antt =====
-- Any calls on the streams of a peer.
pub mod Edits
pub mod Bounds
pub mod Once
mod Examples
use ssh_mobile.Base.{ℕ, Bool, List, [], ◌∷◌}
use ssh_mobile.Stream.Codec.{Bytes}
use ssh_mobile.Stream.Entry.{StreamConsumer, StreamKey, PathLease, SendStream, StreamState}
use ssh_mobile.Stream.Registry.{
  open_stream, bind_lease, take_lease, restore_lease, handle_close, close_local, close_all,
  close_inactive,
}
use ssh_mobile.Stream.Buffer.{
  register_quic_send, bump_send_seq, take_quic_send, finish_quic_write, quic_finish_send,
  handle_bytes, drain_events, receive_bytes,
}

pub data StreamCall : Type 0 where
  opens : StreamKey → Bytes → StreamConsumer → StreamCall
  binds restores : StreamKey → PathLease → StreamCall
  takes takes_send finishes_send peer_closes local_closes drains : StreamKey → StreamCall
  registers : StreamKey → SendStream → StreamCall
  bumps : StreamKey → ℕ → StreamCall
  finishes_write : StreamKey → SendStream → Bool → StreamCall
  writes : StreamKey → ℕ → Bytes → StreamCall
  reads : StreamKey → ℕ → StreamCall
  closes_all : StreamCall
  closes_inactive : (PathLease → Bool) → StreamCall

unfoldable pub call_stream : StreamState → StreamCall → StreamState
call_stream s (opens key service consumer) = (open_stream s key service consumer).1
call_stream s (binds key lease) = (bind_lease s key lease).1
call_stream s (restores key lease) = (restore_lease s key lease).1
call_stream s (takes key) = (take_lease s key).1
call_stream s (takes_send key) = (take_quic_send s key).1
call_stream s (finishes_send key) = (quic_finish_send s key).1
call_stream s (peer_closes key) = handle_close s key
call_stream s (local_closes key) = close_local s key
call_stream s (drains key) = (drain_events s key).1
call_stream s (registers key send) = (register_quic_send s key send).1
call_stream s (bumps key count) = (bump_send_seq s key count).1
call_stream s (finishes_write key send written) = (finish_quic_write s key send written).1
call_stream s (writes key seq bytes) = (handle_bytes s key seq bytes).1
call_stream s (reads key room) = (receive_bytes s key room).1
call_stream s closes_all = (close_all s).1
call_stream s (closes_inactive is_active) = (close_inactive is_active s).1

unfoldable pub call_streams : StreamState → List StreamCall → StreamState
call_streams s [] = s
call_streams s (c ∷ cs) = call_streams (call_stream s c) cs
