-- ===== src/Stream/Calls/Examples.antt =====
-- Runs of the streams of a peer, and the theorems on them at concrete calls.
use ssh_mobile.Base.{◌≡◌, ◌≢◌, refl, List, [], ◌∷◌, ok}
use ssh_mobile.Base.Maps.{get, put}
use ssh_mobile.Base.Sets.{contains}
use ssh_mobile.Stream.Codec.{Bytes, invalid_frame}
use ssh_mobile.Stream.Entry.{local, poll, StreamKey, StreamState, new_state}
use ssh_mobile.Stream.Registry.{open_stream, handle_close}
use ssh_mobile.Stream.Buffer.{
  handle_bytes, append_bytes, receive_bytes, finish_receive, fill, appended, refused, received,
}
use ssh_mobile.Stream.Pipe
use ssh_mobile.Stream.Pipe.{
  PipeCall, PipeResult, pipe_of, call_pipe, call_manager, wrote, read, closes,
}
use ssh_mobile.Stream.Pipe.Refines.{IsState}
use ssh_mobile.Stream.Pipe.History.{run_manager, run_pipe, calls_at, run_manager-pipe}
use ssh_mobile.Stream.Calls.{StreamCall, peer_closes, local_closes, call_streams}
use ssh_mobile.Stream.Calls.Bounds.{
  IsBounded, call_streams-IsBounded, open_stream-IsBounded, new_state-IsBounded,
}
use ssh_mobile.Stream.Calls.Once.{open_stream_once}

abbrev shell : StreamKey
shell = record { opener = local; stream_id = 1 }

abbrev ssh : Bytes
ssh = 115 ∷ 115 ∷ 104 ∷ []

abbrev opened : StreamState
opened = (open_stream new_state shell ssh poll).1

abbrev session : List (StreamKey × PipeCall)
session =
    (shell, Pipe.writes 0 (1 ∷ 2 ∷ 3 ∷ []))
    ∷ (shell, Pipe.writes 2 (9 ∷ []))
    ∷ (shell, Pipe.reads 2)
    ∷ (shell, Pipe.peer_closes)
    ∷ (shell, Pipe.reads 5)
    ∷ (shell, Pipe.reads 5)
    ∷ []

session_results :
    (run_manager shell opened session).0
    ≡ wrote (appended 3)
      ∷ wrote (refused invalid_frame)
      ∷ read (received (1 ∷ 2 ∷ []))
      ∷ closes
      ∷ read (received (3 ∷ []))
      ∷ read (received [])
      ∷ []
unfolding run_manager call_manager open_stream handle_bytes append_bytes receive_bytes
    finish_receive fill handle_close get put contains
session_results = refl

opened-IsState : IsState opened
opened-IsState =
    let v = open_stream-IsBounded new_state shell ssh poll new_state-IsBounded in
    record { unique = v.unique; counted = λ key e found. (v.buffered key e found).0 }

run_manager-pipe_example :
    ((run_manager shell opened session).0
      ≡ (run_pipe (pipe_of shell opened) (calls_at shell session)).0)
    × (pipe_of shell (run_manager shell opened session).1
        ≡ (run_pipe (pipe_of shell opened) (calls_at shell session)).1)
run_manager-pipe_example = run_manager-pipe shell opened session opened-IsState

abbrev goodbye : List StreamCall
goodbye = peer_closes shell ∷ local_closes shell ∷ []

open_stream_once_example :
    (open_stream
      (call_streams (open_stream (call_streams new_state []) shell ssh poll).1 goodbye)
      shell
      ssh
      poll).0
    ≢ ok tt
unfolding open_stream call_streams get contains
open_stream_once_example = open_stream_once [] goodbye shell ssh ssh poll poll refl

call_streams-IsBounded_example : IsBounded (call_streams new_state goodbye)
call_streams-IsBounded_example = call_streams-IsBounded goodbye
