-- ===== src/Stream/Pipe/History.antt =====
-- Any calls on the streams of a peer, seen at one stream.
use ssh_mobile.Base.{◌≡◌, refl, List, [], ◌∷◌, Option, if◌then◌else◌, Bool-cases, inl, inr}
use ssh_mobile.Stream.Entry.{StreamKey, key_eq, key_beq_iff, StreamState}
use ssh_mobile.Stream.Pipe.{Pipe, pipe_of, PipeCall, PipeResult, call_pipe, call_manager}
use ssh_mobile.Stream.Pipe.Refines.{IsState, call_manager-Refines}

-- The results at stream `key` of calls on any streams, and the state after.
unfoldable pub run_manager :
    StreamKey → StreamState → List (StreamKey × PipeCall) → List PipeResult × StreamState
run_manager key s [] = ([], s)
run_manager key s ((j, c) ∷ cs) =
    let (result, s') = call_manager s j c in
    let (results, s'') = run_manager key s' cs in
    (if key_eq.beq j key then result ∷ results else results, s'')

unfoldable pub run_pipe : Option Pipe → List PipeCall → List PipeResult × Option Pipe
run_pipe p [] = ([], p)
run_pipe p (c ∷ cs) =
    let (result, p') = call_pipe p c in
    let (results, p'') = run_pipe p' cs in (result ∷ results, p'')

unfoldable pub calls_at : StreamKey → List (StreamKey × PipeCall) → List PipeCall
calls_at key [] = []
calls_at key ((j, c) ∷ cs) =
    let rest = calls_at key cs in if key_eq.beq j key then c ∷ rest else rest

-- Any writes, reads and closes on the streams of a peer have at each stream the results that the
-- calls at that stream have on a pipe of bytes, and leave the stream as they leave the pipe, from
-- any state whose byte counts are right.
pub run_manager-pipe :
    (key : StreamKey) (s : StreamState) (cs : List (StreamKey × PipeCall))
    → IsState s
    → ((run_manager key s cs).0 ≡ (run_pipe (pipe_of key s) (calls_at key cs)).0)
      × (pipe_of key (run_manager key s cs).1 ≡ (run_pipe (pipe_of key s) (calls_at key cs)).1)
unfolding run_manager run_pipe calls_at
run_manager-pipe key s [] v = (refl, refl)
run_manager-pipe key s ((j, c) ∷ cs) v = elim (Bool-cases (key_eq.beq j key)) [
  | inl here ↦
      let step = call_manager-Refines s key c v in
      let (results, ends) = run_manager-pipe key (call_manager s key c).1 cs step.valid in
      rw ((key_beq_iff j key).0 here, (key_beq_iff key key).1 refl)
        (cc (step.result, rw step.same at results), rw step.same at ends)
  | inr away ↦
      let step = call_manager-Refines s j c v in
      let (results, ends) = run_manager-pipe key (call_manager s j c).1 cs step.valid in
      rw away (rw (step.others key away) at results, rw (step.others key away) at ends)
]
