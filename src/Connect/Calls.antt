-- ===== src/Connect/Calls.antt =====
-- Any calls on the supervisor of a peer.
pub mod Invariant
pub mod Begins
pub mod Completes
pub mod Runs
pub mod Answers
pub mod Remembered
pub mod Completed
pub mod Late
mod Examples
use ssh_mobile.Base.{ℕ, Bool, List, [], ◌∷◌, Result}
use ssh_mobile.Connect.Types.{
  CommandId, IntentGeneration, CommunicationClass, PeerIntent, PeerSupervisor, Surroundings, Reply,
  NetworkErrorCode,
}
use ssh_mobile.Connect.Intents.{begin_connect_with_policy}
use ssh_mobile.Connect.Lifecycle.{
  disconnect, stop, path_lost, acquire_resource, release_resource, admit_inbound_with_capabilities,
  set_configured,
}
use ssh_mobile.Connect.Attempts.{start_attempt, finish_attempt}

pub data PeerCall : Type 0 where
  begins : CommandId → CommunicationClass → Bool → Surroundings → PeerCall
  starts : PeerIntent → Bool → Surroundings → PeerCall
  finishes : IntentGeneration → ℕ → Result NetworkErrorCode (Unit {0}) → Surroundings → PeerCall
  disconnects stops loses_path acquires releases : PeerCall
  admits : Bool → ℕ → PeerCall
  configures : Bool → PeerCall

-- The completions that a call sends, and the state after.
unfoldable pub call_peer : PeerSupervisor → PeerCall → List Reply × PeerSupervisor
call_peer s (begins command_id class maintain around) =
    let done = begin_connect_with_policy s command_id class maintain around in
    (done.replies, done.after)
call_peer s (starts intent spawned around) =
    let done = start_attempt s intent spawned around in (done.replies, done.after)
call_peer s (finishes generation attempt_id result around) =
    let done = finish_attempt s generation attempt_id result around in (done.replies, done.after)
call_peer s disconnects = let done = disconnect s in (done.replies, done.after)
call_peer s stops = let done = stop s in (done.replies, done.after)
call_peer s loses_path = let done = path_lost s in (done.replies, done.after)
call_peer s acquires = ([], (acquire_resource s).1)
call_peer s releases = ([], release_resource s)
call_peer s (admits authenticated capabilities) =
    ([], (admit_inbound_with_capabilities s authenticated capabilities).1)
call_peer s (configures configured) = ([], set_configured s configured)

unfoldable pub call_peer_each : PeerSupervisor → List PeerCall → PeerSupervisor
call_peer_each s [] = s
call_peer_each s (c ∷ cs) = call_peer_each (call_peer s c).1 cs
