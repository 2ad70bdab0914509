-- ===== src/Traversal/Probes.antt =====
-- The queue of direct probes: `DirectProbeQueue` of
-- native/network_core/crates/network-nat/src/candidate_v2.rs.
pub mod Once
pub mod Exact
pub mod Examples
use ssh_mobile.Base.{
  ℕ, Bool, true, false, ◌&&◌, ◌||◌, not, List, [], ◌∷◌, ◌++◌, Option, none, some, if◌then◌else◌,
  Result, ok, err, ◌>>=◌,
}
use ssh_mobile.Base.Sets.{contains}
use ssh_mobile.Traversal.Payload.{
  CandidateTransport, CandidatePayload, PayloadError, is_relay, normalized, direct_transports,
  CandidateAttemptKey, attempt_key, attempt_key_eq,
}

pub record QualifiedDirectCandidate : Type 0 where
  pub candidate : CandidatePayload
  pub transport : CandidateTransport

abbrev pub probe_key : QualifiedDirectCandidate → CandidateAttemptKey
probe_key q = attempt_key q.candidate

abbrev pub qualify_each : CandidatePayload → List CandidateTransport → List QualifiedDirectCandidate
qualify_each c [] = []
qualify_each c (t ∷ ts) = record { candidate = c; transport = t } ∷ qualify_each c ts

unfoldable pub qualify_direct_probe :
    List CandidatePayload → Result PayloadError (List QualifiedDirectCandidate)
qualify_direct_probe [] = ok []
qualify_direct_probe (c ∷ cs) = do
  n ← normalized c
  rest ← qualify_direct_probe cs
  ok (if is_relay n.kind then rest else qualify_each n (direct_transports n) ++ rest)

pub record DirectProbeQueue : Type 0 where
  pub pending : List QualifiedDirectCandidate
  pub started : List CandidateAttemptKey

abbrev pub new_probe_queue : DirectProbeQueue
new_probe_queue = record { pending = []; started = [] }

abbrev pub keys_of_pending : List QualifiedDirectCandidate → List CandidateAttemptKey
keys_of_pending [] = []
keys_of_pending (q ∷ qs) = probe_key q ∷ keys_of_pending qs

-- `self.pending.retain(...)`.
unfoldable pub retain_keys :
    List CandidateAttemptKey → List QualifiedDirectCandidate → List QualifiedDirectCandidate
retain_keys keys [] = []
retain_keys keys (q ∷ qs) =
    let rest = retain_keys keys qs in if contains keys (probe_key q) then q ∷ rest else rest

-- One round of the loop over the qualified candidates.
unfoldable pub queue_candidate : QualifiedDirectCandidate → DirectProbeQueue → DirectProbeQueue
queue_candidate q d =
    if not (contains d.started (probe_key q))
      && not (contains (keys_of_pending d.pending) (probe_key q))
    then record d { pending = d.pending ++ (q ∷ []) }
    else d

unfoldable pub queue_candidates :
    List QualifiedDirectCandidate → DirectProbeQueue → DirectProbeQueue
queue_candidates [] d = d
queue_candidates (q ∷ qs) d = queue_candidates qs (queue_candidate q d)

unfoldable pub reconcile :
    DirectProbeQueue → List CandidatePayload → Result PayloadError (Unit {0}) × DirectProbeQueue
reconcile d candidates = elim (qualify_direct_probe candidates) [
  | err reason ↦ (err reason, d)
  | ok qualified ↦
      let kept = retain_keys (keys_of_pending qualified) d.pending in
      (ok tt, queue_candidates qualified (record d { pending = kept }))
]

abbrev pub start : CandidateAttemptKey → List CandidateAttemptKey → List CandidateAttemptKey
start key started = if contains started key then started else key ∷ started

unfoldable pub pop_pending :
    DirectProbeQueue
    → List QualifiedDirectCandidate
    → Option QualifiedDirectCandidate × DirectProbeQueue
pop_pending d [] = (none, d)
pop_pending d (q ∷ qs) = (some q, record { pending = qs; started = start (probe_key q) d.started })

unfoldable pub pop_next_probe :
    DirectProbeQueue → Option QualifiedDirectCandidate × DirectProbeQueue
pop_next_probe d = pop_pending d d.pending
