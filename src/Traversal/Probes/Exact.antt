-- ===== src/Traversal/Probes/Exact.antt =====
-- The queue holds what the last snapshot asks for.
use ssh_mobile.Base.{
  ◌≡◌, ◌∙◌, refl, Bool, true, false, ◌&&◌, ◌||◌, not, List, [], ◌∷◌, Bool-cases, Result-cases, inl,
  inr, Result, ok, err, arith,
}
use ssh_mobile.Base.Sets.{contains, contains-append}
use ssh_mobile.Traversal.Payload.{
  CandidatePayload, PayloadError, CandidateAttemptKey, attempt_key_eq, attempt_key_beq_iff,
}
use ssh_mobile.Traversal.Probes.{
  QualifiedDirectCandidate, probe_key, qualify_direct_probe, DirectProbeQueue, new_probe_queue,
  keys_of_pending, retain_keys, queue_candidate, queue_candidates, reconcile, pop_pending,
  pop_next_probe,
}
use ssh_mobile.Traversal.Probes.Once.{
  IsProbeQueue, ProbeCall, reconciles, pops, call_queue, keys_of_pending-append,
  reconcile-IsProbeQueue, queue_candidate_started, pop-IsProbeQueue,
}

unfoldable pub queue_after : DirectProbeQueue → List ProbeCall → DirectProbeQueue
queue_after d [] = d
queue_after d (c ∷ cs) = queue_after (call_queue d c).1 cs

pop_next_probe-IsProbeQueue :
    (pending : List QualifiedDirectCandidate) (started : List CandidateAttemptKey)
    → IsProbeQueue (record { pending = pending; started = started })
    → IsProbeQueue (pop_next_probe (record { pending = pending; started = started })).1
unfolding pop_next_probe pop_pending
pop_next_probe-IsProbeQueue [] started v = v
pop_next_probe-IsProbeQueue (q ∷ qs) started v = pop-IsProbeQueue q qs started v

queue_after-IsProbeQueue :
    (d : DirectProbeQueue) (cs : List ProbeCall) → IsProbeQueue d → IsProbeQueue (queue_after d cs)
unfolding queue_after call_queue
queue_after-IsProbeQueue d [] v = v
queue_after-IsProbeQueue d (reconciles candidates ∷ cs) v =
    queue_after-IsProbeQueue (reconcile d candidates).1 cs (reconcile-IsProbeQueue d candidates v)
queue_after-IsProbeQueue d (pops ∷ cs) v =
    queue_after-IsProbeQueue (pop_next_probe d).1 cs
      (pop_next_probe-IsProbeQueue d.pending d.started v)

retain_keys_exact :
    (keys : List CandidateAttemptKey) (qs : List QualifiedDirectCandidate) (k : CandidateAttemptKey)
    → contains (keys_of_pending (retain_keys keys qs)) k
      ≡ (contains keys k && contains (keys_of_pending qs) k)
unfolding retain_keys contains
retain_keys_exact keys [] k = ground arith
retain_keys_exact keys (q ∷ qs) k =
    ground (arith, retain_keys_exact keys qs k, attempt_key_beq_iff (probe_key q) k)

queue_candidate_exact :
    (q : QualifiedDirectCandidate) (d : DirectProbeQueue) (k : CandidateAttemptKey)
    → contains (keys_of_pending (queue_candidate q d).pending) k ≡ (
        contains (keys_of_pending d.pending) k
        || attempt_key_eq.beq (probe_key q) k && not (contains d.started k))
unfolding queue_candidate contains
queue_candidate_exact q d k = elim (Bool-cases (contains d.started (probe_key q))) [
  | inl h ↦ ground (arith, attempt_key_beq_iff (probe_key q) k)
  | inr h ↦ elim (Bool-cases (contains (keys_of_pending d.pending) (probe_key q))) [
    | inl g ↦ ground (arith, attempt_key_beq_iff (probe_key q) k)
    | inr g ↦
        rw (queue_candidate, h, g, keys_of_pending-append d.pending q)
          (contains-append (keys_of_pending d.pending) (probe_key q ∷ []) k
            ∙ ground (arith, attempt_key_beq_iff (probe_key q) k))
  ]
]

or_and : (a b c n : Bool) → ((a || b && n) || c && n) ≡ (a || (b || c) && n)
or_and true b c n = refl
or_and false true c true = refl
or_and false true true false = refl
or_and false true false false = refl
or_and false false c n = refl

queue_candidates_exact :
    (qs : List QualifiedDirectCandidate) (d : DirectProbeQueue) (k : CandidateAttemptKey)
    → contains (keys_of_pending (queue_candidates qs d).pending) k ≡ (
        contains (keys_of_pending d.pending) k
        || contains (keys_of_pending qs) k && not (contains d.started k))
unfolding queue_candidates contains
queue_candidates_exact [] d k = ground arith
queue_candidates_exact (q ∷ qs) d k =
    let later = queue_candidates_exact qs (queue_candidate q d) k in
    let same = queue_candidate_started q d in
    let now = queue_candidate_exact q d k in
    rw (queue_candidates, later, same, now)
      (or_and (contains (keys_of_pending d.pending) k) (attempt_key_eq.beq (probe_key q) k)
        (contains (keys_of_pending qs) k) (not (contains d.started k)))

-- What a snapshot leaves, by what its candidates qualify to.
abbrev pub Holds :
    DirectProbeQueue
    → Result PayloadError (List QualifiedDirectCandidate)
    → Result PayloadError (Unit {0}) × DirectProbeQueue
    → Type 0
Holds d (err reason) after = after ≡ (err reason, d)
Holds d (ok qualified) after =
    (after.0 ≡ ok tt)
    × ((k : CandidateAttemptKey)
        → contains (keys_of_pending after.1.pending) k
          ≡ (contains (keys_of_pending qualified) k && not (contains d.started k)))

reconcile-Holds :
    (d : DirectProbeQueue) (candidates : List CandidatePayload)
    → IsProbeQueue d
    → Holds d (qualify_direct_probe candidates) (reconcile d candidates)
unfolding reconcile
reconcile-Holds d candidates v = elim (Result-cases (qualify_direct_probe candidates)) [
  | inl (reason, e) ↦ rw (Holds, reconcile, e) refl
  | inr (qualified, e) ↦
      rw (Holds, reconcile, e)
        (
          refl,
          λ k. ground (
            arith,
            queue_candidates_exact qualified
                (record d { pending = retain_keys (keys_of_pending qualified) d.pending }) k,
            retain_keys_exact (keys_of_pending qualified) d.pending k,
            v.fresh k,
          ),
        )
]

-- After any calls, a snapshot with a bad payload is refused and changes nothing; any other leaves
-- waiting exactly the attempt keys that it qualifies and that were not started.
pub reconcile_exact :
    (cs : List ProbeCall) (candidates : List CandidatePayload)
    → Holds
        (queue_after new_probe_queue cs)
        (qualify_direct_probe candidates)
        (reconcile (queue_after new_probe_queue cs) candidates)
unfolding contains
reconcile_exact cs candidates = reconcile-Holds (queue_after new_probe_queue cs) candidates (
    queue_after-IsProbeQueue new_probe_queue cs
      (record { distinct = tt; fresh = λ k h. absurd (cc h) }))
