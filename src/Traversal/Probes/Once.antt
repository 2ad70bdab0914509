-- ===== src/Traversal/Probes/Once.antt =====
-- A direct probe is started once for every attempt key.
use mathlib.Core.Path.{subst}
use ssh_mobile.Base.{
  ◌≡◌, ◌∙◌, refl, true, false, List, [], ◌∷◌, ◌++◌, Option, none, some, Bool-cases, Result-cases,
  inl, inr, arith,
}
use ssh_mobile.Base.Sets.{contains, contains-append, Distinct, Distinct-append}
use ssh_mobile.Traversal.Payload.{
  CandidatePayload, CandidateAttemptKey, attempt_key_eq, attempt_key_beq_iff,
}
use ssh_mobile.Traversal.Probes.{
  QualifiedDirectCandidate, probe_key, qualify_direct_probe, DirectProbeQueue, new_probe_queue,
  keys_of_pending, retain_keys, queue_candidate, queue_candidates, reconcile, start, pop_pending,
  pop_next_probe,
}

-- No key waits twice, and none that waits was started.
pub record IsProbeQueue (d : DirectProbeQueue) : Type 0 where
  pub distinct : Distinct (keys_of_pending d.pending)
  pub fresh :
      (k : CandidateAttemptKey)
      → contains (keys_of_pending d.pending) k ≡ true
      → contains d.started k ≡ false

pub keys_of_pending-append :
    (qs : List QualifiedDirectCandidate) (q : QualifiedDirectCandidate)
    → keys_of_pending (qs ++ (q ∷ [])) ≡ keys_of_pending qs ++ (probe_key q ∷ [])
keys_of_pending-append [] q = refl
keys_of_pending-append (p ∷ qs) q = ground (arith, keys_of_pending-append qs q)

pub contains-retain_keys :
    (keys : List CandidateAttemptKey) (qs : List QualifiedDirectCandidate) (k : CandidateAttemptKey)
    → contains (keys_of_pending (retain_keys keys qs)) k ≡ true
    → contains (keys_of_pending qs) k ≡ true
unfolding retain_keys contains
contains-retain_keys keys [] k h = h
contains-retain_keys keys (q ∷ qs) k h = ground (arith, contains-retain_keys keys qs k)

retain_keys-Distinct :
    (keys : List CandidateAttemptKey) (qs : List QualifiedDirectCandidate)
    → Distinct (keys_of_pending qs)
    → Distinct (keys_of_pending (retain_keys keys qs))
unfolding retain_keys
retain_keys-Distinct keys [] d = tt
retain_keys-Distinct keys (q ∷ qs) d =
    ground (arith, retain_keys-Distinct keys qs d.1, contains-retain_keys keys qs (probe_key q))

add-IsProbeQueue :
    (d : DirectProbeQueue) (q : QualifiedDirectCandidate)
    → IsProbeQueue d
    → contains d.started (probe_key q) ≡ false
    → contains (keys_of_pending d.pending) (probe_key q) ≡ false
    → IsProbeQueue (record d { pending = d.pending ++ (q ∷ []) })
unfolding contains
add-IsProbeQueue d q v new absent = record {
  distinct =
      rw (keys_of_pending-append d.pending q)
        (Distinct-append (keys_of_pending d.pending) (probe_key q) v.distinct absent);
  fresh = λ k h. ground (
    arith,
    keys_of_pending-append d.pending q,
    contains-append (keys_of_pending d.pending) (probe_key q ∷ []) k,
    v.fresh k,
    attempt_key_beq_iff (probe_key q) k,
  );
}

queue_candidate-IsProbeQueue :
    (q : QualifiedDirectCandidate) (d : DirectProbeQueue)
    → IsProbeQueue d
    → IsProbeQueue (queue_candidate q d)
unfolding queue_candidate
queue_candidate-IsProbeQueue q d v = elim (Bool-cases (contains d.started (probe_key q))) [
  | inl h ↦ rw (queue_candidate, h) v
  | inr h ↦ elim (Bool-cases (contains (keys_of_pending d.pending) (probe_key q))) [
    | inl g ↦ rw (queue_candidate, h, g) v
    | inr g ↦ rw (queue_candidate, h, g) (add-IsProbeQueue d q v h g)
  ]
]

queue_candidates-IsProbeQueue :
    (qs : List QualifiedDirectCandidate) (d : DirectProbeQueue)
    → IsProbeQueue d
    → IsProbeQueue (queue_candidates qs d)
unfolding queue_candidates
queue_candidates-IsProbeQueue [] d v = v
queue_candidates-IsProbeQueue (q ∷ qs) d v =
    queue_candidates-IsProbeQueue qs (queue_candidate q d) (queue_candidate-IsProbeQueue q d v)

pub reconcile-IsProbeQueue :
    (d : DirectProbeQueue) (candidates : List CandidatePayload)
    → IsProbeQueue d
    → IsProbeQueue (reconcile d candidates).1
unfolding reconcile
reconcile-IsProbeQueue d candidates v = elim (Result-cases (qualify_direct_probe candidates)) [
  | inl (reason, e) ↦ rw (reconcile, e) v
  | inr (qualified, e) ↦
      let keys = keys_of_pending qualified in
      rw (reconcile, e)
        (queue_candidates-IsProbeQueue qualified (record d { pending = retain_keys keys d.pending })
          (record {
            distinct = retain_keys-Distinct keys d.pending v.distinct;
            fresh = λ k h. v.fresh k (contains-retain_keys keys d.pending k h);
          }))
]

pub data ProbeCall : Type 0 where
  reconciles : List CandidatePayload → ProbeCall
  pops : ProbeCall

abbrev pub started_key : Option QualifiedDirectCandidate → List CandidateAttemptKey
started_key none = []
started_key (some q) = probe_key q ∷ []

unfoldable pub call_queue :
    DirectProbeQueue → ProbeCall → List CandidateAttemptKey × DirectProbeQueue
call_queue d (reconciles candidates) = ([], (reconcile d candidates).1)
call_queue d pops = (started_key (pop_next_probe d).0, (pop_next_probe d).1)

-- The keys that calls start, in order.
unfoldable pub started_by : DirectProbeQueue → List ProbeCall → List CandidateAttemptKey
started_by d [] = []
started_by d (c ∷ cs) = (call_queue d c).0 ++ started_by (call_queue d c).1 cs

-- The keys are distinct, and none was started before.
abbrev IsOnce : List CandidateAttemptKey → List CandidateAttemptKey → Type 0
IsOnce started keys =
    Distinct keys
    × ((k : CandidateAttemptKey) → contains keys k ≡ true → contains started k ≡ false)

popped-IsOnce :
    (k : CandidateAttemptKey) (started keys : List CandidateAttemptKey)
    → contains started k ≡ false
    → IsOnce (start k started) keys
    → IsOnce started (k ∷ keys)
unfolding contains
popped-IsOnce k started keys new later = (
  (ground (arith, later.1 k, attempt_key_beq_iff k k), later.0),
  λ j h. ground (arith, later.1 j, attempt_key_beq_iff k j),
)

pub pop-IsProbeQueue :
    (q : QualifiedDirectCandidate) (qs : List QualifiedDirectCandidate)
    (started : List CandidateAttemptKey)
    → IsProbeQueue (record { pending = q ∷ qs; started = started })
    → IsProbeQueue (record { pending = qs; started = start (probe_key q) started })
unfolding contains
pop-IsProbeQueue q qs started v = record {
  distinct = v.distinct.1;
  fresh = λ k h. ground (arith, v.fresh k, v.distinct.0, attempt_key_beq_iff (probe_key q) k);
}

pub queue_candidate_started :
    (q : QualifiedDirectCandidate) (d : DirectProbeQueue)
    → (queue_candidate q d).started ≡ d.started
unfolding queue_candidate
queue_candidate_started q d = ground arith

queue_candidates_started :
    (qs : List QualifiedDirectCandidate) (d : DirectProbeQueue)
    → (queue_candidates qs d).started ≡ d.started
unfolding queue_candidates
queue_candidates_started [] d = refl
queue_candidates_started (q ∷ qs) d =
    queue_candidates_started qs (queue_candidate q d) ∙ queue_candidate_started q d

reconcile_started :
    (d : DirectProbeQueue) (candidates : List CandidatePayload)
    → (reconcile d candidates).1.started ≡ d.started
unfolding reconcile
reconcile_started d candidates = elim (Result-cases (qualify_direct_probe candidates)) [
  | inl (reason, e) ↦ rw (reconcile, e) refl
  | inr (qualified, e) ↦
      rw (reconcile, e)
        (queue_candidates_started qualified
          (record d { pending = retain_keys (keys_of_pending qualified) d.pending }))
]

started_by-IsOnce :
    (pending : List QualifiedDirectCandidate) (started : List CandidateAttemptKey)
    (cs : List ProbeCall)
    → IsProbeQueue (record { pending = pending; started = started })
    → IsOnce started (started_by (record { pending = pending; started = started }) cs)
unfolding started_by call_queue pop_next_probe pop_pending contains
started_by-IsOnce pending started [] v = (tt, λ k h. absurd (cc h))
started_by-IsOnce pending started (reconciles candidates ∷ cs) v =
    let d : DirectProbeQueue = record { pending = pending; started = started } in
    let d' : DirectProbeQueue = (reconcile d candidates).1 in
    subst (λ (ks : List CandidateAttemptKey). IsOnce ks (started_by d' cs))
      (reconcile_started d candidates)
      (started_by-IsOnce d'.pending d'.started cs (reconcile-IsProbeQueue d candidates v))
started_by-IsOnce [] started (pops ∷ cs) v = started_by-IsOnce [] started cs v
started_by-IsOnce (q ∷ qs) started (pops ∷ cs) v =
    popped-IsOnce (probe_key q) started
      (started_by (record { pending = qs; started = start (probe_key q) started }) cs)
      (v.fresh (probe_key q) (ground (arith, attempt_key_beq_iff (probe_key q) (probe_key q))))
      (started_by-IsOnce qs (start (probe_key q) started) cs (pop-IsProbeQueue q qs started v))

-- Whatever snapshots come between, the probes that a new queue hands out have distinct attempt keys:
-- no candidate is probed twice under the same endpoint and generation.
pub started_by_once : (cs : List ProbeCall) → Distinct (started_by new_probe_queue cs)
unfolding contains
started_by_once cs =
    (started_by-IsOnce [] [] cs (record { distinct = tt; fresh = λ k h. absurd (cc h) })).0
