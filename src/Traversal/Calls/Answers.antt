-- ===== src/Traversal/Calls/Answers.antt =====
-- What a snapshot and a signal leave, on every branch.
use mathlib.Core.Path.{subst}
use ssh_mobile.Base.{
  ℕ, ◌≡◌, refl, ap, Bool, true, false, List, [], ◌∷◌, Option, ltb, length, Bool-cases, Option-cases,
  Result-cases, inl, inr, Result, ok, err, str_eq, str_beq, str_beq_iff, arith,
}
use ssh_mobile.Traversal.Candidate.{
  Candidate, CandidateAdvertisement, NatError, candidate_of, from_advertisement,
}
use ssh_mobile.Traversal.Exchange.{
  RuntimeEpoch, CandidateSignal, validate, max_candidates_per_signal,
}
use ssh_mobile.Traversal.Attempt.{
  CandidateUpdateDisposition, applied, cache_only, ignored_stale, terminal, is_terminal,
  ConnectivityAttempt, is_past, candidate_ids, has_duplicate, admit_revision, retain_ids,
  merge_candidates, apply_remote_candidates_unchecked, collect_candidates, revision_or,
  apply_signal_unchecked, apply_signal_with_deadline, disposition_of,
}
use ssh_mobile.Traversal.Finds.{find-merge-retain_ids}
use ssh_mobile.Traversal.Calls.{Carries, admit_revision-Admits}

-- What a snapshot leaves, by the answer.
abbrev pub Merges :
    ConnectivityAttempt
    → Option RuntimeEpoch
    → ℕ
    → List Candidate
    → Result NatError Bool
    → ConnectivityAttempt
    → Type 0
Merges a epoch revision candidates (err reason) after = after ≡ a
Merges a epoch revision candidates (ok false) after = after ≡ a
Merges a epoch revision candidates (ok true) after = Carries a epoch revision candidates after

apply_remote_candidates_unchecked-Merges :
    (a : ConnectivityAttempt) (epoch : Option RuntimeEpoch) (revision : ℕ)
    (candidates : List Candidate)
    → Merges a epoch revision candidates
        (apply_remote_candidates_unchecked a epoch revision candidates).0
        (apply_remote_candidates_unchecked a epoch revision candidates).1
unfolding apply_remote_candidates_unchecked
apply_remote_candidates_unchecked-Merges a epoch revision candidates =
    elim (Bool-cases (ltb max_candidates_per_signal (length candidates))) [
      | inl h ↦ rw (Merges, apply_remote_candidates_unchecked, h) refl
      | inr h ↦ elim (Bool-cases (has_duplicate [] candidates)) [
        | inl d ↦ rw (Merges, apply_remote_candidates_unchecked, h, d) refl
        | inr d ↦ elim (Option-cases (admit_revision a epoch revision)) [
          | inl n ↦ rw (Merges, apply_remote_candidates_unchecked, h, d, n) refl
          | inr (b, m) ↦
              let admits = admit_revision-Admits a b epoch revision m in
              rw (Merges, apply_remote_candidates_unchecked, h, d, m)
                (record {
                  epoch_of = admits.epoch_of;
                  revision_of = admits.revision_of;
                  candidates_of = λ id. ground (
                    arith,
                    find-merge-retain_ids candidates id b.remote_candidates d,
                    admits.known_of id,
                  );
                  others_of =
                      ap
                        (λ (x : ConnectivityAttempt). record x {
                          remote_candidates =
                              merge_candidates candidates
                                (retain_ids (candidate_ids candidates) b.remote_candidates);
                        })
                        admits.others_of;
                })
        ]
      ]
    ]

abbrev pub candidates_of_each : List CandidateAdvertisement → List Candidate
candidates_of_each [] = []
candidates_of_each (a ∷ ads) = candidate_of a ∷ candidates_of_each ads

collect_candidates-ok :
    (ads : List CandidateAdvertisement) (cs : List Candidate)
    → collect_candidates ads ≡ ok cs
    → cs ≡ candidates_of_each ads
unfolding collect_candidates from_advertisement
collect_candidates-ok [] cs e = ground arith
collect_candidates-ok (a ∷ ads) cs e = elim (Result-cases (collect_candidates ads)) [
  | inl (reason, f) ↦ ground arith
  | inr (ds, f) ↦ ground (arith, collect_candidates-ok ads ds f)
]

abbrev pub revision_of_signal : CandidateSignal → ℕ
revision_of_signal signal = revision_or signal.discovery_revision signal.generation

-- What a signal leaves, by the answer of `apply_signal_unchecked`.
abbrev pub Follows :
    ConnectivityAttempt → CandidateSignal → Result NatError Bool → ConnectivityAttempt → Type 0
Follows a signal (err reason) after = after ≡ a
Follows a signal (ok false) after = after ≡ a
Follows a signal (ok true) after =
    (signal.attempt_id ≡ a.attempt_id)
    × Carries a signal.runtime_epoch (revision_of_signal signal)
        (candidates_of_each signal.candidates) after

Merges-Follows :
    (a : ConnectivityAttempt) (signal : CandidateSignal) (cs : List Candidate)
    (r : Result NatError Bool) (after : ConnectivityAttempt)
    → signal.attempt_id ≡ a.attempt_id
    → cs ≡ candidates_of_each signal.candidates
    → Merges a signal.runtime_epoch (revision_of_signal signal) cs r after
    → Follows a signal r after
Merges-Follows a signal cs (err reason) after same e m = m
Merges-Follows a signal cs (ok false) after same e m = m
Merges-Follows a signal cs (ok true) after same e m = (
  same,
  subst
      (λ (ds : List Candidate). Carries a signal.runtime_epoch (revision_of_signal signal) ds after)
      e m,
)

apply_signal_unchecked-Follows :
    (a : ConnectivityAttempt) (signal : CandidateSignal)
    → Follows a signal (apply_signal_unchecked a signal).0 (apply_signal_unchecked a signal).1
unfolding apply_signal_unchecked
apply_signal_unchecked-Follows a signal = elim (Result-cases (validate signal)) [
  | inl (reason, e) ↦ rw (Follows, apply_signal_unchecked, e) refl
  | inr (done, e) ↦ elim (Bool-cases (str_beq signal.attempt_id a.attempt_id)) [
    | inr h ↦ rw (Follows, apply_signal_unchecked, e, h) refl
    | inl h ↦ elim (Result-cases (collect_candidates signal.candidates)) [
      | inl (reason, f) ↦ rw (Follows, apply_signal_unchecked, e, h, f) refl
      | inr (cs, f) ↦
          rw (apply_signal_unchecked, e, h, f)
            (Merges-Follows a signal cs _ _ ((str_beq_iff signal.attempt_id a.attempt_id).0 h)
              (collect_candidates-ok signal.candidates cs f)
              (apply_remote_candidates_unchecked-Merges a signal.runtime_epoch
                (revision_of_signal signal) cs))
    ]
  ]
]

-- What an answer means, and what it leaves.
abbrev pub Answers :
    ConnectivityAttempt
    → CandidateSignal
    → ℕ
    → Result NatError CandidateUpdateDisposition
    → ConnectivityAttempt
    → Type 0
Answers a signal now (err reason) after = after ≡ a
Answers a signal now (ok terminal) after = (is_terminal a.state ≡ true) × (after ≡ a)
Answers a signal now (ok cache_only) after = (is_past a.direct_deadline now ≡ true) × (after ≡ a)
Answers a signal now (ok ignored_stale) after = after ≡ a
Answers a signal now (ok applied) after =
    (is_terminal a.state ≡ false)
    × (is_past a.direct_deadline now ≡ false)
    × (signal.attempt_id ≡ a.attempt_id)
    × Carries a signal.runtime_epoch (revision_of_signal signal)
        (candidates_of_each signal.candidates) after

Follows-Answers :
    (a : ConnectivityAttempt) (signal : CandidateSignal) (now : ℕ) (r : Result NatError Bool)
    (after : ConnectivityAttempt)
    → is_terminal a.state ≡ false
    → is_past a.direct_deadline now ≡ false
    → Follows a signal r after
    → Answers a signal now (disposition_of r) after
Follows-Answers a signal now (err reason) after live early f = f
Follows-Answers a signal now (ok false) after live early f = f
Follows-Answers a signal now (ok true) after live early f = (live, early, f.0, f.1)

-- A signal is applied only to a live attempt that it names, before the deadline; the attempt then
-- carries exactly the candidates of the signal, keeps the samples of those it knew in the same
-- epoch, and takes the signal's epoch and revision. It answers `terminal` only for an attempt that
-- has ended and `cache_only` only past the deadline. Whatever else it answers, the attempt is as it
-- was.
pub apply_signal_with_deadline-Answers :
    (a : ConnectivityAttempt) (signal : CandidateSignal) (now : ℕ)
    → Answers a signal now
        (apply_signal_with_deadline a signal now).0
        (apply_signal_with_deadline a signal now).1
unfolding apply_signal_with_deadline
apply_signal_with_deadline-Answers a signal now = elim (Bool-cases (is_terminal a.state)) [
  | inl t ↦ rw (Answers, apply_signal_with_deadline, t) (t, refl)
  | inr t ↦ elim (Bool-cases (str_beq signal.attempt_id a.attempt_id)) [
    | inr h ↦ rw (Answers, apply_signal_with_deadline, t, h) refl
    | inl h ↦ elim (Bool-cases (is_past a.direct_deadline now)) [
      | inl p ↦ rw (Answers, apply_signal_with_deadline, t, h, p) (p, refl)
      | inr p ↦
          rw (apply_signal_with_deadline, t, h, p)
            (Follows-Answers a signal now _ _ t p (apply_signal_unchecked-Follows a signal))
    ]
  ]
]
