-- ===== src/Traversal/Calls.antt =====
-- What a snapshot leaves of an attempt, and the calls of an attempt:
-- native/network_core/crates/network-nat/src/attempt.rs.
pub mod Answers
pub mod Late
use mathlib.Core.Path.{subst}
use ssh_mobile.Base.{
  ℕ, ◌+◌, ◌≤◌, ◌<◌, ◌≡◌, refl, sym, ap, ◌∙◌, Bool, true, false, ◌&&◌, ◌||◌, not, List, [], ◌∷◌,
  Option, none, some, ltb, leb, ◌==◌, if◌then◌else◌, length, Bool-cases, Option-cases, Result-cases,
  inl, inr, Result, ok, err, str_eq, str_beq, str_beq_iff, arith,
}
use ssh_mobile.Traversal.Candidate.{
  String, Candidate, CandidateAdvertisement, NatError, candidate_of, from_advertisement,
}
use ssh_mobile.Traversal.Exchange.{
  RuntimeEpoch, epoch_beq, CandidateSignal, validate, max_candidates_per_signal,
}
use ssh_mobile.Traversal.Attempt.{
  CandidateUpdateDisposition, applied, cache_only, ignored_stale, terminal, is_terminal,
  ConnectivityAttempt, is_past, candidate_ids, has_duplicate, starts_over, is_behind,
  admit_revision, retain_ids, merge_candidates, apply_remote_candidates_unchecked,
  collect_candidates, revision_or, apply_signal_unchecked, apply_signal_with_deadline,
  disposition_of, disposition,
}
use ssh_mobile.Traversal.Finds.{find_candidate, merged, find-merge-retain_ids}

-- The candidate that an attempt knows when a snapshot of an epoch comes.
abbrev pub known : ConnectivityAttempt → Option RuntimeEpoch → String → Option Candidate
known a epoch id =
    if starts_over a.remote_runtime_epoch epoch then none else find_candidate id a.remote_candidates

abbrev pub epoch_or : Option RuntimeEpoch → Option RuntimeEpoch → Option RuntimeEpoch
epoch_or none current = current
epoch_or (some epoch) current = some epoch

-- The attempt carries exactly the snapshot, with the samples of the candidates it knew, and is
-- otherwise as it was.
pub record Carries (a : ConnectivityAttempt) (epoch : Option RuntimeEpoch) (revision : ℕ)
    (candidates : List Candidate) (after : ConnectivityAttempt) : Type 0 where
  pub epoch_of : after.remote_runtime_epoch ≡ epoch_or epoch a.remote_runtime_epoch
  pub revision_of : after.remote_discovery_revision ≡ some revision
  pub candidates_of :
      (id : String)
      → find_candidate id after.remote_candidates ≡ (elim (find_candidate id candidates) [
        | none ↦ none
        | some c ↦ some (merged c (known a epoch id))
      ])
  pub others_of : after ≡ record a {
    remote_runtime_epoch = after.remote_runtime_epoch;
    remote_discovery_revision = after.remote_discovery_revision;
    remote_candidates = after.remote_candidates;
  }

epoch_beq-eq : (a b : RuntimeEpoch) → epoch_beq a b ≡ true → a ≡ b
epoch_beq-eq a b e = ground arith

same_epoch :
    (current epoch : Option RuntimeEpoch)
    → starts_over current epoch ≡ false
    → current ≡ epoch_or epoch current
same_epoch current none e = refl
same_epoch none (some epoch) e = absurd (cc e)
same_epoch (some current) (some epoch) e = ap some (sym (epoch_beq-eq epoch current (ground arith)))

started_over :
    (current epoch : Option RuntimeEpoch)
    → starts_over current epoch ≡ true
    → epoch ≡ epoch_or epoch current
started_over current none e = absurd (cc e)
started_over current (some epoch) e = refl

-- What the admitted attempt knows.
pub record Admits (a : ConnectivityAttempt) (epoch : Option RuntimeEpoch) (revision : ℕ)
    (b : ConnectivityAttempt) : Type 0 where
  pub epoch_of : b.remote_runtime_epoch ≡ epoch_or epoch a.remote_runtime_epoch
  pub revision_of : b.remote_discovery_revision ≡ some revision
  pub known_of : (id : String) → find_candidate id b.remote_candidates ≡ known a epoch id
  pub others_of : b ≡ record a {
    remote_runtime_epoch = b.remote_runtime_epoch;
    remote_discovery_revision = b.remote_discovery_revision;
    remote_candidates = b.remote_candidates;
  }

pub admit_revision-Admits :
    (a b : ConnectivityAttempt) (epoch : Option RuntimeEpoch) (revision : ℕ)
    → admit_revision a epoch revision ≡ some b
    → Admits a epoch revision b
unfolding admit_revision
admit_revision-Admits a b epoch revision e =
    elim (Bool-cases (starts_over a.remote_runtime_epoch epoch)) [
      | inl h ↦ record {
        epoch_of = ground (arith, started_over a.remote_runtime_epoch epoch h);
        revision_of = ground arith;
        known_of = λ id. ground arith;
        others_of = ground arith;
      }
      | inr h ↦ record {
        epoch_of = ground (arith, same_epoch a.remote_runtime_epoch epoch h);
        revision_of = ground arith;
        known_of = λ id. ground arith;
        others_of = ground arith;
      }
    ]
