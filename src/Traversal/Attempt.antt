-- ===== src/Traversal/Attempt.antt =====
-- One connectivity attempt: native/network_core/crates/network-nat/src/attempt.rs. A point in time
-- is a number; what the clock reads is an argument.
use ssh_mobile.Base.{
  ℕ, Bool, true, false, ◌||◌, not, List, [], ◌∷◌, ◌++◌, Option, none, some, ltb, leb, if◌then◌else◌,
  length, Result, ok, err, ◌>>=◌, str_eq, str_beq,
}
use ssh_mobile.Base.Sets.{contains}
use ssh_mobile.Traversal.Candidate.{
  String, Candidate, CandidateAdvertisement, NatError, too_many_candidates, duplicate_ids,
  from_advertisement,
}
use ssh_mobile.Traversal.Exchange.{
  RuntimeEpoch, epoch_beq, CandidateSignal, validate, max_candidates_per_signal,
}

pub data ConnectivityAttemptState : Type 0 where
  created resolved coordinating connecting succeeded failed expired : ConnectivityAttemptState

pub data CandidateUpdateDisposition : Type 0 where
  applied cache_only ignored_stale terminal : CandidateUpdateDisposition

abbrev pub is_terminal : ConnectivityAttemptState → Bool
is_terminal succeeded = true
is_terminal failed = true
is_terminal expired = true
is_terminal created = false
is_terminal resolved = false
is_terminal coordinating = false
is_terminal connecting = false

pub record ConnectivityAttempt : Type 0 where
  pub attempt_id : String
  pub peer_id : String
  pub local_runtime_epoch : RuntimeEpoch
  pub remote_runtime_epoch : Option RuntimeEpoch
  pub remote_discovery_revision : Option ℕ
  pub local_candidates : List Candidate
  pub remote_candidates : List Candidate
  pub started_at : ℕ
  pub direct_deadline : Option ℕ
  pub state : ConnectivityAttemptState

-- `ConnectivityAttempt::new`.
unfoldable pub new_attempt : String → String → RuntimeEpoch → ℕ → Option ℕ → ConnectivityAttempt
new_attempt attempt_id peer_id local_runtime_epoch started_at direct_deadline = record {
  attempt_id = attempt_id;
  peer_id = peer_id;
  local_runtime_epoch = local_runtime_epoch;
  remote_runtime_epoch = none;
  remote_discovery_revision = none;
  local_candidates = [];
  remote_candidates = [];
  started_at = started_at;
  direct_deadline = direct_deadline;
  state = created;
}

-- What a time plus a span is, is the platform's.
abbrev pub with_connect_window :
    (ℕ → ℕ → Option ℕ) → String → String → RuntimeEpoch → ℕ → ℕ → ConnectivityAttempt
with_connect_window checked_add attempt_id peer_id local_runtime_epoch started_at window =
    new_attempt attempt_id peer_id local_runtime_epoch started_at (checked_add started_at window)

abbrev pub with_local_candidates : ConnectivityAttempt → List Candidate → ConnectivityAttempt
with_local_candidates a candidates = record a { local_candidates = candidates }

unfoldable pub set_state :
    ConnectivityAttempt → ConnectivityAttemptState → Bool × ConnectivityAttempt
set_state a next = if is_terminal a.state then (false, a) else (true, record a { state = next })

abbrev pub is_past : Option ℕ → ℕ → Bool
is_past none now = false
is_past (some deadline) now = leb deadline now

abbrev pub direct_deadline_elapsed : ConnectivityAttempt → ℕ → Bool
direct_deadline_elapsed a now = is_past a.direct_deadline now

abbrev pub all_candidates : ConnectivityAttempt → List Candidate
all_candidates a = a.local_candidates ++ a.remote_candidates

abbrev pub candidate_ids : List Candidate → List String
candidate_ids [] = []
candidate_ids (c ∷ cs) = c.candidate_id ∷ candidate_ids cs

-- `candidates.iter().any(|candidate| !incoming_ids.insert(...))`.
unfoldable pub has_duplicate : List String → List Candidate → Bool
has_duplicate seen [] = false
has_duplicate seen (c ∷ cs) =
    contains seen c.candidate_id || has_duplicate (c.candidate_id ∷ seen) cs

-- A snapshot of an epoch that is not the attempt's.
abbrev pub starts_over : Option RuntimeEpoch → Option RuntimeEpoch → Bool
starts_over current none = false
starts_over none (some epoch) = true
starts_over (some current) (some epoch) = not (epoch_beq epoch current)

abbrev pub is_behind : Option ℕ → ℕ → Bool
is_behind none revision = false
is_behind (some current) revision = ltb revision current

-- The attempt that the candidates of the snapshot go to, or none for a stale one.
unfoldable pub admit_revision :
    ConnectivityAttempt → Option RuntimeEpoch → ℕ → Option ConnectivityAttempt
admit_revision a epoch revision =
    if starts_over a.remote_runtime_epoch epoch
    then some (record a {
      remote_runtime_epoch = epoch;
      remote_discovery_revision = some revision;
      remote_candidates = [];
    })
    else if is_behind a.remote_discovery_revision revision
    then none
    else some (record a { remote_discovery_revision = some revision })

-- `self.remote_candidates.retain(...)`.
unfoldable pub retain_ids : List String → List Candidate → List Candidate
retain_ids ids [] = []
retain_ids ids (c ∷ cs) =
    let rest = retain_ids ids cs in if contains ids c.candidate_id then c ∷ rest else rest

-- What replaces a known candidate: the samples are kept, if there are any.
unfoldable pub keep_samples : Candidate → Candidate → Candidate
keep_samples existing c =
    if ltb 0 existing.sample_count
    then record c {
      sample_count = existing.sample_count;
      rtt_ms = existing.rtt_ms;
      jitter_ms = existing.jitter_ms;
      loss_rate = existing.loss_rate;
      last_success_timestamp = existing.last_success_timestamp;
    }
    else c

-- One round of the loop over the candidates.
unfoldable pub merge_candidate : Candidate → List Candidate → List Candidate
merge_candidate c [] = c ∷ []
merge_candidate c (existing ∷ cs) =
    let rest = merge_candidate c cs in
    if str_beq existing.candidate_id c.candidate_id
    then keep_samples existing c ∷ cs
    else existing ∷ rest

unfoldable pub merge_candidates : List Candidate → List Candidate → List Candidate
merge_candidates [] cs = cs
merge_candidates (c ∷ incoming) cs = merge_candidates incoming (merge_candidate c cs)

unfoldable pub apply_remote_candidates_unchecked :
    ConnectivityAttempt
    → Option RuntimeEpoch
    → ℕ
    → List Candidate
    → Result NatError Bool × ConnectivityAttempt
apply_remote_candidates_unchecked a epoch revision candidates =
    if ltb max_candidates_per_signal (length candidates)
    then (err too_many_candidates, a)
    else if has_duplicate [] candidates
    then (err duplicate_ids, a)
    else elim (admit_revision a epoch revision) [
      | none ↦ (ok false, a)
      | some b ↦ (
        ok true,
        record b {
          remote_candidates =
              merge_candidates candidates
                (retain_ids (candidate_ids candidates) b.remote_candidates);
        },
      )
    ]

unfoldable pub apply_remote_candidates :
    ConnectivityAttempt
    → ℕ
    → Option RuntimeEpoch
    → ℕ
    → List Candidate
    → Result NatError Bool × ConnectivityAttempt
apply_remote_candidates a now epoch revision candidates =
    if is_terminal a.state || direct_deadline_elapsed a now
    then (ok false, a)
    else apply_remote_candidates_unchecked a epoch revision candidates

-- `.map(Candidate::from_advertisement).collect::<Result<Vec<_>, _>>()`.
unfoldable pub collect_candidates : List CandidateAdvertisement → Result NatError (List Candidate)
collect_candidates [] = ok []
collect_candidates (a ∷ ads) = do c ← from_advertisement a; cs ← collect_candidates ads; ok (c ∷ cs)

abbrev pub revision_or : Option ℕ → ℕ → ℕ
revision_or none n = n
revision_or (some revision) n = revision

unfoldable pub apply_signal_unchecked :
    ConnectivityAttempt → CandidateSignal → Result NatError Bool × ConnectivityAttempt
apply_signal_unchecked a signal = elim (validate signal) [
  | err reason ↦ (err reason, a)
  | ok u ↦
      if not (str_beq signal.attempt_id a.attempt_id)
      then (ok false, a)
      else elim (collect_candidates signal.candidates) [
        | err reason ↦ (err reason, a)
        | ok candidates ↦
            apply_remote_candidates_unchecked a signal.runtime_epoch
              (revision_or signal.discovery_revision signal.generation) candidates
      ]
]

unfoldable pub apply_signal :
    ConnectivityAttempt → CandidateSignal → ℕ → Result NatError Bool × ConnectivityAttempt
apply_signal a signal now =
    if direct_deadline_elapsed a now then (ok false, a) else apply_signal_unchecked a signal

abbrev pub disposition : Bool → CandidateUpdateDisposition
disposition true = applied
disposition false = ignored_stale

abbrev pub disposition_of : Result NatError Bool → Result NatError CandidateUpdateDisposition
disposition_of (err reason) = err reason
disposition_of (ok changed) = ok (disposition changed)

unfoldable pub apply_signal_with_deadline :
    ConnectivityAttempt
    → CandidateSignal
    → ℕ
    → Result NatError CandidateUpdateDisposition × ConnectivityAttempt
apply_signal_with_deadline a signal now =
    if is_terminal a.state
    then (ok terminal, a)
    else if not (str_beq signal.attempt_id a.attempt_id)
    then (ok ignored_stale, a)
    else if direct_deadline_elapsed a now
    then (ok cache_only, a)
    else (let (result, a') = apply_signal_unchecked a signal in (disposition_of result, a'))
