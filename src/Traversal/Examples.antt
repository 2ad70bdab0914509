-- ===== src/Traversal/Examples.antt =====
-- Signals and attempts at concrete values, and the theorems on them.
use ssh_mobile.Base.{◌≡◌, refl, List, [], ◌∷◌, some, ok, err, str_eq, arith}
use ssh_mobile.Base.Maps.{get, put, retain}
use ssh_mobile.Base.Sets.{contains}
use ssh_mobile.Traversal.Candidate.{
  v4, lan, CandidateAdvertisement, candidate_of, from_advertisement, is_invalid, duplicate_or_stale,
  invalid_identity,
}
use ssh_mobile.Traversal.Exchange.{
  RuntimeEpoch, CandidateSignal, offer, answer, new_signal, with_epoch_revision, all_graphic,
  has_invalid_size, validate_candidates, validate, new_exchange, insert_candidates, admit_signal,
  finish_apply, apply,
}
use ssh_mobile.Traversal.Attempt.{
  applied, cache_only, expired, connecting, ConnectivityAttempt, new_attempt, has_duplicate,
  admit_revision, apply_remote_candidates_unchecked, collect_candidates, apply_signal_unchecked,
  apply_signal, apply_signal_with_deadline,
}
use ssh_mobile.Traversal.Signals.History.{
  Leaves, apply_each, apply_each-exact, apply_each-greatest, greatest,
}
use ssh_mobile.Traversal.Calls.Answers.{Answers, apply_signal_with_deadline-Answers}
use ssh_mobile.Traversal.Calls.Late.{
  answers, moves, call_attempt_each, call_attempt_each_late, settles_each,
}

abbrev home : CandidateAdvertisement
home = record {
  candidate_id = 104 ∷ [];
  endpoint = v4 3232235777 4433;
  kind = lan;
  priority = 100;
  interface_name = 119 ∷ [];
  generation = 2;
}

abbrev away : CandidateAdvertisement
away = record home { candidate_id = 97 ∷ [] }

abbrev first_epoch : RuntimeEpoch
first_epoch = record { high = 1; low = 7 }

abbrev second_epoch : RuntimeEpoch
second_epoch = record { high = 2; low = 7 }

abbrev asked : CandidateSignal
unfolding new_signal
asked = new_signal offer 2 (120 ∷ []) 4000 (home ∷ [])

abbrev answered : CandidateSignal
unfolding new_signal
answered = new_signal answer 2 (120 ∷ []) 4000 (away ∷ home ∷ [])

abbrev stale : CandidateSignal
stale = record asked { generation = 1; candidates = [] }

abbrev doubled : CandidateSignal
doubled = record asked { candidates = home ∷ home ∷ [] }

doubled_refused : validate doubled ≡ err duplicate_or_stale
unfolding validate has_invalid_size all_graphic validate_candidates contains from_advertisement
    is_invalid asked
doubled_refused = refl

no_port_refused :
    from_advertisement (record home { endpoint = v4 3232235777 0 }) ≡ err invalid_identity
unfolding from_advertisement is_invalid
no_port_refused = refl

both_offered :
    get (97 ∷ []) (apply_each new_exchange (asked ∷ answered ∷ stale ∷ [])).candidates
    ≡ some (candidate_of away)
unfolding apply_each apply validate has_invalid_size all_graphic validate_candidates contains
    from_advertisement is_invalid admit_signal finish_apply insert_candidates get put retain asked
    answered candidate_of
both_offered = refl

apply_each-exact_example :
    Leaves
      (apply_each new_exchange (asked ∷ stale ∷ []))
      answered
      (apply (apply_each new_exchange (asked ∷ stale ∷ [])) answered).0
      (apply (apply_each new_exchange (asked ∷ stale ∷ [])) answered).1
apply_each-exact_example = apply_each-exact (asked ∷ stale ∷ []) answered

apply_each-greatest_example :
    (apply_each new_exchange (stale ∷ asked ∷ stale ∷ [])).generation
    ≡ greatest 0 (stale ∷ asked ∷ stale ∷ [])
apply_each-greatest_example = apply_each-greatest new_exchange (stale ∷ asked ∷ stale ∷ [])

abbrev attempt : ConnectivityAttempt
unfolding new_attempt
attempt = new_attempt (120 ∷ []) (112 ∷ []) first_epoch 100 (some 4100)

abbrev after_answer : ConnectivityAttempt
after_answer = (apply_signal_with_deadline attempt answered 200).1

answer_applied : (apply_signal_with_deadline attempt answered 200).0 ≡ ok applied
unfolding apply_signal_with_deadline apply_signal_unchecked validate has_invalid_size all_graphic
    validate_candidates contains from_advertisement is_invalid collect_candidates
    apply_remote_candidates_unchecked has_duplicate admit_revision candidate_of attempt answered
answer_applied = refl

answer_late : (apply_signal_with_deadline attempt answered 4100).0 ≡ ok cache_only
unfolding apply_signal_with_deadline attempt answered
answer_late = refl

-- A signal of an epoch that was left is applied again, with a lower revision.
abbrev epochs : List CandidateSignal
epochs =
    with_epoch_revision answered first_epoch 5
    ∷ with_epoch_revision answered second_epoch 1
    ∷ with_epoch_revision answered first_epoch 2
    ∷ []

abbrev signal_each : ConnectivityAttempt → List CandidateSignal → ConnectivityAttempt
signal_each a [] = a
signal_each a (signal ∷ signals) = signal_each (apply_signal a signal 200).1 signals

left_epoch_returns : (signal_each attempt epochs).remote_discovery_revision ≡ some 2
unfolding apply_signal apply_signal_unchecked validate has_invalid_size all_graphic
    validate_candidates contains from_advertisement is_invalid collect_candidates
    apply_remote_candidates_unchecked has_duplicate admit_revision candidate_of attempt answered
left_epoch_returns = refl

apply_signal_with_deadline-Answers_example :
    Answers attempt answered 200 (apply_signal_with_deadline attempt answered 200).0 after_answer
apply_signal_with_deadline-Answers_example = apply_signal_with_deadline-Answers attempt answered 200

call_attempt_each_late_example :
    call_attempt_each attempt (answers answered 5000 ∷ moves expired ∷ moves connecting ∷ [])
    ≡ record attempt {
      state =
          settles_each attempt.state
            (answers answered 5000 ∷ moves expired ∷ moves connecting ∷ []);
    }
unfolding attempt
call_attempt_each_late_example =
    call_attempt_each_late attempt 4100
      (answers answered 5000 ∷ moves expired ∷ moves connecting ∷ []) refl
      (omega arith, (tt, (tt, tt)))
