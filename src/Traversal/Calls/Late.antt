-- ===== src/Traversal/Calls/Late.antt =====
-- The calls of an attempt when its window has closed.
use ssh_mobile.Base.{
  ℕ, ◌≤◌, ◌≡◌, refl, true, List, [], ◌∷◌, Option, none, some, if◌then◌else◌, str_eq, arith,
}
use ssh_mobile.Traversal.Candidate.{Candidate}
use ssh_mobile.Traversal.Exchange.{RuntimeEpoch, CandidateSignal}
use ssh_mobile.Traversal.Attempt.{
  ConnectivityAttemptState, is_terminal, ConnectivityAttempt, is_past, set_state,
  apply_remote_candidates, apply_signal, apply_signal_with_deadline,
}

-- A call, and what the clock reads.
pub data AttemptCall : Type 0 where
  snapshots : ℕ → Option RuntimeEpoch → ℕ → List Candidate → AttemptCall
  signals : CandidateSignal → ℕ → AttemptCall
  answers : CandidateSignal → ℕ → AttemptCall
  moves : ConnectivityAttemptState → AttemptCall

unfoldable pub call_attempt : ConnectivityAttempt → AttemptCall → ConnectivityAttempt
call_attempt a (snapshots now epoch revision candidates) =
    (apply_remote_candidates a now epoch revision candidates).1
call_attempt a (signals signal now) = (apply_signal a signal now).1
call_attempt a (answers signal now) = (apply_signal_with_deadline a signal now).1
call_attempt a (moves next) = (set_state a next).1

unfoldable pub call_attempt_each : ConnectivityAttempt → List AttemptCall → ConnectivityAttempt
call_attempt_each a [] = a
call_attempt_each a (c ∷ cs) = call_attempt_each (call_attempt a c) cs

-- Every clock reading is at or after a time.
abbrev pub IsFrom : ℕ → AttemptCall → Type 0
IsFrom t (snapshots now epoch revision candidates) = t ≤ now
IsFrom t (signals signal now) = t ≤ now
IsFrom t (answers signal now) = t ≤ now
IsFrom t (moves next) = Unit {0}

abbrev pub AreFrom : ℕ → List AttemptCall → Type 0
AreFrom t [] = Unit {0}
AreFrom t (c ∷ cs) = IsFrom t c × AreFrom t cs

-- The lifecycle alone: the first terminal state is the last.
abbrev pub settles : ConnectivityAttemptState → AttemptCall → ConnectivityAttemptState
settles s (moves next) = if is_terminal s then s else next
settles s (snapshots now epoch revision candidates) = s
settles s (signals signal now) = s
settles s (answers signal now) = s

abbrev pub settles_each : ConnectivityAttemptState → List AttemptCall → ConnectivityAttemptState
settles_each s [] = s
settles_each s (c ∷ cs) = settles_each (settles s c) cs

is_past_later :
    (deadline : Option ℕ) (t now : ℕ)
    → is_past deadline t ≡ true
    → t ≤ now
    → is_past deadline now ≡ true
is_past_later none t now e le = e
is_past_later (some deadline) t now e le = ground arith

call_attempt_late :
    (a : ConnectivityAttempt) (t : ℕ) (c : AttemptCall)
    → is_past a.direct_deadline t ≡ true
    → IsFrom t c
    → call_attempt a c ≡ record a { state = settles a.state c }
unfolding call_attempt apply_remote_candidates apply_signal apply_signal_with_deadline set_state
call_attempt_late a t (snapshots now epoch revision candidates) e f =
    ground (arith, is_past_later a.direct_deadline t now e f)
call_attempt_late a t (signals signal now) e f =
    ground (arith, is_past_later a.direct_deadline t now e f)
call_attempt_late a t (answers signal now) e f =
    ground (arith, is_past_later a.direct_deadline t now e f)
call_attempt_late a t (moves next) e f = ground arith

-- Once the direct window has closed, whatever calls come, nothing of an attempt changes but its
-- lifecycle state, and that stays at the first terminal one; the clock does not run backwards.
pub call_attempt_each_late :
    (a : ConnectivityAttempt) (t : ℕ) (cs : List AttemptCall)
    → is_past a.direct_deadline t ≡ true
    → AreFrom t cs
    → call_attempt_each a cs ≡ record a { state = settles_each a.state cs }
unfolding call_attempt_each
call_attempt_each_late a t [] e f = refl
call_attempt_each_late a t (c ∷ cs) e f =
    rw (call_attempt_late a t c e f.0)
      (call_attempt_each_late (record a { state = settles a.state c }) t cs e f.1)
