-- ===== src/Traversal/Signals/History.antt =====
-- Signals that arrive one after the other.
use ssh_mobile.Base.{
  ℕ, ◌≡◌, refl, sym, ◌∙◌, Bool, true, false, List, [], ◌∷◌, none, some, if◌then◌else◌, max,
  Option-cases, Result-cases, inl, inr, Result, ok, err, str_eq, arith,
}
use ssh_mobile.Base.Maps.{Unique, retain-Unique}
use ssh_mobile.Base.Sets.{contains}
use ssh_mobile.Traversal.Candidate.{String, Candidate, NatError}
use ssh_mobile.Traversal.Exchange.{
  CandidateSignal, validate, CandidateExchangeState, new_exchange, ids_of, admit_signal,
  finish_apply, apply,
}
use ssh_mobile.Traversal.Signals.{
  Shows, insert_candidates-Unique, admit_signal-cleared, admit_signal-fits, finish_apply-Shows,
  validate-IsGood,
}

-- What a signal leaves, by the answer of `apply`.
abbrev pub Leaves :
    CandidateExchangeState
    → CandidateSignal
    → Result NatError Bool
    → CandidateExchangeState
    → Type 0
Leaves s signal (err reason) after = after ≡ s
Leaves s signal (ok false) after = after ≡ s
Leaves s signal (ok true) after = Shows signal after

apply-exact :
    (s : CandidateExchangeState) (signal : CandidateSignal)
    → Unique s.candidates
    → Leaves s signal (apply s signal).0 (apply s signal).1
unfolding apply
apply-exact s signal u = elim (Result-cases (validate signal)) [
  | inl (reason, e) ↦ rw (Leaves, apply, e) refl
  | inr (done, e) ↦ elim (Option-cases (admit_signal s signal)) [
    | inl n ↦ rw (Leaves, apply, e, n) refl
    | inr (b, h) ↦
        let shown =
          finish_apply-Shows b signal (validate-IsGood signal e)
            (λ id. admit_signal-cleared s b signal id u h) (admit_signal-fits s b signal h).0
            (admit_signal-fits s b signal h).1 in
        rw (Leaves, apply, e, h, shown.0) (shown.1)
  ]
]

finish_apply-Unique :
    (s : CandidateExchangeState) (signal : CandidateSignal)
    → Unique s.candidates
    → Unique (finish_apply s signal).1.candidates
unfolding finish_apply
finish_apply-Unique s signal u =
    ground (arith, insert_candidates-Unique signal.candidates s.candidates u)

admit_signal-Unique :
    (s b : CandidateExchangeState) (signal : CandidateSignal)
    → Unique s.candidates
    → admit_signal s signal ≡ some b
    → Unique b.candidates
unfolding admit_signal
admit_signal-Unique s b signal u e = ground (
  arith,
  retain-Unique (λ (j : String) (c : Candidate). contains (ids_of signal.candidates) j) s.candidates
      u,
)

apply-Unique :
    (s : CandidateExchangeState) (signal : CandidateSignal)
    → Unique s.candidates
    → Unique (apply s signal).1.candidates
unfolding apply
apply-Unique s signal u = elim (Result-cases (validate signal)) [
  | inl (reason, e) ↦ rw (Unique, apply, e) u
  | inr (done, e) ↦ elim (Option-cases (admit_signal s signal)) [
    | inl n ↦ rw (Unique, apply, e, n) u
    | inr (b, h) ↦
        rw (Unique, apply, e, h) (finish_apply-Unique b signal (admit_signal-Unique s b signal u h))
  ]
]

abbrev pub is_valid : CandidateSignal → Bool
is_valid signal = elim (validate signal) [ err reason ↦ false | ok u ↦ true ]

admit_signal_stale :
    (s : CandidateExchangeState) (signal : CandidateSignal)
    → admit_signal s signal ≡ none
    → max s.generation signal.generation ≡ s.generation
unfolding admit_signal
admit_signal_stale s signal n = ground arith

admit_signal_newer :
    (s b : CandidateExchangeState) (signal : CandidateSignal)
    → admit_signal s signal ≡ some b
    → max s.generation signal.generation ≡ signal.generation
unfolding admit_signal
admit_signal_newer s b signal h = ground arith

finish_apply_generation :
    (s : CandidateExchangeState) (signal : CandidateSignal)
    → (finish_apply s signal).1.generation ≡ s.generation
unfolding finish_apply
finish_apply_generation s signal = ground arith

apply_generation :
    (s : CandidateExchangeState) (signal : CandidateSignal)
    → (apply s signal).1.generation
      ≡ (if is_valid signal then max s.generation signal.generation else s.generation)
unfolding apply
apply_generation s signal = elim (Result-cases (validate signal)) [
  | inl (reason, e) ↦ rw (apply, is_valid, e) refl
  | inr (done, e) ↦ elim (Option-cases (admit_signal s signal)) [
    | inl n ↦ rw (apply, is_valid, e, n) (sym (admit_signal_stale s signal n))
    | inr (b, h) ↦
        rw (apply, is_valid, e, h)
          (finish_apply_generation b signal
            ∙ (admit_signal-fits s b signal h).0
            ∙ sym (admit_signal_newer s b signal h))
  ]
]

-- The states after signals, from the newest signal to the oldest.
unfoldable pub apply_each : CandidateExchangeState → List CandidateSignal → CandidateExchangeState
apply_each s [] = s
apply_each s (signal ∷ signals) = apply_each (apply s signal).1 signals

-- The greatest generation of the valid signals, and of a first one.
abbrev pub greatest : ℕ → List CandidateSignal → ℕ
greatest n [] = n
greatest n (signal ∷ signals) =
    greatest (if is_valid signal then max n signal.generation else n) signals

-- After any signals, in any order, the state's generation is the greatest of the valid ones: no
-- old generation comes back, and no valid generation is missed.
pub apply_each-greatest :
    (s : CandidateExchangeState) (signals : List CandidateSignal)
    → (apply_each s signals).generation ≡ greatest s.generation signals
unfolding apply_each
apply_each-greatest s [] = refl
apply_each-greatest s (signal ∷ signals) =
    rw (sym (apply_generation s signal)) (apply_each-greatest (apply s signal).1 signals)

apply_each-Unique :
    (s : CandidateExchangeState) (signals : List CandidateSignal)
    → Unique s.candidates
    → Unique (apply_each s signals).candidates
unfolding apply_each
apply_each-Unique s [] u = u
apply_each-Unique s (signal ∷ signals) u =
    apply_each-Unique (apply s signal).1 signals (apply-Unique s signal u)

-- After any signals, the next signal that is applied leaves its own candidates, each as it was
-- advertised and without samples, and its generation, attempt and window; a signal that is refused
-- or is stale leaves the state as it was.
pub apply_each-exact :
    (signals : List CandidateSignal) (signal : CandidateSignal)
    → Leaves
        (apply_each new_exchange signals)
        signal
        (apply (apply_each new_exchange signals) signal).0
        (apply (apply_each new_exchange signals) signal).1
apply_each-exact signals signal =
    apply-exact (apply_each new_exchange signals) signal (apply_each-Unique new_exchange signals tt)
