-- ===== src/Traversal/Signals.antt =====
-- What an exchange signal leaves: lemmas of Traversal/Exchange.
pub mod History
use ssh_mobile.Base.{
  ℕ, ◌+◌, ◌≤◌, ◌<◌, ◌≡◌, refl, sym, ◌∙◌, Bool, true, false, ◌&&◌, ◌||◌, not, List, [], ◌∷◌, Option,
  none, some, ltb, leb, ◌==◌, if◌then◌else◌, is_some, max, Bool-cases, Option-cases, Result-cases,
  inl, inr, Result, ok, err, Eq, str_eq, str_beq, str_beq_iff, arith,
}
use ssh_mobile.Base.Maps.{get, put, retain, get-put, get-retain, Unique, put-Unique, retain-Unique}
use ssh_mobile.Base.Sets.{contains}
use ssh_mobile.Traversal.Candidate.{
  String, Candidate, CandidateAdvertisement, NatError, candidate_of, from_advertisement,
}
use ssh_mobile.Traversal.Exchange.{
  CandidateSignal, validate_candidates, validate, CandidateExchangeState, new_exchange, ids_of,
  insert_candidates, is_new_attempt, admit_signal, or_attempt, finish_apply, apply, is_offer,
}

-- The advertisement of an id.
abbrev pub advertised : String → List CandidateAdvertisement → Option CandidateAdvertisement
advertised id [] = none
advertised id (a ∷ ads) = if str_beq a.candidate_id id then some a else advertised id ads

-- The candidate that a signal advertises under an id.
abbrev pub offered : String → List CandidateAdvertisement → Option Candidate
offered id ads = elim (advertised id ads) [ none ↦ none | some a ↦ some (candidate_of a) ]

-- The ids are new and distinct, and the advertisements are good.
abbrev IsGood : List String → List CandidateAdvertisement → Type 0
IsGood seen [] = Unit {0}
IsGood seen (a ∷ ads) =
    (contains seen a.candidate_id ≡ false)
    × (from_advertisement a ≡ ok (candidate_of a))
    × IsGood (a.candidate_id ∷ seen) ads

validated-IsGood :
    (generation : ℕ) (seen : List String) (ads : List CandidateAdvertisement)
    → validate_candidates generation seen ads ≡ ok tt
    → IsGood seen ads
unfolding validate_candidates from_advertisement
validated-IsGood generation seen [] e = tt
validated-IsGood generation seen (a ∷ ads) e =
    ground (arith, validated-IsGood generation (a.candidate_id ∷ seen) ads)

seen-advertised :
    (seen : List String) (id : String) (ads : List CandidateAdvertisement)
    → IsGood seen ads
    → contains seen id ≡ true
    → advertised id ads ≡ none
unfolding contains
seen-advertised seen id [] g e = refl
seen-advertised seen id (a ∷ ads) g e =
    ground
      (arith, seen-advertised (a.candidate_id ∷ seen) id ads g.2, str_beq_iff a.candidate_id id)

insert_candidates-get :
    (seen : List String) (ads : List CandidateAdvertisement) (m : List (String × Candidate))
    (id : String)
    → IsGood seen ads
    → ((insert_candidates ads m).0 ≡ ok tt)
      × (get id (insert_candidates ads m).1
          ≡ (elim (advertised id ads) [ none ↦ get id m | some a ↦ some (candidate_of a) ]))
unfolding insert_candidates contains
insert_candidates-get seen [] m id g = (refl, refl)
insert_candidates-get seen (a ∷ ads) m id g = ground (
  arith,
  insert_candidates-get (a.candidate_id ∷ seen) ads (put a.candidate_id (candidate_of a) m) id g.2,
  get-put a.candidate_id id (candidate_of a) m,
  seen-advertised (a.candidate_id ∷ seen) id ads g.2,
  str_beq_iff a.candidate_id id,
)

contains-ids_of :
    (id : String) (ads : List CandidateAdvertisement)
    → contains (ids_of ads) id ≡ is_some (advertised id ads)
unfolding contains
contains-ids_of id [] = refl
contains-ids_of id (a ∷ ads) = ground (arith, contains-ids_of id ads)

pub insert_candidates-Unique :
    (ads : List CandidateAdvertisement) (m : List (String × Candidate))
    → Unique m
    → Unique (insert_candidates ads m).1
unfolding insert_candidates
insert_candidates-Unique [] m u = u
insert_candidates-Unique (a ∷ ads) m u = ground (
  arith,
  insert_candidates-Unique ads (put a.candidate_id (candidate_of a) m)
      (put-Unique a.candidate_id (candidate_of a) m u),
)

-- The state shows the candidates of the signal, and belongs to its attempt.
pub record Shows (signal : CandidateSignal) (s : CandidateExchangeState) : Type 0 where
  pub generation_of : s.generation ≡ signal.generation
  pub attempt_of : s.attempt_id ≡ some signal.attempt_id
  pub window_of : s.connect_window_ms ≡ signal.connect_window_ms
  pub candidates_of : (id : String) → get id s.candidates ≡ offered id signal.candidates

pub admit_signal-cleared :
    (s b : CandidateExchangeState) (signal : CandidateSignal) (id : String)
    → Unique s.candidates
    → admit_signal s signal ≡ some b
    → advertised id signal.candidates ≡ none
    → get id b.candidates ≡ none
unfolding admit_signal get
admit_signal-cleared s b signal id u e n = ground (
  arith,
  get-retain (λ (j : String) (c : Candidate). contains (ids_of signal.candidates) j) id s.candidates
      u,
  contains-ids_of id signal.candidates,
)

pub admit_signal-fits :
    (s b : CandidateExchangeState) (signal : CandidateSignal)
    → admit_signal s signal ≡ some b
    → (b.generation ≡ signal.generation)
      × (or_attempt b.attempt_id signal.attempt_id ≡ some signal.attempt_id)
unfolding admit_signal
admit_signal-fits s b signal e = elim (Option-cases s.attempt_id) [
  | inl n ↦ ground arith
  | inr (current, h) ↦ ground (arith, str_beq_iff current signal.attempt_id)
]

pub finish_apply-Shows :
    (s : CandidateExchangeState) (signal : CandidateSignal)
    → IsGood [] signal.candidates
    → ((id : String) → advertised id signal.candidates ≡ none → get id s.candidates ≡ none)
    → s.generation ≡ signal.generation
    → or_attempt s.attempt_id signal.attempt_id ≡ some signal.attempt_id
    → ((finish_apply s signal).0 ≡ ok true) × Shows signal (finish_apply s signal).1
unfolding finish_apply
finish_apply-Shows s signal good cleared same attempt =
    rw (finish_apply, (insert_candidates-get [] signal.candidates s.candidates [] good).0)
      (
        refl,
        record {
          generation_of = same;
          attempt_of = attempt;
          window_of = refl;
          candidates_of = λ id.
              ground (
                arith,
                insert_candidates-get [] signal.candidates s.candidates id good,
                cleared id,
              );
        },
      )

pub validate-IsGood :
    (signal : CandidateSignal) → validate signal ≡ ok tt → IsGood [] signal.candidates
unfolding validate
validate-IsGood signal e = validated-IsGood signal.generation [] signal.candidates (ground arith)
