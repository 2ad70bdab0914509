-- ===== src/Traversal/Exchange.antt =====
-- The offer and answer signals and the receiver's state:
-- native/network_core/crates/network-nat/src/exchange.rs.
use ssh_mobile.Base.{
  ℕ, Bool, true, false, ◌&&◌, ◌||◌, not, List, [], ◌∷◌, Option, none, some, ltb, leb, ◌==◌,
  if◌then◌else◌, length, Result, ok, err, str_eq, str_beq,
}
use ssh_mobile.Base.Maps.{put, retain}
use ssh_mobile.Base.Sets.{contains}
use ssh_mobile.Traversal.Candidate.{
  String, Candidate, CandidateAdvertisement, NatError, unsupported_version, invalid_size,
  duplicate_or_stale, candidate_of, from_advertisement,
}

abbrev pub candidate_signal_version : ℕ
candidate_signal_version = 1

abbrev pub max_candidates_per_signal : ℕ
max_candidates_per_signal = 32

abbrev pub min_connect_window_ms : ℕ
min_connect_window_ms = 500

abbrev pub max_connect_window_ms : ℕ
max_connect_window_ms = 8000

abbrev pub max_attempt_id_bytes : ℕ
max_attempt_id_bytes = 128

pub record RuntimeEpoch : Type 0 where
  pub high : ℕ
  pub low : ℕ

abbrev pub epoch_beq : RuntimeEpoch → RuntimeEpoch → Bool
epoch_beq a b = a.high == b.high && a.low == b.low

pub data CandidateSignalKind : Type 0 where
  offer answer : CandidateSignalKind

abbrev pub is_offer : CandidateSignalKind → Bool
is_offer offer = true
is_offer answer = false

pub record CandidateSignal : Type 0 where
  pub version : ℕ
  pub kind : CandidateSignalKind
  pub generation : ℕ
  pub attempt_id : String
  pub connect_window_ms : ℕ
  pub candidates : List CandidateAdvertisement
  pub runtime_epoch : Option RuntimeEpoch
  pub discovery_revision : Option ℕ

-- `CandidateSignal::offer` and `CandidateSignal::answer`.
unfoldable pub new_signal :
    CandidateSignalKind → ℕ → String → ℕ → List CandidateAdvertisement → CandidateSignal
new_signal kind generation attempt_id connect_window_ms candidates = record {
  version = candidate_signal_version;
  kind = kind;
  generation = generation;
  attempt_id = attempt_id;
  connect_window_ms = connect_window_ms;
  candidates = candidates;
  runtime_epoch = none;
  discovery_revision = none;
}

abbrev pub with_epoch_revision : CandidateSignal → RuntimeEpoch → ℕ → CandidateSignal
with_epoch_revision s epoch revision = record s {
  runtime_epoch = some epoch;
  discovery_revision = some revision;
}

-- `is_ascii_graphic` on every byte.
unfoldable pub all_graphic : String → Bool
all_graphic [] = true
all_graphic (b ∷ bs) = leb 33 b && leb b 126 && all_graphic bs

unfoldable pub has_invalid_size : CandidateSignal → Bool
has_invalid_size s =
    s.generation == 0
    || length s.attempt_id == 0
    || ltb max_attempt_id_bytes (length s.attempt_id)
    || not (all_graphic s.attempt_id)
    || ltb s.connect_window_ms min_connect_window_ms
    || ltb max_connect_window_ms s.connect_window_ms
    || ltb max_candidates_per_signal (length s.candidates)

-- The loop of `validate`; `seen` is the map of the ids so far.
unfoldable pub validate_candidates :
    ℕ → List String → List CandidateAdvertisement → Result NatError (Unit {0})
validate_candidates generation seen [] = ok tt
validate_candidates generation seen (a ∷ ads) =
    let rest = validate_candidates generation (a.candidate_id ∷ seen) ads in
    if not (a.generation == generation) || contains seen a.candidate_id
    then err duplicate_or_stale
    else elim (from_advertisement a) [ err reason ↦ err reason | ok candidate ↦ rest ]

unfoldable pub validate : CandidateSignal → Result NatError (Unit {0})
validate s =
    if not (s.version == candidate_signal_version)
    then err unsupported_version
    else if has_invalid_size s
    then err invalid_size
    else validate_candidates s.generation [] s.candidates

pub record CandidateExchangeState : Type 0 where
  pub generation : ℕ
  pub attempt_id : Option String
  pub connect_window_ms : ℕ
  pub candidates : List (String × Candidate)

abbrev pub new_exchange : CandidateExchangeState
new_exchange = record { generation = 0; attempt_id = none; connect_window_ms = 0; candidates = [] }

abbrev pub ids_of : List CandidateAdvertisement → List String
ids_of [] = []
ids_of (a ∷ ads) = a.candidate_id ∷ ids_of ads

-- `for advertisement in &signal.candidates { self.candidates.insert(...)? }`: the state as it is
-- when the loop ends, and the error that ended it, if one did.
unfoldable pub insert_candidates :
    List CandidateAdvertisement
    → List (String × Candidate)
    → Result NatError (Unit {0}) × List (String × Candidate)
insert_candidates [] m = (ok tt, m)
insert_candidates (a ∷ ads) m =
    let rest = insert_candidates ads (put a.candidate_id (candidate_of a) m) in
    elim (from_advertisement a) [ err reason ↦ (err reason, m) | ok candidate ↦ rest ]

-- A known attempt that the signal does not name.
abbrev pub is_new_attempt : Option String → String → Bool
is_new_attempt none id = false
is_new_attempt (some current) id = not (str_beq current id)

-- The state that the candidates of the signal go to, or none for a stale signal.
unfoldable pub admit_signal :
    CandidateExchangeState → CandidateSignal → Option CandidateExchangeState
admit_signal s signal =
    let fresh = is_new_attempt s.attempt_id signal.attempt_id in
    if ltb signal.generation s.generation
    then none
    else if ltb s.generation signal.generation || fresh && is_offer signal.kind
    then some (record {
      generation = signal.generation;
      attempt_id = some signal.attempt_id;
      connect_window_ms = signal.connect_window_ms;
      candidates = [];
    })
    else if fresh
    then none
    else some (record s {
      candidates = retain (λ id c. contains (ids_of signal.candidates) id) s.candidates;
    })

abbrev pub or_attempt : Option String → String → Option String
or_attempt none id = some id
or_attempt (some current) id = some current

-- The end of `apply`, after the loop.
unfoldable pub finish_apply :
    CandidateExchangeState → CandidateSignal → Result NatError Bool × CandidateExchangeState
finish_apply s signal =
    let (result, m) = insert_candidates signal.candidates s.candidates in
    elim result [
      | err reason ↦ (err reason, record s { candidates = m })
      | ok u ↦ (
        ok true,
        record s {
          candidates = m;
          attempt_id = or_attempt s.attempt_id signal.attempt_id;
          connect_window_ms = signal.connect_window_ms;
        },
      )
    ]

unfoldable pub apply :
    CandidateExchangeState → CandidateSignal → Result NatError Bool × CandidateExchangeState
apply s signal = elim (validate signal) [
  | err reason ↦ (err reason, s)
  | ok u ↦ elim (admit_signal s signal) [
    | none ↦ (ok false, s)
    | some admitted ↦ finish_apply admitted signal
  ]
]
