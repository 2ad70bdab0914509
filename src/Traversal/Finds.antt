-- ===== src/Traversal/Finds.antt =====
-- The candidate that a list holds under an id, through the operations of Traversal/Attempt.
use ssh_mobile.Base.{
  ◌≡◌, refl, true, false, List, [], ◌∷◌, Option, none, some, if◌then◌else◌, is_some, str_eq,
  str_beq, str_beq_iff, arith,
}
use ssh_mobile.Base.Sets.{contains}
use ssh_mobile.Traversal.Candidate.{String, Candidate}
use ssh_mobile.Traversal.Attempt.{
  candidate_ids, has_duplicate, retain_ids, keep_samples, merge_candidate, merge_candidates,
}

abbrev pub find_candidate : String → List Candidate → Option Candidate
find_candidate id [] = none
find_candidate id (c ∷ cs) = if str_beq c.candidate_id id then some c else find_candidate id cs

-- What a candidate becomes where another was known, or none.
abbrev pub merged : Candidate → Option Candidate → Candidate
merged c none = c
merged c (some existing) = keep_samples existing c

contains-candidate_ids :
    (id : String) (cs : List Candidate)
    → contains (candidate_ids cs) id ≡ is_some (find_candidate id cs)
unfolding contains
contains-candidate_ids id [] = refl
contains-candidate_ids id (c ∷ cs) = ground (arith, contains-candidate_ids id cs)

keep_samples_id : (existing c : Candidate) → (keep_samples existing c).candidate_id ≡ c.candidate_id
unfolding keep_samples
keep_samples_id existing c = ground arith

find-retain_ids :
    (ids : List String) (id : String) (cs : List Candidate)
    → find_candidate id (retain_ids ids cs)
      ≡ (if contains ids id then find_candidate id cs else none)
unfolding retain_ids
find-retain_ids ids id [] = ground arith
find-retain_ids ids id (c ∷ cs) =
    ground (arith, find-retain_ids ids id cs, str_beq_iff c.candidate_id id)

find-merge_candidate :
    (c : Candidate) (id : String) (cs : List Candidate)
    → find_candidate id (merge_candidate c cs) ≡ (
        if str_beq c.candidate_id id
        then some (merged c (find_candidate id cs))
        else find_candidate id cs)
unfolding merge_candidate
find-merge_candidate c id [] = refl
find-merge_candidate c id (existing ∷ cs) = ground (
  arith,
  find-merge_candidate c id cs,
  keep_samples_id existing c,
  str_beq_iff c.candidate_id id,
  str_beq_iff existing.candidate_id id,
  str_beq_iff existing.candidate_id c.candidate_id,
)

seen-find :
    (seen : List String) (id : String) (cs : List Candidate)
    → has_duplicate seen cs ≡ false
    → contains seen id ≡ true
    → find_candidate id cs ≡ none
unfolding has_duplicate contains
seen-find seen id [] d e = refl
seen-find seen id (c ∷ cs) d e =
    ground (arith, seen-find (c.candidate_id ∷ seen) id cs, str_beq_iff c.candidate_id id)

find-merge_candidates :
    (seen : List String) (incoming : List Candidate) (id : String) (cs : List Candidate)
    → has_duplicate seen incoming ≡ false
    → find_candidate id (merge_candidates incoming cs) ≡ (elim (find_candidate id incoming) [
      | none ↦ find_candidate id cs
      | some c ↦ some (merged c (find_candidate id cs))
    ])
unfolding merge_candidates has_duplicate contains
find-merge_candidates seen [] id cs d = refl
find-merge_candidates seen (c ∷ incoming) id cs d = ground (
  arith,
  find-merge_candidates (c.candidate_id ∷ seen) incoming id (merge_candidate c cs),
  find-merge_candidate c id cs,
  seen-find (c.candidate_id ∷ seen) id incoming,
  str_beq_iff c.candidate_id id,
)

-- A snapshot without a duplicate leaves its own candidates, with the samples of the known ones.
pub find-merge-retain_ids :
    (incoming : List Candidate) (id : String) (cs : List Candidate)
    → has_duplicate [] incoming ≡ false
    → find_candidate id (merge_candidates incoming (retain_ids (candidate_ids incoming) cs))
      ≡ (elim (find_candidate id incoming) [
        | none ↦ none
        | some c ↦ some (merged c (find_candidate id cs))
      ])
find-merge-retain_ids incoming id cs d = ground (
  arith,
  find-merge_candidates [] incoming id (retain_ids (candidate_ids incoming) cs) d,
  find-retain_ids (candidate_ids incoming) id cs,
  contains-candidate_ids id incoming,
)
