-- ===== src/Commands/History/Once.antt =====
-- A command that was claimed, while its result is pending or remembered.
use ssh_mobile.Base.{
  ℕ, suc, ◌+◌, ◌≤◌, ◌≡◌, refl, ap, ◌∙◌, ◌⊎◌, true, false, ◌||◌, List, [], ◌∷◌, ◌++◌, ok, str_eq,
  str_beq_iff, arith, Bool-cases, inl, inr,
}
use ssh_mobile.Base.Sets.{
  contains, remove, recent, contains-remove, contains-recent_le, contains-recent_later,
  contains-recent_newest,
}
use ssh_mobile.Commands.Ledger.{
  CommandId, CommandResultLedger, new_ledger, claim, complete, max_completed_commands,
}
use ssh_mobile.Commands.History.{
  IsLedger, LedgerCall, claims, completes, serve, serve-IsLedger, new_ledger-IsLedger,
  completed_after, complete_pending, claim-IsLedger,
}

abbrev pub count_completes : List LedgerCall → ℕ
count_completes [] = 0
count_completes (claims id ∷ rest) = count_completes rest
count_completes (completes id ∷ rest) = suc (count_completes rest)

-- The command is pending, or among the last few completed.
abbrev Remembers : ℕ → List CommandId → CommandResultLedger → CommandId → Type 0
Remembers few past l id = (contains l.pending id ≡ true) ⊎ (contains (recent few past) id ≡ true)

claim-pending :
    (s l : CommandResultLedger) (id : CommandId)
    → claim s id ≡ (ok true, l)
    → contains l.pending id ≡ true
unfolding claim contains
claim-pending s l id h = ground (arith, str_beq_iff id id)

claim_again :
    (l : CommandResultLedger) (id : CommandId)
    → (contains l.pending id || contains l.completed id) ≡ true
    → (claim l id).0 ≡ ok false
unfolding claim
claim_again l id h = rw (claim, h) refl

claim_keeps :
    (l : CommandResultLedger) (id j : CommandId)
    → contains l.pending id ≡ true
    → contains (claim l j).1.pending id ≡ true
unfolding claim contains
claim_keeps l id j h = ground arith

complete-Remembers :
    (few : ℕ) (past : List CommandId) (l : CommandResultLedger) (id j : CommandId)
    → Remembers few past l id
    → Remembers (suc few) (completed_after past l j) (complete l j) id
complete-Remembers few past l id j r = elim (Bool-cases (contains l.pending j)) [
  | inl active ↦ rw (complete_pending l j, active) (go active r)
  | inr idle ↦ rw (complete_pending l j, idle) (stay r)
]
  where
    stay : Remembers few past l id → Remembers (suc few) past l id
    stay (inl h) = inl h
    stay (inr h) = inr (contains-recent_le few (suc few) past id (omega arith) h)

    go :
        contains l.pending j ≡ true
        → Remembers few past l id
        → (contains (remove j l.pending) id ≡ true)
          ⊎ (contains (recent (suc few) (past ++ (j ∷ []))) id ≡ true)
    go active (inr h) = inr (contains-recent_later few past j id h)
    go active (inl h) = elim (Bool-cases (str_eq.beq j id)) [
      | inl same ↦ inr (rw ((str_beq_iff j id).0 same) (contains-recent_newest few past id))
      | inr other ↦ inl (contains-remove l.pending j id ∙ rw other h)
    ]

serve-Remembers :
    (few many : ℕ) (l : CommandResultLedger) (past : List CommandId) (calls : List LedgerCall)
    (id : CommandId)
    → few + count_completes calls ≡ many
    → Remembers few past l id
    → Remembers many (serve (l, past) calls).1 (serve (l, past) calls).0 id
unfolding serve
serve-Remembers few many l past [] id e r = let same : many ≡ few = omega arith in rw same r
serve-Remembers few many l past (claims j ∷ rest) id e (inl h) =
    serve-Remembers few many (claim l j).1 past rest id e (inl (claim_keeps l id j h))
serve-Remembers few many l past (claims j ∷ rest) id e (inr h) =
    serve-Remembers few many (claim l j).1 past rest id e (inr h)
serve-Remembers few many l past (completes j ∷ rest) id e r =
    serve-Remembers (suc few) many (complete l j) (completed_after past l j) rest id (omega arith)
      (complete-Remembers few past l id j r)

-- A command that has been claimed is claimed no second time, whatever calls follow, while no more
-- than 4096 commands are completed after it was claimed, itself included.
pub claim_once :
    (calls later : List LedgerCall) (id : CommandId) (l : CommandResultLedger)
    → claim (serve (new_ledger, []) calls).0 id ≡ (ok true, l)
    → count_completes later ≤ max_completed_commands
    → (claim (serve (l, (serve (new_ledger, []) calls).1) later).0 id).0 ≡ ok false
claim_once calls later id l h few =
    let s : CommandResultLedger = (serve (new_ledger, []) calls).0 in
    let past : List CommandId = (serve (new_ledger, []) calls).1 in
    let v = serve-IsLedger new_ledger [] calls new_ledger-IsLedger in
    let w : IsLedger past l = rw (ap (λ x. x.1) h) at (claim-IsLedger past s id v) in
    let ends = serve-IsLedger l past later w in
    claim_again (serve (l, past) later).0 id (
      known (serve (l, past) later).1 (serve (l, past) later).0 ends (
        serve-Remembers 0 (count_completes later) l past later id (omega arith)
          (inl (claim-pending s l id h))))
  where
    known :
        (past : List CommandId) (t : CommandResultLedger)
        → IsLedger past t
        → Remembers (count_completes later) past t id
        → (contains t.pending id || contains t.completed id) ≡ true
    known past t v (inl h) = rw h refl
    known past t v (inr h) =
        let held =
          v.window.agree id
          ∙ ap (λ xs. contains xs id) v.order
          ∙ contains-recent_le (count_completes later) max_completed_commands past id few h in
        ground (arith, held)
