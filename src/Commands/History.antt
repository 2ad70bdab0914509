-- ===== src/Commands/History.antt =====
-- The ledger against the history of the commands that it completed.
pub mod Once
use ssh_mobile.Base.{
  ◌≤◌, ◌≡◌, refl, sym, ap, ◌∙◌, Bool, true, false, ◌||◌, List, [], ◌∷◌, ◌++◌, leb, if◌then◌else◌,
  length, Result, ok, err, str_eq, str_beq_iff, arith, Bool-cases, inl, inr,
}
use ssh_mobile.Base.Sets.{
  contains, remove, IsWindow, recent, evict-IsWindow, evict-recent, evict-contains,
  evict-contains_newest, recent-recent, join-IsWindow, contains-remove, length-remove,
}
use ssh_mobile.Commands.Ledger.{
  CommandId, CommandResultLedger, LedgerError, resource_limit, new_ledger, claim, complete,
  add_completed, max_completed_commands, command_mailbox_capacity,
}

-- The ledger after a history of completed commands.
pub record IsLedger (past : List CommandId) (l : CommandResultLedger) : Type 0 where
  pub window : IsWindow l.completed l.completed_order
  pub order : l.completed_order ≡ recent max_completed_commands past
  pub apart : (k : CommandId) → contains l.pending k ≡ true → contains l.completed k ≡ false
  pub few : length l.pending ≤ command_mailbox_capacity

claim-IsLedger :
    (past : List CommandId) (l : CommandResultLedger) (id : CommandId)
    → IsLedger past l
    → IsLedger past (claim l id).1
unfolding claim contains
claim-IsLedger past l id v = elim (Bool-cases (contains l.pending id || contains l.completed id)) [
  | inl known ↦ rw known v
  | inr new ↦ elim (Bool-cases (leb command_mailbox_capacity (length l.pending))) [
    | inl full ↦ rw (new, full) v
    | inr room ↦
        rw (new, room)
          (record {
            window = v.window;
            order = v.order;
            apart = λ k h. ground (arith, v.apart k, str_beq_iff id k);
            few = ground arith;
          })
  ]
]

-- The history after the completion of a command that was or was not pending.
abbrev pub completed_after : List CommandId → CommandResultLedger → CommandId → List CommandId
completed_after past l id = if contains l.pending id then past ++ (id ∷ []) else past

other-completed :
    (past : List CommandId) (l : CommandResultLedger) (id : CommandId)
    → IsLedger past l
    → (k : CommandId) → contains (remove id l.pending) k ≡ true
    → contains (id ∷ l.completed) k ≡ false
unfolding contains
other-completed past l id v k h =
    ground (arith, contains-remove l.pending id k, v.apart k, str_beq_iff id k)

complete-IsLedger :
    (past : List CommandId) (l : CommandResultLedger) (id : CommandId)
    → IsLedger past l
    → IsLedger (completed_after past l id) (complete l id)
unfolding complete add_completed
complete-IsLedger past l id v = elim (Bool-cases (contains l.pending id)) [
  | inr idle ↦ rw idle v
  | inl active ↦
      let new = v.apart id active in
      let joined = join-IsWindow l.completed l.completed_order id v.window new in
      let kept =
        evict-IsWindow max_completed_commands (id ∷ l.completed) (l.completed_order ++ (id ∷ []))
          joined in
      let order =
        evict-recent max_completed_commands (id ∷ l.completed) (l.completed_order ++ (id ∷ [])) in
      rw (active, new)
        (record {
          window = kept;
          order =
              order
              ∙ ap (λ xs. recent max_completed_commands (xs ++ (id ∷ []))) v.order
              ∙ recent-recent max_completed_commands past id;
          apart = λ k h.
              evict-contains max_completed_commands (id ∷ l.completed)
                (l.completed_order ++ (id ∷ [])) k joined (other-completed past l id v k h);
          few = omega (arith, v.few, length-remove l.pending id);
        })
]

-- What reaches the ledger: a command arrives, or the result of one has been sent.
pub data LedgerCall : Type 0 where
  claims : CommandId → LedgerCall
  completes : CommandId → LedgerCall

-- The ledger after the calls, and the commands that it completed, in order.
unfoldable pub serve :
    CommandResultLedger × List CommandId → List LedgerCall → CommandResultLedger × List CommandId
serve (l, past) [] = (l, past)
serve (l, past) (claims id ∷ rest) = serve ((claim l id).1, past) rest
serve (l, past) (completes id ∷ rest) = serve (complete l id, completed_after past l id) rest

serve-IsLedger :
    (l : CommandResultLedger) (past : List CommandId) (calls : List LedgerCall)
    → IsLedger past l
    → IsLedger (serve (l, past) calls).1 (serve (l, past) calls).0
unfolding serve
serve-IsLedger l past [] v = v
serve-IsLedger l past (claims id ∷ rest) v =
    serve-IsLedger (claim l id).1 past rest (claim-IsLedger past l id v)
serve-IsLedger l past (completes id ∷ rest) v =
    serve-IsLedger (complete l id) (completed_after past l id) rest (complete-IsLedger past l id v)

new_ledger-IsLedger : IsLedger [] new_ledger
unfolding contains
new_ledger-IsLedger = record {
  window = record { agree = λ k. refl; distinct = tt };
  order = refl;
  apart = λ k h. refl;
  few = omega arith;
}

-- What the claims of a list of calls answer.
unfoldable pub answers : CommandResultLedger → List LedgerCall → List (Result LedgerError Bool)
answers l [] = []
answers l (claims id ∷ rest) = (claim l id).0 ∷ answers (claim l id).1 rest
answers l (completes id ∷ rest) = answers (complete l id) rest

-- The description that the ledger is compared with: the commands that run, and all those that have
-- ended, in order.
abbrev expected_answer :
    List CommandId → List CommandId → CommandId → Result LedgerError Bool × List CommandId
expected_answer running ended id =
    if contains running id || contains (recent max_completed_commands ended) id
    then (ok false, running)
    else if leb command_mailbox_capacity (length running)
    then (err resource_limit, running)
    else (ok true, id ∷ running)

unfoldable pub expected :
    List CommandId → List CommandId → List LedgerCall → List (Result LedgerError Bool)
expected running ended [] = []
expected running ended (claims id ∷ rest) =
    (expected_answer running ended id).0 ∷ expected (expected_answer running ended id).1 ended rest
expected running ended (completes id ∷ rest) =
    expected (if contains running id then remove id running else running)
      (if contains running id then ended ++ (id ∷ []) else ended) rest

claim-expected_answer :
    (past : List CommandId) (l : CommandResultLedger) (id : CommandId)
    → IsLedger past l
    → ((claim l id).0 ≡ (expected_answer l.pending past id).0)
      × ((claim l id).1.pending ≡ (expected_answer l.pending past id).1)
unfolding claim
claim-expected_answer past l id v =
    let same : contains l.completed id ≡ contains (recent max_completed_commands past) id =
      v.window.agree id ∙ ap (λ xs. contains xs id) v.order in
    rw (claim, same) (ground arith)

complete_pending :
    (l : CommandResultLedger) (id : CommandId)
    → (complete l id).pending ≡ (if contains l.pending id then remove id l.pending else l.pending)
unfolding complete
complete_pending l id = ground arith

answers-expected :
    (past : List CommandId) (l : CommandResultLedger) (calls : List LedgerCall)
    → IsLedger past l
    → answers l calls ≡ expected l.pending past calls
unfolding answers expected
answers-expected past l [] v = refl
answers-expected past l (claims id ∷ rest) v =
    let (answer, running) = claim-expected_answer past l id v in
    let later = answers-expected past (claim l id).1 rest (claim-IsLedger past l id v) in
    rw (sym answer, sym running) (ap (λ xs. (claim l id).0 ∷ xs) later)
answers-expected past l (completes id ∷ rest) v = rw (sym (complete_pending l id)) (
    answers-expected (completed_after past l id) (complete l id) rest
      (complete-IsLedger past l id v))

-- A new ledger answers the claims of any calls as the description does that keeps every command that
-- runs and every one that has ended: a command is refused as a repetition exactly when it was
-- claimed and runs, or is among the last 4096 that ended; otherwise it is claimed, unless 256
-- commands run. After the calls the ledger holds at most 256 pending commands.
pub claim-exact :
    (calls : List LedgerCall)
    → (answers new_ledger calls ≡ expected [] [] calls)
      × (length (serve (new_ledger, []) calls).0.pending ≤ command_mailbox_capacity)
claim-exact calls = (
  answers-expected [] new_ledger calls new_ledger-IsLedger,
  (serve-IsLedger new_ledger [] calls new_ledger-IsLedger).few,
)
