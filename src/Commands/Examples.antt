-- ===== src/Commands/Examples.antt =====
-- A short life of the ledger of native/network_core/crates/network-core/src/commands/ledger.rs.
use ssh_mobile.Base.{◌≤◌, ◌≡◌, refl, true, false, List, [], ◌∷◌, length, ok, str_eq, arith}
use ssh_mobile.Base.Sets.{contains, remove, evict}
use ssh_mobile.Commands.Ledger.{
  CommandId, CommandResultLedger, new_ledger, claim, complete, add_completed,
  command_mailbox_capacity,
}
use ssh_mobile.Commands.History.{
  LedgerCall, claims, completes, serve, answers, expected, claim-exact,
}
use ssh_mobile.Commands.History.Once.{claim_once}

abbrev first : CommandId
first = 1 ∷ []

abbrev second : CommandId
second = 2 ∷ []

abbrev calls : List LedgerCall
calls = claims first ∷ completes first ∷ []

abbrev served : CommandResultLedger
served = (serve (new_ledger, []) calls).0

claims_second : claim served second ≡ (ok true, (claim served second).1)
unfolding serve claim complete add_completed contains remove evict
claims_second = refl

abbrev later_calls : List LedgerCall
later_calls = claims second ∷ completes first ∷ completes second ∷ []

claim-exact_example :
    (answers new_ledger (claims first ∷ claims first ∷ calls)
      ≡ expected [] [] (claims first ∷ claims first ∷ calls))
    × (length (serve (new_ledger, []) (claims first ∷ claims first ∷ calls)).0.pending
        ≤ command_mailbox_capacity)
claim-exact_example = claim-exact (claims first ∷ claims first ∷ calls)

first_repeated : answers new_ledger (claims first ∷ claims first ∷ []) ≡ ok true ∷ ok false ∷ []
unfolding answers claim contains
first_repeated = refl

claim_once_example :
    (claim
      (serve ((claim served second).1, (serve (new_ledger, []) calls).1) later_calls).0
      second).0
    ≡ ok false
claim_once_example =
    claim_once calls later_calls second (claim served second).1 claims_second (omega arith)
