-- ===== src/Commands/Ledger.antt =====
-- `CommandResultLedger` of native/network_core/crates/network-core/src/commands/ledger.rs: what
-- its mutex guards. A method returns its result and the state after.
use ssh_mobile.Base.{
  ℕ, Bool, true, false, ◌||◌, not, List, [], ◌∷◌, ◌++◌, leb, if◌then◌else◌, length, Result, ok, err,
  str_eq,
}
use ssh_mobile.Base.Sets.{contains, remove, evict}

abbrev pub CommandId : Type 0
CommandId = List ℕ

abbrev pub max_completed_commands : ℕ
max_completed_commands = 4096

abbrev pub command_mailbox_capacity : ℕ
command_mailbox_capacity = 256

-- `CoreNetworkError::ResourceLimit("pending command results")`.
pub data LedgerError : Type 0 where
  resource_limit : LedgerError

pub record CommandResultLedger : Type 0 where
  pub pending : List CommandId
  pub completed : List CommandId
  pub completed_order : List CommandId

abbrev pub new_ledger : CommandResultLedger
new_ledger = record { pending = []; completed = []; completed_order = [] }

unfoldable pub claim :
    CommandResultLedger → CommandId → Result LedgerError Bool × CommandResultLedger
claim l id =
    if contains l.pending id || contains l.completed id
    then (ok false, l)
    else if leb command_mailbox_capacity (length l.pending)
    then (err resource_limit, l)
    else (ok true, record l { pending = id ∷ l.pending })

-- `completed.insert` and `completed_order.push_back`.
unfoldable pub add_completed :
    List CommandId → List CommandId → CommandId → List CommandId × List CommandId
add_completed completed order id =
    if contains completed id then (completed, order) else (id ∷ completed, order ++ (id ∷ []))

unfoldable pub complete : CommandResultLedger → CommandId → CommandResultLedger
complete l id =
    if not (contains l.pending id)
    then l
    else (let (completed, order) = add_completed l.completed l.completed_order id in
        let (kept, kept_order) = evict max_completed_commands completed order in
        record { pending = remove id l.pending; completed = kept; completed_order = kept_order })
