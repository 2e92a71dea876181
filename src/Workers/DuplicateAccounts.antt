-- ===== src/Workers/DuplicateAccounts.antt =====
-- src/workers/duplicate_account_filter/main.py: the accounts of a client's results, each once.
pub mod Laws
use tp_distribuidos_moneylau.Prelude.{
  ℕ, ◌==◌, nat_eq, list_eq, pair_eq, Option, some, List, [], ◌∷◌, map, if◌then◌else◌, Dict, insert,
  get_or, erase,
}
use tp_distribuidos_moneylau.Prelude.Text.{Text}
use tp_distribuidos_moneylau.Worker.Hooks.{Sent}
use tp_distribuidos_moneylau.Worker.Sharding.{flush_sharded}
use tp_distribuidos_moneylau.Workers.AccountGraph.{Account, dotted}

-- the results of a flow by their accounts; a Q4Result is its account
abbrev pub UniqueAccounts : Type 0
UniqueAccounts = Dict Account Account

-- the loop of `_apply_delta`
unfoldable pub add_accounts : List Account → UniqueAccounts → UniqueAccounts
add_accounts [] unique_accounts = unique_accounts
add_accounts (account ∷ delta) unique_accounts =
    add_accounts delta (insert account account unique_accounts)

-- `_apply_delta`
unfoldable pub apply_delta :
    Text → List Account → Dict Text UniqueAccounts → Dict Text UniqueAccounts
unfolding add_accounts
apply_delta c delta flows = insert c (add_accounts delta (get_or c [] flows)) flows

-- `list(unique_accounts.values())`
unfoldable pub values : UniqueAccounts → List Account
values [] = []
values ((account, result) ∷ unique_accounts) = result ∷ values unique_accounts

-- `_state_as_delta`
unfoldable pub state_as_delta : Text → Dict Text UniqueAccounts → Option (List Account)
unfolding values
state_as_delta c flows = some (values (get_or c [] flows))

-- `_handle_data_message`: the new state and the delta
unfoldable pub handle_data :
    Text → List Account → Dict Text UniqueAccounts → Dict Text UniqueAccounts × List Account
unfolding apply_delta
handle_data c payload flows = (apply_delta c payload flows, payload)

-- `_flush_data`
unfoldable pub flush_data :
    (Text → ℕ)
    → ℕ
    → ℕ
    → Text
    → Dict Text UniqueAccounts
    → Dict Text UniqueAccounts × List (Sent (List Account))
unfolding flush_sharded values dotted
flush_data hash_of node_id batch_size c flows = (
  erase c flows,
  flush_sharded hash_of node_id c dotted 1 batch_size (λ _. c) (values (get_or c [] flows)),
)
