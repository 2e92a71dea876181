-- ===== src/Workers/PathFrequency.antt =====
-- src/workers/path_frequency_filter/main.py: the mid accounts between two accounts, and the pairs of
-- accounts that have enough of them.
pub mod Laws
use tp_distribuidos_moneylau.Prelude.{
  ℕ, ◌==◌, nat_eq, list_eq, pair_eq, ltb, length, Option, some, List, [], ◌∷◌, ◌++◌, map,
  if◌then◌else◌, Dict, insert, get_or, erase, add,
}
use tp_distribuidos_moneylau.Prelude.Text.{Text}
use tp_distribuidos_moneylau.Worker.Hooks.{Sent}
use tp_distribuidos_moneylau.Worker.Sharding.{flush_sharded}
use tp_distribuidos_moneylau.Workers.AccountGraph.{Account, dotted}

-- the two ends of a path, (from_bank, from_account) and (to_bank, to_account)
abbrev pub Ends : Type 0
Ends = Account × Account

-- the set of mid accounts of each pair of ends of a flow
abbrev pub Paths : Type 0
Paths = Dict Ends (List Account)

-- `_add_path` on the paths of a flow
unfoldable pub add_path : Ends → Account → Paths → Paths
add_path ends mid paths = insert ends (add mid (get_or ends [] paths)) paths

-- `_apply_delta`: a delta is the list of the ends and mid accounts of the paths of a batch
unfoldable pub apply_delta : Text → List (Ends × Account) → Dict Text Paths → Dict Text Paths
unfolding add_path
apply_delta c [] flows = flows
apply_delta c ((ends, mid) ∷ delta) flows =
    apply_delta c delta (insert c (add_path ends mid (get_or c [] flows)) flows)

unfoldable pub path_entries : Paths → List (Ends × Account)
path_entries [] = []
path_entries ((ends, mids) ∷ paths) = map (λ mid. (ends, mid)) mids ++ path_entries paths

-- `_state_as_delta`
unfoldable pub state_as_delta : Text → Dict Text Paths → Option (List (Ends × Account))
unfolding path_entries
state_as_delta c flows = some (path_entries (get_or c [] flows))

-- `_create_results`: a Q4Result is its account
unfoldable pub create_results : ℕ → Paths → List Account
create_results min_required_accounts [] = []
create_results min_required_accounts ((ends, mids) ∷ paths) =
    let rest = create_results min_required_accounts paths in
    if ltb (length mids) min_required_accounts then rest else ends.0 ∷ ends.1 ∷ rest

-- `_flush_data`
unfoldable pub flush_data :
    (Text → ℕ)
    → ℕ
    → ℕ
    → ℕ
    → (ℕ → Text)
    → ℕ
    → Text
    → Dict Text Paths
    → Dict Text Paths × List (Sent (List Account))
unfolding flush_sharded create_results dotted
flush_data hash_of node_id output_node_count batch_size routing_key_for min_required_accounts c
      flows =
    (
      erase c flows,
      flush_sharded hash_of node_id c dotted output_node_count batch_size routing_key_for
          (create_results min_required_accounts (get_or c [] flows)),
    )
