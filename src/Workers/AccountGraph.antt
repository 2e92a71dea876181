-- ===== src/Workers/AccountGraph.antt =====
-- The account graph of the scatter-gather query: src/workers/bidirectional_sharder/main.py makes edges of
-- transactions, src/workers/account_frequency_filter/main.py and src/workers/path_mapper/main.py collect
-- the edges of each account and make edges and paths of them.
pub mod Laws
use tp_distribuidos_moneylau.Prelude.{
  ℕ, ◌==◌, nat_eq, list_eq, pair_eq, ltb, length, Bool, true, false, not, ◌||◌, Option, none, some,
  List, [], ◌∷◌, ◌++◌, map, if◌then◌else◌, Dict, lookup, insert, erase, get_or, add,
}
use tp_distribuidos_moneylau.Prelude.Text.{Text, decimal}
use tp_distribuidos_moneylau.Worker.Hooks.{Sent}
use tp_distribuidos_moneylau.Worker.Sharding.{shard_of, group_into, flush_sharded}

-- (bank, account)
abbrev pub Account : Type 0
Account = Text × Text

-- an edge, each of its ends as (bank, account)
pub record AccountEdge : Type 0 where
  pub account : Account
  pub other : Account
  pub is_sender : Bool

-- The fields of a transaction that the sharder reads; a field that the message left out is none.
pub record Transaction : Type 0 where
  pub from_bank : Option Text
  pub from_account : Option Text
  pub to_bank : Option Text
  pub to_account : Option Text

-- The accounts of a path: from, mid, to.
abbrev pub Path3 : Type 0
Path3 = Account × (Account × Account)

-- f"{bank}.{account}"
unfoldable pub dotted : Account → Text
dotted a = a.0 ++ 46 ∷ a.1

-- the two edges of a transaction, none of one that lacks a field
unfoldable pub edges_of : Transaction → List AccountEdge
edges_of t = elim t.from_bank [
  | none ↦ []
  | some from_bank ↦ elim t.from_account [
    | none ↦ []
    | some from_account ↦ elim t.to_bank [
      | none ↦ []
      | some to_bank ↦ elim t.to_account [
        | none ↦ []
        | some to_account ↦
            record {
              account = (from_bank, from_account);
              other = (to_bank, to_account);
              is_sender = true;
            }
            ∷ record {
              account = (to_bank, to_account);
              other = (from_bank, from_account);
              is_sender = false;
            }
            ∷ []
      ]
    ]
  ]
]

unfoldable pub all_edges : List Transaction → List AccountEdge
unfolding edges_of
all_edges [] = []
all_edges (t ∷ payload) = edges_of t ++ all_edges payload

-- `_create_edges_by_shard`
unfoldable pub create_edges_by_shard : (Text → ℕ) → ℕ → List Transaction → Dict ℕ (List AccountEdge)
unfolding group_into all_edges shard_of dotted
create_edges_by_shard hash_of output_node_count payload =
    group_into (λ e. shard_of hash_of (dotted e.account) output_node_count) (λ e. e)
      (all_edges payload) []

-- `_handle_data_message` of the sharder: what it sends, and the delta `{"sent": n}`
unfoldable pub sharder_handle_data :
    (Text → ℕ) → ℕ → Text → Text → Text → List Transaction → ℕ × List (Sent (List AccountEdge))
unfolding create_edges_by_shard
sharder_handle_data hash_of output_node_count output_node_prefix mid c payload =
    let shards = create_edges_by_shard hash_of output_node_count payload in
    (
      length shards,
      map
          (λ entry. record {
            client_id = c;
            body = entry.1;
            routing_key = some (output_node_prefix ++ decimal entry.0);
            message_id = mid;
          })
          shards,
    )

-- the (in_accounts, out_accounts) of each account of a flow
abbrev pub Graph : Type 0
Graph = Dict Account (List Account × List Account)

-- `_add_edge` on the graph of a flow
unfoldable pub add_edge : AccountEdge → Graph → Graph
add_edge e graph =
    let accounts = get_or e.account ([], []) graph in
    insert e.account
      (if e.is_sender
        then (accounts.0, add e.other accounts.1)
        else (add e.other accounts.0, accounts.1))
      graph

-- `_apply_delta`
unfoldable pub apply_delta : Text → List AccountEdge → Dict Text Graph → Dict Text Graph
unfolding add_edge
apply_delta c [] flows = flows
apply_delta c (e ∷ delta) flows =
    apply_delta c delta (insert c (add_edge e (get_or c [] flows)) flows)

-- the inner loops of `_state_as_delta`
unfoldable pub edges_with : Account → Bool → List Account → List AccountEdge
edges_with account is_sender others =
    map (λ other. record { account = account; other = other; is_sender = is_sender }) others

unfoldable pub graph_edges : Graph → List AccountEdge
unfolding edges_with
graph_edges [] = []
graph_edges ((account, (ins, outs)) ∷ graph) =
    edges_with account false ins ++ edges_with account true outs ++ graph_edges graph

-- `_state_as_delta`
unfoldable pub state_as_delta : Text → Dict Text Graph → Option (List AccountEdge)
unfolding graph_edges
state_as_delta c flows = some (graph_edges (get_or c [] flows))

-- the body of the loop of `_create_edges`: the edges of the other accounts, if there are enough
unfoldable pub frequent_edges : ℕ → Account → Bool → List Account → List AccountEdge
frequent_edges min_required_accounts account is_sender accounts =
    if ltb (length accounts) min_required_accounts
    then []
    else map (λ other. record { account = other; other = account; is_sender = not is_sender })
        accounts

-- `_create_edges` of the account frequency filter
unfoldable pub create_edges : ℕ → Graph → List AccountEdge
unfolding frequent_edges
create_edges min_required_accounts [] = []
create_edges min_required_accounts ((account, (ins, outs)) ∷ graph) =
    frequent_edges min_required_accounts account false ins
    ++ frequent_edges min_required_accounts account true outs
    ++ create_edges min_required_accounts graph

-- the innermost loop of `_create_paths`
unfoldable pub paths_to : Account → Account → List Account → List Path3
paths_to from mid [] = []
paths_to from mid (to ∷ outs) =
    let rest = paths_to from mid outs in if from == to then rest else (from, (mid, to)) ∷ rest

unfoldable pub paths_through : Account → List Account → List Account → List Path3
unfolding paths_to
paths_through mid [] outs = []
paths_through mid (from ∷ ins) outs = paths_to from mid outs ++ paths_through mid ins outs

-- `if not in_accounts or not out_accounts`
unfoldable pub is_empty {ℓ} : {A : Type ℓ} → List A → Bool
is_empty [] = true
is_empty (x ∷ xs) = false

-- `_create_paths` of the path mapper
unfoldable pub create_paths : Graph → List Path3
unfolding paths_through is_empty
create_paths [] = []
create_paths ((mid, (ins, outs)) ∷ graph) =
    let rest = create_paths graph in
    if is_empty ins || is_empty outs then rest else paths_through mid ins outs ++ rest
