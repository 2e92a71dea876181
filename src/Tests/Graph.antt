-- ===== src/Tests/Graph.antt =====
-- Runs of the account graph, of the unique accounts, of the path counts and of the payment format totals.
use tp_distribuidos_moneylau.Prelude.{count, sum_map, ◌++◌, ◌%◌}
use tp_distribuidos_moneylau.Prelude.{
  ℕ, ◌≡◌, ◌==◌, ◌&&◌, ◌||◌, not, refl, true, false, some, List, [], ◌∷◌, nat_eq, list_eq, pair_eq,
  contains, get_or, Dict,
}
use tp_distribuidos_moneylau.Prelude.Text.{Text, text}
use tp_distribuidos_moneylau.Workers.AccountGraph.{
  Account, AccountEdge, Transaction, Graph, create_edges_by_shard, apply_delta, create_paths,
}
use tp_distribuidos_moneylau.Workers.AccountGraph.Laws.{
  has_edge, linked, ends_passing, count-create_edges_by_shard, linked-apply_delta,
  contains-create_paths,
}
use tp_distribuidos_moneylau.Prelude.{if◌then◌else◌}
use tp_distribuidos_moneylau.Workers.PaymentFormat.{PaymentFormatPartial, Totals}
use tp_distribuidos_moneylau.Workers.PathFrequency.{Paths}
use tp_distribuidos_moneylau.Workers.PathFrequency
use tp_distribuidos_moneylau.Workers.PathFrequency.Laws.{has_path, contains-apply_delta}
use tp_distribuidos_moneylau.Worker.Sharding.{flush_sharded}
use tp_distribuidos_moneylau.Worker.Sharding.Laws.{count_sent}
use tp_distribuidos_moneylau.Workers.AccountGraph.{dotted}
use tp_distribuidos_moneylau.Workers.DuplicateAccounts.{add_accounts, values}
use tp_distribuidos_moneylau.Workers.DuplicateAccounts.Laws.{count-reported}

abbrev a : Account
a = (text "1", text "a")

abbrev b : Account
b = (text "1", text "b")

abbrev c : Account
c = (text "2", text "c")

abbrev graph : Graph
graph = (b, (a ∷ c ∷ [], c ∷ [])) ∷ (a, ([], b ∷ [])) ∷ []

contains-create_paths_example :
    contains (a, (b, c)) (create_paths graph)
    ≡ ((linked false b a graph && linked true b c graph) && not (a == c))
unfolding contains
contains-create_paths_example = contains-create_paths graph a b c (refl, (refl, tt))

abbrev delta : List AccountEdge
delta =
    record { account = b; other = c; is_sender = true }
    ∷ record { account = b; other = a; is_sender = false }
    ∷ []

linked-apply_delta_example :
    linked true b c (get_or (text "x") [] (apply_delta (text "x") delta [])) ≡ (
      (text "x" == text "x" && has_edge true b c delta)
      || linked true b c (get_or (text "x") [] []))
linked-apply_delta_example = linked-apply_delta (text "x") delta [] (text "x") true b c

abbrev first_char : Text → ℕ
first_char [] = 0
first_char (x ∷ s) = x

abbrev transfer : Transaction
transfer = record {
  from_bank = some (text "1");
  from_account = some (text "a");
  to_bank = some (text "2");
  to_account = some (text "c");
}

count-create_edges_by_shard_example :
    count {A = AccountEdge}
      (λ e. e.is_sender)
      (get_or 1 [] (create_edges_by_shard first_char 2 (transfer ∷ [])))
    ≡ sum_map
        (ends_passing (λ e. first_char (e.account.0 ++ 46 ∷ e.account.1) % 2 == 1 && e.is_sender))
        (transfer ∷ [])
count-create_edges_by_shard_example =
    count-create_edges_by_shard first_char 2 (λ e. e.is_sender) 1 (transfer ∷ [])

abbrev wire : PaymentFormatPartial ℕ
wire = record { payment_format = text "wire"; total_amount = 30; count = 2 }

abbrev other_flow : Dict Text (Totals ℕ)
other_flow = (text "j", (text "wire", (7, 1)) ∷ []) ∷ []

contains-apply_delta_example :
    contains b (
      get_or
        (a, c)
        []
        (get_or (text "x") [] (PathFrequency.apply_delta (text "x") (((a, c), b) ∷ []) [])))
    ≡ ((text "x" == text "x" && has_path (a, c) b (((a, c), b) ∷ []))
        || contains b (get_or (a, c) [] (get_or {V = Paths} (text "x") [] [])))
contains-apply_delta_example =
    contains-apply_delta (text "x") (((a, c), b) ∷ []) [] (text "x") (a, c) b

count-reported_example :
    count_sent {A = Account}
      (λ x. x == a)
      (flush_sharded first_char 0
        (text "x")
        dotted
        1
        10
        (λ _. text "x")
        (values (add_accounts (a ∷ b ∷ a ∷ []) [])))
    ≡ (if contains a (a ∷ b ∷ a ∷ []) then 1 else 0)
count-reported_example = count-reported first_char 0 10 (text "x") (a ∷ b ∷ a ∷ []) a
