-- ===== src/Tests/Client.antt =====
-- Runs of the client: a file of three lines, and two results of one query, one of them delivered twice.
use tp_distribuidos_moneylau.Prelude.{
  ℕ, ◌≡◌, ◌++◌, refl, Bool, true, Option, none, some, List, [], ◌∷◌, nat_eq, list_eq, pair_eq,
  arith, get_or, contains, flatten, lookup, insert, add,
}
use tp_distribuidos_moneylau.Prelude.Text.{Text, text}
use tp_distribuidos_moneylau.Prelude.Int.{pos}
use tp_distribuidos_moneylau.Gateway.Router.{Router}
use tp_distribuidos_moneylau.Gateway.Handler.{ClientHandler, started, handle_all}
use tp_distribuidos_moneylau.Client.Results.{
  Results, Received, query_result, query_end, ack, closed, open_result_files, handle_query_result,
  handle_each, is_complete, is_empty_text,
}
use tp_distribuidos_moneylau.Client.Results.Laws.{
  rows_delivered, results_delivered, handle_query_result_again, handle_each-rows_delivered,
}
use tp_distribuidos_moneylau.Client.Results.Total.{handle_each_total}
use tp_distribuidos_moneylau.Client.Results.Finalized.{handle_each-Finalizes}
use tp_distribuidos_moneylau.Client.Batches.{read_batches, transaction_messages}
use tp_distribuidos_moneylau.Client.Batches.Laws.{
  content, Filled, flatten-read_batches, read_batches-Filled,
}
use tp_distribuidos_moneylau.Client.Session.{Client, run}
use tp_distribuidos_moneylau.Client.Session.Sent.{InOrder}
use tp_distribuidos_moneylau.Client.Session.Laws.{run-acknowledged}
use tp_distribuidos_moneylau.Client.Stream.{receptions, announced, handle_all-transaction_messages}

abbrev items : List (Received ℕ)
items =
    query_result 1 (5 ∷ []) (text "m") 1
    ∷ query_result 1 (5 ∷ []) (text "m") 2
    ∷ query_end 1 (pos 1) 3
    ∷ []

abbrev empty : Results ℕ
empty = open_result_files (1 ∷ [])

abbrev results_of : Option (Results ℕ) → Results ℕ
results_of none = empty
results_of (some r) = r

abbrev results : Results ℕ
results = results_of (handle_each items empty)

handled : handle_each items empty ≡ some results
unfolding open_result_files handle_each lookup insert get_or contains add
handled = refl

handle_each-rows_delivered_example :
    (get_or 1 [] results.writers ≡ rows_delivered 1 [] items)
    × (get_or 1 0 results.received ≡ results_delivered 1 [] items)
handle_each-rows_delivered_example = handle_each-rows_delivered (1 ∷ []) 1 items handled

handle_each_total_example :
    (w : Results ℕ) × (handle_each items (open_result_files (1 ∷ [])) ≡ some w)
unfolding contains
handle_each_total_example = handle_each_total (1 ∷ []) items (refl, (refl, (refl, tt)))

completed : is_complete 1 results ≡ true
unfolding is_complete open_result_files handle_each lookup insert get_or contains add
completed = refl

handle_each-Finalizes_example : contains 1 results.finalized ≡ true
handle_each-Finalizes_example = handle_each-Finalizes (1 ∷ []) items handled 1 completed

abbrev pair_of : Option (Results ℕ × ℕ) → Results ℕ
pair_of none = empty
pair_of (some p) = p.0

abbrev first : Results ℕ
first = pair_of (handle_query_result 1 (5 ∷ []) (text "m") 1 empty)

stored : handle_query_result 1 (5 ∷ []) (text "m") 1 empty ≡ some (first, 1)
unfolding open_result_files handle_query_result lookup insert get_or contains add
stored = refl

handle_query_result_again_example :
    handle_query_result 1 (5 ∷ []) (text "m") 2 first ≡ some (first, 2)
unfolding is_empty_text
handle_query_result_again_example =
    handle_query_result_again 1 (5 ∷ []) (text "m") 1 2 empty refl stored

abbrev lines : List Text
lines = text "l1" ∷ [] ∷ text "l2" ∷ []

abbrev two_batches : List (List Text)
two_batches = (text "l1" ∷ []) ∷ (text "l2" ∷ []) ∷ []

batches_refl : read_batches 1 (text "h" ∷ lines) ≡ some two_batches
unfolding read_batches
batches_refl = refl

flatten-read_batches_example : flatten two_batches ≡ content lines
flatten-read_batches_example = flatten-read_batches 1 (text "h") lines batches_refl

read_batches-Filled_example : Filled 1 two_batches
read_batches-Filled_example = read_batches-Filled 1 (text "h" ∷ lines) (omega arith) batches_refl

abbrev new_client : Client ℕ
new_client = record {
  unsent = transaction_messages 0 two_batches;
  sent = [];
  acknowledged = [];
  result_acks = [];
  results = empty;
}

abbrev sessions : List (List (Received ℕ))
sessions = (ack ∷ closed ∷ []) ∷ (ack ∷ ack ∷ items) ∷ []

abbrev outcome_of : Option (Client ℕ × Bool) → Client ℕ
outcome_of none = new_client
outcome_of (some r) = r.0

abbrev after : Client ℕ
after = outcome_of (run (1 ∷ []) sessions new_client)

ran : run (1 ∷ []) sessions new_client ≡ some (after, true)
unfolding run open_result_files lookup insert get_or contains add transaction_messages
ran = refl

nothing_sent : InOrder new_client
unfolding transaction_messages
nothing_sent = record { log = []; again = 0; acknowledged = refl; sent = refl }

run-acknowledged_example :
    (after.acknowledged ++ after.unsent ≡ transaction_messages 0 two_batches) × InOrder after
run-acknowledged_example = run-acknowledged (1 ∷ []) sessions new_client nothing_sent ran

abbrev router : Router
router = record { transaction_rk = text "tx"; account_rk = text "acc" }

handle_all-transaction_messages_example :
    (h : ClientHandler ℕ) × (handle_all router
        (text "a")
        (receptions (transaction_messages 0 two_batches))
        started
      ≡ some h)
    × (h.forwarded ≡ announced (text "a") (text "tx") 0 two_batches)
handle_all-transaction_messages_example =
    handle_all-transaction_messages router (text "a") 0 two_batches started
