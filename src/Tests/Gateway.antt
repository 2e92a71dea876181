-- ===== src/Tests/Gateway.antt =====
-- Runs of the gateway: a registry with two clients, and a handler with four events.
use tp_distribuidos_moneylau.Prelude.{
  ℕ, ◌≡◌, refl, Bool, true, false, Option, none, some, List, [], ◌∷◌, nat_eq, list_eq, lookup, keys,
  contains, Distinct, insert, erase,
}
use tp_distribuidos_moneylau.Prelude.Text.{Text, text}
use tp_distribuidos_moneylau.Gateway.Router.{Router}
use tp_distribuidos_moneylau.Gateway.Router.Laws.{stream_from, message_ids, stream_from-Distinct}
use tp_distribuidos_moneylau.Gateway.Registry.{ClientRegistry, ClientRecord, opened, load}
use tp_distribuidos_moneylau.Gateway.Registry.Laws.{
  connecting, disconnecting, removing, Operation, operations, reload-keys,
}
use tp_distribuidos_moneylau.Gateway.Handler.{
  ResultMessage, ClientHandler, HandlerEvent, received, arrived, sending, result, result_ack,
  started, handle_all,
}
use tp_distribuidos_moneylau.Gateway.Handler.Written.{passed_on, arrivals}
use tp_distribuidos_moneylau.Gateway.Handler.Held.{held, delivered}
use tp_distribuidos_moneylau.Gateway.Handler.Laws.{handle_all-conserves}

abbrev router : Router
router = record { transaction_rk = text "tx"; account_rk = text "acc" }

abbrev on_disk : List ClientRecord
on_disk = record { client_id = text "a"; timestamp = 1 } ∷ []

abbrev changes : List Operation
changes = connecting 3 (text "b") ∷ disconnecting 4 (text "b") ∷ removing (text "a") ∷ []

abbrev registry : ClientRegistry
registry = record {
  states =
      (text "a", record { timestamp = 5; connected = true })
      ∷ (text "b", record { timestamp = 5; connected = false })
      ∷ [];
  store = none;
}

reload-keys_example :
    contains
      (text "b")
      (keys (load 9 (opened (operations changes (load 2 (opened (some on_disk)))).store)).states)
    ≡ contains (text "b") (keys (operations changes (load 2 (opened (some on_disk)))).states)
reload-keys_example = reload-keys on_disk 2 9 changes (text "b")

abbrev batches : List (List Text)
batches = (text "l1" ∷ []) ∷ (text "l2" ∷ []) ∷ []

stream_from-Distinct_example : Distinct (message_ids (stream_from router (text "a") 0 batches))
stream_from-Distinct_example = stream_from-Distinct router (text "a") 0 batches

abbrev events : List (HandlerEvent (List Text))
events =
    arrived (result 1 (text "row" ∷ []) (text "m")) 7
    ∷ sending
    ∷ received (result_ack 1)
    ∷ arrived (result 2 [] (text "n")) 8
    ∷ []

abbrev handler_of : Option (ClientHandler (List Text)) → ClientHandler (List Text)
handler_of none = started
handler_of (some h) = h

abbrev handler : ClientHandler (List Text)
handler = handler_of (handle_all router (text "a") events started)

handled : handle_all router (text "a") events started ≡ some handler
unfolding handle_all lookup insert erase
handled = refl

abbrev any_tag : ℕ → Bool
any_tag n = true

abbrev any_result : ResultMessage (List Text) → Bool
any_result msg = true

handle_all-conserves_example :
    (held any_tag handler ≡ delivered any_tag events)
    × (passed_on any_result handler ≡ arrivals any_result events)
handle_all-conserves_example =
    handle_all-conserves router (text "a") any_tag any_result events handled
