-- ===== src/Client/Session.antt =====
-- src/client/main.py: the sessions of the client. What the receiver thread hands over in a session is
-- a list; a session that hands over nothing more has ended. The message that no ACK came for stays
-- pending, and the next session sends it again. The list is what the session takes before it stops: one
-- that is aborted may leave some of it, and its last message, unread and unsent. There is no shutdown.
pub mod Sent
pub mod Handled
pub mod Laws
use tp_distribuidos_moneylau.Prelude.{
  ℕ, not, Bool, true, false, Option, none, some, List, [], ◌∷◌, ◌++◌, if◌then◌else◌, ◌>>=◌,
}
use tp_distribuidos_moneylau.Client.Results.{
  Results, Received, wait_ack, consume_remaining, all_done,
}
use tp_distribuidos_moneylau.Client.Batches.{Message}

-- the client between two steps: the messages from the pending one on, what it has put on the wire, the
-- messages that were acknowledged, and the deliveries that it acknowledged
pub record Client (Row : Type 0) : Type 0 where
  pub unsent : List Message
  pub sent : List Message
  pub acknowledged : List Message
  pub result_acks : List ℕ
  pub results : Results Row

module _ {Row : Type 0} where
  -- `_produce_and_wait_acks` over the messages from the pending one on: the client, what the receiver
  -- has left, and whether the session goes on
  unfoldable pub produce_and_wait_acks :
      List Message
      → List (Received Row)
      → Client Row
      → Option (Client Row × List (Received Row) × Bool)
  unfolding wait_ack
  produce_and_wait_acks [] items c = some (record c { unsent = [] }, items, true)
  produce_and_wait_acks (msg ∷ msgs) items c =
      let later =
        λ (rest : List (Received Row)) (c' : Client Row). produce_and_wait_acks msgs rest c' in
      (do
        (found, rest, results, acks) ← wait_ack items c.results
        (let c' = record c {
          unsent = msg ∷ msgs;
          sent = c.sent ++ msg ∷ [];
          result_acks = c.result_acks ++ acks;
          results = results;
        } in
            if found
            then later rest (record c' { acknowledged = c.acknowledged ++ msg ∷ [] })
            else some (c', rest, false)))

  -- `_orchestrate`: whether all the results are there
  unfoldable pub orchestrate :
      List ℕ → List (Received Row) → Client Row → Option (Client Row × Bool)
  unfolding produce_and_wait_acks consume_remaining all_done
  orchestrate query_ids items c = do
    (c', rest, open_still) ← produce_and_wait_acks c.unsent items c
    (if open_still
        then (do
          (results, acks) ← consume_remaining query_ids rest c'.results
          some (
            record c' { results = results; result_acks = c'.result_acks ++ acks },
            all_done query_ids results,
          ))
        else some (c', all_done query_ids c'.results))

  -- the loop of `run`, over what the sessions hand over: it ends at the first that has all the results
  unfoldable pub run : List ℕ → List (List (Received Row)) → Client Row → Option (Client Row × Bool)
  unfolding orchestrate
  run query_ids [] c = some (c, false)
  run query_ids (items ∷ sessions) c =
      let later = λ (c' : Client Row). run query_ids sessions c' in
      (do
        (c', finished) ← orchestrate query_ids items c
        (if finished then some (c', true) else later c'))
