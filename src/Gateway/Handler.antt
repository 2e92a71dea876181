-- ===== src/Gateway/Handler.antt =====
-- src/gateway/internal/client_handler.py: one connected client. The tag of a delivery stands for the
-- `ack` callback of RabbitMQ. The receive loop, the result receiver and the sender loop are steps, which
-- run in any order. What the handler tells the registry (connect, touch, disconnect) is modelled there.
pub mod Held
pub mod Written
pub mod Laws
use tp_distribuidos_moneylau.Prelude.{
  ℕ, ◌+◌, ◌==◌, nat_eq, leb, ◌&&◌, Option, none, some, List, [], ◌∷◌, ◌++◌, ◌>>=◌, if◌then◌else◌,
  Dict, lookup, insert, erase,
}
use tp_distribuidos_moneylau.Prelude.Int.{ℤ, pos}
use tp_distribuidos_moneylau.Prelude.Text.{Text, int_of}
use tp_distribuidos_moneylau.Gateway.Router.{
  Forward, Router, forward_raw_transactions, forward_raw_accounts, forward_eof_transactions,
  forward_eof_accounts,
}

-- what a client sends; other message types are one case
pub data ClientMessage : Type 0 where
  transaction_batch account_batch : List Text → Text → ClientMessage
  eof_transactions eof_accounts : Text → ClientMessage
  result_ack : ℕ → ClientMessage
  unexpected : ClientMessage

-- a message of the results queue: a batch of one query's results, the end of a query, or another
pub data ResultMessage (Records : Type 0) : Type 0 where
  result : ℕ → Records → Text → ResultMessage Records
  query_end : ℕ → ℤ → ResultMessage Records
  other : ResultMessage Records

-- an item of `self._queue`: ("ack",), or a result with its tag
pub data Item (Records : Type 0) : Type 0 where
  ack_item : Item Records
  result_item : ResultMessage Records → ℕ → Item Records

-- what the sender writes to the client, with its delivery id
pub data ToClient (Records : Type 0) : Type 0 where
  ack : ToClient Records
  send_result : ℕ → Records → Text → ℕ → ToClient Records
  send_query_end : ℕ → ℤ → ℕ → ToClient Records

-- what happens to a handler: a message of the client, a delivery of RabbitMQ with its tag, and a
-- turn of the sender loop
pub data HandlerEvent (Records : Type 0) : Type 0 where
  received : ClientMessage → HandlerEvent Records
  arrived : ResultMessage Records → ℕ → HandlerEvent Records
  sending : HandlerEvent Records

-- the handler, with all that it has written, forwarded and acknowledged so far
pub record ClientHandler (Records : Type 0) : Type 0 where
  pub queue : List (Item Records)
  pub pending_acks : Dict ℕ ℕ
  pub next_delivery_id : ℕ
  pub acked : List ℕ
  pub forwarded : List Forward
  pub written : List (ToClient Records)

abbrev pub started : {Records : Type 0} → ClientHandler Records
started = record {
  queue = [];
  pending_acks = [];
  next_delivery_id = 0;
  acked = [];
  forwarded = [];
  written = [];
}

module _ {Records : Type 0} where
  unfoldable pub put : Item Records → ClientHandler Records → ClientHandler Records
  put item h = record h { queue = h.queue ++ item ∷ [] }

  unfoldable pub ack_to_rabbit : ℕ → ClientHandler Records → ClientHandler Records
  ack_to_rabbit tag h = record h { acked = h.acked ++ tag ∷ [] }

  unfoldable pub forward_and_ack : Forward → ClientHandler Records → ClientHandler Records
  unfolding put
  forward_and_ack f h = put ack_item (record h { forwarded = h.forwarded ++ f ∷ [] })

  unfoldable pub on_result_ack : ℕ → ClientHandler Records → ClientHandler Records
  unfolding ack_to_rabbit
  on_result_ack delivery_id h = elim (lookup delivery_id h.pending_acks) [
    | none ↦ h
    | some tag ↦ ack_to_rabbit tag (record h { pending_acks = erase delivery_id h.pending_acks })
  ]

  -- `_dispatch`; none is the ValueError of `int`, which ends the receive loop
  unfoldable pub dispatch :
      Router → Text → ClientMessage → ClientHandler Records → Option (ClientHandler Records)
  unfolding forward_and_ack on_result_ack
  dispatch router client_id (transaction_batch records mid) h =
      some (forward_and_ack (forward_raw_transactions router client_id records mid) h)
  dispatch router client_id (account_batch records mid) h =
      some (forward_and_ack (forward_raw_accounts router client_id records mid) h)
  dispatch router client_id (eof_transactions mid) h = do
    count ← int_of mid
    some (forward_and_ack (forward_eof_transactions router client_id count) h)
  dispatch router client_id (eof_accounts mid) h = do
    count ← int_of mid
    some (forward_and_ack (forward_eof_accounts router client_id count) h)
  dispatch router client_id (result_ack delivery_id) h = some (on_result_ack delivery_id h)
  dispatch router client_id unexpected h = some h

  -- `_on_result`
  unfoldable pub on_result :
      ResultMessage Records → ℕ → ClientHandler Records → ClientHandler Records
  unfolding put
  on_result msg tag h = put (result_item msg tag) h

  -- `_register_pending_ack`: the delivery id is the new `next_delivery_id`
  unfoldable pub register_pending_ack : ℕ → ClientHandler Records → ClientHandler Records
  register_pending_ack tag h =
      let delivery_id = h.next_delivery_id + 1 in
      record h {
        next_delivery_id = delivery_id;
        pending_acks = insert delivery_id tag h.pending_acks;
      }

  unfoldable pub write : ToClient Records → ClientHandler Records → ClientHandler Records
  write msg h = record h { written = h.written ++ msg ∷ [] }

  unfoldable pub write_pending :
      ℕ → (ℕ → ToClient Records) → ClientHandler Records → ClientHandler Records
  unfolding register_pending_ack write
  write_pending tag msg h =
      let h' = register_pending_ack tag h in write (msg h'.next_delivery_id) h'

  -- what the sender loop does with an item
  unfoldable pub send_item : Item Records → ClientHandler Records → ClientHandler Records
  unfolding write write_pending ack_to_rabbit
  send_item ack_item h = write ack h
  send_item (result_item (result query_id payload mid) tag) h =
      if leb 1 query_id && leb query_id 5
      then write_pending tag (send_result query_id payload mid) h
      else ack_to_rabbit tag h
  send_item (result_item (query_end query_id message_count) tag) h =
      write_pending tag (send_query_end query_id message_count) h
  send_item (result_item other tag) h = ack_to_rabbit tag h

  unfoldable pub send_from : List (Item Records) → ClientHandler Records → ClientHandler Records
  unfolding send_item
  send_from [] h = h
  send_from (item ∷ items) h = send_item item (record h { queue = items })

  -- one turn of `_sender_loop`; it waits on an empty queue
  unfoldable pub sender_turn : ClientHandler Records → ClientHandler Records
  unfolding send_from
  sender_turn h = send_from h.queue h

  unfoldable pub handle :
      Router → Text → HandlerEvent Records → ClientHandler Records → Option (ClientHandler Records)
  unfolding dispatch on_result sender_turn
  handle router c (received msg) h = dispatch router c msg h
  handle router c (arrived msg tag) h = some (on_result msg tag h)
  handle router c sending h = some (sender_turn h)

  unfoldable pub handle_all :
      Router
      → Text
      → List (HandlerEvent Records)
      → ClientHandler Records
      → Option (ClientHandler Records)
  unfolding handle
  handle_all router c [] h = some h
  handle_all router c (e ∷ es) h = do h' ← handle router c e h; handle_all router c es h'
