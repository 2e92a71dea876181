-- ===== src/Client/Stream.antt =====
-- src/client/main.py and src/gateway/internal/client_handler.py: what becomes of the messages of a
-- client at the gateway.
use mathlib.Core.List.{append_assoc}
use tp_distribuidos_moneylau.Prelude.{ℕ, ◌+◌, some, List, [], ◌∷◌, ◌++◌, ◌≡◌, refl, ◌∙◌}
use tp_distribuidos_moneylau.Prelude.Text.{Text, text, join, decimal}
use tp_distribuidos_moneylau.Prelude.Int.{pos}
use tp_distribuidos_moneylau.Prelude.TextLaws.{int_of-decimal}
use tp_distribuidos_moneylau.Gateway.Router.{
  Forward, raw_transactions, end_of_stream, root_id_of, Router, forward_raw_transactions,
  forward_eof_transactions,
}
use tp_distribuidos_moneylau.Ids.{separator, eof_id}
use tp_distribuidos_moneylau.Gateway.Handler.{
  ClientMessage, HandlerEvent, received, ClientHandler, put, forward_and_ack, dispatch, handle,
  handle_all,
}
use tp_distribuidos_moneylau.Client.Batches.{
  Message, transaction_batch, account_batch, eof_transactions, eof_accounts, transaction_messages,
}

-- `_send_data` of a batch or an end of file: the batch index goes as text
unfoldable pub wire : Message → ClientMessage
wire (transaction_batch batch k) = ClientMessage.transaction_batch batch (decimal k)
wire (account_batch batch k) = ClientMessage.account_batch batch (decimal k)
wire (eof_transactions k) = ClientMessage.eof_transactions (decimal k)
wire (eof_accounts k) = ClientMessage.eof_accounts (decimal k)

unfoldable pub receptions : {Records : Type 0} → List Message → List (HandlerEvent Records)
unfolding wire
receptions [] = []
receptions (msg ∷ msgs) = received (wire msg) ∷ receptions msgs

-- What the pipeline is to get of the transactions of a client, written out: the batches from the
-- k-th on, each under the client's id and its index, and the end of the stream with the count of all.
abbrev pub announced : Text → Text → ℕ → List (List Text) → List Forward
announced c routing_key k [] =
    record {
      client_id = c;
      payload = end_of_stream (record { message_count = pos k });
      routing_key = routing_key;
      message_id = join separator (c ∷ text "eof" ∷ []);
    }
    ∷ []
announced c routing_key k (batch ∷ batches) =
    record {
      client_id = c;
      payload = raw_transactions batch;
      routing_key = routing_key;
      message_id = join separator (c ∷ decimal k ∷ []);
    }
    ∷ announced c routing_key (k + 1) batches

-- When a gateway handles the messages of the transactions of a client, numbered from k on, none
-- fails, and what it forwards, after what it had forwarded before, is each batch with its lines,
-- the routing key of the transactions and the id made of the client and the index of the batch,
-- and then an end of stream that carries the index after the last one.
pub handle_all-transaction_messages :
    {Records : Type 0} (router : Router) (c : Text) (k : ℕ) (batches : List (List Text))
    (h : ClientHandler Records)
    → (h' : ClientHandler Records) × (handle_all router c
          (receptions (transaction_messages k batches))
          h
        ≡ some h')
      × (h'.forwarded ≡ h.forwarded ++ announced c router.transaction_rk k batches)
unfolding handle_all handle dispatch forward_and_ack put transaction_messages receptions wire
    forward_raw_transactions forward_eof_transactions root_id_of eof_id
handle_all-transaction_messages router c k [] h =
    let eof = forward_eof_transactions router c (pos k) in
    (forward_and_ack eof h, rw (int_of-decimal k) refl, refl)
handle_all-transaction_messages router c k (batch ∷ batches) h =
    let f = forward_raw_transactions router c batch (decimal k) in
    let (h', done, kept) =
      handle_all-transaction_messages router c (k + 1) batches (forward_and_ack f h) in
    (h', done, kept ∙ append_assoc h.forwarded (f ∷ []) _)
