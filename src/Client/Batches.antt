-- ===== src/Client/Batches.antt =====
-- src/client/main.py: the batches that the client reads from its files, and the messages that it
-- sends, one at a time, over as many sessions as it takes. A file is its lines, with their line ends.
pub mod Laws
use tp_distribuidos_moneylau.Prelude.{
  ℕ, ◌+◌, ◌==◌, nat_eq, leb, length, Bool, true, false, Option, none, some, List, [], ◌∷◌, ◌++◌,
  ◌&&◌, if◌then◌else◌, ◌>>=◌,
}
use tp_distribuidos_moneylau.Prelude.Text.{Text}
use tp_distribuidos_moneylau.Client.Results.{is_empty_text}

-- `line.rstrip("\n")`
unfoldable pub rstrip_newline : Text → Text
rstrip_newline [] = []
rstrip_newline (c ∷ cs) =
    let rest = rstrip_newline cs in if c == 10 && is_empty_text rest then [] else c ∷ rest

-- `if batch: yield batch`
unfoldable pub last_batch : List Text → List (List Text)
last_batch [] = []
last_batch (line ∷ lines) = (line ∷ lines) ∷ []

-- the loop over the lines, and the batch that is left at the end
unfoldable pub batches_from : ℕ → List Text → List Text → List (List Text)
unfolding is_empty_text rstrip_newline last_batch
batches_from batch_size batch [] = last_batch batch
batches_from batch_size batch (line ∷ lines) =
    let raw = rstrip_newline line in
    let skipped = batches_from batch_size batch lines in
    let filled = batches_from batch_size [] lines in
    let more = batches_from batch_size (batch ++ raw ∷ []) lines in
    if is_empty_text raw
    then skipped
    else if leb batch_size (length (batch ++ raw ∷ []))
    then (batch ++ raw ∷ []) ∷ filled
    else more

-- `_read_batches`: the header is dropped, and an empty file is the StopIteration of `next`, which a
-- generator turns into a RuntimeError: none
unfoldable pub read_batches : ℕ → List Text → Option (List (List Text))
unfolding batches_from
read_batches batch_size [] = none
read_batches batch_size (header ∷ lines) = some (batches_from batch_size [] lines)

-- a message that the client sends, with its batch index
pub data Message : Type 0 where
  transaction_batch account_batch : List Text → ℕ → Message
  eof_transactions eof_accounts : ℕ → Message

-- the two loops of `_messages_to_send`
unfoldable pub transaction_messages : ℕ → List (List Text) → List Message
transaction_messages k [] = eof_transactions k ∷ []
transaction_messages k (batch ∷ batches) =
    transaction_batch batch k ∷ transaction_messages (k + 1) batches

unfoldable pub account_messages : ℕ → List (List Text) → List Message
account_messages k [] = eof_accounts k ∷ []
account_messages k (batch ∷ batches) = account_batch batch k ∷ account_messages (k + 1) batches

-- `_messages_to_send`, for both files
unfoldable pub messages_to_send : ℕ → ℕ → List Text → List Text → Option (List Message)
unfolding read_batches transaction_messages account_messages
messages_to_send transactions_batch_size accounts_batch_size transactions accounts = do
  txs ← read_batches transactions_batch_size transactions
  accs ← read_batches accounts_batch_size accounts
  some (transaction_messages 0 txs ++ account_messages 0 accs)
