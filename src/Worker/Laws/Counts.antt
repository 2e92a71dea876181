-- ===== src/Worker/Laws/Counts.antt =====
-- Laws about the counts of processed messages under the handlers.
use tp_distribuidos_moneylau.Prelude.{
  ℕ, ◌+◌, ◌≤◌, ◌==◌, ◌≡◌, none, some, [], ◌∷◌, Dict, get_or, nat_eq, list_eq, list_beq_iff,
  get_or-insert, if◌then◌else◌, arith,
}
use tp_distribuidos_moneylau.Prelude.Int.{pos, ◌+ℤ◌, ◌-ℤ◌, leb_ℤ}
use tp_distribuidos_moneylau.Prelude.Text.{Text}
use tp_distribuidos_moneylau.Models.{Eof, RingEof}
use tp_distribuidos_moneylau.Worker.Hooks.{Config, Hooks}
use tp_distribuidos_moneylau.Worker.Memory.{increment}
use tp_distribuidos_moneylau.Worker.Node.{Node, append_and_note}
use tp_distribuidos_moneylau.Worker.Ring.{ring_token, count_token}
use tp_distribuidos_moneylau.Worker.Messages.{
  data_message, eof_message, handle_message, handle_control_message,
}

pub get_or-increment :
    (c k : Text) (counts : Dict Text ℕ)
    → get_or c 0 (increment k counts)
      ≡ (if k == c then get_or c 0 counts + 1 else get_or c 0 counts)
unfolding increment
get_or-increment c k counts =
    rw (get_or-insert c k (get_or k 0 counts + 1) 0 counts) (ground (arith, list_beq_iff k c))

module _ (h : Hooks) where
  -- the processed messages of a client, and those already told to the ring
  abbrev pub processed : Text → Node h → ℕ
  processed c n = get_or c 0 n.memory.processed_counts

  abbrev pub partial : Text → Node h → ℕ
  partial c n = get_or c 0 n.memory.partial_processed_count

  -- A data message never lowers the processed count of a client, and tells the ring nothing.
  pub data_message-counts :
      (config : Config) (mid k : Text) (payload : h.Payload) (c : Text) (n : Node h) {r : _}
      → handle_message h config mid k (data_message payload) n ≡ some r
      → (partial c r.0 ≡ partial c n) × (processed c n ≤ processed c r.0)
  unfolding handle_message append_and_note
  data_message-counts config mid k payload c n e =
      ground (arith, get_or-increment c k n.memory.processed_counts)

  -- When a worker handles a token without a coordinator and passes one token on, that token takes
  -- along the processed messages that the node had not told yet, the node has then told all of
  -- them, its processed count stays, and it is the coordinator exactly if the new total reaches
  -- the expected count, which does not change.
  pub token-counts :
      (config : Config) (mid c : Text) (ring : RingEof) (n : Node h) {n' : Node h} {rk id : Text}
      {ring' : RingEof}
      → ring.coordinator_id ≡ none
      → handle_control_message h config mid c ring n ≡ some (n', ring_token rk id c ring' ∷ [])
      → (processed c n' ≡ processed c n)
        × (partial c n' ≡ processed c n)
        × (ring'.total_processed_count
            ≡ ring.total_processed_count +ℤ pos (processed c n) -ℤ pos (partial c n))
        × (ring'.coordinator_id ≡ (
            if leb_ℤ ring'.expected_count ring'.total_processed_count
            then some config.node_id
            else none))
        × (ring'.expected_count ≡ ring.expected_count)
  unfolding handle_control_message count_token append_and_note
  token-counts config mid c ring n free e = ground (
    arith,
    get_or-insert c c (processed c n) 0 n.memory.partial_processed_count,
    list_beq_iff c c,
  )

  -- When a worker handles an end of stream and sends one token, that token expects the message
  -- count of the end of stream, has no coordinator and carries the processed messages that the
  -- node had not told yet; the node has then told all of them and its processed count stays.
  pub start-counts :
      (config : Config) (mid c : Text) (eof : Eof) (n : Node h) {n' : Node h} {rk id : Text}
      {ring' : RingEof}
      → handle_message h config mid c (eof_message eof) n ≡ some (n', ring_token rk id c ring' ∷ [])
      → (processed c n' ≡ processed c n)
        × (partial c n' ≡ processed c n)
        × (ring'.total_processed_count ≡ pos 0 +ℤ pos (processed c n) -ℤ pos (partial c n))
        × (ring'.coordinator_id ≡ none)
        × (ring'.expected_count ≡ eof.message_count)
  unfolding handle_message append_and_note
  start-counts config mid c eof n e = ground (
    arith,
    get_or-insert c c (processed c n) 0 n.memory.partial_processed_count,
    list_beq_iff c c,
  )
