-- ===== src/Worker/Ring.antt =====
-- The end-of-stream ring of src/common/worker/stateful_worker.py: counting the processed messages
-- around the ring, flushing once all are accounted for, and cleaning up.
use tp_distribuidos_moneylau.Prelude.{
  ℕ, ◌+◌, ◌%◌, ◌==◌, nat_eq, list_eq, Bool, false, Option, none, some, List, [], ◌∷◌, ◌++◌, map,
  Dict, insert, get_or, or_else, if◌then◌else◌,
}
use tp_distribuidos_moneylau.Prelude.Int.{ℤ, pos, ◌+ℤ◌, ◌-ℤ◌, leb_ℤ, int_eq}
use tp_distribuidos_moneylau.Prelude.Text.{Text, decimal}
use tp_distribuidos_moneylau.Models.{Eof, RingEof, cleanup_expected_count}
use tp_distribuidos_moneylau.Ids.{
  ring_id, ring_seq_of, ring_phase_count, ring_phase_flush, ring_phase_cleanup,
}
use tp_distribuidos_moneylau.Worker.Hooks.{Config, Sent, Hooks}
use tp_distribuidos_moneylau.Worker.Memory.{Memory, count_sends}
use tp_distribuidos_moneylau.Worker.Node.{Node, cleanup_flow}

-- What a worker hands to the middleware: a batch, a ring token for a routing key, and the call of
-- the subclass's `_send_final_eof`.
pub data Output (Body : Type 0) : Type 0 where
  batch : Sent Body → Output Body
  ring_token : Text → Text → Text → RingEof → Output Body
  final_eof : Text → Eof → Output Body

-- `_get_total_count`: the new total, and the counts that are now sent
unfoldable pub get_total_count : Text → Dict Text ℕ → Dict Text ℕ → ℤ → ℤ × Dict Text ℕ
get_total_count key counts partials current_total =
    let count = get_or key 0 counts in
    let partial = get_or key 0 partials in
    (current_total +ℤ pos count -ℤ pos partial, insert key count partials)

unfoldable pub get_next_node_id : Config → ℕ
get_next_node_id config = (config.node_id + 1) % config.ring_size

unfoldable pub get_ring_routing_key : Config → ℕ → Text
get_ring_routing_key config node_id = config.node_prefix ++ decimal node_id

-- `eof.message_count == CLEANUP_EXPECTED_COUNT`
unfoldable pub is_cleanup : ℤ → Bool
is_cleanup count = count == cleanup_expected_count

-- `ring_eof.coordinator_id == self.config.node_id`
unfoldable pub is_coordinator : Config → Option ℕ → Bool
is_coordinator config none = false
is_coordinator config (some id) = id == config.node_id

module _ (h : Hooks) where
  open h use {Body}

  -- `_get_total_sent_count`
  unfoldable pub get_total_sent_count : Text → ℤ → Memory h → ℤ × Memory h
  unfolding get_total_count
  get_total_sent_count c current m =
      let (total, partials) = get_total_count c m.sent_count m.partial_sent_count current in
      (total, record m { partial_sent_count = partials })

  -- `_get_total_count` on the processed counts
  unfoldable pub get_total_processed_count : Text → ℤ → Memory h → ℤ × Memory h
  unfolding get_total_count
  get_total_processed_count c current m =
      let (total, partials) =
        get_total_count c m.processed_counts m.partial_processed_count current in
      (total, record m { partial_processed_count = partials })

  -- `_update_ring_eof`
  unfoldable pub update_ring_eof : Config → Text → RingEof → Memory h → RingEof × Memory h
  unfolding get_total_sent_count get_total_processed_count
  update_ring_eof config c ring m =
      let (processed, m') = get_total_processed_count c ring.total_processed_count m in
      let (sent, m'') = get_total_sent_count c (or_else ring.total_sent_count (pos 0)) m' in
      (
        record {
          expected_count = ring.expected_count;
          total_processed_count = processed;
          coordinator_id =
              if leb_ℤ ring.expected_count processed then some config.node_id else none;
          total_sent_count = some sent;
        },
        m'',
      )

  -- `_flush_data`; every batch that it sends raises the sent count by one
  unfoldable pub flush : Text → Memory h → Memory h × List (Output Body)
  flush c m =
      let (app, batches) = h.flush_data c m.app in
      (record m { app = app; sent_count = count_sends c batches m.sent_count }, map batch batches)

  module _ (config : Config) where
    -- `output_exchange.send(... RING_EOF ..., routing_key=...next node...)`
    unfoldable pub send_ring : Text → Text → RingEof → Output Body
    unfolding get_next_node_id get_ring_routing_key
    send_ring mid c ring =
        ring_token (get_ring_routing_key config (get_next_node_id config)) mid c ring

    -- the branch of a token without a coordinator
    unfoldable pub count_token : Text → RingEof → Text → Node h → Node h × List (Output Body)
    unfolding is_cleanup is_coordinator update_ring_eof send_ring
    count_token c ring mid n =
        let cleanup = is_cleanup ring.expected_count in
        let next_seq = ring_seq_of mid +ℤ pos 1 in
        let (updated, memory) = update_ring_eof config c ring n.memory in
        let out_id =
          if is_coordinator config updated.coordinator_id
          then (if cleanup
              then ring_id c ring_phase_cleanup next_seq
              else ring_id c ring_phase_flush (pos 0))
          else ring_id c ring_phase_count next_seq in
        (record n { memory = memory }, send_ring out_id c updated ∷ [])

    -- the branch of a cleanup token with a coordinator
    unfoldable pub cleanup_token : Text → RingEof → Text → Node h → Node h × List (Output Body)
    unfolding cleanup_flow is_coordinator send_ring
    cleanup_token c ring mid n = (
      cleanup_flow h c n,
      (if is_coordinator config ring.coordinator_id
            then final_eof c (record { message_count = cleanup_expected_count })
            else send_ring (ring_id c ring_phase_cleanup (ring_seq_of mid +ℤ pos 1)) c ring)
          ∷ [],
    )

    -- the branch of a flush token: a coordinator is set and the token is no cleanup
    unfoldable pub flush_token : Text → RingEof → Text → Node h → Node h × List (Output Body)
    unfolding flush get_total_sent_count is_coordinator send_ring
    flush_token c ring mid n =
        let (flushed, batches) = flush c n.memory in
        let (sent, memory) =
          get_total_sent_count c (or_else ring.total_sent_count (pos 0)) flushed in
        (
          record n { memory = memory },
          batches
              ++ (if is_coordinator config ring.coordinator_id
                  then final_eof c (record { message_count = sent })
                  else send_ring (ring_id c ring_phase_flush (ring_seq_of mid +ℤ pos 1)) c
                      (record ring { total_sent_count = some sent }))
                ∷ [],
        )

    -- `_handle_control_eof_message`
    unfoldable pub handle_control_eof_message :
        Text → RingEof → Text → Node h → Node h × List (Output Body)
    unfolding is_cleanup
    handle_control_eof_message c ring mid n = elim ring.coordinator_id [
      | none ↦ count_token c ring mid n
      | some _ ↦
          if is_cleanup ring.expected_count
          then cleanup_token c ring mid n
          else flush_token c ring mid n
    ]

    -- the token with which `_handle_eof_message` starts the ring
    unfoldable pub start_ring : Text → Eof → Memory h → Memory h × Output Body
    unfolding is_cleanup get_total_processed_count get_total_sent_count send_ring
    start_ring c eof m =
        let (processed, m') = get_total_processed_count c (pos 0) m in
        let (sent, m'') = get_total_sent_count c (pos 0) m' in
        (
          m'',
          send_ring
              (ring_id c
                (if is_cleanup eof.message_count then ring_phase_cleanup else ring_phase_count)
                (pos 0))
              c
              (record {
                expected_count = eof.message_count;
                total_processed_count = processed;
                coordinator_id = none;
                total_sent_count = some sent;
              }),
        )
