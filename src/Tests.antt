-- ===== src/Tests.antt =====
-- Runs of the model on concrete inputs: a reducer of the low-amount query (src/workers/low_amount_reducer)
-- with its log, and the ids of two clients.
mod Components
mod Graph
mod Gateway
mod Client
mod Side
mod Wire
use tp_distribuidos_moneylau.Prelude.{
  ℕ, ◌≡◌, ◌≢◌, refl, false, Option, none, some, List, [], ◌∷◌, map, nat_eq, list_eq, arith,
  if◌then◌else◌, lookup, get_or, contains, setdefault, insert, add, erase, ◌==◌, inl,
}
use tp_distribuidos_moneylau.Prelude.Int.{pos, ◌+ℤ◌, ◌-ℤ◌, ◌≤ℤ◌, leb_ℤ}
use tp_distribuidos_moneylau.Prelude.Text.{Text}
use tp_distribuidos_moneylau.Models.{Eof, RingEof}
use tp_distribuidos_moneylau.Worker.Hooks.{Config}
use tp_distribuidos_moneylau.Worker.Memory.{
  WalRecord, initial, replay, flow_keys, snapshot_flow, count_sends,
}
use tp_distribuidos_moneylau.Worker.Node.{Node, restarted, recover}
use tp_distribuidos_moneylau.Worker.Ring.{Output, ring_token, count_token, flush_token}
use tp_distribuidos_moneylau.Worker.Messages.{
  data_message, eof_message, handle_message, handle_control_message,
}
use tp_distribuidos_moneylau.Worker.Laws.Compaction.{IsTracked, SameFlow, compaction_restores}
use tp_distribuidos_moneylau.Worker.Termination.{
  stage, next, here, start, hop, IsSound, processed_sum, coordinator-processed,
}
use tp_distribuidos_moneylau.Prelude.Text.{text, decimal, join, str_ℤ}
use tp_distribuidos_moneylau.Prelude.TextLaws.{IsFree}
use tp_distribuidos_moneylau.Models.{is_cleanup_eof}
use tp_distribuidos_moneylau.Ids.{separator, ring_seq_of, ring_id, root_id, eof_id, final_eof_id}
use tp_distribuidos_moneylau.Ids.Laws.{
  ring_seq_of-ring_id, ring_id-injective, flush_id-injective, stream_ids,
}
use tp_distribuidos_moneylau.Worker.Laws.Repeats.{handle_message_again}
use tp_distribuidos_moneylau.Worker.Recovery.Restart.{
  Run, begin, data_step, token_step, restart_restores, Run-IsRecoverable, new-IsRecoverable,
}
use tp_distribuidos_moneylau.Workers.LowAmount.{
  Count, reducer, reducer_handle_data, reducer_flush_data,
}
use tp_distribuidos_moneylau.Workers.LowAmount.Durable.{reducer_laws}

abbrev client : Text
client = text "a"

abbrev setting : Config
setting = record { node_id = 0; node_prefix = text "n"; ring_size = 2 }

abbrev three : Count
three = record { count = 3 }

abbrev Effect : Type 0
Effect = Option (Node (reducer 0) × List (Output ((reducer 0).Body)))

abbrev node_of : Effect → Node (reducer 0)
node_of none = restarted (reducer 0) []
node_of (some r) = r.0

abbrev handled : Text → Node (reducer 0) → Effect
handled mid n = handle_message (reducer 0) setting mid client (data_message three) n

abbrev node1 : Node (reducer 0)
node1 = node_of (handled (text "m") (restarted (reducer 0) []))

handled1 : handled (text "m") (restarted (reducer 0) []) ≡ some (node1, [])
unfolding handle_message get_or lookup contains setdefault insert reducer_handle_data
handled1 = refl

handle_message_again_example : handled (text "m") node1 ≡ some (node1, [])
handle_message_again_example =
    handle_message_again (reducer 0) setting (text "m") client (data_message three)
      (restarted (reducer 0) []) (λ e. cc) handled1

Run-example : Run (reducer 0) (reducer_laws 0) client setting (restarted (reducer 0) []) node1
Run-example = data_step (restarted (reducer 0) []) node1 (text "m") client three [] begin handled1

-- the flow of another client is flushed
abbrev neighbour : Text
neighbour = text "b"

abbrev flushing : RingEof
flushing = record {
  expected_count = pos 1;
  total_processed_count = pos 1;
  coordinator_id = some 0;
  total_sent_count = some (pos 0);
}

abbrev beside : Effect
beside = handle_message (reducer 0) setting (text "m") neighbour (data_message three) node1

abbrev flushed : Effect
flushed =
    handle_control_message (reducer 0) setting (text "b:flush:0") neighbour flushing
      (node_of beside)

beside_refl : beside ≡ some (node_of beside, [])
unfolding handle_message get_or lookup contains setdefault insert reducer_handle_data
beside_refl = refl

abbrev outputs_of : Effect → List (Output ((reducer 0).Body))
outputs_of none = []
outputs_of (some r) = r.1

flushed_refl : flushed ≡ some (node_of flushed, outputs_of flushed)
unfolding handle_message handle_control_message get_or lookup contains setdefault insert add erase
    reducer_handle_data reducer_flush_data flush_token ring_id ◌-ℤ◌ join ◌+ℤ◌ str_ℤ decimal
    count_sends
flushed_refl = refl

neighbour_other : (neighbour == client) ≡ false
neighbour_other = refl

Run-flushed :
    Run (reducer 0) (reducer_laws 0) client setting (restarted (reducer 0) []) (node_of flushed)
Run-flushed =
    token_step (node_of beside) (node_of flushed) (text "b:flush:0") neighbour flushing
      (outputs_of flushed)
      (data_step node1 (node_of beside) (text "m") neighbour three [] Run-example beside_refl)
      (inl neighbour_other) flushed_refl

restart_restores_example :
    (log : List (WalRecord Count)) × ((node_of flushed).store ≡ some log)
    × SameFlow
        (reducer_laws 0)
        client
        (recover (reducer 0) (restarted (reducer 0) log)).memory
        (node_of flushed).memory
restart_restores_example =
    restart_restores (reducer 0) (reducer_laws 0) client setting (node_of flushed) Run-flushed

node1_IsTracked : IsTracked (reducer_laws 0) node1.memory
node1_IsTracked =
    (Run-IsRecoverable (reducer 0) (reducer_laws 0) client setting
      (new-IsRecoverable (reducer 0) (reducer_laws 0) client setting) Run-example).tracked

compaction_restores_example :
    SameFlow
      (reducer_laws 0)
      client
      (replay
        (reducer 0)
        (initial (reducer 0))
        (map (snapshot_flow (reducer 0) node1.memory) (flow_keys (reducer 0) node1.memory)))
      node1.memory
compaction_restores_example =
    compaction_restores (reducer 0) (reducer_laws 0) node1.memory node1_IsTracked client

ring_seq_of-ring_id_example : ring_seq_of (ring_id client (text "count") (pos 12)) ≡ pos 12
ring_seq_of-ring_id_example = ring_seq_of-ring_id client (text "count") 12

count-IsFree : IsFree separator (text "count")
count-IsFree = (λ e. cc, (λ e. cc, (λ e. cc, (λ e. cc, (λ e. cc, tt)))))

ring_id-injective_example : (text "count" ≡ text "count") × (◌≡◌ {A = ℕ} 12 12)
ring_id-injective_example =
    ring_id-injective client (text "count") (text "count") 12 12 count-IsFree count-IsFree refl

flush_id-injective_example : (◌≡◌ {A = ℕ} 1 1) × (◌≡◌ {A = ℕ} 2 2)
flush_id-injective_example = flush_id-injective client 1 2 1 2 refl

abbrev end : Eof
end = record { message_count = pos 7 }

stream_ids_example :
    (root_id client 3 ≡ root_id client 4 → ◌≡◌ {A = ℕ} 3 4)
    × (root_id client 4 ≢ eof_id client none)
    × (root_id client 4 ≢ final_eof_id client end none)
    × (final_eof_id client end none ≡ eof_id client none → is_cleanup_eof end ≡ false)
stream_ids_example = stream_ids client 3 4 end

-- two nodes, one message each: the first starts the ring, the second becomes its coordinator
abbrev two : Eof
two = record { message_count = pos 2 }

abbrev ended : Effect
ended = handle_message (reducer 0) setting (text "e") client (eof_message two) node1

abbrev started : RingEof
started = record {
  expected_count = pos 2;
  total_processed_count = pos 1;
  coordinator_id = none;
  total_sent_count = some (pos 0);
}

abbrev counted : RingEof
counted = record {
  expected_count = pos 2;
  total_processed_count = pos 2;
  coordinator_id = some 0;
  total_sent_count = some (pos 0);
}

started_refl :
    ended ≡ some (node_of ended, ring_token (text "n1") (text "a:count:0") client started ∷ [])
unfolding handle_message get_or lookup contains setdefault insert reducer_handle_data add decimal
    ring_id ◌-ℤ◌ join ◌+ℤ◌ str_ℤ count_sends
started_refl = refl

abbrev hopped : Effect
hopped = handle_control_message (reducer 0) setting (text "a:count:0") client started node1

hopped_refl :
    hopped ≡ some (node_of hopped, ring_token (text "n1") (text "a:flush:0") client counted ∷ [])
unfolding handle_message handle_control_message get_or lookup contains setdefault insert
    reducer_handle_data count_token decimal ring_id ◌-ℤ◌ join ◌+ℤ◌ str_ℤ count_sends
hopped_refl = refl

new_IsSound : IsSound (reducer 0) client (stage (reducer 0) client (node1 ∷ node1 ∷ []) none)
unfolding handle_message get_or lookup contains setdefault insert reducer_handle_data
new_IsSound = record { told = (omega arith, (omega arith, tt)); token = refl }

coordinator-processed_example :
    (counted.total_processed_count
      ≤ℤ pos (processed_sum (reducer 0) client (node_of ended ∷ node_of hopped ∷ [])))
    × ((id : ℕ)
        → counted.coordinator_id ≡ some id
        → counted.expected_count
          ≤ℤ pos (processed_sum (reducer 0) client (node_of ended ∷ node_of hopped ∷ [])))
coordinator-processed_example =
    coordinator-processed (reducer 0) client (stage (reducer 0) client (node1 ∷ node1 ∷ []) none)
      (node_of ended ∷ node_of hopped ∷ []) counted new_IsSound
      (next
        (next here (
          start [] (node1 ∷ []) setting (text "e") two node1 (node_of ended) (text "n1")
            (text "a:count:0") started started_refl))
        (hop (node_of ended ∷ []) [] setting (text "a:count:0") node1 (node_of hopped) (text "n1")
          (text "a:flush:0") started counted refl hopped_refl))
