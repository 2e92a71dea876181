-- ===== src/Worker/Messages.antt =====
-- The handlers of the two queues of a stateful worker: `_handle_message` of src/common/worker/worker.py
-- and `_handle_control_message` of src/common/worker/stateful_worker.py. Each runs whole under the
-- worker's state lock. `none` is an exception: the message is not acknowledged.
use tp_distribuidos_moneylau.Prelude.{
  Bool, true, false, ◌>>=◌, Option, none, some, List, [], ◌∷◌, map, if◌then◌else◌,
}
use tp_distribuidos_moneylau.Prelude.Text.{Text}
use tp_distribuidos_moneylau.Models.{Eof, RingEof}
use tp_distribuidos_moneylau.Worker.Hooks.{Config, main, control, Hooks}
use tp_distribuidos_moneylau.Worker.Memory.{
  main_record, control_record, Memory, is_seen, open_seen, add_to_open, count_sends,
  increment_processed_count, control_state_snapshot,
}
use tp_distribuidos_moneylau.Worker.Node.{Node, append_and_note}
use tp_distribuidos_moneylau.Worker.Ring.{Output, batch, start_ring, handle_control_eof_message}

module _ (h : Hooks) where
  open h use {Delta, Payload, Body}

  pub data Incoming : Type 0 where
    data_message : Payload → Incoming
    eof_message : Eof → Incoming

  abbrev Effect : Type 0
  Effect = Node h × List (Output Body)

  -- `_handle_data_message` of a subclass, the call of super included
  unfoldable pub handle_data_message :
      Text → Text → Payload → Node h → Option (Node h × Option Delta × List (Output Body))
  unfolding increment_processed_count
  handle_data_message mid c payload n =
      let m = increment_processed_count h c n.memory in
      do
        (app, delta, sends) ← h.handle_data mid c payload m.app
        some (
          record n {
            memory = record m { app = app; sent_count = count_sends c sends m.sent_count };
          },
          some delta,
          map batch sends,
        )

  module _ (config : Config) where
    -- `_handle_eof_message`
    unfoldable pub handle_eof_message : Text → Eof → Node h → Option Effect
    unfolding start_ring append_and_note control_state_snapshot
    handle_eof_message c eof n =
        let (memory, token) = start_ring h config c eof n.memory in
        let started = record n { memory = memory } in
        elim n.store [
          | none ↦ some (started, token ∷ [])
          | some _ ↦ do
            logged ←
                append_and_note h (control_record none c (control_state_snapshot h c memory))
                  started
            some (logged, token ∷ [])
        ]

    -- the dispatch on the message's type, with the delta and the "eof" of the record
    unfoldable pub dispatch :
        Text → Text → Incoming → Node h → Option (Node h × Option Delta × List (Output Body))
    unfolding handle_data_message handle_eof_message
    dispatch mid c (data_message payload) n = handle_data_message mid c payload n
    dispatch mid c (eof_message eof) n = do
      (n', outputs) ← handle_eof_message c eof n
      some (n', none, outputs)

    is_eof : Incoming → Bool
    is_eof (data_message payload) = false
    is_eof (eof_message eof) = true

    mark : Node h → Memory h → Node h
    mark n memory = record n { memory = memory }

    -- what `_handle_message` does with a new message
    unfoldable pub process : Text → Text → Incoming → Node h → Option Effect
    unfolding dispatch is_eof mark add_to_open append_and_note
    process mid c msg n = do
      (n', delta, outputs) ← dispatch mid c msg n
      let marked = mark n' (record (n'.memory) { seen = add_to_open main c mid n'.memory.seen })
      logged ← append_and_note h (main_record mid c delta (is_eof msg)) marked
      some (logged, outputs)

    -- `_handle_message` of src/common/worker/worker.py
    unfoldable pub handle_message : Text → Text → Incoming → Node h → Option Effect
    unfolding dispatch process mark is_seen open_seen
    handle_message mid c msg n = elim n.store [
      | none ↦ do (n', delta, outputs) ← dispatch mid c msg n; some (n', outputs)
      | some _ ↦
          let opened = mark n (record (n.memory) { seen = open_seen main c n.memory.seen }) in
          if is_seen main c mid opened.memory.seen
          then some (opened, [])
          else process mid c msg opened
    ]

    -- what `_handle_control_message` does with a new token
    unfoldable pub process_control : Text → Text → RingEof → Node h → Option Effect
    unfolding handle_control_eof_message mark add_to_open append_and_note control_state_snapshot
    process_control mid c ring n = do
      let (n', outputs) = handle_control_eof_message h config c ring mid n
      let marked = mark n' (record (n'.memory) { seen = add_to_open control c mid n'.memory.seen })
      logged ←
          append_and_note h (control_record (some mid) c (control_state_snapshot h c marked.memory))
            marked
      some (logged, outputs)

    -- `_handle_control_message`
    unfoldable pub handle_control_message : Text → Text → RingEof → Node h → Option Effect
    unfolding process_control mark is_seen open_seen
    handle_control_message mid c ring n =
        let opened = mark n (record (n.memory) { seen = open_seen control c n.memory.seen }) in
        if is_seen control c mid opened.memory.seen
        then some (opened, [])
        else process_control mid c ring opened
