-- ===== src/Worker/SideWorker.antt =====
-- src/common/worker/side_input_stateless_worker.py over src/common/worker/stateless_worker.py and worker.py,
-- with src/common/worker/utils/spill.py: a worker that needs the side input of a client before it can
-- handle the client's batches, and writes the batches that come too early to a spill file. The main
-- thread and the side thread are steps, which run in any order; the drain of a spill file comes after
-- the lock of the side message is released, so it is a step of its own. A batch that finds its side
-- input ready is handled with the table as it is then. none is an exception.
pub mod Takes
pub mod MainSteps
pub mod SideSteps
pub mod Events
pub mod Once
pub mod MainDrained
pub mod Drained
pub mod Recovery
pub mod Logged
pub mod Replay
use tp_distribuidos_moneylau.Prelude.{
  ℕ, ◌+◌, ◌==◌, nat_eq, list_eq, pair_eq, leb, Bool, true, false, not, ◌&&◌, Option, none, some,
  List, [], ◌∷◌, ◌++◌, ◌>>=◌, if◌then◌else◌, Dict, lookup, insert, erase, get_or, contains, add,
}
use tp_distribuidos_moneylau.Prelude.Text.{Text}
use tp_distribuidos_moneylau.Prelude.Int.{ℤ}
use tp_distribuidos_moneylau.Models.{Eof, is_cleanup_eof}
use tp_distribuidos_moneylau.Ids.{final_eof_id}
use tp_distribuidos_moneylau.Worker.Hooks.{Channel, main, side, channel_eq}
use tp_distribuidos_moneylau.Worker.Memory.{
  Seen, is_seen, open_seen, remember, add_to_open, forget_seen, snapshot_seen, restore_seen,
  seen_clients,
}
use tp_distribuidos_moneylau.Worker.Node.{compact_threshold}
use tp_distribuidos_moneylau.Worker.SideInput.{
  SideInputTracker, empty, is_ready, track_batch, set_expected, drop, restore,
}

-- what a concrete worker overrides: the batches that it takes of a message, the delta of a side batch,
-- and the results of a batch under a table of side input
pub record SideHooks : Type 1 where
  pub Payload : Type 0
  pub Batch : Type 0
  pub SidePayload : Type 0
  pub SideDelta : Type 0
  pub Table : Type 0
  pub Results : Type 0
  pub no_table : Table
  pub select : Payload → Batch
  pub side_delta : SidePayload → Option SideDelta
  pub apply_side_delta : SideDelta → Table → Table
  pub side_state_as_delta : Table → SideDelta
  pub results_of : Table → Batch → Option Results
  pub query_id : Text

module _ (h : SideHooks) where
  open h use {Payload, Batch, SidePayload, SideDelta, Table, Results}

  -- the records of the write-ahead log
  pub data SideRecord : Type 0 where
    main_logged : Text → Text → SideRecord
    side_logged : Text → Text → SideDelta → SideRecord
    side_eof_logged : Text → Text → ℤ → SideRecord
    cleanup_logged : Text → SideRecord
    snapshot_logged : Text → Dict Channel (List Text) → ℕ → Option ℤ → SideDelta → SideRecord

  -- what is handed to the output: the results of a batch, and the end of the query
  pub data Output : Type 0 where
    results : Text → Results → Text → Output
    query_end : Text → ℤ → Text → Output

  -- `due` are the clients whose spill file the side thread still has to drain
  pub record SideWorker : Type 0 where
    pub seen : Seen
    pub tracker : SideInputTracker
    pub tables : Dict Text Table
    pub spill : Dict Text (List (Text × Batch))
    pub due : List Text
    pub store : Option (List SideRecord)
    pub appends : ℕ
    pub sent : List Output

  -- `__init__`, over the records of the log and the spill files that are on disk: nothing of them is
  -- recovered yet, which `start` does
  abbrev pub started : Option (List SideRecord) → Dict Text (List (Text × Batch)) → SideWorker
  started store spill = record {
    seen = [];
    tracker = empty;
    tables = [];
    spill = spill;
    due = [];
    store = store;
    appends = 0;
    sent = [];
  }

  pub data SideIncoming : Type 0 where
    data_message : Payload → SideIncoming
    eof_message : Eof → SideIncoming

  pub data SideMessage : Type 0 where
    side_batch : SidePayload → SideMessage
    side_eof : Eof → SideMessage
    unexpected : SideMessage

  -- `_map_and_emit`, `_filter_and_emit`
  unfoldable pub emit : Text → Text → Batch → SideWorker → Option SideWorker
  emit c mid batch w = do
    out ← h.results_of (get_or c h.no_table w.tables) batch
    some (record w { sent = w.sent ++ results c out mid ∷ [] })

  -- `BatchSpill.write`
  unfoldable pub spill_batch : Text → Text → Batch → SideWorker → SideWorker
  spill_batch c mid batch w = record w {
    spill = insert c (get_or c [] w.spill ++ (mid, batch) ∷ []) w.spill;
  }

  -- `_handle_data_message`
  unfoldable pub handle_data_message : Text → Text → Payload → SideWorker → Option SideWorker
  unfolding emit spill_batch
  handle_data_message mid c payload w =
      if is_ready c w.tracker
      then emit c mid (h.select payload) w
      else some (spill_batch c mid (h.select payload) w)

  -- `_forget_flow` with `_cleanup_state`
  unfoldable pub forget_flow : Text → SideWorker → SideWorker
  forget_flow c w = record w {
    seen = forget_seen c w.seen;
    tracker = drop c w.tracker;
    spill = erase c w.spill;
    tables = erase c w.tables;
  }

  unfoldable pub append : SideRecord → SideWorker → SideWorker
  append rec w = elim w.store [
    | none ↦ w
    | some records ↦ record w { store = some (records ++ rec ∷ []) }
  ]

  -- `_cleanup_flow`
  unfoldable pub cleanup_flow : Text → SideWorker → SideWorker
  unfolding forget_flow append
  cleanup_flow c w = append (cleanup_logged c) (forget_flow c w)

  -- `_handle_eof_message` of a stateless worker, and `_send_final_eof`
  unfoldable pub handle_eof_message : Text → Eof → SideWorker → SideWorker
  unfolding cleanup_flow
  handle_eof_message c eof w =
      let cleaned = if is_cleanup_eof eof then cleanup_flow c w else w in
      record cleaned {
        sent =
            cleaned.sent
            ++ query_end c eof.message_count (final_eof_id c eof (some h.query_id)) ∷ [];
      }

  unfoldable pub dispatch : Text → Text → SideIncoming → SideWorker → Option SideWorker
  unfolding handle_data_message handle_eof_message
  dispatch mid c (data_message payload) w = handle_data_message mid c payload w
  dispatch mid c (eof_message eof) w = some (handle_eof_message c eof w)

  -- `_snapshot_flow`
  unfoldable pub snapshot_flow : SideWorker → Text → SideRecord
  snapshot_flow w c =
      snapshot_logged c (snapshot_seen c [] w.seen) (get_or c 0 w.tracker.received)
        (lookup c w.tracker.expected) (h.side_state_as_delta (get_or c h.no_table w.tables))

  unfoldable pub snapshots : SideWorker → List Text → List SideRecord
  unfolding snapshot_flow
  snapshots w [] = []
  snapshots w (c ∷ cs) = snapshot_flow w c ∷ snapshots w cs

  -- `_compact`
  unfoldable pub compact : SideWorker → SideWorker
  unfolding snapshots
  compact w = elim w.store [
    | none ↦ w
    | some _ ↦ record w { store = some (snapshots w (seen_clients w.seen)); appends = 0 }
  ]

  -- `_note_append`
  unfoldable pub note_append : SideWorker → SideWorker
  unfolding compact
  note_append w =
      if leb compact_threshold (w.appends + 1)
      then compact (record w { appends = 0 })
      else record w { appends = w.appends + 1 }

  -- the end of `_handle_message`: the message is remembered and logged
  unfoldable pub log_main : Text → Text → SideWorker → SideWorker
  unfolding append note_append
  log_main mid c w =
      note_append (append (main_logged mid c) (record w { seen = add_to_open main c mid w.seen }))

  -- `_handle_message`
  unfoldable pub handle_message : Text → Text → SideIncoming → SideWorker → Option SideWorker
  unfolding dispatch log_main
  handle_message mid c msg w = elim w.store [
    | none ↦ dispatch mid c msg w
    | some _ ↦
        let opened = record w { seen = open_seen main c w.seen } in
        if is_seen main c mid opened.seen
        then some opened
        else do handled ← dispatch mid c msg opened; some (log_main mid c handled)
  ]

  -- the end of `_handle_side_message`: without a store the append is an AttributeError
  unfoldable pub log_side :
      Text → Text → SideRecord → Bool × SideInputTracker → SideWorker → Option SideWorker
  log_side mid c rec (became_ready, tracker) w = elim w.store [
    | none ↦ none
    | some records ↦ some (record w {
      tracker = tracker;
      seen = add_to_open side c mid w.seen;
      store = some (records ++ rec ∷ []);
      due = if became_ready then w.due ++ c ∷ [] else w.due;
    })
  ]

  -- the branches of `_handle_side_message` on a new message; an unexpected one is refused
  unfoldable pub process_side : Text → Text → SideMessage → SideWorker → Option SideWorker
  unfolding log_side cleanup_flow
  process_side mid c (side_batch payload) w = do
    delta ← h.side_delta payload
    log_side mid c (side_logged mid c delta) (track_batch c w.tracker) (record w {
      tables = insert c (h.apply_side_delta delta (get_or c h.no_table w.tables)) w.tables;
    })
  process_side mid c (side_eof eof) w =
      if is_cleanup_eof eof
      then some (cleanup_flow c w)
      else log_side mid c (side_eof_logged mid c eof.message_count)
          (set_expected c eof.message_count w.tracker) w
  process_side mid c unexpected w = some w

  -- `_handle_side_message`, up to the drain
  unfoldable pub handle_side_message : Text → Text → SideMessage → SideWorker → Option SideWorker
  unfolding process_side
  handle_side_message mid c msg w =
      let opened = record w { seen = open_seen side c w.seen } in
      if is_seen side c mid opened.seen then some opened else process_side mid c msg opened

  -- the lines of a spill file, in order
  unfoldable pub emit_all : Text → List (Text × Batch) → SideWorker → Option SideWorker
  unfolding emit
  emit_all c [] w = some w
  emit_all c ((mid, batch) ∷ entries) w = do w' ← emit c mid batch w; emit_all c entries w'

  -- `_on_side_input_ready`: `BatchSpill.drain` emits the batches and removes the file
  unfoldable pub on_side_input_ready : Text → SideWorker → Option SideWorker
  unfolding emit_all
  on_side_input_ready c w = do
    w' ← emit_all c (get_or c [] w.spill) w
    some (record w' { spill = erase c w'.spill })

  unfoldable pub drain_from : List Text → SideWorker → Option SideWorker
  unfolding on_side_input_ready
  drain_from [] w = some w
  drain_from (c ∷ due) w = on_side_input_ready c (record w { due = due })

  -- the drain that the side thread does next
  unfoldable pub drain : SideWorker → Option SideWorker
  unfolding drain_from
  drain w = drain_from w.due w
