-- ===== src/Worker/Node.antt =====
-- A stateful worker: its memory and its write-ahead log. Appending, compaction, cleanup and
-- recovery of src/common/idempotency/state_log.py.
use tp_distribuidos_moneylau.Prelude.{
  ℕ, ◌+◌, leb, Bool, true, false, ◌>>=◌, Option, none, some, List, [], ◌∷◌, ◌++◌, map,
  if◌then◌else◌,
}
use tp_distribuidos_moneylau.Prelude.Text.{Text}
use tp_distribuidos_moneylau.Worker.Hooks.{Hooks}
use tp_distribuidos_moneylau.Worker.Memory.{
  WalRecord, cleanup_record, Memory, initial, forget_flow, flow_keys, snapshot_flow, replay,
}

abbrev pub compact_threshold : ℕ
compact_threshold = 10000

module _ (h : Hooks) where
  open h use {Delta}

  -- `store` is none where no STATE_DIR is set.
  pub record Node : Type 0 where
    pub memory : Memory h
    pub store : Option (List (WalRecord Delta))
    pub appends_since_compact : ℕ
    pub recovered : Bool

  -- `self._state_store.append(record)`; none is the AttributeError on a missing store
  unfoldable pub append : WalRecord Delta → Node → Option Node
  append r n = elim n.store [
    | none ↦ none
    | some records ↦ some (record n { store = some (records ++ r ∷ []) })
  ]

  -- `_compact`
  unfoldable pub compact : Node → Node
  compact n = elim n.store [
    | none ↦ n
    | some records ↦ record n {
      store = some (map (snapshot_flow h n.memory) (flow_keys h n.memory));
      appends_since_compact = 0;
    }
  ]

  -- `_note_append`
  unfoldable pub note_append : Node → Node
  unfolding compact
  note_append n =
      if leb compact_threshold (n.appends_since_compact + 1)
      then compact (record n { appends_since_compact = 0 })
      else record n { appends_since_compact = n.appends_since_compact + 1 }

  -- `self._state_store.append(record)` and `self._note_append()`
  unfoldable pub append_and_note : WalRecord Delta → Node → Option Node
  unfolding append note_append
  append_and_note r n = do logged ← append r n; some (note_append logged)

  -- `_cleanup_flow`
  unfoldable pub cleanup_flow : Text → Node → Node
  cleanup_flow c n =
      let forgotten = record n { memory = forget_flow h c n.memory } in
      elim n.store [
        | none ↦ forgotten
        | some records ↦ record forgotten { store = some (records ++ cleanup_record c ∷ []) }
      ]

  -- `_recover`
  unfoldable pub recover : Node → Node
  unfolding compact
  recover n = elim n.store [
    | none ↦ n
    | some records ↦
        if n.recovered
        then n
        else let replayed = record n { memory = replay h n.memory records; recovered = true } in
          elim records [ [] ↦ replayed | r ∷ rs ↦ compact replayed ]
  ]

  -- a worker that has just been constructed over a log
  abbrev pub restarted : List (WalRecord Delta) → Node
  restarted records = record {
    memory = initial h;
    store = some records;
    appends_since_compact = 0;
    recovered = false;
  }
