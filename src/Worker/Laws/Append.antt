-- ===== src/Worker/Laws/Append.antt =====
-- Laws about appending a record to the log, with or without a compaction.
use tp_distribuidos_moneylau.Prelude.{
  ◌+◌, leb, ◌≡◌, refl, some, List, [], ◌∷◌, ◌++◌, map, arith, Bool-cases, inl, inr,
}
use tp_distribuidos_moneylau.Prelude.Text.{Text}
use tp_distribuidos_moneylau.Worker.Hooks.{Hooks}
use tp_distribuidos_moneylau.Worker.AppLaws.{AppLaws}
use tp_distribuidos_moneylau.Worker.Memory.{
  WalRecord, Memory, initial, replay_record, replay, snapshot_flow, flow_keys,
}
use tp_distribuidos_moneylau.Worker.Node.{Node, append_and_note, compact_threshold}
use tp_distribuidos_moneylau.Worker.Laws.Compaction.{IsTracked, SameFlow, compaction_restores}

pub replay-snoc :
    (h : Hooks) (m : Memory h) (rs : List (WalRecord (h.Delta))) (r : WalRecord (h.Delta))
    → replay h m (rs ++ r ∷ []) ≡ replay_record h (replay h m rs) r
unfolding replay
replay-snoc h m [] r = refl
replay-snoc h m (x ∷ rs) r = replay-snoc h (replay_record h m x) rs r

-- The log is there, and a worker that restarts from it has the flow as it is in memory.
pub record IsDurable {h : Hooks} (laws : AppLaws h) (c : Text) (n : Node h) : Type 0 where
  pub log : List (WalRecord (h.Delta))
  pub stored : n.store ≡ some log
  pub same : SameFlow laws c (replay h (initial h) log) n.memory

module _ (h : Hooks) (laws : AppLaws h) (c : Text) where
  pub append-IsDurable :
      (n : Node h) (r : WalRecord (h.Delta)) (log : List (WalRecord (h.Delta))) {n' : Node h}
      → n.store ≡ some log
      → IsTracked laws n.memory
      → SameFlow laws c (replay_record h (replay h (initial h) log) r) n.memory
      → append_and_note h r n ≡ some n'
      → IsDurable laws c n' × (n'.memory ≡ n.memory)
  unfolding append_and_note
  append-IsDurable n r log {n'} stored tracked same e =
      let kept : n'.memory ≡ n.memory = ground arith in
      elim (Bool-cases (leb compact_threshold (n.appends_since_compact + 1))) [
        | inl full ↦ (
          record {
            log = map (snapshot_flow h n.memory) (flow_keys h n.memory);
            stored = ground arith;
            same = rw kept (compaction_restores h laws n.memory tracked c);
          },
          kept,
        )
        | inr room ↦ (
          record {
            log = log ++ r ∷ [];
            stored = ground arith;
            same = rw (kept, replay-snoc h (initial h) log r) same;
          },
          kept,
        )
      ]
