-- ===== src/Worker/Memory.antt =====
-- The state that a stateful worker keeps in memory, and how a record of the write-ahead log acts on
-- it: src/common/idempotency/state_log.py with the overrides of src/common/worker/stateful_worker.py.
use tp_distribuidos_moneylau.Prelude.{
  ℕ, ◌+◌, ◌==◌, Bool, Option, none, some, List, [], ◌∷◌, Dict, lookup, insert, erase, get_or,
  setdefault, contains, add, update, nat_eq, list_eq, pair_eq, if◌then◌else◌,
}
use tp_distribuidos_moneylau.Prelude.Text.{Text}
use tp_distribuidos_moneylau.Worker.Hooks.{Channel, main, control, channel_eq, Hooks}

abbrev pub Seen : Type 0
Seen = Dict (Channel × Text) (List Text)

-- `_control_state_snapshot`
pub record ControlSnapshot : Type 0 where
  pub partial_processed : ℕ
  pub sent_count : ℕ
  pub partial_sent : ℕ

-- `message_id in self._seen[(channel, client_id)]`
unfoldable pub is_seen : Channel → Text → Text → Seen → Bool
is_seen ch c mid seen = contains mid (get_or (ch, c) [] seen)

-- `self._seen.setdefault((channel, client_id), set())`
unfoldable pub open_seen : Channel → Text → Seen → Seen
open_seen ch c seen = setdefault (ch, c) [] seen

-- `self._seen.setdefault((channel, client_id), set()).add(mid)`
unfoldable pub remember : Channel → Text → Text → Seen → Seen
remember ch c mid seen = insert (ch, c) (add mid (get_or (ch, c) [] seen)) seen

-- `seen.add(message_id)` on the set that was looked up before the handler ran. The handler can drop
-- the entry (`_forget_flow`): then the set is no longer part of `self._seen` and nothing is kept.
unfoldable pub add_to_open : Channel → Text → Text → Seen → Seen
add_to_open ch c mid seen = elim (lookup (ch, c) seen) [
  | none ↦ seen
  | some s ↦ insert (ch, c) (add mid s) seen
]

-- the loop of `_forget_flow`
unfoldable pub forget_seen : Text → Seen → Seen
forget_seen c [] = []
forget_seen c ((key, mids) ∷ seen) =
    let rest = forget_seen c seen in if key.1 == c then rest else (key, mids) ∷ rest

-- the loop of `_snapshot_flow`
unfoldable pub snapshot_seen : Text → Dict Channel (List Text) → Seen → Dict Channel (List Text)
snapshot_seen c acc [] = acc
snapshot_seen c acc ((key, mids) ∷ seen) =
    snapshot_seen c (if key.1 == c then insert key.0 mids acc else acc) seen

-- the loop of `_restore_snapshot`
unfoldable pub restore_seen : Text → Dict Channel (List Text) → Seen → Seen
restore_seen c [] seen = seen
restore_seen c ((ch, mids) ∷ items) seen =
    restore_seen c items (insert (ch, c) (update mids (get_or (ch, c) [] seen)) seen)

-- the clients of the `_seen` keys
unfoldable pub seen_clients : Seen → List Text
seen_clients [] = []
seen_clients ((key, mids) ∷ seen) = add key.1 (seen_clients seen)

unfoldable pub increment : Text → Dict Text ℕ → Dict Text ℕ
increment c counts = insert c (get_or c 0 counts + 1) counts

-- the keys of a dict of counts
unfoldable pub count_clients : Dict Text ℕ → List Text
count_clients [] = []
count_clients ((c, n) ∷ counts) = add c (count_clients counts)

-- what `_apply_delta` of a subclass adds to the sent count
unfoldable pub add_sent : Text → Option ℕ → Dict Text ℕ → Dict Text ℕ
add_sent c none counts = counts
add_sent c (some n) counts = insert c (get_or c 0 counts + n) counts

-- `_increment_sent_count`, once for each batch that is sent
unfoldable pub count_sends {ℓ} : {A : Type ℓ} → Text → List A → Dict Text ℕ → Dict Text ℕ
unfolding increment
count_sends c [] counts = counts
count_sends c (_ ∷ sends) counts = count_sends c sends (increment c counts)

-- The records of the write-ahead log, as their "ch" says.
pub data WalRecord (Delta : Type 0) : Type 0 where
  main_record : Text → Text → Option Delta → Bool → WalRecord Delta
  control_record : Option Text → Text → ControlSnapshot → WalRecord Delta
  cleanup_record : Text → WalRecord Delta
  snapshot_record :
      Text → Dict Channel (List Text) → Option Delta → ℕ → ControlSnapshot → WalRecord Delta

module _ (h : Hooks) where
  open h use {App, Delta}

  pub record Memory : Type 0 where
    pub seen : Seen
    pub processed_counts : Dict Text ℕ
    pub partial_processed_count : Dict Text ℕ
    pub sent_count : Dict Text ℕ
    pub partial_sent_count : Dict Text ℕ
    pub app : App

  -- `__init__`
  abbrev pub initial : Memory
  initial = record {
    seen = [];
    processed_counts = [];
    partial_processed_count = [];
    sent_count = [];
    partial_sent_count = [];
    app = h.init;
  }

  unfoldable pub increment_processed_count : Text → Memory → Memory
  unfolding increment
  increment_processed_count c m = record m { processed_counts = increment c m.processed_counts }

  unfoldable pub apply_delta : Text → Delta → Memory → Memory
  unfolding add_sent
  apply_delta c delta m = record m {
    sent_count = add_sent c (h.sent_delta delta) m.sent_count;
    app = h.apply_delta c delta m.app;
  }

  -- `if record.get("delta") is not None: self._apply_delta(...)`
  unfoldable pub apply_optional_delta : Text → Option Delta → Memory → Memory
  unfolding apply_delta
  apply_optional_delta c none m = m
  apply_optional_delta c (some delta) m = apply_delta c delta m

  -- `_cleanup_state`, the subclass's override included
  unfoldable pub cleanup_state : Text → Memory → Memory
  cleanup_state c m = record m {
    processed_counts = erase c m.processed_counts;
    partial_processed_count = erase c m.partial_processed_count;
    sent_count = erase c m.sent_count;
    partial_sent_count = erase c m.partial_sent_count;
    app = h.cleanup_state c m.app;
  }

  unfoldable pub forget_flow : Text → Memory → Memory
  unfolding cleanup_state
  forget_flow c m = cleanup_state c (record m { seen = forget_seen c m.seen })

  -- `_control_state_snapshot`
  unfoldable pub control_state_snapshot : Text → Memory → ControlSnapshot
  control_state_snapshot c m = record {
    partial_processed = get_or c 0 m.partial_processed_count;
    sent_count = get_or c 0 m.sent_count;
    partial_sent = get_or c 0 m.partial_sent_count;
  }

  unfoldable pub restore_control_state : Text → ControlSnapshot → Memory → Memory
  restore_control_state c snapshot m = record m {
    partial_processed_count = insert c snapshot.partial_processed m.partial_processed_count;
    sent_count = insert c snapshot.sent_count m.sent_count;
    partial_sent_count = insert c snapshot.partial_sent m.partial_sent_count;
  }

  -- `_flow_keys`
  unfoldable pub flow_keys : Memory → List Text
  flow_keys m = update (count_clients m.partial_sent_count) (
      update (count_clients m.sent_count) (
        update (count_clients m.processed_counts)
          (update (count_clients m.partial_processed_count) (seen_clients m.seen))))

  -- `_snapshot_flow`
  unfoldable pub snapshot_flow : Memory → Text → WalRecord Delta
  unfolding control_state_snapshot
  snapshot_flow m c =
      snapshot_record c (snapshot_seen c [] m.seen) (h.state_as_delta c m.app)
        (get_or c 0 m.processed_counts) (control_state_snapshot c m)

  -- `_restore_snapshot`
  unfoldable pub restore_snapshot :
      Text → Dict Channel (List Text) → Option Delta → ℕ → ControlSnapshot → Memory → Memory
  unfolding apply_optional_delta restore_control_state
  restore_snapshot c items delta processed snapshot m =
      let base = apply_optional_delta c delta (record m { seen = restore_seen c items m.seen }) in
      restore_control_state c snapshot
        (record base { processed_counts = insert c processed base.processed_counts })

  remember_optional : Channel → Text → Option Text → Memory → Memory
  remember_optional ch c none m = m
  remember_optional ch c (some mid) m = record m { seen = remember ch c mid m.seen }

  -- `_replay_record`
  unfoldable pub replay_record : Memory → WalRecord Delta → Memory
  unfolding remember_optional apply_optional_delta increment_processed_count restore_control_state
      restore_snapshot forget_flow
  replay_record m (main_record mid c delta eof) =
      let replayed =
        apply_optional_delta c delta (record m { seen = remember main c mid m.seen }) in
      if eof then replayed else increment_processed_count c replayed
  replay_record m (control_record mid c snapshot) =
      restore_control_state c snapshot (remember_optional control c mid m)
  replay_record m (cleanup_record c) = forget_flow c m
  replay_record m (snapshot_record c items delta processed snapshot) =
      restore_snapshot c items delta processed snapshot m

  -- the loop of `_recover`
  unfoldable pub replay : Memory → List (WalRecord Delta) → Memory
  replay m [] = m
  replay m (r ∷ rs) = replay (replay_record m r) rs
