-- ===== src/Worker/Recovery/Control.antt =====
-- Laws about a stateful worker and its log under the handler of ring tokens.
use tp_distribuidos_moneylau.Prelude.{
  ℕ, true, false, ◌==◌, ◌&&◌, ◌||◌, ◌≡◌, refl, sym, ◌∙◌, ap, none, some, List, [], ◌∷◌, ◌++◌,
  lookup, get_or, get_or-insert, nat_eq, list_eq, pair_eq, arith, Bool-cases, Option-cases, ◌⊎◌,
  inl, inr,
}
use tp_distribuidos_moneylau.Prelude.Text.{Text}
use tp_distribuidos_moneylau.Models.{RingEof}
use tp_distribuidos_moneylau.Worker.Hooks.{Config, Channel, control, channel_beq, channel_eq, Hooks}
use tp_distribuidos_moneylau.Worker.AppLaws.{AppLaws}
use tp_distribuidos_moneylau.Worker.Memory.{
  Seen, control_record, cleanup_record, control_state_snapshot, is_seen, open_seen, add_to_open,
  Memory, initial, replay, count_sends,
}
use tp_distribuidos_moneylau.Worker.Node.{Node, append_and_note, cleanup_flow}
use tp_distribuidos_moneylau.Worker.Ring.{
  Output, is_cleanup, count_token, cleanup_token, flush_token, flush, get_total_sent_count,
  get_total_count, handle_control_eof_message,
}
use tp_distribuidos_moneylau.Worker.Messages.{process_control, handle_control_message}
use tp_distribuidos_moneylau.Worker.Laws.Seen.{add_to_open_opened, is_seen-remember}
use tp_distribuidos_moneylau.Worker.Laws.Compaction.{counts, IsTracked}
use tp_distribuidos_moneylau.Worker.Laws.Append.{append-IsDurable, replay-snoc}
use tp_distribuidos_moneylau.Worker.Laws.Replay.{
  after_told, get_or-count_sends, SameFlow-control, SameFlow-cleanup,
}
use tp_distribuidos_moneylau.Worker.Laws.Invariant.{
  IsTracked-told, IsTracked-add, IsTracked-cleanup, IsTracked-flush, after_flush, ne_of,
}
use tp_distribuidos_moneylau.Worker.Recovery.{IsRecoverable, IsRecoverable-open, opened}

-- adding to a set that may be gone adds at most the message
is_seen-added :
    (ch : Channel) (k mid : Text) (x : Channel) (c m : Text) (seen : Seen)
    → is_seen x c m (add_to_open ch k mid seen) ≡ true
    → (((channel_beq ch x && k == c) && mid == m) || is_seen x c m seen) ≡ true
unfolding add_to_open
is_seen-added ch k mid x c m seen old = elim (Option-cases (lookup (ch, k) seen)) [
  | inl gone ↦ let same = rw (gone, add_to_open) at old in ground arith
  | inr (s, e) ↦
      sym (is_seen-remember ch k seen mid x c m)
      ∙ ap (is_seen x c m) (sym (add_to_open_opened ch k seen mid e))
      ∙ old
]

module _ (h : Hooks) (laws : AppLaws h) (c : Text) where
  -- the memory and the record of a token that was handled
  token-IsRecoverable :
      (mid k : Text) (n n' : Node h) (m : Memory h)
      → IsRecoverable h laws c n
      → m.seen ≡ n.memory.seen
      → get_or c 0 m.processed_counts ≡ get_or c 0 n.memory.processed_counts
      → laws.view c m.app ≡ laws.view c n.memory.app
      → ((k == c) ≡ false → counts h c m ≡ counts h c n.memory)
      → IsTracked laws m
      → append_and_note h
          (control_record (some mid) k (control_state_snapshot h k m))
          (record n { memory = record m { seen = add_to_open control k mid m.seen } })
        ≡ some n'
      → IsRecoverable h laws c n'
  unfolding control_state_snapshot
  token-IsRecoverable mid k n n' m r seen processed app others t e =
      let m' : Memory h = record m { seen = add_to_open control k mid m.seen } in
      let tracked = IsTracked-add h laws control k mid m t in
      let (durable, memory) =
        append-IsDurable h laws c (record n { memory = m' })
          (control_record (some mid) k (control_state_snapshot h k m')) r.durable.log
          r.durable.stored tracked
          (SameFlow-control h laws c mid k (replay h (initial h) r.durable.log) n.memory m'
            r.durable.same (λ ch x old. rw (← seen) (is_seen-added control k mid ch c x m.seen old))
            processed app others)
          e in
      record { durable = durable; tracked = rw memory tracked }

  -- `_cleanup_flow` drops a flow from the memory and from the log
  cleanup-IsRecoverable :
      (k : Text) (n : Node h)
      → IsRecoverable h laws c n
      → IsRecoverable h laws c (cleanup_flow h k n)
  unfolding cleanup_flow
  cleanup-IsRecoverable k n r =
      rw (r.durable.stored, cleanup_flow)
        (record {
          durable = record {
            log = r.durable.log ++ cleanup_record k ∷ [];
            stored = refl;
            same = rw (replay-snoc h (initial h) r.durable.log (cleanup_record k)) (
                SameFlow-cleanup h laws c k (replay h (initial h) r.durable.log) n.memory
                  r.durable.same);
          };
          tracked = IsTracked-cleanup h laws k n.memory r.tracked;
        })

  -- the tokens for other clients, and those that count or clean up; the flush token of the flow
  -- itself is left out
  abbrev pub Spares : Text → RingEof → Type 0
  Spares k ring =
      ((k == c) ≡ false) ⊎ ((ring.coordinator_id ≡ none) ⊎ (is_cleanup ring.expected_count ≡ true))

  -- what the branch of the token does to the node
  counted-IsRecoverable :
      (config : Config) (mid k : Text) (ring : RingEof) (n n' : Node h)
      → IsRecoverable h laws c n
      → let n1 = (count_token h config k ring mid n).0 in
        append_and_note h
            (control_record (some mid) k (control_state_snapshot h k n1.memory))
            (record n1 {
              memory = record (n1.memory) { seen = add_to_open control k mid n1.memory.seen };
            })
          ≡ some n'
        → IsRecoverable h laws c n'
  unfolding count_token
  counted-IsRecoverable config mid k ring n n' r e =
      token-IsRecoverable mid k n n' (after_told h laws c k n.memory) r refl refl refl
        (λ other. ground (
          arith,
          get_or-insert c k (get_or k 0 n.memory.processed_counts) 0
              n.memory.partial_processed_count,
          get_or-insert c k (get_or k 0 n.memory.sent_count) 0 n.memory.partial_sent_count,
        ))
        (IsTracked-told h laws c k n.memory r.tracked) e

  logged-of_process :
      (config : Config) (mid k : Text) (ring : RingEof) (n n1 : Node h)
      {out1 : List (Output (h.Body))} {r : _}
      → handle_control_eof_message h config k ring mid n ≡ (n1, out1)
      → process_control h config mid k ring n ≡ some r
      → append_and_note h
          (control_record (some mid) k (control_state_snapshot h k n1.memory))
          (record n1 {
            memory = record (n1.memory) { seen = add_to_open control k mid n1.memory.seen };
          })
        ≡ some r.0
  unfolding process_control
  logged-of_process config mid k ring n n1 branch e =
      let e' = rw branch at e in
      elim (Option-cases (
        append_and_note h (control_record (some mid) k (control_state_snapshot h k n1.memory))
          (record n1 {
            memory = record (n1.memory) { seen = add_to_open control k mid n1.memory.seen };
          }))) [
            | inl failed ↦ let e'' = rw failed at e' in cc
            | inr (n2, logged) ↦ logged ∙ ap some (let e'' = rw logged at e' in ground arith)
          ]

  branch_free :
      (config : Config) (mid k : Text) (ring : RingEof) (n : Node h)
      → ring.coordinator_id ≡ none
      → handle_control_eof_message h config k ring mid n ≡ count_token h config k ring mid n
  unfolding handle_control_eof_message
  branch_free config mid k ring n free = ground arith

  branch_cleanup :
      (config : Config) (mid k : Text) (ring : RingEof) (n : Node h) (id : ℕ)
      → ring.coordinator_id ≡ some id
      → is_cleanup ring.expected_count ≡ true
      → handle_control_eof_message h config k ring mid n ≡ cleanup_token h config k ring mid n
  unfolding handle_control_eof_message
  branch_cleanup config mid k ring n id set cleanup = ground arith

  -- a flush token that spares the flow is for another client
  spared :
      (k : Text) (ring : RingEof) (id : ℕ)
      → Spares k ring
      → ring.coordinator_id ≡ some id
      → is_cleanup ring.expected_count ≡ false
      → (k == c) ≡ false
  spared k ring id (inl other) set flushes = other
  spared k ring id (inr (inl free)) set flushes = cc
  spared k ring id (inr (inr cleanup)) set flushes = cc

  branch_flush :
      (config : Config) (mid k : Text) (ring : RingEof) (n : Node h) (id : ℕ)
      → ring.coordinator_id ≡ some id
      → is_cleanup ring.expected_count ≡ false
      → handle_control_eof_message h config k ring mid n ≡ flush_token h config k ring mid n
  unfolding handle_control_eof_message
  branch_flush config mid k ring n id set flushes = ground arith

  -- a flush of another client's flow
  flushed-IsRecoverable :
      (config : Config) (mid k : Text) (ring : RingEof) (n n' : Node h)
      → (k == c) ≡ false
      → IsRecoverable h laws c n
      → let n1 = (flush_token h config k ring mid n).0 in
        append_and_note h
            (control_record (some mid) k (control_state_snapshot h k n1.memory))
            (record n1 {
              memory = record (n1.memory) { seen = add_to_open control k mid n1.memory.seen };
            })
          ≡ some n'
        → IsRecoverable h laws c n'
  unfolding flush_token flush get_total_sent_count get_total_count
  flushed-IsRecoverable config mid k ring n n' other r e =
      token-IsRecoverable mid k n n' (after_flush h laws k n.memory) r refl refl
        (laws.view-flush c k n.memory.app (ne_of k c other))
        (λ _. ground (
          arith,
          get_or-count_sends c k (h.flush_data k n.memory.app).1 n.memory.sent_count,
          get_or-insert c k
              (get_or k 0 (count_sends k (h.flush_data k n.memory.app).1 n.memory.sent_count)) 0
              n.memory.partial_sent_count,
        ))
        (IsTracked-flush h laws k n.memory r.tracked) e

  processed-IsRecoverable :
      (config : Config) (mid k : Text) (ring : RingEof) (n : Node h) (n' : Node h)
      {out : List (Output (h.Body))}
      → Spares k ring
      → IsRecoverable h laws c n
      → process_control h config mid k ring n ≡ some (n', out)
      → IsRecoverable h laws c n'
  unfolding cleanup_token
  processed-IsRecoverable config mid k ring n n' spares r e =
      elim (Option-cases ring.coordinator_id) [
        | inl free ↦ counted-IsRecoverable config mid k ring n n' r (
            logged-of_process config mid k ring n (count_token h config k ring mid n).0
              {out1 = (count_token h config k ring mid n).1} (branch_free config mid k ring n free)
              e)
        | inr (id, set) ↦ elim (Bool-cases (is_cleanup ring.expected_count)) [
          | inl cleanup ↦
              let n1 = cleanup_flow h k n in
              let r1 = cleanup-IsRecoverable k n r in
              token-IsRecoverable mid k n1 n' n1.memory r1 refl refl refl (λ _. refl) r1.tracked
                (logged-of_process config mid k ring n n1
                  {out1 = (cleanup_token h config k ring mid n).1}
                  (branch_cleanup config mid k ring n id set cleanup) e)
          | inr flushes ↦
              flushed-IsRecoverable config mid k ring n n' (spared k ring id spares set flushes) r (
                logged-of_process config mid k ring n (flush_token h config k ring mid n).0
                  {out1 = (flush_token h config k ring mid n).1}
                  (branch_flush config mid k ring n id set flushes) e)
        ]
      ]

  -- A token of the ring leaves the worker recoverable for a client, unless it is the flush token of
  -- that client.
  pub control-IsRecoverable :
      (config : Config) (mid k : Text) (ring : RingEof) (n n' : Node h)
      (out : List (Output (h.Body)))
      → Spares k ring
      → IsRecoverable h laws c n
      → handle_control_message h config mid k ring n ≡ some (n', out)
      → IsRecoverable h laws c n'
  unfolding handle_control_message
  control-IsRecoverable config mid k ring n n' out spares r e =
      elim (Bool-cases (is_seen control k mid (open_seen control k n.memory.seen))) [
        | inl old ↦
            let same : opened h laws c control k n ≡ n' = let e' = rw old at e in ground arith in
            rw (← same) (IsRecoverable-open h laws c control k n r)
        | inr new ↦
            processed-IsRecoverable config mid k ring (opened h laws c control k n) n' {out = out}
              spares (IsRecoverable-open h laws c control k n r) (let e' = rw new at e in e')
      ]
