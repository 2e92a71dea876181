-- ===== src/Worker/Recovery.antt =====
-- Laws about a stateful worker and its log under the handlers of data messages and ends of stream.
pub mod Control
pub mod Restart
use tp_distribuidos_moneylau.Prelude.{
  ℕ, ◌+◌, Bool, true, false, ◌==◌, ◌&&◌, ◌||◌, ◌≡◌, ◌≢◌, refl, sym, ◌∙◌, ap, Option, none, some,
  List, [], ◌∷◌, ◌++◌, map, ◌>>=◌, get_or, nat_eq, list_eq, list_beq_iff, if◌then◌else◌, arith,
  Bool-cases, Option-cases, inl, inr,
}
use tp_distribuidos_moneylau.Prelude.Text.{Text}
use tp_distribuidos_moneylau.Models.{Eof, RingEof}
use tp_distribuidos_moneylau.Worker.Hooks.{Config, Channel, main, control, Hooks}
use tp_distribuidos_moneylau.Worker.AppLaws.{AppLaws}
use tp_distribuidos_moneylau.Worker.Memory.{
  Seen, WalRecord, main_record, control_record, control_state_snapshot, is_seen, open_seen,
  add_to_open, increment, increment_processed_count, Memory, initial, replay,
}
use tp_distribuidos_moneylau.Worker.Node.{Node, append_and_note}
use tp_distribuidos_moneylau.Worker.Ring.{Output, start_ring}
use tp_distribuidos_moneylau.Worker.Messages.{
  Incoming, data_message, eof_message, handle_data_message, handle_eof_message, process,
  handle_message, handle_control_message,
}
use tp_distribuidos_moneylau.Worker.Laws.Seen.{is_seen-open_seen}
use tp_distribuidos_moneylau.Worker.Laws.Compaction.{IsTracked, SameFlow}
use tp_distribuidos_moneylau.Worker.Laws.Append.{IsDurable, append-IsDurable}
use tp_distribuidos_moneylau.Worker.Laws.Replay.{
  after_data, after_told, SameFlow-data, SameFlow-start, SameFlow-eof, SameFlow-control,
  SameFlow-cleanup, is_seen-handled,
}
use tp_distribuidos_moneylau.Worker.Laws.Invariant.{
  IsTracked-open, IsTracked-data, IsTracked-told, IsTracked-add, IsTracked-cleanup,
}

module _ (h : Hooks) (laws : AppLaws h) (c : Text) where
  -- a worker whose log is in step with its memory
  pub record IsRecoverable (n : Node h) : Type 0 where
    pub durable : IsDurable laws c n
    pub tracked : IsTracked laws n.memory

  abbrev pub opened : Channel → Text → Node h → Node h
  opened ch k n = record n { memory = record (n.memory) { seen = open_seen ch k n.memory.seen } }

  pub IsRecoverable-open :
      (ch : Channel) (k : Text) (n : Node h) → IsRecoverable n → IsRecoverable (opened ch k n)
  IsRecoverable-open ch k n r = record {
    durable = record {
      log = r.durable.log;
      stored = r.durable.stored;
      same = record {
        counts_same = r.durable.same.counts_same;
        seen_kept = λ x mid old.
            r.durable.same.seen_kept x mid
              (sym (is_seen-open_seen ch k n.memory.seen x c mid) ∙ old);
        app_same = r.durable.same.app_same;
      };
    };
    tracked = IsTracked-open h laws ch k n.memory r.tracked;
  }

  process-data :
      (config : Config) (mid k : Text) (p : h.Payload) (n : Node h) {n' : Node h}
      {out : List (Output (h.Body))}
      → IsRecoverable n
      → process h config mid k (data_message p) (opened main k n) ≡ some (n', out)
      → IsRecoverable n'
  unfolding process increment_processed_count handle_data_message
  process-data config mid k p n {n'} r e =
      elim (Option-cases (h.handle_data mid k p n.memory.app)) [
        | inl failed ↦ let e' = rw failed at e in cc
        | inr ((app, d, sends), done) ↦
            let marked : Node h = record n {
              memory = after_data h laws c mid k app sends n.memory;
            } in
            let rec = main_record mid k (some d) false in
            let tracked = IsTracked-data h laws c mid k p app d sends n.memory done r.tracked in
            elim (Option-cases (append_and_note h rec marked)) [
              | inl failed ↦ let e' = rw (done, failed) at e in cc
              | inr (n'', logged) ↦
                  let (durable, memory) =
                    append-IsDurable h laws c marked rec r.durable.log r.durable.stored tracked
                      (SameFlow-data h laws c mid k p app d sends
                        (replay h (initial h) r.durable.log) n.memory done r.durable.same)
                      logged in
                  let same : n'' ≡ n' = let e' = rw (done, logged) at e in ground arith in
                  rw (← same) (record { durable = durable; tracked = rw memory tracked })
            ]
      ]

  -- A data message, of this client or of another, leaves the worker recoverable.
  pub data-IsRecoverable :
      (config : Config) (mid k : Text) (p : h.Payload) (n n' : Node h)
      (out : List (Output (h.Body)))
      → IsRecoverable n
      → handle_message h config mid k (data_message p) n ≡ some (n', out)
      → IsRecoverable n'
  unfolding handle_message
  data-IsRecoverable config mid k p n n' out r e =
      elim (Bool-cases (is_seen main k mid (open_seen main k n.memory.seen))) [
        | inl old ↦
            let same : opened main k n ≡ n' =
              let e' = rw (r.durable.stored, old) at e in ground (arith, r.durable.stored) in
            rw (← same) (IsRecoverable-open main k n r)
        | inr new ↦
            process-data config mid k p n {n' = n'} {out = out} r (ground (arith, r.durable.stored))
      ]

  -- the ring is started and logged
  start-IsRecoverable :
      (k : Text) (n n' : Node h)
      → IsRecoverable n
      → append_and_note h
          (control_record none k (control_state_snapshot h k (after_told h laws c k n.memory)))
          (record n { memory = after_told h laws c k n.memory })
        ≡ some n'
      → IsRecoverable n' × (n'.memory ≡ after_told h laws c k n.memory)
  start-IsRecoverable k n n' r e =
      let tracked = IsTracked-told h laws c k n.memory r.tracked in
      let (durable, memory) =
        append-IsDurable h laws c (record n { memory = after_told h laws c k n.memory }) _
          r.durable.log r.durable.stored tracked
          (SameFlow-start h laws c k (replay h (initial h) r.durable.log) n.memory r.durable.same)
          e in
      (record { durable = durable; tracked = rw memory tracked }, memory)

  -- the end of the stream is remembered and logged
  mark-IsRecoverable :
      (mid k : Text) (seen : Seen) (n n' : Node h)
      → IsRecoverable n
      → n.memory.seen ≡ open_seen main k seen
      → append_and_note h
          (main_record mid k none true)
          (record n { memory = record (n.memory) { seen = add_to_open main k mid n.memory.seen } })
        ≡ some n'
      → IsRecoverable n'
  mark-IsRecoverable mid k seen n n' r opened_seen e =
      let tracked = IsTracked-add h laws main k mid n.memory r.tracked in
      let (durable, memory) =
        append-IsDurable h laws c
          (record n { memory = record (n.memory) { seen = add_to_open main k mid n.memory.seen } })
          _ r.durable.log r.durable.stored tracked
          (SameFlow-eof h laws c mid k (replay h (initial h) r.durable.log) n.memory seen
            opened_seen r.durable.same)
          e in
      record { durable = durable; tracked = rw memory tracked }

  -- `_handle_eof_message` of a worker with a log
  eof-logged :
      (config : Config) (k : Text) (eof : Eof) (n : Node h) (log : List (WalRecord (h.Delta)))
      {r : _}
      → n.store ≡ some log
      → handle_eof_message h config k eof n ≡ some r
      → append_and_note h
          (control_record none k (control_state_snapshot h k (after_told h laws c k n.memory)))
          (record n { memory = after_told h laws c k n.memory })
        ≡ some r.0
  unfolding handle_eof_message start_ring append_and_note
  eof-logged config k eof n log stored e = ground arith

  process-eof :
      (config : Config) (mid k : Text) (eof : Eof) (n : Node h) {n' : Node h}
      {out : List (Output (h.Body))}
      → IsRecoverable n
      → process h config mid k (eof_message eof) (opened main k n) ≡ some (n', out)
      → IsRecoverable n'
  unfolding process
  process-eof config mid k eof n {n'} r e =
      elim (Option-cases (handle_eof_message h config k eof (opened main k n))) [
        | inl failed ↦ let e' = rw failed at e in cc
        | inr ((n2, out2), started) ↦
            let (r2, memory) =
              start-IsRecoverable k (opened main k n) n2 (IsRecoverable-open main k n r) (
                eof-logged config k eof (opened main k n) r.durable.log r.durable.stored started) in
            let marked : Node h = record n2 {
              memory = record (n2.memory) { seen = add_to_open main k mid n2.memory.seen };
            } in
            elim (Option-cases (append_and_note h (main_record mid k none true) marked)) [
              | inl failed ↦ let e' = rw (started, failed) at e in cc
              | inr (n3, logged) ↦
                  let same : n3 ≡ n' = let e' = rw (started, logged) at e in ground arith in
                  rw (← same) (
                    mark-IsRecoverable mid k n.memory.seen n2 n3 r2
                      (ap (λ (m : Memory h). m.seen) memory) logged)
            ]
      ]

  -- The end of a stream, of this client or of another, leaves the worker recoverable.
  pub eof-IsRecoverable :
      (config : Config) (mid k : Text) (eof : Eof) (n n' : Node h) (out : List (Output (h.Body)))
      → IsRecoverable n
      → handle_message h config mid k (eof_message eof) n ≡ some (n', out)
      → IsRecoverable n'
  unfolding handle_message
  eof-IsRecoverable config mid k eof n n' out r e =
      elim (Bool-cases (is_seen main k mid (open_seen main k n.memory.seen))) [
        | inl old ↦
            let same : opened main k n ≡ n' =
              let e' = rw (r.durable.stored, old) at e in ground (arith, r.durable.stored) in
            rw (← same) (IsRecoverable-open main k n r)
        | inr new ↦
            process-eof config mid k eof n {n' = n'} {out = out} r
              (ground (arith, r.durable.stored))
      ]
