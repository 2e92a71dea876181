-- ===== src/Worker/Laws/Repeats.antt =====
-- Laws about a message that is delivered again.
use tp_distribuidos_moneylau.Prelude.{
  true, false, ◌≡◌, ◌≢◌, refl, none, some, List, [], inl, inr, nat_eq, list_eq, pair_eq,
  list_beq_iff, get_or, add, Bool-cases, Option-cases, arith,
}
use tp_distribuidos_moneylau.Prelude.Text.{Text}
use tp_distribuidos_moneylau.Worker.Hooks.{
  Config, Channel, main, channel_eq, channel_beq_iff, Hooks,
}
use tp_distribuidos_moneylau.Worker.Memory.{
  WalRecord, main_record, Seen, is_seen, open_seen, remember, add_to_open,
}
use tp_distribuidos_moneylau.Worker.Node.{Node, append_and_note}
use tp_distribuidos_moneylau.Worker.Ring.{Output}
use tp_distribuidos_moneylau.Worker.Messages.{
  Incoming, data_message, eof_message, dispatch, process, handle_message,
}
use tp_distribuidos_moneylau.Worker.Laws.Seen.{
  lookup-open_seen, open_seen_opened, add_to_open_opened, lookup-remember, is_seen-remember,
}

-- the state of a set of ids that were seen
pub record Marked (ch : Channel) (c mid : Text) (seen : Seen) : Type 0 where
  pub opened : open_seen ch c seen ≡ seen
  pub marked : is_seen ch c mid seen ≡ true

module _ (ch : Channel) (c mid : Text) (seen : Seen) where
  -- opening and adding, with the entry untouched in between, leaves the message marked
  pub Marked-add : Marked ch c mid (add_to_open ch c mid (open_seen ch c seen))
  Marked-add =
      rw (add_to_open_opened ch c (open_seen ch c seen) mid (lookup-open_seen ch c seen)) (record {
        opened =
            open_seen_opened ch c (remember ch c mid (open_seen ch c seen))
              {s = add mid (get_or (ch, c) [] (open_seen ch c seen))}
              (rw (lookup-remember ch c (open_seen ch c seen) mid c ch)
                (ground (arith, channel_beq_iff ch ch, list_beq_iff c c)));
        marked =
            rw (is_seen-remember ch c (open_seen ch c seen) mid ch c mid)
              (ground (arith, channel_beq_iff ch ch, list_beq_iff c c, list_beq_iff mid mid));
      })

module _ (h : Hooks) where
  -- a log stays a log
  abbrev pub HasLog : Node h → Type 0
  HasLog n = n.store ≢ none

  -- appending, counting and compacting keep the log and the memory
  pub append_and_note_keeps :
      (n : Node h) (r : WalRecord (h.Delta)) {n' : Node h}
      → append_and_note h r n ≡ some n'
      → HasLog n' × (n'.memory ≡ n.memory)
  unfolding append_and_note
  append_and_note_keeps n r e = ground arith

  -- no handler of the main queue touches the `_seen` index
  dispatch-seen :
      (config : Config) (mid c : Text) (msg : Incoming h) (n : Node h) {r : _}
      → dispatch h config mid c msg n ≡ some r
      → (r.0.memory.seen ≡ n.memory.seen) × (HasLog n → HasLog r.0)
  unfolding dispatch append_and_note
  dispatch-seen config mid c (data_message payload) n e = ground arith
  dispatch-seen config mid c (eof_message eof) n e = ground arith

  recognised :
      (config : Config) (mid c : Text) (msg : Incoming h) (n : Node h)
      → HasLog n
      → Marked main c mid n.memory.seen
      → handle_message h config mid c msg n ≡ some (n, [])
  unfolding handle_message
  recognised config mid c msg n has m = elim (Option-cases n.store) [
    | inl e ↦ absurd (has e)
    | inr (rs, e) ↦ rw (e, m.opened, m.marked) refl
  ]

  opened_marks :
      (ch : Channel) (c mid : Text) (seen : Seen)
      → is_seen ch c mid (open_seen ch c seen) ≡ true
      → Marked ch c mid (open_seen ch c seen)
  opened_marks ch c mid seen e = record {
    opened = open_seen_opened ch c (open_seen ch c seen) (lookup-open_seen ch c seen);
    marked = e;
  }

  process-Marked :
      (config : Config) (mid c : Text) (msg : Incoming h) (seen : Seen) (n : Node h) {n' : Node h}
      {outputs : List (Output (h.Body))}
      → HasLog n
      → n.memory.seen ≡ open_seen main c seen
      → process h config mid c msg n ≡ some (n', outputs)
      → HasLog n' × Marked main c mid n'.memory.seen
  unfolding process
  process-Marked config mid c msg seen n {n'} has opened e =
      elim (Option-cases (dispatch h config mid c msg n)) [
        | inl failed ↦ let e' = rw failed at e in cc
        | inr (r, done) ↦
            let (seen_same, log) = dispatch-seen config mid c msg n done in
            let marked : Node h = record (r.0) {
              memory = record (r.0.memory) { seen = add_to_open main c mid r.0.memory.seen };
            } in
            let rec =
              main_record mid c r.1 (elim msg [ data_message _ ↦ false | eof_message _ ↦ true ]) in
            elim (Option-cases (append_and_note h rec marked)) [
              | inl failed ↦ let e' = rw (done, failed) at e in cc
              | inr (n'', logged) ↦
                  let (log', memory) = append_and_note_keeps marked rec logged in
                  let same : n'' ≡ n' = let e' = rw (done, logged) at e in ground arith in
                  rw (← same) (log', rw (memory, seen_same, opened) (Marked-add main c mid seen))
            ]
      ]

  handle_message-Marked :
      (config : Config) (mid c : Text) (msg : Incoming h) (n : Node h) {n' : Node h}
      {outputs : List (Output (h.Body))}
      → HasLog n
      → handle_message h config mid c msg n ≡ some (n', outputs)
      → HasLog n' × Marked main c mid n'.memory.seen
  unfolding handle_message
  handle_message-Marked config mid c msg n {n'} {outputs} has e = elim (Option-cases n.store) [
    | inl no_log ↦ absurd (has no_log)
    | inr (rs, log) ↦ elim (Bool-cases (is_seen main c mid (open_seen main c n.memory.seen))) [
      | inl old ↦
          let opened = record n {
            memory = record (n.memory) { seen = open_seen main c n.memory.seen };
          } in
          let same : opened ≡ n' = ground arith in
          rw (← same) (has, opened_marks main c mid n.memory.seen old)
      | inr new ↦
          process-Marked config mid c msg n.memory.seen
            (record n { memory = record (n.memory) { seen = open_seen main c n.memory.seen } })
            {n' = n'} {outputs = outputs} has refl (ground arith)
    ]
  ]

  -- A stateful worker with a log that gets a data message or an end of stream again, right after
  -- it was handled, changes nothing and sends nothing.
  pub handle_message_again :
      (config : Config) (mid c : Text) (msg : Incoming h) (n : Node h) {n' : Node h} {outputs : _}
      → HasLog n
      → handle_message h config mid c msg n ≡ some (n', outputs)
      → handle_message h config mid c msg n' ≡ some (n', [])
  handle_message_again config mid c msg n {n'} has e =
      let (has', marked) = handle_message-Marked config mid c msg n has e in
      recognised config mid c msg n' has' marked
