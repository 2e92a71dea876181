-- ===== src/Worker/SideWorker/Drained.antt =====
-- Laws about the spill files of the clients whose side input is there.
use tp_distribuidos_moneylau.Prelude.{
  on_some_at, ◌==◌, nat_eq, list_eq, pair_eq, Bool, true, false, Option, none, some, List, [], ◌∷◌,
  ◌++◌, if◌then◌else◌, lookup, insert, erase, get_or, contains, get_or-erase, ◌≡◌, refl, sym, ap,
  ◌∙◌, arith, inl, inr, Bool-cases, Option-cases,
}
use tp_distribuidos_moneylau.Prelude.Text.{Text}
use tp_distribuidos_moneylau.Models.{is_cleanup_eof}
use tp_distribuidos_moneylau.Worker.Hooks.{side, channel_eq}
use tp_distribuidos_moneylau.Worker.Memory.{is_seen, open_seen, add_to_open}
use tp_distribuidos_moneylau.Worker.SideInput.{
  SideInputTracker, batch, expect, step, step-is_ready, is_ready, track_batch, set_expected,
}
use tp_distribuidos_moneylau.Worker.SideWorker.{
  SideHooks, SideRecord, side_logged, side_eof_logged, SideWorker, started, SideMessage, side_batch,
  side_eof, unexpected, cleanup_flow, log_side, process_side, handle_side_message, emit_all,
  on_side_input_ready, drain_from, drain,
}
use tp_distribuidos_moneylau.Worker.SideWorker.Events.{
  SideEvent, arrives, side_arrives, draining, handle_event, handle_events,
}
use tp_distribuidos_moneylau.Worker.SideWorker.Takes.{emit_all-Takes}
use tp_distribuidos_moneylau.Worker.SideWorker.MainDrained.{
  not_due, ready_before, Drained, cleanup_flow-Drained, handle_message-Drained,
}

module _ (h : SideHooks) where
  open h use {Batch, Payload}

  -- the tracker says that the client became ready exactly if its drain is due
  log_side-Drained :
      (mid k : Text) (rec : SideRecord h) (became_ready : Bool) (tracker : SideInputTracker)
      (w : SideWorker h) {w' : SideWorker h}
      → ((c : Text)
          → is_ready c tracker ≡ (
              if k == c
              then (if is_ready c w.tracker then true else became_ready)
              else is_ready c w.tracker))
      → Drained h w
      → log_side h mid k rec (became_ready, tracker) w ≡ some w'
      → Drained h w'
  unfolding log_side
  log_side-Drained mid k rec became_ready tracker w {w'} steps d e = elim (Option-cases w.store) [
    | inl missing ↦ let e' = rw missing at e in cc
    | inr (records, stored) ↦
        let logged = λ (rs : List (SideRecord h)). some (record w {
          tracker = tracker;
          seen = add_to_open side k mid w.seen;
          store = some (rs ++ rec ∷ []);
          due = if became_ready then w.due ++ k ∷ [] else w.due;
        }) in
        let e' = sym (on_some_at w.store none logged stored) ∙ e in
        let same : record w {
          tracker = tracker;
          seen = add_to_open side k mid w.seen;
          store = some (records ++ rec ∷ []);
          due = if became_ready then w.due ++ k ∷ [] else w.due;
        }
            ≡ w' =
          ground arith in
        rw (← same) (λ c ready idle.
          let was = sym (steps c) ∙ ready in
          elim (Bool-cases became_ready) [
            | inl news ↦
                let idle' = rw news at idle in
                let (before, other) = not_due c k w.due idle' in
                let still : is_ready c w.tracker ≡ true =
                  sym (ready_before (k == c) (is_ready c w.tracker) became_ready (inl other))
                  ∙ was in
                d c still before
            | inr nothing ↦
                let idle' = rw nothing at idle in
                let still : is_ready c w.tracker ≡ true =
                  sym (ready_before (k == c) (is_ready c w.tracker) became_ready (inr nothing))
                  ∙ was in
                d c still idle'
          ])
  ]

  process_side-Drained :
      (mid k : Text) (msg : SideMessage h) (w : SideWorker h) {w' : SideWorker h}
      → Drained h w
      → process_side h mid k msg w ≡ some w'
      → Drained h w'
  unfolding process_side step
  process_side-Drained mid k unexpected w {w'} d e =
      let same : w ≡ w' = ground arith in rw (← same) d
  process_side-Drained mid k (side_batch payload) w {w'} d e =
      elim (Option-cases (h.side_delta payload)) [
        | inl failed ↦ let e' = rw failed at e in cc
        | inr (delta, read) ↦
            let e' = rw read at e in
            log_side-Drained mid k (side_logged mid k delta) (track_batch k w.tracker).0
              (track_batch k w.tracker).1
              (record w {
                tables =
                    insert k (h.apply_side_delta delta (get_or k h.no_table w.tables)) w.tables;
              })
              {w' = w'} (λ c. step-is_ready (batch k) c w.tracker) d e'
      ]
  process_side-Drained mid k (side_eof eof) w {w'} d e = elim (Bool-cases (is_cleanup_eof eof)) [
    | inl cleaning ↦
        let e' = rw cleaning at e in
        let same : cleanup_flow h k w ≡ w' = ground arith in
        rw (← same) (cleanup_flow-Drained h k w d)
    | inr expecting ↦
        let e' = rw expecting at e in
        let news = set_expected k eof.message_count w.tracker in
        log_side-Drained mid k (side_eof_logged mid k eof.message_count) news.0 news.1 w {w' = w'}
          (λ c. step-is_ready (expect k eof.message_count) c w.tracker) d e'
  ]

  drain_from-Drained :
      (due : List Text) (w : SideWorker h) {w' : SideWorker h}
      → w.due ≡ due
      → Drained h w
      → drain_from h due w ≡ some w'
      → Drained h w'
  unfolding drain_from on_side_input_ready contains
  drain_from-Drained [] w {w'} waiting d e = let same : w ≡ w' = ground arith in rw (← same) d
  drain_from-Drained (k ∷ due) w {w'} waiting d e =
      let taken = record w { due = due } in
      elim (Option-cases (emit_all h k (get_or k [] w.spill) taken)) [
        | inl failed ↦ let e' = rw failed at e in cc
        | inr (next, done) ↦
            let e' = rw done at e in
            let (takes, spill, left, tracker) =
              emit_all-Takes h (λ m. true) k k (get_or k [] w.spill) taken {w' = next} done in
            let same : record next { spill = erase k next.spill } ≡ w' = ground arith in
            rw (← same) (λ c ready idle.
              get_or-erase c k [] next.spill ∙ elim (Bool-cases (k == c)) [
                | inl here ↦ rw here refl
                | inr other ↦
                    let idle' : contains c w.due ≡ false =
                      rw waiting (rw other (sym (ap (contains c) left) ∙ idle)) in
                    rw other
                      (ap (get_or c []) spill ∙ d c (sym (ap (is_ready c) tracker) ∙ ready) idle')
              ])
      ]

  handle_event-Drained :
      (event : SideEvent h) (w : SideWorker h) {w' : SideWorker h}
      → Drained h w
      → handle_event h event w ≡ some w'
      → Drained h w'
  unfolding handle_event drain handle_side_message
  handle_event-Drained (arrives mid k msg) w {w'} d e =
      handle_message-Drained h mid k msg w {w' = w'} d e
  handle_event-Drained draining w {w'} d e = drain_from-Drained w.due w {w' = w'} refl d e
  handle_event-Drained (side_arrives mid k msg) w {w'} d e =
      let opened = record w { seen = open_seen side k w.seen } in
      elim (Bool-cases (is_seen side k mid opened.seen)) [
        | inl old ↦ let e' = rw old at e in let same : opened ≡ w' = ground arith in rw (← same) d
        | inr new ↦ let e' = rw new at e in process_side-Drained mid k msg opened {w' = w'} d e'
      ]

  handle_events-Drained :
      (events : List (SideEvent h)) (w : SideWorker h) {w' : SideWorker h}
      → Drained h w
      → handle_events h events w ≡ some w'
      → Drained h w'
  unfolding handle_events
  handle_events-Drained [] w {w'} d e = let same : w ≡ w' = ground arith in rw (← same) d
  handle_events-Drained (event ∷ events) w {w'} d e = elim (Option-cases (handle_event h event w)) [
    | inl failed ↦ let e' = rw failed at e in cc
    | inr (next, done) ↦
        let e' = rw done at e in
        handle_events-Drained events next {w' = w'}
          (handle_event-Drained event w {w' = next} d done) e'
  ]

  nothing_spilled : (store : Option (List (SideRecord h))) → Drained h (started h store [])
  unfolding get_or lookup
  nothing_spilled store c ready idle = refl

  -- After any messages and drains of a worker that starts with an empty spill, as long as none
  -- fails: if the side input of a client is there and no drain of the client is due, nothing is
  -- left in its spill file.
  pub handle_events_drained :
      (events : List (SideEvent h)) (store : Option (List (SideRecord h))) (c : Text)
      {w : SideWorker h}
      → handle_events h events (started h store []) ≡ some w
      → is_ready c w.tracker ≡ true
      → contains c w.due ≡ false
      → get_or c [] w.spill ≡ []
  handle_events_drained events store c {w} e =
      handle_events-Drained events (started h store []) {w' = w} (nothing_spilled store) e c
