-- ===== src/Worker/SideWorker/Once.antt =====
-- Laws about the batches that a worker has taken over a run.
use tp_distribuidos_moneylau.Prelude.{
  ap2, ◌+◌, ◌==◌, nat_eq, list_eq, pair_eq, Bool, false, some, List, [], ◌∷◌, ◌++◌, if◌then◌else◌,
  add, count, sum_map-append, All, ◌≡◌, refl, ap, ◌∙◌, arith, inl, inr, Option-cases, Option,
  Bool-cases, Dict, ◌>>=◌,
}
use tp_distribuidos_moneylau.Prelude.Text.{Text}
use tp_distribuidos_moneylau.Worker.Hooks.{channel_eq}
use tp_distribuidos_moneylau.Worker.SideWorker.{
  side_logged, side_eof_logged, cleanup_logged, main_logged, snapshot_logged, forget_flow, compact,
  on_side_input_ready, SideHooks, SideRecord, SideWorker, started, handle_message,
  handle_side_message, drain_from, drain,
}
use tp_distribuidos_moneylau.Worker.SideWorker.Takes.{ids_of, taken, on_side_input_ready-Takes}
use tp_distribuidos_moneylau.Worker.SideWorker.MainSteps.{
  IsStored, new_id, cleans, handle_message_takes,
}
use tp_distribuidos_moneylau.Worker.SideWorker.SideSteps.{cleans_side, handle_side_message_takes}
use tp_distribuidos_moneylau.Worker.Memory.{seen_clients}
use tp_distribuidos_moneylau.Worker.SideInput.{is_ready}
use tp_distribuidos_moneylau.Worker.SideWorker.Recovery.{
  replay_record, replay, recover_from, recover, drain_ready_flows, start,
}
use tp_distribuidos_moneylau.Worker.SideWorker.Events.{
  SideEvent, handle_event, handle_events, arrives, side_arrives, draining,
}

module _ (h : SideHooks) where
  open h use {Batch, Payload}

  -- no event cleans the client up
  abbrev pub KeepsClient : Text → SideEvent h → Type 0
  KeepsClient c (arrives mid k msg) = cleans h c k msg ≡ false
  KeepsClient c (side_arrives mid k msg) = cleans_side h c k msg ≡ false
  KeepsClient c draining = Unit

  -- the ids of the data messages of a client, each when it comes for the first time on the main queue
  unfoldable pub first_ids : Text → List Text → List (SideEvent h) → List Text
  first_ids c ids [] = []
  first_ids c ids (arrives mid k msg ∷ es) =
      new_id h c ids mid k msg ++ first_ids c (if k == c then add mid ids else ids) es
  first_ids c ids (side_arrives mid k msg ∷ es) = first_ids c ids es
  first_ids c ids (draining ∷ es) = first_ids c ids es

  drain_takes :
      (p : Text → Bool) (c : Text) (due : List Text) (w : SideWorker h) {w' : SideWorker h}
      → drain_from h due w ≡ some w'
      → (taken h p c w' ≡ taken h p c w) × (w'.seen ≡ w.seen) × (w'.store ≡ w.store)
  unfolding drain_from
  drain_takes p c [] w {w'} e = let same : w ≡ w' = ground arith in rw (← same) (refl, refl, refl)
  drain_takes p c (k ∷ due) w {w'} e =
      let takes = on_side_input_ready-Takes h p c k (record w { due = due }) {w' = w'} e in
      (takes.counted ∙ omega arith, takes.seen, takes.stored)

  handle_events_takes :
      (p : Text → Bool) (c : Text) (es : List (SideEvent h)) (w : SideWorker h) {w' : SideWorker h}
      → All (KeepsClient c) es
      → IsStored h w
      → handle_events h es w ≡ some w'
      → taken h p c w' ≡ taken h p c w + count p (first_ids c (ids_of c w.seen) es)
  unfolding handle_events handle_event drain first_ids
  handle_events_takes p c [] w {w'} keeps stored e =
      let same : w ≡ w' = ground arith in rw (← same) (omega arith)
  handle_events_takes p c (arrives mid k msg ∷ es) w {w'} keeps stored e =
      elim (Option-cases (handle_message h mid k msg w)) [
        | inl failed ↦ let e' = rw failed at e in cc
        | inr (next, done) ↦
            let e' = rw done at e in
            let (kept, ids, there) =
              handle_message_takes h p c mid k msg w {w' = next} keeps.0 stored done in
            let rest =
              handle_events_takes p c es next {w' = w'} keeps.1 there e'
              ∙ ap (λ l. taken h p c next + count p (first_ids c l es)) ids in
            omega (
              arith,
              kept,
              rest,
              sum_map-append (λ x. if p x then 1 else 0) (new_id h c (ids_of c w.seen) mid k msg)
                  (first_ids c (if k == c then add mid (ids_of c w.seen) else ids_of c w.seen) es),
            )
      ]
  handle_events_takes p c (side_arrives mid k msg ∷ es) w {w'} keeps stored e =
      elim (Option-cases (handle_side_message h mid k msg w)) [
        | inl failed ↦ let e' = rw failed at e in cc
        | inr (next, done) ↦
            let e' = rw done at e in
            let (kept, ids, there) =
              handle_side_message_takes h p c mid k msg w {w' = next} keeps.0 stored done in
            handle_events_takes p c es next {w' = w'} keeps.1 there e'
            ∙ ap2 (λ n l. n + count p (first_ids c l es)) kept ids
      ]
  handle_events_takes p c (draining ∷ es) w {w'} keeps (records, stored) e =
      elim (Option-cases (drain_from h w.due w)) [
        | inl failed ↦ let e' = rw failed at e in cc
        | inr (next, done) ↦
            let e' = rw done at e in
            let (kept, seen, there) = drain_takes p c w.due w {w' = next} done in
            handle_events_takes p c es next {w' = w'} keeps.1 (records, there ∙ stored) e'
            ∙ ap2 (λ n l. n + count p (first_ids c l es)) kept (ap (ids_of c) seen)
      ]

  -- what the start leaves alone
  drain_ready_flows_takes :
      (p : Text → Bool) (c : Text) (cs : List Text) (w : SideWorker h) {w' : SideWorker h}
      → drain_ready_flows h cs w ≡ some w'
      → (taken h p c w' ≡ taken h p c w) × (w'.seen ≡ w.seen) × (w'.store ≡ w.store)
  unfolding drain_ready_flows
  drain_ready_flows_takes p c [] w {w'} e =
      let same : w ≡ w' = ground arith in rw (← same) (refl, refl, refl)
  drain_ready_flows_takes p c (k ∷ cs) w {w'} e = elim (Bool-cases (is_ready k w.tracker)) [
    | inr waiting ↦ drain_ready_flows_takes p c cs w {w' = w'} (let e' = rw waiting at e in e')
    | inl ready ↦ elim (Option-cases (on_side_input_ready h k w)) [
      | inl failed ↦ let e' = rw (ready, failed) at e in cc
      | inr (next, done) ↦
          let takes = on_side_input_ready-Takes h p c k w {w' = next} done in
          let (kept, seen, there) =
            drain_ready_flows_takes p c cs next {w' = w'} (let e' = rw (ready, done) at e in e') in
          (kept ∙ takes.counted ∙ omega arith, seen ∙ takes.seen, there ∙ takes.stored)
    ]
  ]

  replay_record-store :
      (rec : SideRecord h) (w : SideWorker h) → (replay_record h rec w).store ≡ w.store
  unfolding replay_record forget_flow
  replay_record-store (main_logged mid c) w = refl
  replay_record-store (side_logged mid c delta) w = refl
  replay_record-store (side_eof_logged mid c message_count) w = refl
  replay_record-store (cleanup_logged c) w = refl
  replay_record-store (snapshot_logged c seen received expected side_state) w = refl

  replay-store :
      (records : List (SideRecord h)) (w : SideWorker h) → (replay h records w).store ≡ w.store
  unfolding replay
  replay-store [] w = refl
  replay-store (rec ∷ records) w =
      replay-store records (replay_record h rec w) ∙ replay_record-store rec w

  recover-IsStored :
      (records : List (SideRecord h)) (spill : Dict Text (List (Text × Batch)))
      → IsStored h (recover h (started h (some records) spill))
  unfolding recover recover_from compact
  recover-IsStored [] spill = ([], refl)
  recover-IsStored (rec ∷ records) spill =
      rw (replay-store (rec ∷ records) (started h (some (rec ∷ records)) spill), compact) (_, refl)

  -- What a worker does from its start on: it recovers, drains what is ready, and serves the events.
  unfoldable pub serve : List (SideEvent h) → SideWorker h → Option (SideWorker h)
  unfolding start handle_events
  serve es w = do w' ← start h w; handle_events h es w'

  -- A worker that starts over any log and any spill files, that is, recovers from the log and
  -- drains what is ready, and then handles messages of its main and side queues and drains, in
  -- any order, none of which cleans a given client up, as long as none fails: for every test on
  -- message ids, the batches of that client whose results were sent and those in its spill file
  -- are as many as both were after the recovery, before the drains, and the data messages of the
  -- client that came for the first time, where the ids that the recovery knows have come before.
  pub handle_events_once :
      (p : Text → Bool) (c : Text) (es : List (SideEvent h)) (records : List (SideRecord h))
      (spill : Dict Text (List (Text × Batch))) {w : SideWorker h}
      → All (KeepsClient c) es
      → serve es (started h (some records) spill) ≡ some w
      → let recovered = recover h (started h (some records) spill) in
        taken h p c w ≡ taken h p c recovered + count p (first_ids c (ids_of c recovered.seen) es)
  unfolding serve start
  handle_events_once p c es records spill {w} keeps e =
      let recovered = recover h (started h (some records) spill) in
      elim (Option-cases (drain_ready_flows h (seen_clients recovered.seen) recovered)) [
        | inl failed ↦ let e' = rw failed at e in cc
        | inr (began, drained) ↦
            let e' = rw drained at e in
            let (kept, seen, there) =
              drain_ready_flows_takes p c (seen_clients recovered.seen) recovered {w' = began}
                drained in
            let (log, stored) = recover-IsStored records spill in
            handle_events_takes p c es began {w' = w} keeps (log, there ∙ stored) e'
            ∙ ap2 (λ n s. n + count p (first_ids c (ids_of c s) es)) kept seen
      ]
