-- ===== src/Worker/SideWorker/Recovery.antt =====
-- src/common/worker/side_input_stateless_worker.py and src/common/idempotency/state_log.py: the restart of a
-- worker from its log and its spill files.
use tp_distribuidos_moneylau.Prelude.{
  ◌==◌, nat_eq, list_eq, pair_eq, list_beq_iff, Bool, true, false, ◌&&◌, Option, none, some, List,
  [], ◌∷◌, ◌>>=◌, if◌then◌else◌, Dict, insert, erase, get_or, contains, get_or-erase, ◌≡◌, refl,
  sym, ap, ◌∙◌, arith, inl, inr, Bool-cases, Option-cases,
}
use tp_distribuidos_moneylau.Prelude.Text.{Text}
use tp_distribuidos_moneylau.Worker.Hooks.{main, side, channel_eq}
use tp_distribuidos_moneylau.Worker.Memory.{remember, restore_seen, seen_clients}
use tp_distribuidos_moneylau.Worker.SideInput.{is_ready, track_batch, set_expected, restore}
use tp_distribuidos_moneylau.Worker.SideWorker.{
  SideHooks, SideRecord, side_logged, side_eof_logged, cleanup_logged, main_logged, snapshot_logged,
  SideWorker, started, forget_flow, compact, emit_all, on_side_input_ready,
}
use tp_distribuidos_moneylau.Worker.SideWorker.Takes.{emit_all-Takes}

never : {A : Type 0} (b : Bool) (xs : List A) → (if b && false then [] else xs) ≡ xs
never true xs = refl
never false xs = refl

either_way : {A : Type 0} (b : Bool) → ◌≡◌ {A = List A} (if b then [] else []) []
either_way true = refl
either_way false = refl

module _ (h : SideHooks) where
  open h use {Batch, Payload}

  -- `_replay_record`, `_restore_snapshot` included
  unfoldable pub replay_record : SideRecord h → SideWorker h → SideWorker h
  unfolding forget_flow
  replay_record (main_logged mid c) w = record w { seen = remember main c mid w.seen }
  replay_record (side_logged mid c delta) w = record w {
    seen = remember side c mid w.seen;
    tables = insert c (h.apply_side_delta delta (get_or c h.no_table w.tables)) w.tables;
    tracker = (track_batch c w.tracker).1;
  }
  replay_record (side_eof_logged mid c message_count) w = record w {
    seen = remember side c mid w.seen;
    tracker = (set_expected c message_count w.tracker).1;
  }
  replay_record (cleanup_logged c) w = forget_flow h c w
  replay_record (snapshot_logged c seen received expected side_state) w = record w {
    seen = restore_seen c seen w.seen;
    tables = insert c (h.apply_side_delta side_state (get_or c h.no_table w.tables)) w.tables;
    tracker = restore c received expected w.tracker;
  }

  -- the loop of `_recover`
  unfoldable pub replay : List (SideRecord h) → SideWorker h → SideWorker h
  unfolding replay_record
  replay [] w = w
  replay (rec ∷ records) w = replay records (replay_record rec w)

  unfoldable pub recover_from : List (SideRecord h) → SideWorker h → SideWorker h
  unfolding replay
  recover_from [] w = w
  recover_from (rec ∷ records) w = compact h (replay (rec ∷ records) w)

  -- `_recover`
  unfoldable pub recover : SideWorker h → SideWorker h
  unfolding recover_from
  recover w = elim w.store [ none ↦ w | some records ↦ recover_from records w ]

  -- `_drain_ready_flows`
  unfoldable pub drain_ready_flows : List Text → SideWorker h → Option (SideWorker h)
  unfolding on_side_input_ready
  drain_ready_flows [] w = some w
  drain_ready_flows (c ∷ cs) w =
      let drained = (do w' ← on_side_input_ready h c w; drain_ready_flows cs w') in
      let waiting = drain_ready_flows cs w in if is_ready c w.tracker then drained else waiting

  -- `start`, up to the two consumers
  unfoldable pub start : SideWorker h → Option (SideWorker h)
  unfolding recover drain_ready_flows
  start w = let recovered = recover w in drain_ready_flows (seen_clients recovered.seen) recovered

  -- what a drain leaves alone
  on_side_input_ready_keeps :
      (k c : Text) (w : SideWorker h) {w' : SideWorker h}
      → on_side_input_ready h k w ≡ some w'
      → (w'.tracker ≡ w.tracker)
        × (w'.seen ≡ w.seen)
        × (get_or c [] w'.spill ≡ (if k == c then [] else get_or c [] w.spill))
  unfolding on_side_input_ready
  on_side_input_ready_keeps k c w {w'} e =
      elim (Option-cases (emit_all h k (get_or k [] w.spill) w)) [
        | inl failed ↦ let e' = rw failed at e in cc
        | inr (next, done) ↦
            let e' = rw done at e in
            let (takes, spill, due, tracker) =
              emit_all-Takes h (λ m. true) k k (get_or k [] w.spill) w {w' = next} done in
            let same : record next { spill = erase k next.spill } ≡ w' = ground arith in
            rw (← same) (
              tracker,
              takes.seen,
              get_or-erase c k [] next.spill ∙ ap (λ s. if k == c then [] else get_or c [] s) spill,
            )
      ]

  drain_ready_flows_drained :
      (cs : List Text) (c : Text) (w : SideWorker h) {w' : SideWorker h}
      → drain_ready_flows cs w ≡ some w'
      → (w'.tracker ≡ w.tracker)
        × (w'.seen ≡ w.seen)
        × (get_or c [] w'.spill
            ≡ (if contains c cs && is_ready c w.tracker then [] else get_or c [] w.spill))
  unfolding drain_ready_flows contains
  drain_ready_flows_drained [] c w {w'} e =
      let same : w ≡ w' = ground arith in rw (← same) (refl, refl, refl)
  drain_ready_flows_drained (k ∷ cs) c w {w'} e = elim (Bool-cases (is_ready k w.tracker)) [
    | inr waiting ↦
        let e' = rw waiting at e in
        let (tracker, seen, spill) = drain_ready_flows_drained cs c w {w' = w'} e' in
        (
          tracker,
          seen,
          spill ∙ elim (Bool-cases (k == c)) [
            | inl here ↦
                let not_ready : is_ready c w.tracker ≡ false =
                  rw (← (list_beq_iff k c).0 here) waiting in
                rw (here, not_ready) (never (contains c cs) _)
            | inr other ↦ rw other refl
          ],
        )
    | inl ready ↦ elim (Option-cases (on_side_input_ready h k w)) [
      | inl failed ↦ let e' = rw (ready, failed) at e in cc
      | inr (next, done) ↦
          let e' = rw (ready, done) at e in
          let (tracker, seen, spill) = on_side_input_ready_keeps k c w {w' = next} done in
          let (tracker', seen', spill') = drain_ready_flows_drained cs c next {w' = w'} e' in
          (
            tracker' ∙ tracker,
            seen' ∙ seen,
            spill'
                ∙ rw (tracker, spill)
                    (elim (Bool-cases (k == c)) [
                      | inl here ↦
                          let is : is_ready c w.tracker ≡ true =
                            rw (← (list_beq_iff k c).0 here) ready in
                          rw (here, is) (either_way (contains c cs && true))
                      | inr other ↦ rw other refl
                    ]),
          )
    ]
  ]

  -- A worker that starts over any log and any spill files, as long as no batch fails, has an
  -- empty spill for every client that it knows from the log and whose side input is there.
  pub start_drained :
      (records : List (SideRecord h)) (spill : Dict Text (List (Text × Batch))) (c : Text)
      {w : SideWorker h}
      → start (started h (some records) spill) ≡ some w
      → is_ready c w.tracker ≡ true
      → contains c (seen_clients w.seen) ≡ true
      → get_or c [] w.spill ≡ []
  unfolding start
  start_drained records spill c {w} e ready known =
      let recovered = recover (started h (some records) spill) in
      let (tracker, seen, spill') =
        drain_ready_flows_drained (seen_clients recovered.seen) c recovered {w' = w} e in
      let ready' : is_ready c recovered.tracker ≡ true = sym (ap (is_ready c) tracker) ∙ ready in
      let known' : contains c (seen_clients recovered.seen) ≡ true =
        sym (ap (λ s. contains c (seen_clients s)) seen) ∙ known in
      spill' ∙ rw (known', ready') refl
