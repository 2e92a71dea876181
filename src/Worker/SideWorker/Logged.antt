-- ===== src/Worker/SideWorker/Logged.antt =====
-- Laws about the records of side input in the log.
use tp_distribuidos_moneylau.Prelude.{
  ℕ, ◌+◌, ◌<◌, ◌≤◌, nat_eq, list_eq, pair_eq, leb, false, none, some, List, [], ◌∷◌, ◌++◌, Dict,
  insert, erase, get_or, ◌≡◌, refl, sym, ap, ◌∙◌, arith, inl, inr, Option-cases,
}
use tp_distribuidos_moneylau.Prelude.Text.{Text}
use tp_distribuidos_moneylau.Worker.Hooks.{channel_eq}
use tp_distribuidos_moneylau.Worker.Node.{compact_threshold}
use tp_distribuidos_moneylau.Worker.SideInput.{
  SideInputTracker, track_batch, set_expected, drop, restore,
}
use tp_distribuidos_moneylau.Worker.SideWorker.{
  SideHooks, SideRecord, side_logged, side_eof_logged, cleanup_logged, main_logged, snapshot_logged,
  results, SideWorker, started, emit, forget_flow, append, note_append, emit_all,
  on_side_input_ready, drain_from,
}
use tp_distribuidos_moneylau.Worker.SideWorker.Recovery.{replay_record, replay}

module _ (h : SideHooks) where
  open h use {Batch, Payload, Table}

  -- the side input of a worker
  abbrev SideState : Type 0
  SideState = SideInputTracker × Dict Text Table

  abbrev pub state_of : SideWorker h → SideState
  state_of w = (w.tracker, w.tables)

  -- what a record does to it
  abbrev pub after : SideRecord h → SideState → SideState
  after (main_logged mid c) s = s
  after (side_logged mid c delta) s =
      ((track_batch c s.0).1, insert c (h.apply_side_delta delta (get_or c h.no_table s.1)) s.1)
  after (side_eof_logged mid c message_count) s = ((set_expected c message_count s.0).1, s.1)
  after (cleanup_logged c) s = (drop c s.0, erase c s.1)
  after (snapshot_logged c seen received expected side_state) s = (
    restore c received expected s.0,
    insert c (h.apply_side_delta side_state (get_or c h.no_table s.1)) s.1,
  )

  state_of-replay_record :
      (rec : SideRecord h) (w : SideWorker h)
      → state_of (replay_record h rec w) ≡ after rec (state_of w)
  unfolding replay_record forget_flow
  state_of-replay_record (main_logged mid c) w = refl
  state_of-replay_record (side_logged mid c delta) w = refl
  state_of-replay_record (side_eof_logged mid c message_count) w = refl
  state_of-replay_record (cleanup_logged c) w = refl
  state_of-replay_record (snapshot_logged c seen received expected side_state) w = refl

  pub state_of-replay :
      (records : List (SideRecord h)) (rec : SideRecord h) (w : SideWorker h)
      → state_of (replay h (records ++ rec ∷ []) w) ≡ after rec (state_of (replay h records w))
  unfolding replay
  state_of-replay [] rec w = state_of-replay_record rec w
  state_of-replay (r ∷ records) rec w = state_of-replay records rec (replay_record h r w)

  -- the log replays to the side input, and at most n appends were counted
  abbrev pub Logged : ℕ → SideWorker h → Type 0
  Logged n w =
      (records : List (SideRecord h)) × (w.store ≡ some records)
      × (state_of (replay h records (started h none [])) ≡ state_of w)
      × (w.appends ≤ n)

  pub Logged-append :
      (n : ℕ) (rec : SideRecord h) (v w : SideWorker h)
      → Logged n v
      → v.store ≡ w.store
      → state_of w ≡ after rec (state_of v)
      → w.appends ≤ n
      → Logged n (append h rec w)
  unfolding append
  Logged-append n rec v w (records, stored, replayed, few) same state few' =
      rw (sym same ∙ stored) (
        records ++ rec ∷ [],
        refl,
        state_of-replay records rec (started h none []) ∙ ap (after rec) replayed ∙ sym state,
        few',
      )

  pub Logged-note_append :
      (n : ℕ) (w : SideWorker h)
      → n + 1 < compact_threshold
      → Logged n w
      → Logged (n + 1) (note_append h w)
  unfolding note_append
  Logged-note_append n w lt (records, stored, replayed, few) =
      let room : leb compact_threshold (w.appends + 1) ≡ false = ground arith in
      rw room (records, stored, replayed, omega arith)

  -- a result or a spilled batch is not read by the side input
  pub emit-kept :
      (k mid : Text) (batch : Batch) (w : SideWorker h) {w' : SideWorker h}
      → emit h k mid batch w ≡ some w'
      → (state_of w' ≡ state_of w) × (w'.store ≡ w.store) × (w'.appends ≡ w.appends)
  unfolding emit
  emit-kept k mid batch w {w'} e =
      elim (Option-cases (h.results_of (get_or k h.no_table w.tables) batch)) [
        | inl failed ↦ let e' = rw failed at e in cc
        | inr (out, made) ↦
            let e' = rw made at e in
            let same : record w { sent = w.sent ++ results k out mid ∷ [] } ≡ w' = ground arith in
            rw (← same) (refl, refl, refl)
      ]

  emit_all-kept :
      (k : Text) (entries : List (Text × Batch)) (w : SideWorker h) {w' : SideWorker h}
      → emit_all h k entries w ≡ some w'
      → (state_of w' ≡ state_of w) × (w'.store ≡ w.store) × (w'.appends ≡ w.appends)
  unfolding emit_all
  emit_all-kept k [] w {w'} e = let same : w ≡ w' = ground arith in rw (← same) (refl, refl, refl)
  emit_all-kept k ((mid, batch) ∷ entries) w {w'} e = elim (Option-cases (emit h k mid batch w)) [
    | inl failed ↦ let e' = rw failed at e in cc
    | inr (next, done) ↦
        let e' = rw done at e in
        let (state, store, appends) = emit-kept k mid batch w {w' = next} done in
        let (state', store', appends') = emit_all-kept k entries next {w' = w'} e' in
        (state' ∙ state, store' ∙ store, appends' ∙ appends)
  ]

  pub drain_from-kept :
      (due : List Text) (w : SideWorker h) {w' : SideWorker h}
      → drain_from h due w ≡ some w'
      → (state_of w' ≡ state_of w) × (w'.store ≡ w.store) × (w'.appends ≡ w.appends)
  unfolding drain_from on_side_input_ready
  drain_from-kept [] w {w'} e = let same : w ≡ w' = ground arith in rw (← same) (refl, refl, refl)
  drain_from-kept (k ∷ due) w {w'} e =
      let taken = record w { due = due } in
      elim (Option-cases (emit_all h k (get_or k [] w.spill) taken)) [
        | inl failed ↦ let e' = rw failed at e in cc
        | inr (next, done) ↦
            let e' = rw done at e in
            let same : record next { spill = erase k next.spill } ≡ w' = ground arith in
            rw (← same) (emit_all-kept k (get_or k [] w.spill) taken {w' = next} done)
      ]

  pub Logged-same :
      (n : ℕ) (w w' : SideWorker h)
      → (state_of w' ≡ state_of w) × (w'.store ≡ w.store) × (w'.appends ≡ w.appends)
      → Logged n w
      → Logged n w'
  Logged-same n w w' (state, store, appends) (records, stored, replayed, few) =
      (records, store ∙ stored, replayed ∙ sym state, omega (arith, appends))
