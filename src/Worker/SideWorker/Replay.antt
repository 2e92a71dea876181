-- ===== src/Worker/SideWorker/Replay.antt =====
-- Laws about the side input of a worker and its log, replayed.
use tp_distribuidos_moneylau.Prelude.{
  on_some, on_some_at, ℕ, ◌+◌, ◌<◌, nat_eq, list_eq, pair_eq, length, Bool, none, some, List, [],
  ◌∷◌, ◌++◌, ◌>>=◌, if◌then◌else◌, Dict, insert, get_or, ◌≡◌, refl, sym, ap, ◌∙◌, arith, inl, inr,
  Bool-cases, Option-cases,
}
use tp_distribuidos_moneylau.Prelude.Text.{Text}
use tp_distribuidos_moneylau.Models.{is_cleanup_eof}
use tp_distribuidos_moneylau.Worker.Hooks.{main, side, channel_eq}
use tp_distribuidos_moneylau.Worker.Memory.{is_seen, open_seen, add_to_open}
use tp_distribuidos_moneylau.Worker.Node.{compact_threshold}
use tp_distribuidos_moneylau.Worker.SideInput.{
  SideInputTracker, is_ready, track_batch, set_expected,
}
use tp_distribuidos_moneylau.Worker.SideWorker.{
  SideHooks, SideRecord, side_logged, side_eof_logged, cleanup_logged, main_logged, SideWorker,
  started, SideIncoming, data_message, eof_message, SideMessage, side_batch, side_eof, unexpected,
  spill_batch, handle_data_message, forget_flow, append, cleanup_flow, handle_eof_message, dispatch,
  log_main, handle_message, log_side, process_side, handle_side_message, drain,
}
use tp_distribuidos_moneylau.Worker.SideWorker.Events.{
  SideEvent, arrives, side_arrives, draining, handle_event, handle_events,
}
use tp_distribuidos_moneylau.Worker.SideWorker.Recovery.{replay}
use tp_distribuidos_moneylau.Worker.SideWorker.Logged.{
  state_of, after, state_of-replay, Logged, Logged-append, Logged-note_append, emit-kept,
  drain_from-kept, Logged-same,
}

module _ (h : SideHooks) where
  open h use {Batch, Payload, Table}

  Logged-cleanup_flow :
      (n : ℕ) (k : Text) (w : SideWorker h) → Logged h n w → Logged h n (cleanup_flow h k w)
  unfolding cleanup_flow forget_flow
  Logged-cleanup_flow n k w logged =
      Logged-append h n (cleanup_logged k) w (forget_flow h k w) logged refl refl logged.3

  Logged-dispatch :
      (n : ℕ) (mid k : Text) (msg : SideIncoming h) (w : SideWorker h) {w' : SideWorker h}
      → Logged h n w
      → dispatch h mid k msg w ≡ some w'
      → Logged h n w'
  unfolding dispatch handle_data_message handle_eof_message spill_batch
  Logged-dispatch n mid k (eof_message eof) w {w'} logged e =
      let same : handle_eof_message h k eof w ≡ w' = ground arith in
      rw (← same) (elim (Bool-cases (is_cleanup_eof eof)) [
        | inl cleaning ↦ rw cleaning (Logged-cleanup_flow n k w logged)
        | inr ending ↦ rw ending logged
      ])
  Logged-dispatch n mid k (data_message payload) w {w'} logged e =
      elim (Bool-cases (is_ready k w.tracker)) [
        | inl ready ↦
            let e' = rw ready at e in
            Logged-same h n w w' (emit-kept h k mid (h.select payload) w {w' = w'} e') logged
        | inr early ↦
            let e' = rw early at e in
            let same : spill_batch h k mid (h.select payload) w ≡ w' = ground arith in
            rw (← same) logged
      ]

  Logged-handle_message :
      (n : ℕ) (mid k : Text) (msg : SideIncoming h) (w : SideWorker h) {w' : SideWorker h}
      → n + 1 < compact_threshold
      → Logged h n w
      → handle_message h mid k msg w ≡ some w'
      → Logged h (n + 1) w'
  unfolding handle_message log_main
  Logged-handle_message n mid k msg w {w'} lt (records, stored, replayed, few) e =
      let opened = record w { seen = open_seen main k w.seen } in
      let logged : Logged h n opened = (records, stored, replayed, few) in
      let e1 : (if is_seen main k mid opened.seen
            then some opened
            else (dispatch h mid k msg opened >>= (λ handled. some (log_main h mid k handled))))
          ≡ some w' =
        sym (on_some w.store (dispatch h mid k msg w) _ stored) ∙ e in
      elim (Bool-cases (is_seen main k mid opened.seen)) [
        | inl old ↦
            let e2 = rw old at e1 in
            let same : opened ≡ w' = ground arith in
            rw (← same) (records, stored, replayed, omega arith)
        | inr new ↦ elim (Option-cases (dispatch h mid k msg opened)) [
          | inl failed ↦ let e2 = rw (new, failed) at e1 in cc
          | inr (handled, done) ↦
              let e2 = rw (new, done) at e1 in
              let same : log_main h mid k handled ≡ w' = ground arith in
              let marked = record handled { seen = add_to_open main k mid handled.seen } in
              let there = Logged-dispatch n mid k msg opened {w' = handled} logged done in
              rw (← same) (
                Logged-note_append h n (append h (main_logged mid k) marked) lt
                  (Logged-append h n (main_logged mid k) marked marked there refl refl there.3))
        ]
      ]

  Logged-log_side :
      (n : ℕ) (mid k : Text) (rec : SideRecord h) (became_ready : Bool) (tracker : SideInputTracker)
      (tables : Dict Text Table) (w : SideWorker h) {w' : SideWorker h}
      → after h rec (state_of h w) ≡ (tracker, tables)
      → Logged h n w
      → log_side h mid k rec (became_ready, tracker) (record w { tables = tables }) ≡ some w'
      → Logged h n w'
  unfolding log_side
  Logged-log_side n mid k rec became_ready tracker tables w {w'} state
        (records, stored, replayed, few) e =
      let logged = λ (rs : List (SideRecord h)). some (record w {
        tables = tables;
        tracker = tracker;
        seen = add_to_open side k mid w.seen;
        store = some (rs ++ rec ∷ []);
        due = if became_ready then w.due ++ k ∷ [] else w.due;
      }) in
      let e' = sym (on_some_at w.store none logged stored) ∙ e in
      let same : record w {
        tables = tables;
        tracker = tracker;
        seen = add_to_open side k mid w.seen;
        store = some (records ++ rec ∷ []);
        due = if became_ready then w.due ++ k ∷ [] else w.due;
      }
          ≡ w' =
        ground arith in
      rw (← same) (
        records ++ rec ∷ [],
        refl,
        state_of-replay h records rec (started h none []) ∙ ap (after h rec) replayed ∙ state,
        few,
      )

  Logged-process_side :
      (n : ℕ) (mid k : Text) (msg : SideMessage h) (w : SideWorker h) {w' : SideWorker h}
      → Logged h n w
      → process_side h mid k msg w ≡ some w'
      → Logged h n w'
  unfolding process_side
  Logged-process_side n mid k unexpected w {w'} logged e =
      let same : w ≡ w' = ground arith in rw (← same) logged
  Logged-process_side n mid k (side_batch payload) w {w'} logged e =
      elim (Option-cases (h.side_delta payload)) [
        | inl failed ↦ let e' = rw failed at e in cc
        | inr (delta, read) ↦
            let e' = rw read at e in
            Logged-log_side n mid k (side_logged mid k delta) (track_batch k w.tracker).0
              (track_batch k w.tracker).1
              (insert k (h.apply_side_delta delta (get_or k h.no_table w.tables)) w.tables) w
              {w' = w'} refl logged e'
      ]
  Logged-process_side n mid k (side_eof eof) w {w'} logged e =
      elim (Bool-cases (is_cleanup_eof eof)) [
        | inl cleaning ↦
            let e' = rw cleaning at e in
            let same : cleanup_flow h k w ≡ w' = ground arith in
            rw (← same) (Logged-cleanup_flow n k w logged)
        | inr expecting ↦
            let e' = rw expecting at e in
            let news = set_expected k eof.message_count w.tracker in
            Logged-log_side n mid k (side_eof_logged mid k eof.message_count) news.0 news.1 w.tables
              w {w' = w'} refl logged e'
      ]

  Logged-more : (n : ℕ) (w : SideWorker h) → Logged h n w → Logged h (n + 1) w
  Logged-more n w (records, stored, replayed, few) = (records, stored, replayed, omega arith)

  Logged-handle_event :
      (n : ℕ) (event : SideEvent h) (w : SideWorker h) {w' : SideWorker h}
      → n + 1 < compact_threshold
      → Logged h n w
      → handle_event h event w ≡ some w'
      → Logged h (n + 1) w'
  unfolding handle_event drain handle_side_message
  Logged-handle_event n (arrives mid k msg) w {w'} lt logged e =
      Logged-handle_message n mid k msg w {w' = w'} lt logged e
  Logged-handle_event n draining w {w'} lt logged e =
      Logged-more n w' (Logged-same h n w w' (drain_from-kept h w.due w {w' = w'} e) logged)
  Logged-handle_event n (side_arrives mid k msg) w {w'} lt logged e =
      let opened = record w { seen = open_seen side k w.seen } in
      elim (Bool-cases (is_seen side k mid opened.seen)) [
        | inl old ↦
            let e' = rw old at e in
            let same : opened ≡ w' = ground arith in rw (← same) (Logged-more n opened logged)
        | inr new ↦
            let e' = rw new at e in
            Logged-more n w' (Logged-process_side n mid k msg opened {w' = w'} logged e')
      ]

  Logged-handle_events :
      (n : ℕ) (events : List (SideEvent h)) (w : SideWorker h) {w' : SideWorker h}
      → n + length events < compact_threshold
      → Logged h n w
      → handle_events h events w ≡ some w'
      → Logged h (n + length events) w'
  unfolding handle_events
  Logged-handle_events n [] w {w'} lt (records, stored, replayed, few) e =
      let same : w ≡ w' = ground arith in rw (← same) (records, stored, replayed, omega arith)
  Logged-handle_events n (event ∷ events) w {w'} lt logged e =
      elim (Option-cases (handle_event h event w)) [
        | inl failed ↦ let e' = rw failed at e in cc
        | inr (next, done) ↦
            let e' = rw done at e in
            let one = Logged-handle_event n event w {w' = next} (omega arith) logged done in
            let (records, stored, replayed, few) =
              Logged-handle_events (n + 1) events next {w' = w'} (omega arith) one e' in
            (records, stored, replayed, omega arith)
      ]

  -- After fewer events than the log takes before a compaction, cleanups of any clients included
  -- and as long as none fails, the log of a worker that started on an empty one replays to the
  -- same tracker and the same tables of side input.
  pub replay_restores :
      (events : List (SideEvent h)) {w : SideWorker h}
      → length events < compact_threshold
      → handle_events h events (started h (some []) []) ≡ some w
      → (records : List (SideRecord h)) × (w.store ≡ some records)
        × ((replay h records (started h none [])).tracker ≡ w.tracker)
        × ((replay h records (started h none [])).tables ≡ w.tables)
  unfolding replay
  replay_restores events {w} lt e =
      let (records, stored, replayed, few) =
        Logged-handle_events 0 events (started h (some []) []) {w' = w} (omega arith)
          ([], refl, refl, omega arith) e in
      (records, stored, ap (λ s. s.0) replayed, ap (λ s. s.1) replayed)
