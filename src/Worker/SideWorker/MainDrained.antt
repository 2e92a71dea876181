-- ===== src/Worker/SideWorker/MainDrained.antt =====
-- Laws about the spill files under a message of the main queue.
use tp_distribuidos_moneylau.Prelude.{
  on_some, on_none, on_some, ◌+◌, ◌==◌, nat_eq, list_eq, pair_eq, list_beq_iff, leb, Bool, true,
  false, none, some, List, [], ◌∷◌, ◌++◌, ◌>>=◌, if◌then◌else◌, get_or, contains, contains-append,
  get_or-erase, get_or-insert, ◌≡◌, ◌≢◌, ◌⊎◌, refl, sym, ap, ◌∙◌, arith, inl, inr, Bool-cases,
  Option-cases,
}
use tp_distribuidos_moneylau.Prelude.Text.{Text}
use tp_distribuidos_moneylau.Models.{is_cleanup_eof}
use tp_distribuidos_moneylau.Worker.Hooks.{main, channel_eq}
use tp_distribuidos_moneylau.Worker.Memory.{is_seen, open_seen, add_to_open}
use tp_distribuidos_moneylau.Worker.Node.{compact_threshold}
use tp_distribuidos_moneylau.Worker.SideInput.{SideInputTracker, is_ready, drop}
use tp_distribuidos_moneylau.Worker.SideWorker.{
  SideHooks, SideRecord, cleanup_logged, main_logged, SideWorker, SideIncoming, data_message,
  eof_message, spill_batch, handle_data_message, forget_flow, append, cleanup_flow,
  handle_eof_message, dispatch, compact, note_append, log_main, handle_message,
}
use tp_distribuidos_moneylau.Worker.SideWorker.Takes.{emit-Takes}

no_store : {A : Type 0} {a : A} → none ≢ some a
no_store e = cc

pub not_due :
    (c k : Text) (due : List Text)
    → contains c (due ++ k ∷ []) ≡ false
    → (contains c due ≡ false) × ((k == c) ≡ false)
unfolding contains
not_due c k due h = ground (arith, contains-append c due (k ∷ []))

pub ready_before :
    (same was news : Bool)
    → (same ≡ false) ⊎ (news ≡ false)
    → (if same then (if was then true else news) else was) ≡ was
ready_before same was news h = ground arith

module _ (h : SideHooks) where
  open h use {Batch, Payload}

  abbrev pub Drained : SideWorker h → Type 0
  Drained w =
      (c : Text) → is_ready c w.tracker ≡ true → contains c w.due ≡ false → get_or c [] w.spill ≡ []

  -- what the log and the outputs change is not read by the drain
  abbrev Untouched : SideWorker h → SideWorker h → Type 0
  Untouched w w' = (w'.tracker ≡ w.tracker) × (w'.due ≡ w.due) × (w'.spill ≡ w.spill)

  Untouched-Drained : (w w' : SideWorker h) → Untouched w w' → Drained w → Drained w'
  Untouched-Drained w w' (tracker, due, spill) d c ready idle =
      ap (get_or c []) spill
      ∙ d c (sym (ap (is_ready c) tracker) ∙ ready) (sym (ap (contains c) due) ∙ idle)

  append-Untouched : (rec : SideRecord h) (w : SideWorker h) → Untouched w (append h rec w)
  unfolding append
  append-Untouched rec w = elim (Option-cases w.store) [
    | inl e ↦ rw e (refl, refl, refl)
    | inr (records, e) ↦ rw e (refl, refl, refl)
  ]

  note_append-Untouched : (w : SideWorker h) → Untouched w (note_append h w)
  unfolding note_append compact
  note_append-Untouched w = elim (Bool-cases (leb compact_threshold (w.appends + 1))) [
    | inl full ↦ rw full (elim (Option-cases w.store) [
      | inl e ↦ rw e (refl, refl, refl)
      | inr (records, e) ↦ rw e (refl, refl, refl)
    ])
    | inr room ↦ rw room (refl, refl, refl)
  ]

  is_ready-drop :
      (k c : Text) (t : SideInputTracker)
      → is_ready c (drop k t) ≡ (if k == c then false else is_ready c t)
  unfolding is_ready drop
  is_ready-drop k c t = get_or-erase c k false t.ready

  pub cleanup_flow-Drained :
      (k : Text) (w : SideWorker h) → Drained w → Drained (cleanup_flow h k w)
  unfolding cleanup_flow forget_flow
  cleanup_flow-Drained k w d =
      Untouched-Drained (forget_flow h k w) (cleanup_flow h k w)
        (append-Untouched (cleanup_logged k) (forget_flow h k w))
        (λ c ready idle. get_or-erase c k [] w.spill ∙ elim (Bool-cases (k == c)) [
          | inl same ↦ rw same refl
          | inr other ↦
              rw other (d c (sym (is_ready-drop k c w.tracker ∙ rw other refl) ∙ ready) idle)
        ])

  dispatch-Drained :
      (mid k : Text) (msg : SideIncoming h) (w : SideWorker h) {w' : SideWorker h}
      → Drained w
      → dispatch h mid k msg w ≡ some w'
      → Drained w'
  unfolding dispatch handle_data_message handle_eof_message spill_batch
  dispatch-Drained mid k (eof_message eof) w {w'} d e =
      let same : handle_eof_message h k eof w ≡ w' = ground arith in
      rw (← same) (elim (Bool-cases (is_cleanup_eof eof)) [
        | inl cleaning ↦ rw cleaning (cleanup_flow-Drained k w d)
        | inr ending ↦ rw ending d
      ])
  dispatch-Drained mid k (data_message payload) w {w'} d e =
      elim (Bool-cases (is_ready k w.tracker)) [
        | inl ready ↦
            let e' = rw ready at e in
            let (takes, spill, due, tracker) =
              emit-Takes h (λ m. true) k k mid (h.select payload) w {w' = w'} e' in
            Untouched-Drained w w' (tracker, due, spill) d
        | inr early ↦
            let e' = rw early at e in
            let same : spill_batch h k mid (h.select payload) w ≡ w' = ground arith in
            rw (← same) (λ c ready idle.
              get_or-insert c k (get_or k [] w.spill ++ (mid, h.select payload) ∷ []) [] w.spill
              ∙ elim (Bool-cases (k == c)) [
                | inl here ↦
                    let no : is_ready c w.tracker ≡ false =
                      rw (← (list_beq_iff k c).0 here) early in
                    absurd (ground arith)
                | inr other ↦ rw other (d c ready idle)
              ])
      ]

  pub handle_message-Drained :
      (mid k : Text) (msg : SideIncoming h) (w : SideWorker h) {w' : SideWorker h}
      → Drained w
      → handle_message h mid k msg w ≡ some w'
      → Drained w'
  unfolding handle_message log_main
  handle_message-Drained mid k msg w {w'} d e = elim (Option-cases w.store) [
    | inl missing ↦
        dispatch-Drained mid k msg w {w' = w'} d
          (sym (on_none w.store (dispatch h mid k msg w) _ missing) ∙ e)
    | inr (records, stored) ↦
        let opened = record w { seen = open_seen main k w.seen } in
        let e1 : (if is_seen main k mid opened.seen
              then some opened
              else (dispatch h mid k msg opened >>= (λ handled. some (log_main h mid k handled))))
            ≡ some w' =
          sym (on_some w.store (dispatch h mid k msg w) _ stored) ∙ e in
        elim (Bool-cases (is_seen main k mid opened.seen)) [
          | inl old ↦
              let e2 = rw old at e1 in let same : opened ≡ w' = ground arith in rw (← same) d
          | inr new ↦ elim (Option-cases (dispatch h mid k msg opened)) [
            | inl failed ↦ let e2 = rw (new, failed) at e1 in cc
            | inr (handled, done) ↦
                let e2 = rw (new, done) at e1 in
                let same : log_main h mid k handled ≡ w' = ground arith in
                let marked = record handled { seen = add_to_open main k mid handled.seen } in
                let logged = append h (main_logged mid k) marked in
                let d1 = dispatch-Drained mid k msg opened {w' = handled} d done in
                let d2 =
                  Untouched-Drained marked logged (append-Untouched (main_logged mid k) marked)
                    d1 in
                rw (← same) (
                  Untouched-Drained logged (note_append h logged) (note_append-Untouched logged) d2)
          ]
        ]
  ]
