-- ===== src/Worker/SideWorker/MainSteps.antt =====
-- Laws about the batches that a worker has taken under a message of the main queue.
use tp_distribuidos_moneylau.Prelude.{
  on_some, ℕ, ◌+◌, ◌==◌, nat_eq, list_eq, pair_eq, list_beq_iff, leb, Bool, true, false, not, ◌&&◌,
  some, List, [], ◌∷◌, ◌++◌, ◌>>=◌, if◌then◌else◌, contains, add, get_or-erase, count,
  sum_map-append, ◌≡◌, refl, sym, ap, ◌∙◌, arith, inl, inr, Bool-cases, Option-cases,
}
use tp_distribuidos_moneylau.Prelude.Text.{Text}
use tp_distribuidos_moneylau.Models.{Eof, is_cleanup_eof}
use tp_distribuidos_moneylau.Worker.Hooks.{main, channel_eq}
use tp_distribuidos_moneylau.Worker.Memory.{Seen, is_seen, open_seen, add_to_open}
use tp_distribuidos_moneylau.Worker.Laws.Seen.{lookup-open_seen}
use tp_distribuidos_moneylau.Worker.Node.{compact_threshold}
use tp_distribuidos_moneylau.Worker.SideInput.{is_ready}
use tp_distribuidos_moneylau.Worker.SideWorker.{
  SideHooks, SideRecord, cleanup_logged, main_logged, query_end, SideWorker, SideIncoming,
  data_message, eof_message, spill_batch, handle_data_message, forget_flow, append, cleanup_flow,
  handle_eof_message, dispatch, compact, note_append, log_main, handle_message,
}
use tp_distribuidos_moneylau.Worker.SideWorker.Takes.{
  ids_of, ids_of-open_seen, ids_of-add_to_open_other, ids_of-add_to_open, ids_of-forget_seen,
  emitted_test, taken, emit-Takes, spill_batch-Takes,
}

add_old : (mid : Text) (ids : List Text) → contains mid ids ≡ true → add mid ids ≡ ids
unfolding add
add_old mid ids old = rw old refl

ids_of-opened :
    (k c mid : Text) (seen : Seen)
    → (k == c) ≡ true
    → ids_of c (add_to_open main k mid (open_seen main k seen)) ≡ add mid (ids_of c seen)
ids_of-opened k c mid seen same = rw ((list_beq_iff k c).0 same) (
    ids_of-add_to_open c mid (open_seen main c seen) (lookup-open_seen main c seen)
    ∙ ap (add mid) (ids_of-open_seen main c c seen))

module _ (h : SideHooks) where
  open h use {Batch, Payload}

  abbrev pub IsStored : SideWorker h → Type 0
  IsStored w = (records : List (SideRecord h)) × (w.store ≡ some records)

  append_takes :
      (p : Text → Bool) (c : Text) (rec : SideRecord h) (w : SideWorker h)
      → IsStored w
      → (taken h p c (append h rec w) ≡ taken h p c w)
        × ((append h rec w).seen ≡ w.seen)
        × IsStored (append h rec w)
  unfolding append
  append_takes p c rec w (records, stored) = rw stored (refl, refl, (records ++ rec ∷ [], refl))

  note_append_takes :
      (p : Text → Bool) (c : Text) (w : SideWorker h)
      → IsStored w
      → (taken h p c (note_append h w) ≡ taken h p c w)
        × ((note_append h w).seen ≡ w.seen)
        × IsStored (note_append h w)
  unfolding note_append compact
  note_append_takes p c w (records, stored) =
      elim (Bool-cases (leb compact_threshold (w.appends + 1))) [
        | inl full ↦ rw (full, stored) (refl, refl, (_, refl))
        | inr room ↦ rw room (refl, refl, (records, stored))
      ]

  pub cleanup_flow_takes :
      (p : Text → Bool) (c k : Text) (w : SideWorker h)
      → (k == c) ≡ false
      → IsStored w
      → (taken h p c (cleanup_flow h k w) ≡ taken h p c w)
        × (ids_of c (cleanup_flow h k w).seen ≡ ids_of c w.seen)
        × IsStored (cleanup_flow h k w)
  unfolding cleanup_flow forget_flow
  cleanup_flow_takes p c k w other (records, stored) =
      let (kept, seen, there) =
        append_takes p c (cleanup_logged k) (forget_flow h k w) (records, stored) in
      (
        kept ∙ rw (get_or-erase c k [] w.spill, other) refl,
        ap (ids_of c) seen ∙ ids_of-forget_seen k c w.seen other,
        there,
      )

  handle_eof_message_takes :
      (p : Text → Bool) (c k : Text) (eof : Eof) (w : SideWorker h)
      → (k == c && is_cleanup_eof eof) ≡ false
      → IsStored w
      → (taken h p c (handle_eof_message h k eof w) ≡ taken h p c w)
        × (ids_of c (handle_eof_message h k eof w).seen ≡ ids_of c w.seen)
        × (k == c ≡ true → (handle_eof_message h k eof w).seen ≡ w.seen)
        × IsStored (handle_eof_message h k eof w)
  unfolding handle_eof_message
  handle_eof_message_takes p c k eof w keeps stored = elim (Bool-cases (is_cleanup_eof eof)) [
    | inl cleaning ↦
        let other : (k == c) ≡ false = ground arith in
        let (kept, ids, there) = cleanup_flow_takes p c k w other stored in
        rw cleaning (
          omega (
            arith,
            kept,
            sum_map-append (emitted_test h p c) (cleanup_flow h k w).sent
                (query_end k eof.message_count _ ∷ []),
          ),
          ids,
          (λ same. ground arith),
          there,
        )
    | inr ending ↦ rw ending (
      omega (
        arith,
        sum_map-append (emitted_test h p c) w.sent (query_end k eof.message_count _ ∷ []),
      ),
      refl,
      (λ same. refl),
      stored,
    )
  ]

  -- the id of a data message counts if it is the client's and new
  abbrev pub new_id : Text → List Text → Text → Text → SideIncoming h → List Text
  new_id c ids mid k (data_message payload) =
      if k == c && not (contains mid ids) then mid ∷ [] else []
  new_id c ids mid k (eof_message eof) = []

  abbrev pub cleans : Text → Text → SideIncoming h → Bool
  cleans c k (data_message payload) = false
  cleans c k (eof_message eof) = k == c && is_cleanup_eof eof

  dispatch_takes :
      (p : Text → Bool) (c mid k : Text) (msg : SideIncoming h) (w : SideWorker h)
      {w' : SideWorker h}
      → cleans c k msg ≡ false
      → contains mid (ids_of k w.seen) ≡ false
      → IsStored w
      → dispatch h mid k msg w ≡ some w'
      → (taken h p c w' ≡ taken h p c w + count p (new_id c (ids_of c w.seen) mid k msg))
        × (ids_of c w'.seen ≡ ids_of c w.seen)
        × (k == c ≡ true → w'.seen ≡ w.seen)
        × IsStored w'
  unfolding dispatch handle_data_message
  dispatch_takes p c mid k (eof_message eof) w {w'} keeps new stored e =
      let (kept, ids, seen, there) = handle_eof_message_takes p c k eof w keeps stored in
      let same : handle_eof_message h k eof w ≡ w' = ground arith in
      rw (← same) (omega (arith, kept), ids, seen, there)
  dispatch_takes p c mid k (data_message payload) w {w'} keeps new (records, stored) e =
      let counts : (if k == c && p mid then 1 else 0)
          ≡ count p (new_id c (ids_of c w.seen) mid k (data_message payload)) =
        elim (Bool-cases (k == c)) [
          | inl same ↦
              let new' : contains mid (ids_of c w.seen) ≡ false =
                rw (← (list_beq_iff k c).0 same) new in
              rw (same, new') (ground arith)
          | inr other ↦ rw other refl
        ] in
      elim (Bool-cases (is_ready k w.tracker)) [
        | inl ready ↦
            let e' = rw ready at e in
            let (takes, spill, due, tracker) =
              emit-Takes h p c k mid (h.select payload) w {w' = w'} e' in
            (
              takes.counted ∙ ap (λ n. taken h p c w + n) counts,
              ap (ids_of c) takes.seen,
              (λ same. takes.seen),
              (records, takes.stored ∙ stored),
            )
        | inr early ↦
            let e' = rw early at e in
            let takes = spill_batch-Takes h p c k mid (h.select payload) w in
            let same : spill_batch h k mid (h.select payload) w ≡ w' = ground arith in
            rw (← same) (
              takes.counted ∙ ap (λ n. taken h p c w + n) counts,
              ap (ids_of c) takes.seen,
              (λ here. takes.seen),
              (records, takes.stored ∙ stored),
            )
      ]

  nothing_new :
      (p : Text → Bool) (c mid k : Text) (msg : SideIncoming h) (ids : List Text) (n : ℕ)
      → contains mid ids ≡ true
      → n ≡ n + count p (new_id c ids mid k msg)
  nothing_new p c mid k (data_message payload) ids n old = rw old (ground arith)
  nothing_new p c mid k (eof_message eof) ids n old = omega arith

  nothing_other :
      (p : Text → Bool) (c mid k : Text) (msg : SideIncoming h) (ids : List Text) (n : ℕ)
      → (k == c) ≡ false
      → n ≡ n + count p (new_id c ids mid k msg)
  nothing_other p c mid k (data_message payload) ids n other = rw other (omega arith)
  nothing_other p c mid k (eof_message eof) ids n other = omega arith

  log_main_takes :
      (p : Text → Bool) (c mid k : Text) (w : SideWorker h)
      → IsStored w
      → (taken h p c (log_main h mid k w) ≡ taken h p c w)
        × ((log_main h mid k w).seen ≡ add_to_open main k mid w.seen)
        × IsStored (log_main h mid k w)
  unfolding log_main
  log_main_takes p c mid k w stored =
      let marked = record w { seen = add_to_open main k mid w.seen } in
      let (kept, seen, there) = append_takes p c (main_logged mid k) marked stored in
      let (kept', seen', there') =
        note_append_takes p c (append h (main_logged mid k) marked) there in
      (kept' ∙ kept, seen' ∙ seen, there')

  pub handle_message_takes :
      (p : Text → Bool) (c mid k : Text) (msg : SideIncoming h) (w : SideWorker h)
      {w' : SideWorker h}
      → cleans c k msg ≡ false
      → IsStored w
      → handle_message h mid k msg w ≡ some w'
      → (taken h p c w' ≡ taken h p c w + count p (new_id c (ids_of c w.seen) mid k msg))
        × (ids_of c w'.seen ≡ (if k == c then add mid (ids_of c w.seen) else ids_of c w.seen))
        × IsStored w'
  unfolding handle_message is_seen
  handle_message_takes p c mid k msg w {w'} keeps (records, stored) e =
      let opened = record w { seen = open_seen main k w.seen } in
      let same_ids : ids_of c opened.seen ≡ ids_of c w.seen = ids_of-open_seen main k c w.seen in
      let e1 : (if contains mid (ids_of k opened.seen)
            then some opened
            else (dispatch h mid k msg opened >>= (λ handled. some (log_main h mid k handled))))
          ≡ some w' =
        sym (on_some w.store (dispatch h mid k msg w) _ stored) ∙ e in
      elim (Bool-cases (contains mid (ids_of k opened.seen))) [
        | inl old ↦
            let e2 = rw old at e1 in
            let same : opened ≡ w' = ground arith in
            rw (← same) (elim (Bool-cases (k == c)) [
              | inl here ↦
                  let old' : contains mid (ids_of c w.seen) ≡ true =
                    sym (ap (contains mid) same_ids) ∙ rw (← (list_beq_iff k c).0 here) old in
                  (
                    nothing_new p c mid k msg (ids_of c w.seen) (taken h p c w) old',
                    rw here (same_ids ∙ sym (add_old mid (ids_of c w.seen) old')),
                    (records, stored),
                  )
              | inr other ↦ (
                nothing_other p c mid k msg (ids_of c w.seen) (taken h p c w) other,
                rw other same_ids,
                (records, stored),
              )
            ])
        | inr new ↦ elim (Option-cases (dispatch h mid k msg opened)) [
          | inl failed ↦ let e2 = rw (new, failed) at e1 in cc
          | inr (handled, done) ↦
              let e2 = rw (new, done) at e1 in
              let same : log_main h mid k handled ≡ w' = ground arith in
              let (kept, ids, seen, there) =
                dispatch_takes p c mid k msg opened {w' = handled} keeps new (records, stored)
                  done in
              let (kept', seen', there') = log_main_takes p c mid k handled there in
              rw (← same) (
                kept' ∙ kept ∙ ap (λ l. taken h p c w + count p (new_id c l mid k msg)) same_ids,
                ap (ids_of c) seen' ∙ elim (Bool-cases (k == c)) [
                  | inl here ↦ rw here (
                      ap (λ s. ids_of c (add_to_open main k mid s)) (seen here)
                      ∙ ids_of-opened k c mid w.seen here)
                  | inr other ↦
                      rw other
                        (ids_of-add_to_open_other main k c mid handled.seen other ∙ ids ∙ same_ids)
                ],
                there',
              )
        ]
      ]
