-- ===== src/Worker/SideWorker/SideSteps.antt =====
-- Laws about the batches that a worker has taken under a message of the side queue.
use tp_distribuidos_moneylau.Prelude.{
  on_some_at, ◌==◌, nat_eq, list_eq, pair_eq, Bool, false, ◌&&◌, none, some, List, [], ◌∷◌, ◌++◌,
  if◌then◌else◌, insert, get_or, ◌≡◌, refl, sym, ◌∙◌, arith, inl, inr, Bool-cases, Option-cases,
}
use tp_distribuidos_moneylau.Prelude.Text.{Text}
use tp_distribuidos_moneylau.Models.{is_cleanup_eof}
use tp_distribuidos_moneylau.Worker.Hooks.{side, channel_eq}
use tp_distribuidos_moneylau.Worker.Memory.{is_seen, open_seen, add_to_open}
use tp_distribuidos_moneylau.Worker.SideInput.{SideInputTracker, track_batch, set_expected}
use tp_distribuidos_moneylau.Worker.SideWorker.{
  SideHooks, SideRecord, side_logged, side_eof_logged, SideWorker, SideMessage, side_batch,
  side_eof, unexpected, cleanup_flow, log_side, process_side, handle_side_message,
}
use tp_distribuidos_moneylau.Worker.SideWorker.Takes.{
  ids_of, ids_of-open_seen, ids_of-add_to_open_other, taken,
}
use tp_distribuidos_moneylau.Worker.SideWorker.MainSteps.{IsStored, cleanup_flow_takes}

module _ (h : SideHooks) where
  open h use {Batch, Payload}

  abbrev pub cleans_side : Text → Text → SideMessage h → Bool
  cleans_side c k (side_batch payload) = false
  cleans_side c k (side_eof eof) = k == c && is_cleanup_eof eof
  cleans_side c k unexpected = false

  log_side_takes :
      (p : Text → Bool) (c mid k : Text) (rec : SideRecord h) (news : Bool × SideInputTracker)
      (w : SideWorker h) {w' : SideWorker h}
      → log_side h mid k rec news w ≡ some w'
      → (taken h p c w' ≡ taken h p c w) × (ids_of c w'.seen ≡ ids_of c w.seen) × IsStored h w'
  unfolding log_side
  log_side_takes p c mid k rec (became_ready, tracker) w {w'} e = elim (Option-cases w.store) [
    | inl missing ↦ let e' = rw missing at e in cc
    | inr (records, stored) ↦
        let logged = λ (rs : List (SideRecord h)). some (record w {
          tracker = tracker;
          seen = add_to_open side k mid w.seen;
          store = some (rs ++ rec ∷ []);
          due = if became_ready then w.due ++ k ∷ [] else w.due;
        }) in
        let e' = sym (on_some_at w.store none logged stored) ∙ e in
        let same : record w {
          tracker = tracker;
          seen = add_to_open side k mid w.seen;
          store = some (records ++ rec ∷ []);
          due = if became_ready then w.due ++ k ∷ [] else w.due;
        }
            ≡ w' =
          ground arith in
        rw (← same)
          (refl, ids_of-add_to_open_other side k c mid w.seen refl, (records ++ rec ∷ [], refl))
  ]

  process_side_takes :
      (p : Text → Bool) (c mid k : Text) (msg : SideMessage h) (w : SideWorker h)
      {w' : SideWorker h}
      → cleans_side c k msg ≡ false
      → IsStored h w
      → process_side h mid k msg w ≡ some w'
      → (taken h p c w' ≡ taken h p c w) × (ids_of c w'.seen ≡ ids_of c w.seen) × IsStored h w'
  unfolding process_side
  process_side_takes p c mid k unexpected w {w'} keeps stored e =
      let same : w ≡ w' = ground arith in rw (← same) (refl, refl, stored)
  process_side_takes p c mid k (side_batch payload) w {w'} keeps stored e =
      elim (Option-cases (h.side_delta payload)) [
        | inl failed ↦ let e' = rw failed at e in cc
        | inr (delta, read) ↦
            let e' = rw read at e in
            log_side_takes p c mid k (side_logged mid k delta) (track_batch k w.tracker)
              (record w {
                tables =
                    insert k (h.apply_side_delta delta (get_or k h.no_table w.tables)) w.tables;
              })
              {w' = w'} e'
      ]
  process_side_takes p c mid k (side_eof eof) w {w'} keeps stored e =
      elim (Bool-cases (is_cleanup_eof eof)) [
        | inl cleaning ↦
            let other : (k == c) ≡ false = ground arith in
            let e' = rw cleaning at e in
            let same : cleanup_flow h k w ≡ w' = ground arith in
            rw (← same) (cleanup_flow_takes h p c k w other stored)
        | inr expecting ↦
            let e' = rw expecting at e in
            log_side_takes p c mid k (side_eof_logged mid k eof.message_count)
              (set_expected k eof.message_count w.tracker) w {w' = w'} e'
      ]

  pub handle_side_message_takes :
      (p : Text → Bool) (c mid k : Text) (msg : SideMessage h) (w : SideWorker h)
      {w' : SideWorker h}
      → cleans_side c k msg ≡ false
      → IsStored h w
      → handle_side_message h mid k msg w ≡ some w'
      → (taken h p c w' ≡ taken h p c w) × (ids_of c w'.seen ≡ ids_of c w.seen) × IsStored h w'
  unfolding handle_side_message
  handle_side_message_takes p c mid k msg w {w'} keeps stored e =
      let opened = record w { seen = open_seen side k w.seen } in
      let same_ids = ids_of-open_seen side k c w.seen in
      elim (Bool-cases (is_seen side k mid opened.seen)) [
        | inl old ↦
            let e' = rw old at e in
            let same : opened ≡ w' = ground arith in rw (← same) (refl, same_ids, stored)
        | inr new ↦
            let e' = rw new at e in
            let (kept, ids, there) =
              process_side_takes p c mid k msg opened {w' = w'} keeps stored e' in
            (kept, ids ∙ same_ids, there)
      ]
