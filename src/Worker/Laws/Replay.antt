-- ===== src/Worker/Laws/Replay.antt =====
-- Laws about single records of the log, replayed, beside the handlers that write them.
use tp_distribuidos_moneylau.Prelude.{
  ℕ, ◌+◌, true, false, ◌==◌, ◌&&◌, ◌||◌, ◌≡◌, sym, ◌∙◌, ap, none, some, List, [], ◌∷◌, Dict, length,
  insert, get_or, nat_eq, list_eq, pair_eq, list_beq_iff, get_or-insert, get_or-erase,
  if◌then◌else◌, arith,
}
use tp_distribuidos_moneylau.Prelude.Text.{Text}
use tp_distribuidos_moneylau.Worker.Hooks.{
  Channel, main, control, channel_beq, channel_eq, Sent, Hooks,
}
use tp_distribuidos_moneylau.Worker.AppLaws.{AppLaws}
use tp_distribuidos_moneylau.Worker.Memory.{
  Seen, main_record, control_record, cleanup_record, is_seen, open_seen, add_to_open, increment,
  count_sends, Memory, control_state_snapshot, forget_flow, replay_record,
}
use tp_distribuidos_moneylau.Worker.Laws.Seen.{
  lookup-open_seen, is_seen-open_seen, add_to_open_opened, is_seen-remember, is_seen-forget_seen,
}
use tp_distribuidos_moneylau.Worker.Laws.Counts.{get_or-increment}
use tp_distribuidos_moneylau.Worker.Laws.Compaction.{counts, get_or-add_sent, SameFlow}

pub get_or-count_sends {ℓ} :
    {A : Type ℓ} (c k : Text) (sends : List A) (sent : Dict Text ℕ)
    → get_or c 0 (count_sends k sends sent)
      ≡ (if k == c then get_or c 0 sent + length sends else get_or c 0 sent)
unfolding count_sends
get_or-count_sends c k [] sent = ground arith
get_or-count_sends c k (x ∷ sends) sent =
    ground (arith, get_or-count_sends c k sends (increment k sent), get_or-increment c k sent)

-- what is seen after a handler that opened the set, ran, and added the message
pub is_seen-handled :
    (ch : Channel) (k mid : Text) (x : Channel) (c m : Text) (seen : _)
    → is_seen x c m (add_to_open ch k mid (open_seen ch k seen))
      ≡ (((channel_beq ch x && k == c) && mid == m) || is_seen x c m seen)
is_seen-handled ch k mid x c m seen =
    rw (add_to_open_opened ch k (open_seen ch k seen) mid (lookup-open_seen ch k seen)) (
      is_seen-remember ch k (open_seen ch k seen) mid x c m
      ∙ ground (arith, is_seen-open_seen ch k seen x c m))

module _ (h : Hooks) (laws : AppLaws h) (c : Text) where
  -- the memory after a data message
  abbrev pub after_data : Text → Text → h.App → List (Sent (h.Body)) → Memory h → Memory h
  after_data mid k app sends m = record {
    seen = add_to_open main k mid (open_seen main k m.seen);
    processed_counts = increment k m.processed_counts;
    partial_processed_count = m.partial_processed_count;
    sent_count = count_sends k sends m.sent_count;
    partial_sent_count = m.partial_sent_count;
    app = app;
  }

  pub SameFlow-data :
      (mid k : Text) (p : h.Payload) (app : h.App) (d : h.Delta) (sends : List (Sent (h.Body)))
      (r m : Memory h)
      → h.handle_data mid k p m.app ≡ some (app, d, sends)
      → SameFlow laws c r m
      → SameFlow laws c
          (replay_record h r (main_record mid k (some d) false))
          (after_data mid k app sends m)
  unfolding replay_record
  SameFlow-data mid k p app d sends r m e s =
      let (same_app, sent) = laws.handled mid k p m.app app d sends e in
      record {
        counts_same = ground (
          arith,
          s.counts_same,
          get_or-increment c k r.processed_counts,
          get_or-increment c k m.processed_counts,
          get_or-count_sends c k sends m.sent_count,
          get_or-add_sent c k (h.sent_delta d) r.sent_count,
        );
        seen_kept = λ ch x old. ground (
          arith,
          is_seen-remember main k r.seen mid ch c x,
          is_seen-handled main k mid ch c x m.seen,
          s.seen_kept ch x,
        );
        app_same =
            laws.view-apply c k d r.app
            ∙ ground (arith, s.app_same)
            ∙ sym (laws.view-apply c k d m.app)
            ∙ ap (laws.view c) (sym same_app);
      }

  -- the memory after a node told the ring its counts
  abbrev pub after_told : Text → Memory h → Memory h
  after_told k m = record m {
    partial_processed_count = insert k (get_or k 0 m.processed_counts) m.partial_processed_count;
    partial_sent_count = insert k (get_or k 0 m.sent_count) m.partial_sent_count;
  }

  -- the ring was started: the record has no message id
  pub SameFlow-start :
      (k : Text) (r m : Memory h)
      → SameFlow laws c r m
      → SameFlow laws c
          (replay_record h r (control_record none k (control_state_snapshot h k (after_told k m))))
          (after_told k m)
  unfolding replay_record control_state_snapshot
  SameFlow-start k r m s = record {
    counts_same = ground (
      arith,
      s.counts_same,
      list_beq_iff k c,
      get_or-insert c k (get_or k 0 m.processed_counts) 0 m.partial_processed_count,
      get_or-insert k k (get_or k 0 m.processed_counts) 0 m.partial_processed_count,
      get_or-insert c k (get_or k 0 m.sent_count) 0 m.partial_sent_count,
      get_or-insert k k (get_or k 0 m.sent_count) 0 m.partial_sent_count,
      list_beq_iff k k,
      get_or-insert c k (get_or k 0 (after_told k m).partial_processed_count) 0
          r.partial_processed_count,
      get_or-insert c k (get_or k 0 m.sent_count) 0 r.sent_count,
      get_or-insert c k (get_or k 0 (after_told k m).partial_sent_count) 0 r.partial_sent_count,
    );
    seen_kept = s.seen_kept;
    app_same = s.app_same;
  }

  -- the end of the stream is remembered
  pub SameFlow-eof :
      (mid k : Text) (r m : Memory h) (seen : Seen)
      → m.seen ≡ open_seen main k seen
      → SameFlow laws c r m
      → SameFlow laws c
          (replay_record h r (main_record mid k none true))
          (record m { seen = add_to_open main k mid m.seen })
  unfolding replay_record
  SameFlow-eof mid k r m seen opened s = record {
    counts_same = s.counts_same;
    seen_kept = λ ch x old. ground (
      arith,
      is_seen-remember main k r.seen mid ch c x,
      is_seen-handled main k mid ch c x seen,
      is_seen-open_seen main k seen ch c x,
      opened,
      s.seen_kept ch x,
    );
    app_same = s.app_same;
  }

  -- a token was handled: the record holds the counts that the ring knows
  pub SameFlow-control :
      (mid k : Text) (r m m' : Memory h)
      → SameFlow laws c r m
      → ((ch : Channel) (x : Text)
          → is_seen ch c x m'.seen ≡ true
          → (((channel_beq control ch && k == c) && mid == x) || is_seen ch c x m.seen) ≡ true)
      → get_or c 0 m'.processed_counts ≡ get_or c 0 m.processed_counts
      → laws.view c m'.app ≡ laws.view c m.app
      → ((k == c) ≡ false → counts h c m' ≡ counts h c m)
      → SameFlow laws c
          (replay_record h r (control_record (some mid) k (control_state_snapshot h k m')))
          m'
  unfolding replay_record control_state_snapshot
  SameFlow-control mid k r m m' s seen processed app others = record {
    counts_same = ground (
      arith,
      s.counts_same,
      others,
      processed,
      list_beq_iff k c,
      get_or-insert c k (get_or k 0 m'.partial_processed_count) 0 r.partial_processed_count,
      get_or-insert c k (get_or k 0 m'.sent_count) 0 r.sent_count,
      get_or-insert c k (get_or k 0 m'.partial_sent_count) 0 r.partial_sent_count,
    );
    seen_kept = λ ch x old.
        ground
          (arith, seen ch x old, is_seen-remember control k r.seen mid ch c x, s.seen_kept ch x);
    app_same = s.app_same ∙ sym app;
  }

  -- a flow was dropped
  pub SameFlow-cleanup :
      (k : Text) (r m : Memory h)
      → SameFlow laws c r m
      → SameFlow laws c (replay_record h r (cleanup_record k)) (forget_flow h k m)
  unfolding replay_record forget_flow
  SameFlow-cleanup k r m s = record {
    counts_same = ground (
      arith,
      s.counts_same,
      get_or-erase c k 0 m.processed_counts,
      get_or-erase c k 0 m.partial_processed_count,
      get_or-erase c k 0 m.sent_count,
      get_or-erase c k 0 m.partial_sent_count,
      get_or-erase c k 0 r.processed_counts,
      get_or-erase c k 0 r.partial_processed_count,
      get_or-erase c k 0 r.sent_count,
      get_or-erase c k 0 r.partial_sent_count,
    );
    seen_kept = λ ch x old. ground (
      arith,
      is_seen-forget_seen ch c x k r.seen,
      is_seen-forget_seen ch c x k m.seen,
      s.seen_kept ch x,
    );
    app_same =
        laws.view-cleanup c k r.app
        ∙ ground (arith, s.app_same)
        ∙ sym (laws.view-cleanup c k m.app);
  }
