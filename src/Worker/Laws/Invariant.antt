-- ===== src/Worker/Laws/Invariant.antt =====
-- Laws about `IsTracked` under the parts of the handlers.
use tp_distribuidos_moneylau.Prelude.{
  ℕ, ◌+◌, false, ◌==◌, ◌≡◌, refl, ◌∙◌, ap, some, List, [], ◌∷◌, Dict, lookup, keys, insert, get_or,
  setdefault, contains, add, nat_eq, list_eq, pair_eq, list_beq_iff, ◌≢◌, arith, Option-cases, inl,
  inr, Distinct,
}
use tp_distribuidos_moneylau.Prelude.Text.{Text}
use tp_distribuidos_moneylau.Worker.Hooks.{Channel, main, channel_eq, Sent, Hooks}
use tp_distribuidos_moneylau.Worker.AppLaws.{AppLaws}
use tp_distribuidos_moneylau.Worker.Memory.{
  Seen, open_seen, add_to_open, seen_clients, count_clients, increment, count_sends, Memory,
  initial, flow_keys, forget_flow,
}
use tp_distribuidos_moneylau.Worker.Laws.Snapshot.{contains-flow_keys}
use tp_distribuidos_moneylau.Worker.Laws.Compaction.{IsTracked}
use tp_distribuidos_moneylau.Worker.Laws.Replay.{after_data, after_told}
use tp_distribuidos_moneylau.Worker.Laws.Tracking.{
  contains-count_clients-insert, contains-count_clients-erase, contains-seen_clients-insert,
  contains-seen_clients-forget, Distinct-forget, Distinct-open_seen, Distinct-add_to_open,
}

-- a client that is out of the index stays out of it only where no message of its is handled
pub seen_clients-open :
    (c : Text) (ch : Channel) (k : Text) (seen : Seen)
    → contains c (seen_clients (open_seen ch k seen)) ≡ false
    → contains c (seen_clients seen) ≡ false
unfolding open_seen setdefault
seen_clients-open c ch k seen out = elim (Option-cases (lookup (ch, k) seen)) [
  | inl e ↦
      let out' = rw (e, setdefault) at out in
      ground (arith, contains-seen_clients-insert c (ch, k) [] seen)
  | inr (s, e) ↦ let out' = rw (e, setdefault) at out in out'
]

pub seen_clients-add :
    (c : Text) (ch : Channel) (k mid : Text) (seen : Seen)
    → contains c (seen_clients (add_to_open ch k mid seen)) ≡ false
    → contains c (seen_clients seen) ≡ false
unfolding add_to_open
seen_clients-add c ch k mid seen out = elim (Option-cases (lookup (ch, k) seen)) [
  | inl e ↦ let out' = rw (e, add_to_open) at out in out'
  | inr (s, e) ↦
      let out' = rw (e, add_to_open) at out in
      ground (arith, contains-seen_clients-insert c (ch, k) (add mid s) seen)
]

count_clients-sends {ℓ} :
    {A : Type ℓ} (c k : Text) (sends : List A) (sent : Dict Text ℕ)
    → contains c (count_clients (count_sends k sends sent)) ≡ false
    → contains c (count_clients sent) ≡ false
unfolding count_sends increment
count_clients-sends c k [] sent out = out
count_clients-sends c k (x ∷ sends) sent out = ground (
  arith,
  count_clients-sends c k sends (insert k (get_or k 0 sent + 1) sent),
  contains-count_clients-insert c k (get_or k 0 sent + 1) sent,
)

pub ne_of : (k c : Text) → (k == c) ≡ false → k ≢ c
ne_of k c other same = let both = (list_beq_iff k c).1 same in ground arith

module _ (h : Hooks) (laws : AppLaws h) where
  IsTracked-grow :
      (m m' : Memory h)
      → IsTracked laws m
      → Distinct (keys m'.seen)
      → laws.IsValid m'.app
      → ((c : Text)
          → contains c (flow_keys h m') ≡ false
          → (contains c (flow_keys h m) ≡ false) × (laws.view c m'.app ≡ laws.view c m.app))
      → IsTracked laws m'
  IsTracked-grow m m' t d v g = record {
    distinct = d;
    valid = v;
    tracked = λ c out. (g c out).1 ∙ t.tracked c (g c out).0;
  }

  pub IsTracked-initial : IsTracked laws (initial h)
  IsTracked-initial = record {
    distinct = tt;
    valid = laws.IsValid-init;
    tracked = λ c _. laws.view-init c;
  }

  pub IsTracked-open :
      (ch : Channel) (k : Text) (m : Memory h)
      → IsTracked laws m
      → IsTracked laws (record m { seen = open_seen ch k m.seen })
  IsTracked-open ch k m t =
      IsTracked-grow m _ t (Distinct-open_seen ch k m.seen t.distinct) t.valid λ c out. (
        ground (
          arith,
          contains-flow_keys h c m,
          contains-flow_keys h c (record m { seen = open_seen ch k m.seen }),
          seen_clients-open c ch k m.seen,
        ),
        refl,
      )

  pub IsTracked-add :
      (ch : Channel) (k mid : Text) (m : Memory h)
      → IsTracked laws m
      → IsTracked laws (record m { seen = add_to_open ch k mid m.seen })
  IsTracked-add ch k mid m t =
      IsTracked-grow m _ t (Distinct-add_to_open ch k mid m.seen t.distinct) t.valid λ c out. (
        ground (
          arith,
          contains-flow_keys h c m,
          contains-flow_keys h c (record m { seen = add_to_open ch k mid m.seen }),
          seen_clients-add c ch k mid m.seen,
        ),
        refl,
      )

  pub IsTracked-told :
      (c : Text) (k : Text) (m : Memory h)
      → IsTracked laws m
      → IsTracked laws (after_told h laws c k m)
  IsTracked-told z k m t = IsTracked-grow m _ t t.distinct t.valid λ c out. (
    ground (
      arith,
      contains-flow_keys h c m,
      contains-flow_keys h c (after_told h laws z k m),
      contains-count_clients-insert c k (get_or k 0 m.processed_counts) m.partial_processed_count,
      contains-count_clients-insert c k (get_or k 0 m.sent_count) m.partial_sent_count,
    ),
    refl,
  )

  pub IsTracked-data :
      (z mid k : Text) (p : h.Payload) (app : h.App) (d : h.Delta) (sends : List (Sent (h.Body)))
      (m : Memory h)
      → h.handle_data mid k p m.app ≡ some (app, d, sends)
      → IsTracked laws m
      → IsTracked laws (after_data h laws z mid k app sends m)
  unfolding increment
  IsTracked-data z mid k p app d sends m e t =
      let same_app = (laws.handled mid k p m.app app d sends e).0 in
      let opened = open_seen main k m.seen in
      IsTracked-grow m _ t
        (Distinct-add_to_open main k mid opened (Distinct-open_seen main k m.seen t.distinct))
        (rw same_app (laws.IsValid-apply k d m.app t.valid))
        λ c out.
          let grown : (contains c (flow_keys h m) ≡ false) × ((k == c) ≡ false) = ground (
            arith,
            contains-flow_keys h c m,
            contains-flow_keys h c (after_data h laws z mid k app sends m),
            contains-count_clients-insert c k (get_or k 0 m.processed_counts + 1)
                m.processed_counts,
            count_clients-sends c k sends m.sent_count,
            seen_clients-add c main k mid opened,
            seen_clients-open c main k m.seen,
          ) in
          (grown.0, ap (laws.view c) same_app ∙ laws.view-apply c k d m.app ∙ rw grown.1 refl)

  pub IsTracked-cleanup :
      (k : Text) (m : Memory h) → IsTracked laws m → IsTracked laws (forget_flow h k m)
  unfolding forget_flow
  IsTracked-cleanup k m t = record {
    distinct = Distinct-forget k m.seen t.distinct;
    valid = laws.IsValid-cleanup k m.app t.valid;
    tracked = λ c out.
        laws.view-cleanup c k m.app
        ∙ ground (
          arith,
          t.tracked c,
          contains-flow_keys h c m,
          contains-flow_keys h c (forget_flow h k m),
          contains-seen_clients-forget c k m.seen,
          contains-count_clients-erase c k m.processed_counts,
          contains-count_clients-erase c k m.partial_processed_count,
          contains-count_clients-erase c k m.sent_count,
          contains-count_clients-erase c k m.partial_sent_count,
        );
  }

  -- the memory after a flow's data was flushed and the ring was told what was sent
  abbrev pub after_flush : Text → Memory h → Memory h
  after_flush k m =
      let sent = count_sends k (h.flush_data k m.app).1 m.sent_count in
      record m {
        app = (h.flush_data k m.app).0;
        sent_count = sent;
        partial_sent_count = insert k (get_or k 0 sent) m.partial_sent_count;
      }

  pub IsTracked-flush :
      (k : Text) (m : Memory h) → IsTracked laws m → IsTracked laws (after_flush k m)
  IsTracked-flush k m t =
      IsTracked-grow m _ t t.distinct (laws.IsValid-flush k m.app t.valid) λ c out.
        let grown : (contains c (flow_keys h m) ≡ false) × ((k == c) ≡ false) = ground (
          arith,
          contains-flow_keys h c m,
          contains-flow_keys h c (after_flush k m),
          contains-count_clients-insert c k
              (get_or k 0 (count_sends k (h.flush_data k m.app).1 m.sent_count))
              m.partial_sent_count,
          count_clients-sends c k (h.flush_data k m.app).1 m.sent_count,
        ) in
        (grown.0, laws.view-flush c k m.app (ne_of k c grown.1))
