-- ===== src/Worker/Laws/Snapshot.antt =====
-- Laws about the snapshot of one flow.
use tp_distribuidos_moneylau.Prelude.{
  ℕ, Bool, false, ◌==◌, ◌&&◌, ◌||◌, ◌≡◌, refl, ◌∙◌, none, some, List, [], ◌∷◌, Dict, lookup, keys,
  insert, get_or, contains, update, nat_eq, list_eq, pair_eq, list_beq_iff, lookup-insert,
  contains-add, contains-update, arith, Bool-cases, inl, inr, Distinct, Distinct-add,
  Distinct-update, Distinct-insert, lookup_absent,
}
use tp_distribuidos_moneylau.Prelude.Text.{Text}
use tp_distribuidos_moneylau.Worker.Hooks.{Channel, channel_eq, channel_beq_iff, Hooks}
use tp_distribuidos_moneylau.Worker.Memory.{
  Seen, is_seen, snapshot_seen, restore_seen, seen_clients, count_clients, Memory, flow_keys,
}

-- the ids of one channel in a snapshot
abbrev pub items_seen : Channel → Text → Dict Channel (List Text) → Bool
items_seen ch mid items = contains mid (get_or ch [] items)

-- a client that is no key has no ids in the index
pub lookup-seen_clients :
    (ch : Channel) (c : Text) (seen : Seen)
    → contains c (seen_clients seen) ≡ false
    → lookup (ch, c) seen ≡ none
unfolding lookup seen_clients
lookup-seen_clients ch c [] h = refl
lookup-seen_clients ch c (((x, k), mids) ∷ seen) h =
    ground (arith, lookup-seen_clients ch c seen, contains-add k c (seen_clients seen))

pub lookup-count_clients :
    (c : Text) (counts : Dict Text ℕ)
    → contains c (count_clients counts) ≡ false
    → lookup c counts ≡ none
unfolding lookup count_clients
lookup-count_clients c [] h = refl
lookup-count_clients c ((k, n) ∷ counts) h =
    ground (arith, lookup-count_clients c counts, contains-add k c (count_clients counts))

pub lookup-snapshot_seen :
    (ch : Channel) (c : Text) (acc : Dict Channel (List Text)) (seen : Seen)
    → Distinct (keys seen)
    → lookup ch (snapshot_seen c acc seen)
      ≡ (elim (lookup (ch, c) seen) [ none ↦ lookup ch acc | some mids ↦ some mids ])
unfolding lookup snapshot_seen
lookup-snapshot_seen ch c acc [] d = refl
lookup-snapshot_seen ch c acc (((x, k), mids) ∷ seen) d = elim (Bool-cases (k == c)) [
  | inl same ↦
      rw (same, lookup-snapshot_seen ch c (insert x mids acc) seen d.1)
        (ground (
          arith,
          lookup-insert ch x mids acc,
          lookup_absent (x, k) seen d.0,
          channel_beq_iff x ch,
          list_beq_iff k c,
        ))
  | inr other ↦ rw other (lookup-snapshot_seen ch c acc seen d.1 ∙ ground arith)
]

Distinct-snapshot_seen :
    (c : Text) (acc : Dict Channel (List Text)) (seen : Seen)
    → Distinct (keys acc)
    → Distinct (keys (snapshot_seen c acc seen))
unfolding snapshot_seen
Distinct-snapshot_seen c acc [] d = d
Distinct-snapshot_seen c acc (((x, k), mids) ∷ seen) d = elim (Bool-cases (k == c)) [
  | inl same ↦
      rw same (Distinct-snapshot_seen c (insert x mids acc) seen (Distinct-insert x mids acc d))
  | inr other ↦ rw other (Distinct-snapshot_seen c acc seen d)
]

pub is_seen-restore_seen :
    (k : Text) (items : Dict Channel (List Text)) (seen : Seen) (ch : Channel) (c mid : Text)
    → Distinct (keys items)
    → is_seen ch c mid (restore_seen k items seen)
      ≡ ((k == c && items_seen ch mid items) || is_seen ch c mid seen)
unfolding restore_seen is_seen get_or lookup contains
is_seen-restore_seen k [] seen ch c mid d = ground arith
is_seen-restore_seen k ((x, mids) ∷ items) seen ch c mid d =
    let old = get_or (x, k) [] seen in
    rw (is_seen-restore_seen k items (insert (x, k) (update mids old) seen) ch c mid d.1) (
      rw (lookup-insert (ch, c) (x, k) (update mids old) seen) (
        ground (
          arith,
          contains-update mid mids old,
          lookup_absent x items d.0,
          channel_beq_iff x ch,
          list_beq_iff k c,
        )))

-- The ids that a snapshot of a flow gives back to a fresh index are those that it was taken from.
pub is_seen-snapshot :
    (ch : Channel) (c mid : Text) (seen : Seen)
    → Distinct (keys seen)
    → items_seen ch mid (snapshot_seen c [] seen) ≡ is_seen ch c mid seen
unfolding is_seen get_or lookup
is_seen-snapshot ch c mid seen d = ground (arith, lookup-snapshot_seen ch c [] seen d)

pub Distinct-snapshot : (c : Text) (seen : Seen) → Distinct (keys (snapshot_seen c [] seen))
Distinct-snapshot c seen = Distinct-snapshot_seen c [] seen tt

module _ (h : Hooks) where
  -- every client with a count or an id is among the flow keys
  pub contains-flow_keys :
      (c : Text) (m : Memory h)
      → contains c (flow_keys h m) ≡ (
          contains c (count_clients m.partial_sent_count)
          || (contains c (count_clients m.sent_count)
              || (contains c (count_clients m.processed_counts)
                  || (contains c (count_clients m.partial_processed_count)
                      || contains c (seen_clients m.seen)))))
  unfolding flow_keys
  contains-flow_keys c m = simp contains-update

  Distinct-seen_clients : (seen : Seen) → Distinct (seen_clients seen)
  unfolding seen_clients
  Distinct-seen_clients [] = tt
  Distinct-seen_clients ((key, mids) ∷ seen) =
      Distinct-add key.1 (seen_clients seen) (Distinct-seen_clients seen)

  pub Distinct-flow_keys : (m : Memory h) → Distinct (flow_keys h m)
  unfolding flow_keys
  Distinct-flow_keys m = Distinct-update (count_clients m.partial_sent_count) _ (
      Distinct-update (count_clients m.sent_count) _ (
        Distinct-update (count_clients m.processed_counts) _ (
          Distinct-update (count_clients m.partial_processed_count) _
            (Distinct-seen_clients m.seen))))
