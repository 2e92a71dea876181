-- ===== src/Worker/Laws/Compaction.antt =====
-- Laws about the snapshots of a compaction, replayed.
use tp_distribuidos_moneylau.Prelude.{
  ℕ, ◌+◌, true, false, ◌==◌, ◌&&◌, ◌||◌, ◌≡◌, refl, sym, ◌∙◌, ap, Option, none, some, List, [], ◌∷◌,
  map, Dict, lookup, keys, insert, get_or, contains, nat_eq, list_eq, pair_eq, list_beq_iff,
  get_or-insert, if◌then◌else◌, arith, Bool-cases, inl, inr, or_else, Distinct,
}
use tp_distribuidos_moneylau.Prelude.Text.{Text}
use tp_distribuidos_moneylau.Worker.Hooks.{Channel, channel_eq, Hooks}
use tp_distribuidos_moneylau.Worker.AppLaws.{AppLaws, restored}
use tp_distribuidos_moneylau.Worker.Memory.{
  is_seen, snapshot_seen, add_sent, Memory, initial, ControlSnapshot, control_state_snapshot,
  restore_snapshot, snapshot_flow, flow_keys, replay_record, replay,
}
use tp_distribuidos_moneylau.Worker.Laws.Snapshot.{
  items_seen, is_seen-restore_seen, is_seen-snapshot, Distinct-snapshot, contains-flow_keys,
  Distinct-flow_keys, lookup-seen_clients, lookup-count_clients,
}

-- the four counts of a flow
abbrev pub counts : (h : Hooks) → Text → Memory h → ℕ × ℕ × ℕ × ℕ
counts h c m = (
  get_or c 0 m.processed_counts,
  get_or c 0 m.partial_processed_count,
  get_or c 0 m.sent_count,
  get_or c 0 m.partial_sent_count,
)

pub get_or-add_sent :
    (c k : Text) (o : Option ℕ) (sent : Dict Text ℕ)
    → get_or c 0 (add_sent k o sent)
      ≡ (if k == c then get_or c 0 sent + or_else o 0 else get_or c 0 sent)
unfolding add_sent
get_or-add_sent c k none sent = ground arith
get_or-add_sent c k (some n) sent =
    rw (get_or-insert c k (get_or k 0 sent + n) 0 sent) (ground (arith, list_beq_iff k c))

counts-inserted :
    (c k : Text) (p pp s ps : ℕ) (a b d e : Dict Text ℕ)
    → ◌≡◌ {A = ℕ × ℕ × ℕ × ℕ}
        (
          get_or c 0 (insert k p a),
          get_or c 0 (insert k pp b),
          get_or c 0 (insert k s d),
          get_or c 0 (insert k ps e),
        )
        (if k == c
          then (p, pp, s, ps)
          else (get_or c 0 a, get_or c 0 b, get_or c 0 d, get_or c 0 e))
counts-inserted c k p pp s ps a b d e =
    rw
      (
        get_or-insert c k p 0 a,
        get_or-insert c k pp 0 b,
        get_or-insert c k s 0 d,
        get_or-insert c k ps 0 e,
      )
      (elim (Bool-cases (k == c)) [ inl same ↦ rw same refl | inr other ↦ rw other refl ])

module _ (h : Hooks) (m : Memory h) where
  abbrev restored_from : List Text → Memory h → Memory h
  restored_from ks r = replay h r (map (snapshot_flow h m) ks)

  counts-restore :
      (c k : Text) (items : Dict Channel (List Text)) (d : Option (h.Delta)) (p : ℕ)
      (s : ControlSnapshot) (r : Memory h)
      → counts h c (restore_snapshot h k items d p s r)
        ≡ (if k == c then (p, s.partial_processed, s.sent_count, s.partial_sent) else counts h c r)
  unfolding restore_snapshot
  counts-restore c k items none p s r =
      counts-inserted c k p s.partial_processed s.sent_count s.partial_sent r.processed_counts
        r.partial_processed_count r.sent_count r.partial_sent_count
  counts-restore c k items (some x) p s r =
      counts-inserted c k p s.partial_processed s.sent_count s.partial_sent r.processed_counts
        r.partial_processed_count (add_sent k (h.sent_delta x) r.sent_count) r.partial_sent_count
      ∙ ground (arith, get_or-add_sent c k (h.sent_delta x) r.sent_count)

  counts-snapshot :
      (c k : Text) (r : Memory h)
      → counts h c (replay_record h r (snapshot_flow h m k))
        ≡ (if k == c then counts h c m else counts h c r)
  unfolding replay_record snapshot_flow
  counts-snapshot c k r =
      counts-restore c k _ (h.state_as_delta k m.app) (get_or k 0 m.processed_counts)
        (control_state_snapshot h k m) r
      ∙ ground (arith, list_beq_iff k c)

  counts-restored :
      (c : Text) (ks : List Text) (r : Memory h)
      → counts h c (restored_from ks r) ≡ (if contains c ks then counts h c m else counts h c r)
  unfolding replay contains
  counts-restored c [] r = refl
  counts-restored c (k ∷ ks) r =
      rw (counts-restored c ks (replay_record h r (snapshot_flow h m k)), counts-snapshot c k r)
        (ground arith)

  seen-restore :
      (ch : Channel) (c mid k : Text) (items : Dict Channel (List Text)) (d : Option (h.Delta))
      (p : ℕ) (s : ControlSnapshot) (r : Memory h)
      → Distinct (keys items)
      → is_seen ch c mid (restore_snapshot h k items d p s r).seen
        ≡ ((k == c && items_seen ch mid items) || is_seen ch c mid r.seen)
  unfolding restore_snapshot
  seen-restore ch c mid k items none p s r d = is_seen-restore_seen k items r.seen ch c mid d
  seen-restore ch c mid k items (some x) p s r d = is_seen-restore_seen k items r.seen ch c mid d

  seen-snapshot :
      (ch : Channel) (c mid k : Text) (r : Memory h)
      → Distinct (keys m.seen)
      → is_seen ch c mid (replay_record h r (snapshot_flow h m k)).seen
        ≡ ((k == c && is_seen ch c mid m.seen) || is_seen ch c mid r.seen)
  unfolding replay_record snapshot_flow
  seen-snapshot ch c mid k r d =
      seen-restore ch c mid k (snapshot_seen k [] m.seen) (h.state_as_delta k m.app)
        (get_or k 0 m.processed_counts) (control_state_snapshot h k m) r
        (Distinct-snapshot k m.seen)
      ∙ ground (arith, is_seen-snapshot ch k mid m.seen d, list_beq_iff k c)

  seen-restored :
      (ch : Channel) (c mid : Text) (ks : List Text) (r : Memory h)
      → Distinct (keys m.seen)
      → is_seen ch c mid (restored_from ks r).seen
        ≡ ((contains c ks && is_seen ch c mid m.seen) || is_seen ch c mid r.seen)
  unfolding replay contains
  seen-restored ch c mid [] r d = ground arith
  seen-restored ch c mid (k ∷ ks) r d =
      rw
        (
          seen-restored ch c mid ks (replay_record h r (snapshot_flow h m k)) d,
          seen-snapshot ch c mid k r d,
        )
        (ground arith)

  module _ (laws : AppLaws h) where
    app-restore :
        (c k : Text) (items : Dict Channel (List Text)) (d : Option (h.Delta)) (p : ℕ)
        (s : ControlSnapshot) (r : Memory h)
        → laws.view c (restore_snapshot h k items d p s r).app
          ≡ (if k == c then restored (laws.view c r.app) laws.step d else laws.view c r.app)
    unfolding restore_snapshot
    app-restore c k items none p s r = ground arith
    app-restore c k items (some d) p s r = laws.view-apply c k d r.app

    app-restored :
        (c : Text) (ks : List Text) (r : Memory h)
        → laws.IsValid m.app
        → Distinct ks
        → (contains c ks ≡ true → laws.view c r.app ≡ laws.start)
        → laws.view c (restored_from ks r).app
          ≡ (if contains c ks then laws.view c m.app else laws.view c r.app)
    unfolding replay contains replay_record snapshot_flow
    app-restored c [] r valid d fresh = refl
    app-restored c (k ∷ ks) r valid d fresh =
        let r' = replay_record h r (snapshot_flow h m k) in
        let one =
          app-restore c k (snapshot_seen k [] m.seen) (h.state_as_delta k m.app)
            (get_or k 0 m.processed_counts) (control_state_snapshot h k m) r in
        elim (Bool-cases (k == c)) [
          | inl same ↦
              let kc = (list_beq_iff k c).0 same in
              let back : laws.view c r'.app ≡ laws.view c m.app =
                one
                ∙ rw same (
                    ap (λ v. restored v laws.step (h.state_as_delta k m.app)) (fresh (rw same refl))
                    ∙ laws.view-snapshot k m.app valid
                    ∙ ap (λ z. laws.view z m.app) kc) in
              app-restored c ks r' valid d.1 (λ x. absurd (ground (arith, list_beq_iff k c)))
              ∙ rw (same, back)
                  (elim (Bool-cases (contains c ks)) [ inl x ↦ rw x refl | inr x ↦ rw x refl ])
          | inr other ↦
              let kept : laws.view c r'.app ≡ laws.view c r.app = one ∙ rw other refl in
              app-restored c ks r' valid d.1 (λ x. kept ∙ fresh (rw (other, x) refl))
              ∙ rw (other, kept) refl
        ]

-- No key twice in the index, a valid state, and no flow with state that is not among the flow keys.
pub record IsTracked {h : Hooks} (laws : AppLaws h) (m : Memory h) : Type 0 where
  pub distinct : Distinct (keys m.seen)
  pub valid : laws.IsValid m.app
  pub tracked : (c : Text) → contains c (flow_keys h m) ≡ false → laws.view c m.app ≡ laws.start

-- One flow of two memories: the counts and the state are the same, and what the second has seen the
-- first has seen too.
pub record SameFlow {h : Hooks} (laws : AppLaws h) (c : Text) (r m : Memory h) : Type 0 where
  pub counts_same : counts h c r ≡ counts h c m
  pub seen_kept :
      (ch : Channel) (mid : Text) → is_seen ch c mid m.seen ≡ true → is_seen ch c mid r.seen ≡ true
  pub app_same : laws.view c r.app ≡ laws.view c m.app

module _ (h : Hooks) (laws : AppLaws h) (m : Memory h) where
  untracked-counts : (c : Text) → contains c (flow_keys h m) ≡ false → counts h c m ≡ (0, 0, 0, 0)
  unfolding get_or
  untracked-counts c out = ground (
    arith,
    contains-flow_keys h c m,
    lookup-count_clients c m.processed_counts,
    lookup-count_clients c m.partial_processed_count,
    lookup-count_clients c m.sent_count,
    lookup-count_clients c m.partial_sent_count,
  )

  untracked-seen :
      (ch : Channel) (c mid : Text)
      → contains c (flow_keys h m) ≡ false
      → is_seen ch c mid m.seen ≡ false
  unfolding get_or is_seen contains
  untracked-seen ch c mid out =
      rw (lookup-seen_clients ch c m.seen (ground (arith, contains-flow_keys h c m))) refl

  -- For a stateful worker whose state meets the laws of AppLaws, as those of the two low-amount
  -- workers do, the log that a compaction writes replays, for every client, to the counts, the
  -- state and at least the seen messages of the memory that was compacted, for every memory whose
  -- state is valid under these laws, in which no seen key occurs twice and all state belongs to a
  -- tracked flow.
  pub compaction_restores :
      IsTracked laws m
      → (c : Text)
      → SameFlow laws c (replay h (initial h) (map (snapshot_flow h m) (flow_keys h m))) m
  unfolding get_or lookup
  compaction_restores t c = elim (Bool-cases (contains c (flow_keys h m))) [
    | inl known ↦ record {
      counts_same = counts-restored h m c (flow_keys h m) (initial h) ∙ rw known refl;
      seen_kept = λ ch mid x.
          rw (seen-restored h m ch c mid (flow_keys h m) (initial h) t.distinct, known, x) refl;
      app_same =
          app-restored h m laws c (flow_keys h m) (initial h) t.valid (Distinct-flow_keys h m)
            (λ _. laws.view-init c)
          ∙ rw known refl;
    }
    | inr out ↦ record {
      counts_same =
          counts-restored h m c (flow_keys h m) (initial h) ∙ rw out (sym (untracked-counts c out));
      seen_kept = λ ch mid x. absurd (let y = untracked-seen ch c mid out in ground arith);
      app_same =
          app-restored h m laws c (flow_keys h m) (initial h) t.valid (Distinct-flow_keys h m)
            (λ _. laws.view-init c)
          ∙ rw out (laws.view-init c ∙ sym (t.tracked c out));
    }
  ]
