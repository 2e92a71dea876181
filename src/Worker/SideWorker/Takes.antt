-- ===== src/Worker/SideWorker/Takes.antt =====
-- Laws about the batches that a worker has taken (those it has sent the results of and those in its
-- spill file) under the parts of a step.
use tp_distribuidos_moneylau.Prelude.{
  ℕ, ◌+◌, ◌==◌, nat_eq, list_eq, pair_eq, list_beq_iff, Bool, false, ◌&&◌, some, List, [], ◌∷◌,
  ◌++◌, if◌then◌else◌, lookup, insert, erase, get_or, or_else, add, get_or-insert, get_or-erase,
  lookup-insert, get_or-setdefault, sum_map, sum_map-append, ◌≡◌, refl, ap, ◌∙◌, arith, inl, inr,
  Bool-cases, Option-cases,
}
use tp_distribuidos_moneylau.Prelude.Text.{Text}
use tp_distribuidos_moneylau.Worker.Hooks.{Channel, main, channel_eq, channel_beq_iff}
use tp_distribuidos_moneylau.Worker.Memory.{Seen, open_seen, add_to_open, forget_seen}
use tp_distribuidos_moneylau.Worker.Laws.Seen.{lookup-forget_seen}
use tp_distribuidos_moneylau.Worker.SideWorker.{
  SideHooks, Output, results, query_end, SideWorker, emit, spill_batch, emit_all,
  on_side_input_ready,
}

-- the ids of the main channel that a client's entry holds
abbrev pub ids_of : Text → Seen → List Text
ids_of c seen = get_or (main, c) [] seen

pub ids_of-open_seen :
    (ch : Channel) (k c : Text) (seen : Seen) → ids_of c (open_seen ch k seen) ≡ ids_of c seen
unfolding open_seen get_or
ids_of-open_seen ch k c seen =
    ap (λ o. or_else o []) (get_or-setdefault (main, c) (ch, k) [] [] seen)
    ∙ ground (arith, channel_beq_iff ch main, list_beq_iff k c)

pub ids_of-add_to_open_other :
    (ch : Channel) (k c mid : Text) (seen : Seen)
    → (◌==◌ {Key = Channel × Text} (ch, k) (main, c)) ≡ false
    → ids_of c (add_to_open ch k mid seen) ≡ ids_of c seen
unfolding add_to_open
ids_of-add_to_open_other ch k c mid seen other = elim (Option-cases (lookup (ch, k) seen)) [
  | inl absent ↦ rw (absent, add_to_open) refl
  | inr (s, present) ↦
      rw (present, add_to_open)
        (get_or-insert (main, c) (ch, k) (add mid s) [] seen ∙ rw other refl)
]

pub ids_of-add_to_open :
    (c mid : Text) (seen : Seen) {s : List Text}
    → lookup (main, c) seen ≡ some s
    → ids_of c (add_to_open main c mid seen) ≡ add mid (ids_of c seen)
unfolding get_or add_to_open insert
ids_of-add_to_open c mid seen {s} present =
    rw (present, add_to_open)
      (ap (λ o. or_else o []) (lookup-insert (main, c) (main, c) (add mid s) seen)
        ∙ ground (arith, channel_beq_iff main main, list_beq_iff c c))

pub ids_of-forget_seen :
    (k c : Text) (seen : Seen) → (k == c) ≡ false → ids_of c (forget_seen k seen) ≡ ids_of c seen
unfolding get_or
ids_of-forget_seen k c seen other = rw (lookup-forget_seen main c k seen, other) refl

module _ (h : SideHooks) where
  open h use {Batch, Payload}

  abbrev pub emitted_test : (Text → Bool) → Text → Output h → ℕ
  emitted_test p c (results k out mid) = if k == c && p mid then 1 else 0
  emitted_test p c (query_end k message_count mid) = 0

  abbrev pub spilled : (Text → Bool) → List (Text × Batch) → ℕ
  spilled p = sum_map (λ entry. if p entry.0 then 1 else 0)

  -- the batches of a client, by their message id: those whose results were sent and those in its spill file
  abbrev pub taken : (Text → Bool) → Text → SideWorker h → ℕ
  taken p c w = sum_map (emitted_test p c) w.sent + spilled p (get_or c [] w.spill)

  -- what a step does to a client: it takes n batches more, and the rest stays
  pub record Takes (p : Text → Bool) (c : Text) (n : ℕ) (w w' : SideWorker h) : Type 0 where
    pub counted : taken p c w' ≡ taken p c w + n
    pub seen : w'.seen ≡ w.seen
    pub stored : w'.store ≡ w.store

  pub emit-Takes :
      (p : Text → Bool) (c k mid : Text) (batch : Batch) (w : SideWorker h) {w' : SideWorker h}
      → emit h k mid batch w ≡ some w'
      → Takes p c (if k == c && p mid then 1 else 0) w w'
        × (w'.spill ≡ w.spill)
        × (w'.due ≡ w.due)
        × (w'.tracker ≡ w.tracker)
  unfolding emit
  emit-Takes p c k mid batch w {w'} e =
      elim (Option-cases (h.results_of (get_or k h.no_table w.tables) batch)) [
        | inl failed ↦ let e' = rw failed at e in cc
        | inr (out, made) ↦
            let e' = rw made at e in
            let same : record w { sent = w.sent ++ results k out mid ∷ [] } ≡ w' = ground arith in
            rw (← same) (
              record {
                counted =
                    omega
                      (arith, sum_map-append (emitted_test p c) w.sent (results k out mid ∷ []));
                seen = refl;
                stored = refl;
              },
              refl,
              refl,
              refl,
            )
      ]

  pub emit_all-Takes :
      (p : Text → Bool) (c k : Text) (entries : List (Text × Batch)) (w : SideWorker h)
      {w' : SideWorker h}
      → emit_all h k entries w ≡ some w'
      → Takes p c (if k == c then spilled p entries else 0) w w'
        × (w'.spill ≡ w.spill)
        × (w'.due ≡ w.due)
        × (w'.tracker ≡ w.tracker)
  unfolding emit_all
  emit_all-Takes p c k [] w {w'} e =
      let same : w ≡ w' = ground arith in
      rw (← same) (record { counted = ground arith; seen = refl; stored = refl }, refl, refl, refl)
  emit_all-Takes p c k ((mid, batch) ∷ entries) w {w'} e =
      elim (Option-cases (emit h k mid batch w)) [
        | inl failed ↦ let e' = rw failed at e in cc
        | inr (next, done) ↦
            let e' = rw done at e in
            let (one, spill, due, tracker) = emit-Takes p c k mid batch w {w' = next} done in
            let (rest, spill', due', tracker') = emit_all-Takes p c k entries next {w' = w'} e' in
            (
              record {
                counted = rest.counted ∙ rw (one.counted) (ground arith);
                seen = rest.seen ∙ one.seen;
                stored = rest.stored ∙ one.stored;
              },
              spill' ∙ spill,
              due' ∙ due,
              tracker' ∙ tracker,
            )
      ]

  pub spill_batch-Takes :
      (p : Text → Bool) (c k mid : Text) (batch : Batch) (w : SideWorker h)
      → Takes p c (if k == c && p mid then 1 else 0) w (spill_batch h k mid batch w)
  unfolding spill_batch
  spill_batch-Takes p c k mid batch w = record {
    counted =
        rw (get_or-insert c k (get_or k [] w.spill ++ (mid, batch) ∷ []) [] w.spill)
          (elim (Bool-cases (k == c)) [
            | inl same ↦
                let key = (list_beq_iff k c).0 same in
                rw (same, key)
                  (omega (
                    arith,
                    sum_map-append (λ entry. if p entry.0 then 1 else 0) (get_or c [] w.spill)
                        ((mid, batch) ∷ []),
                  ))
            | inr other ↦ rw other (omega arith)
          ]);
    seen = refl;
    stored = refl;
  }

  pub on_side_input_ready-Takes :
      (p : Text → Bool) (c k : Text) (w : SideWorker h) {w' : SideWorker h}
      → on_side_input_ready h k w ≡ some w'
      → Takes p c 0 w w'
  unfolding on_side_input_ready
  on_side_input_ready-Takes p c k w {w'} e =
      elim (Option-cases (emit_all h k (get_or k [] w.spill) w)) [
        | inl failed ↦ let e' = rw failed at e in cc
        | inr (next, done) ↦
            let e' = rw done at e in
            let same : record next { spill = erase k next.spill } ≡ w' = ground arith in
            let (all, spill, due, tracker) =
              emit_all-Takes p c k (get_or k [] w.spill) w {w' = next} done in
            rw (← same) (record {
              counted = rw (get_or-erase c k [] next.spill) (elim (Bool-cases (k == c)) [
                | inl here ↦
                    let key = (list_beq_iff k c).0 here in
                    let counted : taken p c next ≡ taken p c w + spilled p (get_or c [] w.spill) =
                      all.counted ∙ rw (here, key) refl in
                    rw here (omega (arith, counted, ap (λ s. spilled p (get_or c [] s)) spill))
                | inr other ↦ rw other (all.counted ∙ rw other refl)
              ]);
              seen = all.seen;
              stored = all.stored;
            })
      ]
