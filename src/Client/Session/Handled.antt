-- ===== src/Client/Session/Handled.antt =====
-- Laws about the results over the sessions of the client: which of the messages that the receiver
-- hands over are handled.
use mathlib.Core.List.{append_assoc}
use tp_distribuidos_moneylau.Prelude.{
  ℕ, Bool, some, List, [], ◌∷◌, ◌++◌, ◌≡◌, ap, sym, ◌∙◌, arith, inl, inr, Bool-cases, Option-cases,
}
use tp_distribuidos_moneylau.Client.Results.{
  Results, Received, handle_received, wait_ack, consume_remaining, handle_each,
}
use tp_distribuidos_moneylau.Client.Results.Handled.{
  consume_remaining-handle_each, wait_ack-handle_each,
}
use tp_distribuidos_moneylau.Client.Batches.{Message}
use tp_distribuidos_moneylau.Client.Session.{Client, produce_and_wait_acks, orchestrate, run}

module _ {Row : Type 0} where
  handle_each-append :
      (xs ys : List (Received Row)) (r : Results Row) {r' : Results Row}
      → handle_each xs r ≡ some r'
      → handle_each (xs ++ ys) r ≡ handle_each ys r'
  unfolding handle_each
  handle_each-append [] ys r {r'} e = let same : r ≡ r' = ground arith in ap (handle_each ys) same
  handle_each-append (x ∷ xs) ys r {r'} e = elim (Option-cases (handle_received x r)) [
    | inl failed ↦ let e' = rw failed at e in cc
    | inr ((next, acked), one) ↦
        let e' = rw one at e in rw one (handle_each-append xs ys next {r' = r'} e')
  ]

  produce_and_wait_acks-handle_each :
      (msgs : List Message) (items : List (Received Row)) (c : Client Row)
      {r : Client Row × List (Received Row) × Bool}
      → produce_and_wait_acks msgs items c ≡ some r
      → (taken : List (Received Row)) × (items ≡ taken ++ r.1)
        × (handle_each taken c.results ≡ some r.0.results)
  unfolding produce_and_wait_acks handle_each
  produce_and_wait_acks-handle_each [] items c {r} e =
      let same : c.results ≡ r.0.results = ground arith in
      let left : items ≡ r.1 = ground arith in ([], left, ap some same)
  produce_and_wait_acks-handle_each (msg ∷ msgs) items c {r} e =
      elim (Option-cases (wait_ack items c.results)) [
        | inl failed ↦ let e' = rw failed at e in cc
        | inr ((found, rest, results, acks), waited) ↦
            let e1 = rw waited at e in
            let (taken, split, handled) =
              wait_ack-handle_each items c.results {out = (found, rest, results, acks)} waited in
            elim (Bool-cases found) [
              | inl acked ↦
                  let e2 = rw acked at e1 in
                  let (more, split', later) =
                    produce_and_wait_acks-handle_each msgs rest _ {r = r} e2 in
                  (
                    taken ++ more,
                    split ∙ ap (λ l. taken ++ l) split' ∙ sym (append_assoc taken more r.1),
                    handle_each-append taken more c.results {r' = results} handled ∙ later,
                  )
              | inr ended ↦
                  let e2 = rw ended at e1 in
                  let same : results ≡ r.0.results = ground arith in
                  let left : rest ≡ r.1 = ground arith in
                  (taken, split ∙ ap (λ l. taken ++ l) left, handled ∙ ap some same)
            ]
      ]

  orchestrate-handle_each :
      (ids : List ℕ) (items : List (Received Row)) (c : Client Row) {r : Client Row × Bool}
      → orchestrate ids items c ≡ some r
      → (taken : List (Received Row)) × (left : List (Received Row)) × (items ≡ taken ++ left)
        × (handle_each taken c.results ≡ some r.0.results)
  unfolding orchestrate
  orchestrate-handle_each ids items c {r} e =
      elim (Option-cases (produce_and_wait_acks c.unsent items c)) [
        | inl failed ↦ let e' = rw failed at e in cc
        | inr ((c', rest, open_still), produced) ↦
            let e1 = rw produced at e in
            let (taken, split, handled) =
              produce_and_wait_acks-handle_each c.unsent items c produced in
            elim (Bool-cases open_still) [
              | inl going_on ↦
                  let e2 = rw going_on at e1 in
                  elim (Option-cases (consume_remaining ids rest c'.results)) [
                    | inl failed ↦ let e3 = rw failed at e2 in cc
                    | inr ((results, acks), consumed) ↦
                        let e3 = rw consumed at e2 in
                        let (more, left, split', later) =
                          consume_remaining-handle_each ids rest c'.results {out = (results, acks)}
                            consumed in
                        let same : results ≡ r.0.results = ground arith in
                        (
                          taken ++ more,
                          left,
                          split ∙ ap (λ l. taken ++ l) split' ∙ sym (append_assoc taken more left),
                          handle_each-append taken more c.results {r' = c'.results} handled
                              ∙ later
                              ∙ ap some same,
                        )
                  ]
              | inr ended ↦
                  let e2 = rw ended at e1 in
                  let same : c'.results ≡ r.0.results = ground arith in
                  (taken, rest, split, handled ∙ ap some same)
            ]
      ]

  -- some messages from the front of each of some sessions, one session after the other
  pub data Fronts : List (List (Received Row)) → List (Received Row) → Type 0 where
    no_more : (sessions : List (List (Received Row))) → Fronts sessions []
    front :
        (items taken left : List (Received Row)) (sessions : List (List (Received Row)))
        (later : List (Received Row))
        → items ≡ taken ++ left
        → Fronts sessions later
        → Fronts (items ∷ sessions) (taken ++ later)

  -- The results of a whole run are those of the messages from the front of each session, handled
  -- one after the other.
  pub run-handle_each :
      (ids : List ℕ) (sessions : List (List (Received Row))) (c : Client Row)
      {r : Client Row × Bool}
      → run ids sessions c ≡ some r
      → (taken : List (Received Row)) × Fronts sessions taken
        × (handle_each taken c.results ≡ some r.0.results)
  unfolding run handle_each
  run-handle_each ids [] c {r} e =
      let same : c.results ≡ r.0.results = ground arith in ([], no_more [], ap some same)
  run-handle_each ids (items ∷ sessions) c {r} e = elim (Option-cases (orchestrate ids items c)) [
    | inl failed ↦ let e' = rw failed at e in cc
    | inr ((c', finished), done) ↦
        let e1 = rw done at e in
        let (taken, left, split, handled) = orchestrate-handle_each ids items c done in
        elim (Bool-cases finished) [
          | inl over ↦
              let e2 = rw over at e1 in
              let same : c'.results ≡ r.0.results = ground arith in
              (
                taken ++ [],
                front items taken left sessions [] split (no_more sessions),
                handle_each-append taken [] c.results {r' = c'.results} handled ∙ ap some same,
              )
          | inr again ↦
              let e2 = rw again at e1 in
              let (more, fronts, later) = run-handle_each ids sessions c' {r = r} e2 in
              (
                taken ++ more,
                front items taken left sessions more split fronts,
                handle_each-append taken more c.results {r' = c'.results} handled ∙ later,
              )
        ]
  ]
