-- ===== src/Client/Results/Handled.antt =====
-- Laws about the two loops of src/client/main.py that take the messages of the receiver: they handle
-- what they take up to where they stop as `handle_each` does.
use tp_distribuidos_moneylau.Prelude.{
  ℕ, Bool, true, some, List, [], ◌∷◌, ◌++◌, if◌then◌else◌, ◌≡◌, refl, ap, ◌∙◌, arith, inl, inr,
  Bool-cases, Option-cases,
}
use tp_distribuidos_moneylau.Client.Results.{
  Results, Received, query_result, query_end, ack, closed, handle_received, is_ack, is_closed,
  wait_ack, consume_remaining, all_done, handle_each,
}

module _ {Row : Type 0} where
  handle_each_one :
      (item : Received Row) (items : List (Received Row)) (r : Results Row) {r' r'' : Results Row}
      {acked : List ℕ}
      → handle_received item r ≡ some (r', acked)
      → handle_each items r' ≡ some r''
      → handle_each (item ∷ items) r ≡ some r''
  unfolding handle_each
  handle_each_one item items r one rest = rw one rest

  -- The messages that `_consume_remaining` takes before it stops are handled one after the other.
  pub consume_remaining-handle_each :
      (ids : List ℕ) (items : List (Received Row)) (r : Results Row) {out : Results Row × List ℕ}
      → consume_remaining ids items r ≡ some out
      → (taken : List (Received Row)) × (rest : List (Received Row)) × (items ≡ taken ++ rest)
        × (handle_each taken r ≡ some out.0)
  unfolding consume_remaining handle_each
  consume_remaining-handle_each ids [] r {out} e =
      let same : r ≡ out.0 = ground arith in ([], [], refl, ap some same)
  consume_remaining-handle_each ids (item ∷ items) r {out} e = elim (Bool-cases (all_done ids r)) [
    | inl done ↦
        let e1 = rw done at e in
        let same : r ≡ out.0 = ground arith in ([], item ∷ items, refl, ap some same)
    | inr open_still ↦ elim (Bool-cases (is_closed item)) [
      | inl ended ↦
          let e1 = rw (open_still, ended) at e in
          let same : r ≡ out.0 = ground arith in ([], item ∷ items, refl, ap some same)
      | inr going_on ↦ elim (Option-cases (handle_received item r)) [
        | inl failed ↦ let e1 = rw (open_still, going_on, failed) at e in cc
        | inr ((r', acked), one) ↦
            let e1 = rw (open_still, going_on, one) at e in
            elim (Option-cases (consume_remaining ids items r')) [
              | inl failed ↦ let e2 = rw failed at e1 in cc
              | inr ((r'', more), later) ↦
                  let e2 = rw later at e1 in
                  let (taken, rest, split, handled) =
                    consume_remaining-handle_each ids items r' {out = (r'', more)} later in
                  let same : r'' ≡ out.0 = ground arith in
                  (
                    item ∷ taken,
                    rest,
                    ap (λ l. item ∷ l) split,
                    handle_each_one item taken r one (handled ∙ ap some same),
                  )
            ]
      ]
    ]
  ]

  -- an ACK and the end of a session change no result
  handle_each_last :
      (item : Received Row) (r : Results Row)
      → (if is_closed item then true else is_ack item) ≡ true
      → handle_each (item ∷ []) r ≡ some r
  unfolding handle_each handle_received is_closed is_ack
  handle_each_last (query_result q records mid k) r e = cc
  handle_each_last (query_end q n k) r e = cc
  handle_each_last ack r e = refl
  handle_each_last closed r e = refl

  -- The messages that `_wait_ack` takes, the ACK or the end of the session included, are handled
  -- one after the other, and the rest is left.
  pub wait_ack-handle_each :
      (items : List (Received Row)) (r : Results Row)
      {out : Bool × List (Received Row) × Results Row × List ℕ}
      → wait_ack items r ≡ some out
      → (taken : List (Received Row)) × (items ≡ taken ++ out.1)
        × (handle_each taken r ≡ some out.2)
  unfolding wait_ack handle_each
  wait_ack-handle_each [] r {out} e =
      let left : [] ≡ out.1 = ground arith in
      let same : r ≡ out.2 = ground arith in ([], left, ap some same)
  wait_ack-handle_each (item ∷ items) r {out} e = elim (Bool-cases (is_closed item)) [
    | inl ended ↦
        let e1 = rw ended at e in
        let left : items ≡ out.1 = ground arith in
        let same : r ≡ out.2 = ground arith in
        (item ∷ [], ap (λ l. item ∷ l) left, handle_each_last item r (rw ended refl) ∙ ap some same)
    | inr going_on ↦ elim (Bool-cases (is_ack item)) [
      | inl acked ↦
          let e1 = rw (going_on, acked) at e in
          let left : items ≡ out.1 = ground arith in
          let same : r ≡ out.2 = ground arith in
          (
            item ∷ [],
            ap (λ l. item ∷ l) left,
            handle_each_last item r (rw (going_on, acked) refl) ∙ ap some same,
          )
      | inr result ↦ elim (Option-cases (handle_received item r)) [
        | inl failed ↦ let e1 = rw (going_on, result, failed) at e in cc
        | inr ((r', acks), one) ↦
            let e1 = rw (going_on, result, one) at e in
            elim (Option-cases (wait_ack items r')) [
              | inl failed ↦ let e2 = rw failed at e1 in cc
              | inr ((found, rest, r'', more), later) ↦
                  let e2 = rw later at e1 in
                  let (taken, split, handled) =
                    wait_ack-handle_each items r' {out = (found, rest, r'', more)} later in
                  let left : rest ≡ out.1 = ground arith in
                  let same : r'' ≡ out.2 = ground arith in
                  (
                    item ∷ taken,
                    ap (λ l. item ∷ l) (split ∙ ap (λ l. taken ++ l) left),
                    handle_each_one item taken r one (handled ∙ ap some same),
                  )
            ]
      ]
    ]
  ]
