-- ===== src/Client/Session/Laws.antt =====
-- Laws about the messages that the client sends, and those that are acknowledged, over its sessions.
use mathlib.Core.List.{append_assoc}
use tp_distribuidos_moneylau.Prelude.{
  ℕ, Bool, some, List, [], ◌∷◌, ◌++◌, ◌≡◌, refl, ◌∙◌, arith, inl, inr, Bool-cases, Option-cases,
}
use tp_distribuidos_moneylau.Client.Results.{Received, wait_ack, consume_remaining}
use tp_distribuidos_moneylau.Client.Batches.{Message}
use tp_distribuidos_moneylau.Client.Session.Sent.{InOrder, run-InOrder}
use tp_distribuidos_moneylau.Client.Session.{Client, produce_and_wait_acks, orchestrate, run}

module _ {Row : Type 0} where
  produce_and_wait_acks-keeps :
      (msgs : List Message) (items : List (Received Row)) (c : Client Row)
      {r : Client Row × List (Received Row) × Bool}
      → produce_and_wait_acks msgs items c ≡ some r
      → r.0.acknowledged ++ r.0.unsent ≡ c.acknowledged ++ msgs
  unfolding produce_and_wait_acks
  produce_and_wait_acks-keeps [] items c {r} e =
      let same : record c { unsent = [] } ≡ r.0 = ground arith in rw (← same) refl
  produce_and_wait_acks-keeps (msg ∷ msgs) items c {r} e =
      elim (Option-cases (wait_ack items c.results)) [
        | inl failed ↦ let e' = rw failed at e in cc
        | inr ((found, rest, results, acks), waited) ↦
            let e1 = rw waited at e in
            elim (Bool-cases found) [
              | inl acked ↦
                  let e2 = rw acked at e1 in
                  produce_and_wait_acks-keeps msgs rest _ {r = r} e2
                  ∙ append_assoc c.acknowledged (msg ∷ []) msgs
              | inr ended ↦
                  let e2 = rw ended at e1 in
                  let unsent : r.0.unsent ≡ msg ∷ msgs = ground arith in
                  let acknowledged : r.0.acknowledged ≡ c.acknowledged = ground arith in
                  rw (unsent, acknowledged) refl
            ]
      ]

  orchestrate-keeps :
      (ids : List ℕ) (items : List (Received Row)) (c : Client Row) {r : Client Row × Bool}
      → orchestrate ids items c ≡ some r
      → r.0.acknowledged ++ r.0.unsent ≡ c.acknowledged ++ c.unsent
  unfolding orchestrate
  orchestrate-keeps ids items c {r} e =
      elim (Option-cases (produce_and_wait_acks c.unsent items c)) [
        | inl failed ↦ let e' = rw failed at e in cc
        | inr ((c', rest, open_still), produced) ↦
            let e1 = rw produced at e in
            let kept = produce_and_wait_acks-keeps c.unsent items c produced in
            elim (Bool-cases open_still) [
              | inl going_on ↦
                  let e2 = rw going_on at e1 in
                  elim (Option-cases (consume_remaining ids rest c'.results)) [
                    | inl failed ↦ let e3 = rw failed at e2 in cc
                    | inr ((results, acks), consumed) ↦
                        let e3 = rw consumed at e2 in
                        let unsent : r.0.unsent ≡ c'.unsent = ground arith in
                        let acknowledged : r.0.acknowledged ≡ c'.acknowledged = ground arith in
                        rw (unsent, acknowledged) kept
                  ]
              | inr ended ↦
                  let e2 = rw ended at e1 in let same : c' ≡ r.0 = ground arith in rw (← same) kept
            ]
      ]

  run-keeps :
      (ids : List ℕ) (sessions : List (List (Received Row))) (c : Client Row)
      {r : Client Row × Bool}
      → run ids sessions c ≡ some r
      → r.0.acknowledged ++ r.0.unsent ≡ c.acknowledged ++ c.unsent
  unfolding run
  run-keeps ids [] c {r} e = let same : c ≡ r.0 = ground arith in rw (← same) refl
  run-keeps ids (items ∷ sessions) c {r} e = elim (Option-cases (orchestrate ids items c)) [
    | inl failed ↦ let e' = rw failed at e in cc
    | inr ((c', finished), done) ↦
        let e1 = rw done at e in
        let kept = orchestrate-keeps ids items c done in
        elim (Bool-cases finished) [
          | inl over ↦
              let e2 = rw over at e1 in let same : c' ≡ r.0 = ground arith in rw (← same) kept
          | inr again ↦ let e2 = rw again at e1 in run-keeps ids sessions c' {r = r} e2 ∙ kept
        ]
  ]

  -- For a client whose sends are in order, as those of one that has sent nothing are, however
  -- many sessions it takes and wherever they break: the messages that were acknowledged, followed
  -- by those that the client will send from its pending one on, are the ones it had to send; and
  -- its sends are in order in the end: on the wire is every acknowledged message once or more,
  -- all its sends before those of the next one, and after them only the sends of the pending
  -- message.
  pub run-acknowledged :
      (ids : List ℕ) (sessions : List (List (Received Row))) (c : Client Row)
      {r : Client Row × Bool}
      → InOrder c
      → run ids sessions c ≡ some r
      → (r.0.acknowledged ++ r.0.unsent ≡ c.acknowledged ++ c.unsent) × InOrder r.0
  run-acknowledged ids sessions c order e =
      (run-keeps ids sessions c e, run-InOrder ids sessions c order e)
