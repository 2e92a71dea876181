-- ===== src/Client/Session/Sent.antt =====
-- Laws about the order in which the client puts its messages on the wire over its sessions.
use mathlib.Core.List.{append_assoc, append-nil}
use Prim.Native.Nat.{zero, suc}
use tp_distribuidos_moneylau.Prelude.{
  ℕ, Bool, some, List, [], ◌∷◌, ◌++◌, map, ◌≡◌, refl, sym, ap, ◌∙◌, arith, inl, inr, Bool-cases,
  Option-cases,
}
use tp_distribuidos_moneylau.Client.Results.{Received, wait_ack, consume_remaining}
use tp_distribuidos_moneylau.Client.Batches.{Message}
use tp_distribuidos_moneylau.Client.Session.{Client, produce_and_wait_acks, orchestrate, run}

-- a message, n times
abbrev pub repeat : ℕ → Message → List Message
repeat zero msg = []
repeat (suc n) msg = msg ∷ repeat n msg

-- what is on the wire of messages with how often each was sent again: all the sends of one come
-- before those of the next
abbrev pub sends : List (Message × ℕ) → List Message
sends [] = []
sends ((msg, n) ∷ log) = repeat (suc n) msg ++ sends log

-- the pending message, which has been sent n times
abbrev pub pending_sends : ℕ → List Message → List Message
pending_sends n [] = []
pending_sends n (msg ∷ msgs) = repeat n msg

pending_sends_none : (msgs : List Message) → pending_sends 0 msgs ≡ []
pending_sends_none [] = refl
pending_sends_none (msg ∷ msgs) = refl

repeat-snoc : (n : ℕ) (msg : Message) → repeat n msg ++ msg ∷ [] ≡ repeat (suc n) msg
repeat-snoc zero msg = refl
repeat-snoc (suc n) msg = ap (λ l. msg ∷ l) (repeat-snoc n msg)

sends-snoc :
    (log : List (Message × ℕ)) (msg : Message) (n : ℕ)
    → sends (log ++ (msg, n) ∷ []) ≡ sends log ++ repeat (suc n) msg
sends-snoc [] msg n = append-nil (repeat (suc n) msg)
sends-snoc ((m, k) ∷ log) msg n =
    ap (λ l. repeat (suc k) m ++ l) (sends-snoc log msg n)
    ∙ sym (append_assoc (repeat (suc k) m) (sends log) (repeat (suc n) msg))

map-snoc :
    (log : List (Message × ℕ)) (msg : Message) (n : ℕ)
    → map (λ e. e.0) (log ++ (msg, n) ∷ []) ≡ map (λ e. e.0) log ++ msg ∷ []
map-snoc [] msg n = refl
map-snoc (e ∷ log) msg n = ap (λ l. e.0 ∷ l) (map-snoc log msg n)

-- one more send of the pending message
sent_again :
    (log : List (Message × ℕ)) (n : ℕ) (msg : Message) (msgs : List Message) {sent : List Message}
    → sent ≡ sends log ++ pending_sends n (msg ∷ msgs)
    → sent ++ msg ∷ [] ≡ sends log ++ repeat (suc n) msg
sent_again log n msg msgs e =
    ap (λ l. l ++ msg ∷ []) e
    ∙ append_assoc (sends log) (repeat n msg) (msg ∷ [])
    ∙ ap (λ l. sends log ++ l) (repeat-snoc n msg)

module _ {Row : Type 0} where
  -- The sends of a client: of each acknowledged message at least one, all before those of the next,
  -- and then those of the pending message.
  pub record InOrder (c : Client Row) : Type 0 where
    pub log : List (Message × ℕ)
    pub again : ℕ
    pub acknowledged : map (λ (e : Message × ℕ). e.0) log ≡ c.acknowledged
    pub sent : c.sent ≡ sends log ++ pending_sends again c.unsent

  produce_and_wait_acks-InOrder :
      (msgs : List Message) (items : List (Received Row)) (c : Client Row)
      (log : List (Message × ℕ)) (n : ℕ) {r : Client Row × List (Received Row) × Bool}
      → map (λ (e : Message × ℕ). e.0) log ≡ c.acknowledged
      → c.sent ≡ sends log ++ pending_sends n msgs
      → produce_and_wait_acks msgs items c ≡ some r
      → InOrder r.0
  unfolding produce_and_wait_acks
  produce_and_wait_acks-InOrder [] items c log n {r} acknowledged sent e =
      let same : record c { unsent = [] } ≡ r.0 = ground arith in
      rw (← same) (record { log = log; again = n; acknowledged = acknowledged; sent = sent })
  produce_and_wait_acks-InOrder (msg ∷ msgs) items c log n {r} acknowledged sent e =
      elim (Option-cases (wait_ack items c.results)) [
        | inl failed ↦ let e' = rw failed at e in cc
        | inr ((found, rest, results, acks), waited) ↦
            let e1 = rw waited at e in
            let once_more = sent_again log n msg msgs {sent = c.sent} sent in
            elim (Bool-cases found) [
              | inl acked ↦
                  let e2 = rw acked at e1 in
                  produce_and_wait_acks-InOrder msgs rest _ (log ++ (msg, n) ∷ []) 0 {r = r}
                    (map-snoc log msg n ∙ ap (λ l. l ++ msg ∷ []) acknowledged)
                    (once_more
                      ∙ sym (sends-snoc log msg n)
                      ∙ sym (append-nil _)
                      ∙ ap (λ l. sends (log ++ (msg, n) ∷ []) ++ l) (sym (pending_sends_none msgs)))
                    e2
              | inr ended ↦
                  let e2 = rw ended at e1 in
                  let unsent : r.0.unsent ≡ msg ∷ msgs = ground arith in
                  let kept : r.0.acknowledged ≡ c.acknowledged = ground arith in
                  let sent' : r.0.sent ≡ c.sent ++ msg ∷ [] = ground arith in
                  record {
                    log = log;
                    again = suc n;
                    acknowledged = acknowledged ∙ sym kept;
                    sent = rw (unsent, sent') once_more;
                  }
            ]
      ]

  orchestrate-InOrder :
      (ids : List ℕ) (items : List (Received Row)) (c : Client Row) {r : Client Row × Bool}
      → InOrder c
      → orchestrate ids items c ≡ some r
      → InOrder r.0
  unfolding orchestrate
  orchestrate-InOrder ids items c {r} order e =
      elim (Option-cases (produce_and_wait_acks c.unsent items c)) [
        | inl failed ↦ let e' = rw failed at e in cc
        | inr ((c', rest, open_still), produced) ↦
            let e1 = rw produced at e in
            let kept =
              produce_and_wait_acks-InOrder c.unsent items c order.log order.again
                order.acknowledged order.sent produced in
            elim (Bool-cases open_still) [
              | inl going_on ↦
                  let e2 = rw going_on at e1 in
                  elim (Option-cases (consume_remaining ids rest c'.results)) [
                    | inl failed ↦ let e3 = rw failed at e2 in cc
                    | inr ((results, acks), consumed) ↦
                        let e3 = rw consumed at e2 in
                        let same : record c' {
                          results = results;
                          result_acks = c'.result_acks ++ acks;
                        }
                            ≡ r.0 =
                          ground arith in
                        rw (← same) (record {
                          log = kept.log;
                          again = kept.again;
                          acknowledged = kept.acknowledged;
                          sent = kept.sent;
                        })
                  ]
              | inr ended ↦
                  let e2 = rw ended at e1 in let same : c' ≡ r.0 = ground arith in rw (← same) kept
            ]
      ]

  pub run-InOrder :
      (ids : List ℕ) (sessions : List (List (Received Row))) (c : Client Row)
      {r : Client Row × Bool}
      → InOrder c
      → run ids sessions c ≡ some r
      → InOrder r.0
  unfolding run
  run-InOrder ids [] c {r} order e = let same : c ≡ r.0 = ground arith in rw (← same) order
  run-InOrder ids (items ∷ sessions) c {r} order e = elim (Option-cases (orchestrate ids items c)) [
    | inl failed ↦ let e' = rw failed at e in cc
    | inr ((c', finished), done) ↦
        let e1 = rw done at e in
        let kept = orchestrate-InOrder ids items c order done in
        elim (Bool-cases finished) [
          | inl over ↦
              let e2 = rw over at e1 in let same : c' ≡ r.0 = ground arith in rw (← same) kept
          | inr again ↦ let e2 = rw again at e1 in run-InOrder ids sessions c' {r = r} kept e2
        ]
  ]
