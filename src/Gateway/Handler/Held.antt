-- ===== src/Gateway/Handler/Held.antt =====
-- Laws about the tags of the deliveries that a handler holds.
use tp_distribuidos_moneylau.Prelude.{
  ℕ, ◌+◌, ◌<◌, ◌==◌, nat_eq, nat_beq_iff, leb, ◌&&◌, Bool, false, some, List, [], ◌∷◌,
  if◌then◌else◌, Dict, lookup, insert, erase, keys, contains, Distinct, Distinct-insert,
  Distinct-erase, contains-keys-erase, contains-keys-insert, count, sum_map, sum_map-append, ◌≡◌,
  ◌⊎◌, refl, ◌∙◌, arith, inl, inr, Bool-cases, Option-cases,
}
use tp_distribuidos_moneylau.Prelude.Text.{Text, int_of}
use tp_distribuidos_moneylau.Gateway.Router.{
  Router, Forward, forward_raw_transactions, forward_raw_accounts, forward_eof_transactions,
  forward_eof_accounts,
}
use tp_distribuidos_moneylau.Gateway.Handler.{
  ClientMessage, transaction_batch, account_batch, eof_transactions, eof_accounts, result_ack,
  unexpected, result, query_end, other, Item, ack_item, result_item, send_result, send_query_end,
  ToClient, ClientHandler, HandlerEvent, received, arrived, sending, handle, handle_all, dispatch,
  on_result, on_result_ack, sender_turn, send_from, send_item, ack_to_rabbit, write_pending,
  forward_and_ack, put,
}

List-cases {ℓ} : {A : Type ℓ} (xs : List A) → (xs ≡ []) ⊎ ((y : A) × (ys : List A) × (xs ≡ y ∷ ys))
List-cases [] = inl refl
List-cases (x ∷ xs) = inr (x, xs, refl)

-- the tags of pending acknowledgements that pass a test
abbrev count_pending : (ℕ → Bool) → Dict ℕ ℕ → ℕ
count_pending p = sum_map (λ entry. if p entry.1 then 1 else 0)

count_pending-insert :
    (p : ℕ → Bool) (k v : ℕ) (d : Dict ℕ ℕ)
    → contains k (keys d) ≡ false
    → count_pending p (insert k v d) ≡ count_pending p d + (if p v then 1 else 0)
unfolding insert contains
count_pending-insert p k v [] new = omega arith
count_pending-insert p k v ((j, w) ∷ d) new = elim (Bool-cases (j == k)) [
  | inl same ↦ absurd (ground arith)
  | inr different ↦ rw different (omega (arith, count_pending-insert p k v d (ground arith)))
]

erase_absent : (k : ℕ) (d : Dict ℕ ℕ) → contains k (keys d) ≡ false → erase k d ≡ d
unfolding erase contains
erase_absent k [] new = refl
erase_absent k ((j, w) ∷ d) new = ground (arith, erase_absent k d)

count_pending-erase :
    (p : ℕ → Bool) (k : ℕ) (d : Dict ℕ ℕ) {v : ℕ}
    → Distinct (keys d)
    → lookup k d ≡ some v
    → count_pending p d ≡ count_pending p (erase k d) + (if p v then 1 else 0)
unfolding erase lookup
count_pending-erase p k [] d h = cc
count_pending-erase p k ((j, w) ∷ m) {v} d h = elim (Bool-cases (j == k)) [
  | inl same ↦
      let key = (nat_beq_iff j k).0 same in
      let gone = erase_absent k m (rw (← key) d.0) in
      let value : w ≡ v = ground arith in rw (same, gone, value) (omega arith)
  | inr different ↦
      let later = count_pending-erase p k m {v = v} d.1 (ground arith) in
      rw different (omega (arith, later))
]

module _ {Records : Type 0} where
  -- the tags that wait in the queue
  abbrev tag_test : (ℕ → Bool) → Item Records → ℕ
  tag_test p ack_item = 0
  tag_test p (result_item msg tag) = if p tag then 1 else 0

  -- the tags that a handler holds: acknowledged, waiting for the client, or in the queue
  abbrev pub held : (ℕ → Bool) → ClientHandler Records → ℕ
  held p h = count p h.acked + count_pending p h.pending_acks + sum_map (tag_test p) h.queue

  -- each pending delivery has an id of its own, and the next one is new
  pub record IsFresh (h : ClientHandler Records) : Type 0 where
    pub distinct : Distinct (keys h.pending_acks)
    pub old : (k : ℕ) → h.next_delivery_id < k → contains k (keys h.pending_acks) ≡ false

  abbrev event_test : (ℕ → Bool) → HandlerEvent Records → ℕ
  event_test p (received msg) = 0
  event_test p (arrived msg tag) = if p tag then 1 else 0
  event_test p sending = 0

  -- the tags that RabbitMQ has delivered
  abbrev pub delivered : (ℕ → Bool) → List (HandlerEvent Records) → ℕ
  delivered p = sum_map (event_test p)

  -- the tags of the parts
  forward_and_on_result_ack-held :
      (p : ℕ → Bool) (f : Forward) (h : ClientHandler Records) {h' : ClientHandler Records}
      → IsFresh h
      → forward_and_ack f h ≡ h'
      → (held p h' ≡ held p h) × IsFresh h'
  unfolding forward_and_ack
  forward_and_on_result_ack-held p f h fresh e = rw (← e) (
    omega (arith, sum_map-append (tag_test p) h.queue (ack_item ∷ [])),
    record { distinct = fresh.distinct; old = fresh.old },
  )

  on_result_ack-held :
      (p : ℕ → Bool) (k : ℕ) (h : ClientHandler Records)
      → IsFresh h
      → (held p (on_result_ack k h) ≡ held p h) × IsFresh (on_result_ack k h)
  unfolding on_result_ack
  on_result_ack-held p k h fresh = elim (Option-cases (lookup k h.pending_acks)) [
    | inl e ↦ rw (e, on_result_ack) (refl, fresh)
    | inr (tag, e) ↦
        rw (e, on_result_ack)
          (
            omega (
              arith,
              sum_map-append (λ t. if p t then 1 else 0) h.acked (tag ∷ []),
              count_pending-erase p k h.pending_acks {v = tag} fresh.distinct e,
            ),
            record {
              distinct = Distinct-erase k h.pending_acks fresh.distinct;
              old = λ j lt.
                  rw (contains-keys-erase j k h.pending_acks, fresh.old j lt) (ground arith);
            },
          )
  ]

  dispatch-held :
      (router : Router) (c : Text) (p : ℕ → Bool) (msg : ClientMessage) (h : ClientHandler Records)
      {h' : ClientHandler Records}
      → IsFresh h
      → dispatch router c msg h ≡ some h'
      → (held p h' ≡ held p h) × IsFresh h'
  unfolding dispatch
  dispatch-held router c p (transaction_batch records mid) h {h'} fresh e =
      forward_and_on_result_ack-held p (forward_raw_transactions router c records mid) h fresh (cc)
  dispatch-held router c p (account_batch records mid) h {h'} fresh e =
      forward_and_on_result_ack-held p (forward_raw_accounts router c records mid) h fresh (cc)
  dispatch-held router c p (eof_transactions mid) h {h'} fresh e =
      elim (Option-cases (int_of mid)) [
        | inl failed ↦ let e' = rw failed at e in cc
        | inr (n, parsed) ↦
            let e' = rw parsed at e in
            forward_and_on_result_ack-held p (forward_eof_transactions router c n) h fresh (cc)
      ]
  dispatch-held router c p (eof_accounts mid) h {h'} fresh e = elim (Option-cases (int_of mid)) [
    | inl failed ↦ let e' = rw failed at e in cc
    | inr (n, parsed) ↦
        let e' = rw parsed at e in
        forward_and_on_result_ack-held p (forward_eof_accounts router c n) h fresh (cc)
  ]
  dispatch-held router c p (result_ack k) h {h'} fresh e =
      let same : on_result_ack k h ≡ h' = cc in rw (← same) (on_result_ack-held p k h fresh)
  dispatch-held router c p unexpected h {h'} fresh e =
      let same : h ≡ h' = cc in rw (← same) (refl, fresh)

  write_pending-held :
      (p : ℕ → Bool) (tag : ℕ) (msg : ℕ → ToClient Records) (h : ClientHandler Records)
      → IsFresh h
      → (held p (write_pending tag msg h) ≡ held p h + (if p tag then 1 else 0))
        × IsFresh (write_pending tag msg h)
  unfolding write_pending
  write_pending-held p tag msg h fresh =
      let k = h.next_delivery_id + 1 in
      let new = fresh.old (h.next_delivery_id + 1) (omega arith) in
      (
        omega (arith, count_pending-insert p (h.next_delivery_id + 1) tag h.pending_acks new),
        record {
          distinct = Distinct-insert (h.next_delivery_id + 1) tag h.pending_acks fresh.distinct;
          old = λ j lt.
              rw
                (
                  contains-keys-insert j (h.next_delivery_id + 1) tag h.pending_acks,
                  fresh.old j (omega arith),
                )
                (ground arith);
        },
      )

  ack_to_rabbit-held :
      (p : ℕ → Bool) (tag : ℕ) (h : ClientHandler Records)
      → held p (ack_to_rabbit tag h) ≡ held p h + (if p tag then 1 else 0)
  unfolding ack_to_rabbit
  ack_to_rabbit-held p tag h =
      omega (arith, sum_map-append (λ t. if p t then 1 else 0) h.acked (tag ∷ []))

  send_item-held :
      (p : ℕ → Bool) (item : Item Records) (h : ClientHandler Records)
      → IsFresh h
      → (held p (send_item item h) ≡ held p h + tag_test p item) × IsFresh (send_item item h)
  unfolding send_item
  send_item-held p ack_item h fresh =
      (omega arith, record { distinct = fresh.distinct; old = fresh.old })
  send_item-held p (result_item (result q payload mid) tag) h fresh =
      elim (Bool-cases (leb 1 q && leb q 5)) [
        | inl query ↦ rw query (write_pending-held p tag (send_result q payload mid) h fresh)
        | inr not_query ↦
            rw not_query
              (ack_to_rabbit-held p tag h, record { distinct = fresh.distinct; old = fresh.old })
      ]
  send_item-held p (result_item (query_end q n) tag) h fresh =
      write_pending-held p tag (send_query_end q n) h fresh
  send_item-held p (result_item other tag) h fresh =
      (ack_to_rabbit-held p tag h, record { distinct = fresh.distinct; old = fresh.old })

  sender_turn-held :
      (p : ℕ → Bool) (h : ClientHandler Records)
      → IsFresh h
      → (held p (sender_turn h) ≡ held p h) × IsFresh (sender_turn h)
  unfolding sender_turn
  sender_turn-held p h fresh = elim (List-cases h.queue) [
    | inl empty ↦
        rw (empty, send_from) (refl, record { distinct = fresh.distinct; old = fresh.old })
    | inr (item, items, e) ↦
        let taken : ClientHandler Records = record h { queue = items } in
        let (same, fresh') =
          send_item-held p item taken (record { distinct = fresh.distinct; old = fresh.old }) in
        rw (e, send_from) (same ∙ omega arith, fresh')
  ]

  handle-held :
      (router : Router) (c : Text) (p : ℕ → Bool) (event : HandlerEvent Records)
      (h : ClientHandler Records) {h' : ClientHandler Records}
      → IsFresh h
      → handle router c event h ≡ some h'
      → (held p h' ≡ held p h + event_test p event) × IsFresh h'
  unfolding handle on_result put
  handle-held router c p (received msg) h {h'} fresh e =
      let (same, fresh') = dispatch-held router c p msg h {h' = h'} fresh e in
      (same ∙ omega arith, fresh')
  handle-held router c p (arrived msg tag) h {h'} fresh e =
      let same : put (result_item msg tag) h ≡ h' = cc in
      rw (← same) (
        omega (arith, sum_map-append (tag_test p) h.queue (result_item msg tag ∷ [])),
        record { distinct = fresh.distinct; old = fresh.old },
      )
  handle-held router c p sending h {h'} fresh e =
      let same : sender_turn h ≡ h' = cc in
      let (kept, fresh') = sender_turn-held p h fresh in rw (← same) (kept ∙ omega arith, fresh')

  pub handle_all-held :
      (router : Router) (c : Text) (p : ℕ → Bool) (events : List (HandlerEvent Records))
      (h : ClientHandler Records) {h' : ClientHandler Records}
      → IsFresh h
      → handle_all router c events h ≡ some h'
      → held p h' ≡ held p h + delivered p events
  unfolding handle_all
  handle_all-held router c p [] h {h'} fresh e = let same : h ≡ h' = cc in rw (← same) (omega arith)
  handle_all-held router c p (event ∷ events) h {h'} fresh e =
      elim (Option-cases (handle router c event h)) [
        | inl failed ↦ let e' = rw failed at e in cc
        | inr (next, done) ↦
            let (kept, fresh') = handle-held router c p event h {h' = next} fresh done in
            let rest =
              handle_all-held router c p events next {h' = h'} fresh'
                (let e' = rw done at e in e') in
            omega (arith, kept, rest)
      ]
