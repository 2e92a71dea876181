-- ===== src/Gateway/Handler/Written.antt =====
-- Laws about the results that a handler has written to its client and those in its queue.
use tp_distribuidos_moneylau.Prelude.{
  ℕ, ◌+◌, nat_eq, leb, ◌&&◌, Bool, true, false, some, List, [], ◌∷◌, if◌then◌else◌, lookup, sum_map,
  sum_map-append, ◌≡◌, refl, ◌∙◌, arith, inl, inr, Bool-cases, Option-cases,
}
use tp_distribuidos_moneylau.Prelude.Text.{Text, int_of}
use tp_distribuidos_moneylau.Gateway.Router.{
  Router, Forward, forward_raw_transactions, forward_raw_accounts, forward_eof_transactions,
  forward_eof_accounts,
}
use tp_distribuidos_moneylau.Gateway.Handler.{
  ClientMessage, transaction_batch, account_batch, eof_transactions, eof_accounts, result_ack,
  unexpected, ResultMessage, result, query_end, other, Item, ack_item, result_item, send_result,
  send_query_end, ToClient, ack, ClientHandler, HandlerEvent, received, arrived, sending, handle,
  handle_all, dispatch, on_result, on_result_ack, sender_turn, send_from, send_item, ack_to_rabbit,
  write_pending, write, register_pending_ack, forward_and_ack, put,
}

module _ {Records : Type 0} where
  -- the messages that are for the client: batches of the five queries, and ends of queries
  abbrev pub for_client : ResultMessage Records → Bool
  for_client (result q payload mid) = leb 1 q && leb q 5
  for_client (query_end q message_count) = true
  for_client other = false

  -- a written message as the result that it carries
  abbrev pub written_test : (ResultMessage Records → Bool) → ToClient Records → ℕ
  written_test p ack = 0
  written_test p (send_result q payload mid k) = if p (result q payload mid) then 1 else 0
  written_test p (send_query_end q message_count k) = if p (query_end q message_count) then 1 else 0

  abbrev pub queued_test : (ResultMessage Records → Bool) → Item Records → ℕ
  queued_test p ack_item = 0
  queued_test p (result_item msg tag) = if for_client msg && p msg then 1 else 0

  abbrev pub arrival_test : (ResultMessage Records → Bool) → HandlerEvent Records → ℕ
  arrival_test p (received msg) = 0
  arrival_test p (arrived msg tag) = if for_client msg && p msg then 1 else 0
  arrival_test p sending = 0

  -- the results that were written to the client, and those for it in the queue
  abbrev pub passed_on : (ResultMessage Records → Bool) → ClientHandler Records → ℕ
  passed_on p h = sum_map (written_test p) h.written + sum_map (queued_test p) h.queue

  -- the results for the client that RabbitMQ has delivered
  abbrev pub arrivals : (ResultMessage Records → Bool) → List (HandlerEvent Records) → ℕ
  arrivals p = sum_map (arrival_test p)

  forward_and_ack-passed_on :
      (p : ResultMessage Records → Bool) (f : Forward) (h : ClientHandler Records)
      {h' : ClientHandler Records}
      → forward_and_ack f h ≡ h'
      → passed_on p h' ≡ passed_on p h
  unfolding forward_and_ack
  forward_and_ack-passed_on p f h e =
      rw (← e) (omega (arith, sum_map-append (queued_test p) h.queue (ack_item ∷ [])))

  on_result_ack-passed_on :
      (p : ResultMessage Records → Bool) (k : ℕ) (h : ClientHandler Records)
      → passed_on p (on_result_ack k h) ≡ passed_on p h
  unfolding on_result_ack
  on_result_ack-passed_on p k h = elim (Option-cases (lookup k h.pending_acks)) [
    | inl e ↦ rw (e, on_result_ack) refl
    | inr (tag, e) ↦ rw (e, on_result_ack) refl
  ]

  dispatch-passed_on :
      (router : Router) (c : Text) (p : ResultMessage Records → Bool) (msg : ClientMessage)
      (h : ClientHandler Records) {h' : ClientHandler Records}
      → dispatch router c msg h ≡ some h'
      → passed_on p h' ≡ passed_on p h
  unfolding dispatch
  dispatch-passed_on router c p (transaction_batch records mid) h {h'} e =
      forward_and_ack-passed_on p (forward_raw_transactions router c records mid) h {h' = h'} (cc)
  dispatch-passed_on router c p (account_batch records mid) h {h'} e =
      forward_and_ack-passed_on p (forward_raw_accounts router c records mid) h {h' = h'} (cc)
  dispatch-passed_on router c p (eof_transactions mid) h {h'} e = elim (Option-cases (int_of mid)) [
    | inl failed ↦ let e' = rw failed at e in cc
    | inr (n, parsed) ↦
        let e' = rw parsed at e in
        forward_and_ack-passed_on p (forward_eof_transactions router c n) h {h' = h'} (cc)
  ]
  dispatch-passed_on router c p (eof_accounts mid) h {h'} e = elim (Option-cases (int_of mid)) [
    | inl failed ↦ let e' = rw failed at e in cc
    | inr (n, parsed) ↦
        let e' = rw parsed at e in
        forward_and_ack-passed_on p (forward_eof_accounts router c n) h {h' = h'} (cc)
  ]
  dispatch-passed_on router c p (result_ack k) h {h'} e =
      let same : on_result_ack k h ≡ h' = cc in rw (← same) (on_result_ack-passed_on p k h)
  dispatch-passed_on router c p unexpected h {h'} e = let same : h ≡ h' = cc in rw (← same) refl

  -- a result of the queue is written, or is none for the client
  send_item-passed_on :
      (p : ResultMessage Records → Bool) (item : Item Records) (h : ClientHandler Records)
      → passed_on p (send_item item h) ≡ passed_on p h + queued_test p item
  unfolding send_item write_pending write register_pending_ack ack_to_rabbit
  send_item-passed_on p ack_item h =
      omega (arith, sum_map-append (written_test p) h.written (ack ∷ []))
  send_item-passed_on p (result_item (result q payload mid) tag) h =
      elim (Bool-cases (leb 1 q && leb q 5)) [
        | inl query ↦ rw query (
            omega (
              arith,
              sum_map-append (written_test p) h.written
                  (send_result q payload mid (h.next_delivery_id + 1) ∷ []),
            ))
        | inr not_query ↦ rw not_query (omega arith)
      ]
  send_item-passed_on p (result_item (query_end q n) tag) h = omega (
    arith,
    sum_map-append (written_test p) h.written (send_query_end q n (h.next_delivery_id + 1) ∷ []),
  )
  send_item-passed_on p (result_item other tag) h = omega arith

  sender_turn-passed_on :
      (p : ResultMessage Records → Bool) (items : List (Item Records)) (h : ClientHandler Records)
      → h.queue ≡ items
      → passed_on p (send_from items h) ≡ passed_on p h
  unfolding send_from
  sender_turn-passed_on p [] h e = refl
  sender_turn-passed_on p (item ∷ items) h e =
      send_item-passed_on p item (record h { queue = items }) ∙ rw e (omega arith)

  handle-passed_on :
      (router : Router) (c : Text) (p : ResultMessage Records → Bool) (event : HandlerEvent Records)
      (h : ClientHandler Records) {h' : ClientHandler Records}
      → handle router c event h ≡ some h'
      → passed_on p h' ≡ passed_on p h + arrival_test p event
  unfolding handle on_result put sender_turn
  handle-passed_on router c p (received msg) h {h'} e =
      dispatch-passed_on router c p msg h {h' = h'} e ∙ omega arith
  handle-passed_on router c p (arrived msg tag) h {h'} e =
      let same : put (result_item msg tag) h ≡ h' = cc in
      rw (← same) (omega (arith, sum_map-append (queued_test p) h.queue (result_item msg tag ∷ [])))
  handle-passed_on router c p sending h {h'} e =
      let same : sender_turn h ≡ h' = cc in
      rw (← same) (sender_turn-passed_on p h.queue h refl ∙ omega arith)

  pub handle_all-passed_on :
      (router : Router) (c : Text) (p : ResultMessage Records → Bool)
      (events : List (HandlerEvent Records)) (h : ClientHandler Records)
      {h' : ClientHandler Records}
      → handle_all router c events h ≡ some h'
      → passed_on p h' ≡ passed_on p h + arrivals p events
  unfolding handle_all
  handle_all-passed_on router c p [] h {h'} e = let same : h ≡ h' = cc in rw (← same) (omega arith)
  handle_all-passed_on router c p (event ∷ events) h {h'} e =
      elim (Option-cases (handle router c event h)) [
        | inl failed ↦ let e' = rw failed at e in cc
        | inr (next, done) ↦
            let one = handle-passed_on router c p event h {h' = next} done in
            let rest =
              handle_all-passed_on router c p events next {h' = h'} (let e' = rw done at e in e') in
            omega (arith, one, rest)
      ]
