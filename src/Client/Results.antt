-- ===== src/Client/Results.antt =====
-- src/client/main.py: how the client collects the results of the queries. The files are lists of rows,
-- and the deliveries that it acknowledges are outputs. `none` is a KeyError.
pub mod Laws
pub mod Handled
pub mod Total
pub mod Finalized
use tp_distribuidos_moneylau.Prelude.{
  ℕ, ◌+◌, ◌==◌, nat_eq, list_eq, pair_eq, leb, length, not, Bool, true, false, ◌&&◌, ◌||◌, Option,
  none, some, List, [], ◌∷◌, ◌++◌, ◌>>=◌, if◌then◌else◌, Dict, lookup, insert, get_or, contains,
  add,
}
use tp_distribuidos_moneylau.Prelude.Int.{ℤ, pos, leb_ℤ}
use tp_distribuidos_moneylau.Prelude.Text.{Text}

-- the results of a query: `writers` are the files, with the rows that were written
pub record Results (Row : Type 0) : Type 0 where
  pub seen_results : List (ℕ × Text)
  pub received : Dict ℕ ℕ
  pub expected : Dict ℕ ℤ
  pub finalized : List ℕ
  pub writers : Dict ℕ (List Row)
  pub totals : Dict ℕ ℕ

-- `{qid: ... for qid in query_ids}`
unfoldable pub for_ids {ℓ} : {A : Type ℓ} → A → List ℕ → Dict ℕ A
for_ids a [] = []
for_ids a (id ∷ ids) = insert id a (for_ids a ids)

-- `if message_id`
unfoldable pub is_empty_text : Text → Bool
is_empty_text [] = true
is_empty_text (c ∷ cs) = false

module _ {Row : Type 0} where
  -- `__init__` and `_open_result_files`
  unfoldable pub open_result_files : List ℕ → Results Row
  unfolding for_ids
  open_result_files query_ids = record {
    seen_results = [];
    received = [];
    expected = [];
    finalized = [];
    writers = for_ids [] query_ids;
    totals = for_ids 0 query_ids;
  }

  -- `expected is not None and self._received.get(query_id, 0) >= expected`
  unfoldable pub is_complete : ℕ → Results Row → Bool
  is_complete query_id r = elim (lookup query_id r.expected) [
    | none ↦ false
    | some expected ↦ leb_ℤ expected (pos (get_or query_id 0 r.received))
  ]

  -- the log line reads the total of the query
  unfoldable pub maybe_finalize : ℕ → Results Row → Option (Results Row)
  unfolding is_complete
  maybe_finalize query_id r =
      if contains query_id r.finalized
      then some r
      else if is_complete query_id r
      then (do
        total ← lookup query_id r.totals
        some (record r { finalized = add query_id r.finalized }))
      else some r

  -- `writers[query_id].writerow(...)` for each record: no record, no KeyError
  unfoldable pub write_rows : ℕ → List Row → Results Row → Option (Results Row)
  write_rows query_id [] r = some r
  write_rows query_id (row ∷ rows) r = do
    written ← lookup query_id r.writers
    some (record r { writers = insert query_id (written ++ row ∷ rows) r.writers })

  -- a new result: the rows, the total, and one more batch of the query
  unfoldable pub store_result : ℕ → List Row → Results Row → Option (Results Row)
  unfolding write_rows maybe_finalize
  store_result query_id records r = do
    r' ← write_rows query_id records r
    total ← lookup query_id r'.totals
    maybe_finalize query_id (record r' {
      totals = insert query_id (total + length records) r'.totals;
      received = insert query_id (get_or query_id 0 r'.received + 1) r'.received;
    })

  -- `_handle_query_result`: the results, and the delivery that is acknowledged
  unfoldable pub handle_query_result :
      ℕ → List Row → Text → ℕ → Results Row → Option (Results Row × ℕ)
  unfolding is_empty_text store_result
  handle_query_result query_id records message_id delivery_id r =
      if is_empty_text message_id
      then (do r' ← store_result query_id records r; some (r', delivery_id))
      else if contains (query_id, message_id) r.seen_results
      then some (r, delivery_id)
      else (do
        r' ←
            store_result query_id records
              (record r { seen_results = add (query_id, message_id) r.seen_results })
        some (r', delivery_id))

  -- `_handle_query_end`
  unfoldable pub handle_query_end : ℕ → ℤ → ℕ → Results Row → Option (Results Row × ℕ)
  unfolding maybe_finalize
  handle_query_end query_id message_count delivery_id r = do
    r' ← maybe_finalize query_id (record r { expected = insert query_id message_count r.expected })
    some (r', delivery_id)

  -- `self._finalized >= set(expected_query_ids)`
  unfoldable pub all_done : List ℕ → Results Row → Bool
  all_done [] r = true
  all_done (id ∷ ids) r = contains id r.finalized && all_done ids r

-- what the receiver hands to the orchestrator, which are the only types it passes on: a result, the end
-- of a query, an ACK, and the `None` that ends a session
pub data Received (Row : Type 0) : Type 0 where
  query_result : ℕ → List Row → Text → ℕ → Received Row
  query_end : ℕ → ℤ → ℕ → Received Row
  ack : Received Row
  closed : Received Row

module _ {Row : Type 0} where
  -- the branches that both loops share: the results, and the deliveries that are acknowledged
  unfoldable pub handle_received : Received Row → Results Row → Option (Results Row × List ℕ)
  unfolding handle_query_result handle_query_end
  handle_received (query_result query_id records mid delivery_id) r = do
    (r', acked) ← handle_query_result query_id records mid delivery_id r
    some (r', acked ∷ [])
  handle_received (query_end query_id message_count delivery_id) r = do
    (r', acked) ← handle_query_end query_id message_count delivery_id r
    some (r', acked ∷ [])
  handle_received ack r = some (r, [])
  handle_received closed r = some (r, [])

  unfoldable pub is_ack : Received Row → Bool
  is_ack ack = true
  is_ack _ = false

  unfoldable pub is_closed : Received Row → Bool
  is_closed closed = true
  is_closed _ = false

  -- `_wait_ack` on what the receiver will hand over: whether an ACK came, what is left, the results and
  -- the acknowledged deliveries. A session that hands over nothing more has ended.
  unfoldable pub wait_ack :
      List (Received Row) → Results Row → Option (Bool × List (Received Row) × Results Row × List ℕ)
  unfolding handle_received is_ack is_closed
  wait_ack [] r = some (false, [], r, [])
  wait_ack (item ∷ items) r =
      let later = λ (r' : Results Row). wait_ack items r' in
      if is_closed item
      then some (false, items, r, [])
      else if is_ack item
      then some (true, items, r, [])
      else (do
        (r', acked) ← handle_received item r
        (found, rest, r'', more) ← later r'
        some (found, rest, r'', acked ++ more))

  -- `_consume_remaining`
  unfoldable pub consume_remaining :
      List ℕ → List (Received Row) → Results Row → Option (Results Row × List ℕ)
  unfolding handle_received is_closed all_done
  consume_remaining ids [] r = some (r, [])
  consume_remaining ids (item ∷ items) r =
      let later = λ (r' : Results Row). consume_remaining ids items r' in
      if all_done ids r then some (r, []) else if is_closed item then some (r, []) else (do
        (r', acked) ← handle_received item r
        (r'', more) ← later r'
        some (r'', acked ++ more))

  -- the dispatch of both loops, folded over the messages that they take before they stop
  unfoldable pub handle_each : List (Received Row) → Results Row → Option (Results Row)
  unfolding handle_received
  handle_each [] r = some r
  handle_each (item ∷ items) r = do (r', acked) ← handle_received item r; handle_each items r'
