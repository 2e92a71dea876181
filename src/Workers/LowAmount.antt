-- ===== src/Workers/LowAmount.antt =====
-- src/workers/low_amount_aggregator/main.py and src/workers/low_amount_reducer/main.py: how many
-- transactions are below a threshold. Amounts are floats in the source; here they are any type with
-- the `<` that the code tests.
pub mod Durable
use tp_distribuidos_moneylau.Prelude.{
  ℕ, suc, ◌+◌, ◌==◌, ◌≡◌, ◌≢◌, refl, Bool, Option, none, some, List, [], ◌∷◌, Dict, insert, erase,
  get_or, get_or-insert, get_or-erase, nat_eq, list_eq, list_beq_iff, if◌then◌else◌, arith,
}
use tp_distribuidos_moneylau.Prelude.Text.{Text}
use tp_distribuidos_moneylau.Ids.{flush_id}
use tp_distribuidos_moneylau.Worker.Hooks.{Config, Sent, Hooks}
use tp_distribuidos_moneylau.Worker.AppLaws.{AppLaws}

-- the delta `{"count": n}`, and the message `Count(count=n)`
pub record Count : Type 0 where
  pub count : ℕ

pub record TransactionAmount (Amount : Type 0) : Type 0 where
  pub amount : Amount

-- `self._counts[client_id] = self._counts.get(client_id, 0) + n`
unfoldable pub raise_count : Text → ℕ → Dict Text ℕ → Dict Text ℕ
raise_count c n counts = insert c (get_or c 0 counts + n) counts

-- `_apply_delta`
unfoldable pub apply_delta : Text → Count → Dict Text ℕ → Dict Text ℕ
unfolding raise_count
apply_delta c delta counts = raise_count c delta.count counts

-- `_state_as_delta`
unfoldable pub state_as_delta : Text → Dict Text ℕ → Option Count
state_as_delta c counts = some (record { count = get_or c 0 counts })

-- `_flush_data` of the aggregator: one COUNT message for the reducers' queue
unfoldable pub aggregator_flush_data : ℕ → Text → Dict Text ℕ → Dict Text ℕ × List (Sent Count)
aggregator_flush_data node_id c counts = (
  erase c counts,
  record {
    client_id = c;
    body = record { count = get_or c 0 counts };
    routing_key = none;
    message_id = flush_id node_id c 0;
  }
      ∷ [],
)

-- `_flush_data` of the reducer: one Q5_RESULT_BATCH with one result, for the client
unfoldable pub reducer_flush_data : ℕ → Text → Dict Text ℕ → Dict Text ℕ × List (Sent (List Count))
reducer_flush_data node_id c counts = (
  erase c counts,
  record {
    client_id = c;
    body = record { count = get_or c 0 counts } ∷ [];
    routing_key = some c;
    message_id = flush_id node_id c 0;
  }
      ∷ [],
)

-- `_handle_data_message` of the reducer
unfoldable pub reducer_handle_data :
    Text → Text → Count → Dict Text ℕ → Option (Dict Text ℕ × Count × List (Sent (List Count)))
unfolding raise_count
reducer_handle_data mid c payload counts = some (raise_count c payload.count counts, payload, [])

module _ {Amount : Type 0} (less : Amount → Amount → Bool) (threshold : Amount) where
  -- `sum(1 for transaction in payload if transaction.amount < self.config.amount_threshold)`
  unfoldable pub count_below : List (TransactionAmount Amount) → ℕ
  count_below [] = 0
  count_below (t ∷ payload) =
      if less t.amount threshold then count_below payload + 1 else count_below payload

  -- `_handle_data_message` of the aggregator
  unfoldable pub aggregator_handle_data :
      Text
      → Text
      → List (TransactionAmount Amount)
      → Dict Text ℕ
      → Option (Dict Text ℕ × Count × List (Sent Count))
  unfolding raise_count
  aggregator_handle_data mid c payload counts =
      let n = count_below payload in some (raise_count c n counts, record { count = n }, [])

  abbrev pub aggregator : ℕ → Hooks
  aggregator node_id = record {
    App = Dict Text ℕ;
    Delta = Count;
    Payload = List (TransactionAmount Amount);
    Body = Count;
    init = [];
    handle_data = aggregator_handle_data;
    apply_delta = apply_delta;
    sent_delta = λ _. none;
    state_as_delta = state_as_delta;
    cleanup_state = erase;
    flush_data = aggregator_flush_data node_id;
  }

abbrev pub reducer : ℕ → Hooks
reducer node_id = record {
  App = Dict Text ℕ;
  Delta = Count;
  Payload = Count;
  Body = List Count;
  init = [];
  handle_data = reducer_handle_data;
  apply_delta = apply_delta;
  sent_delta = λ _. none;
  state_as_delta = state_as_delta;
  cleanup_state = erase;
  flush_data = reducer_flush_data node_id;
}
