-- ===== src/Workers/PaymentFormat.antt =====
-- src/workers/payment_format_aggregator/main.py and src/workers/payment_format_reducer/main.py: the
-- total and the number of the transactions of each payment format. Amounts are floats in the source;
-- here they are any type with the sum and the quotient that the code uses.
pub mod Laws
use tp_distribuidos_moneylau.Prelude.{
  ℕ, ◌+◌, ◌==◌, nat_eq, list_eq, Option, none, some, List, [], ◌∷◌, map, if◌then◌else◌, Dict,
  insert, erase, get_or,
}
use tp_distribuidos_moneylau.Prelude.Text.{Text, strip, lower}
use tp_distribuidos_moneylau.Ids.{flush_id}
use tp_distribuidos_moneylau.Worker.Hooks.{Sent}
use tp_distribuidos_moneylau.Worker.Sharding.{flush_sharded}

-- The fields of a transaction that the aggregator reads; a field that the message left out is none.
pub record Transaction (Amount : Type 0) : Type 0 where
  pub payment_format : Option Text
  pub amount : Option Amount

pub record PaymentFormatPartial (Amount : Type 0) : Type 0 where
  pub payment_format : Text
  pub total_amount : Amount
  pub count : ℕ

pub record PaymentFormatAverage (Amount : Type 0) : Type 0 where
  pub payment_format : Text
  pub average_amount : Amount

-- `(total_amount, count)` of each payment format
abbrev pub Totals : Type 0 → Type 0
Totals Amount = Dict Text (Amount × ℕ)

module _ {Amount : Type 0} (zero : Amount) (plus : Amount → Amount → Amount) where
  -- the body of the loops: an entry is added to the totals of its format
  unfoldable pub add_total : Text → Amount × ℕ → Totals Amount → Totals Amount
  add_total payment_format entry totals =
      let current = get_or payment_format (zero, 0) totals in
      insert payment_format (plus current.0 entry.0, current.1 + entry.1) totals

  -- the loops over a batch and over a delta
  unfoldable pub add_totals : List (Text × (Amount × ℕ)) → Totals Amount → Totals Amount
  unfolding add_total
  add_totals [] totals = totals
  add_totals ((payment_format, entry) ∷ entries) totals =
      add_totals entries (add_total payment_format entry totals)

  -- `_payment_format_key`
  unfoldable pub payment_format_key : Text → Text
  payment_format_key payment_format = lower (strip payment_format)

  -- the transactions that have the required fields
  unfoldable pub entries_of : List (Transaction Amount) → List (Text × (Amount × ℕ))
  unfolding payment_format_key
  entries_of [] = []
  entries_of (t ∷ batch) =
      let rest = entries_of batch in
      elim t.payment_format [
        | none ↦ rest
        | some payment_format ↦ elim t.amount [
          | none ↦ rest
          | some amount ↦ (payment_format_key payment_format, (amount, 1)) ∷ rest
        ]
      ]

  unfoldable pub partial_entries : List (PaymentFormatPartial Amount) → List (Text × (Amount × ℕ))
  partial_entries batch = map (λ p. (p.payment_format, (p.total_amount, p.count))) batch

  -- `_apply_delta`
  unfoldable pub apply_delta :
      Text → Totals Amount → Dict Text (Totals Amount) → Dict Text (Totals Amount)
  unfolding add_totals
  apply_delta c delta flows = insert c (add_totals delta (get_or c [] flows)) flows

  -- `_state_as_delta`
  unfoldable pub state_as_delta : Text → Dict Text (Totals Amount) → Option (Totals Amount)
  state_as_delta c flows = some (get_or c [] flows)

  -- `_handle_data_message` of the aggregator: the new state and the delta
  unfoldable pub aggregator_handle_data :
      Text
      → List (Transaction Amount)
      → Dict Text (Totals Amount)
      → Dict Text (Totals Amount) × Totals Amount
  unfolding entries_of add_totals apply_delta
  aggregator_handle_data c batch flows =
      let delta = add_totals (entries_of batch) [] in (apply_delta c delta flows, delta)

  -- `_handle_data_message` of the reducer
  unfoldable pub reducer_handle_data :
      Text
      → List (PaymentFormatPartial Amount)
      → Dict Text (Totals Amount)
      → Dict Text (Totals Amount) × Totals Amount
  unfolding partial_entries add_totals apply_delta
  reducer_handle_data c batch flows =
      let delta = add_totals (partial_entries batch) [] in (apply_delta c delta flows, delta)

  unfoldable pub partials : Totals Amount → List (PaymentFormatPartial Amount)
  partials totals =
      map
        (λ entry. record { payment_format = entry.0; total_amount = entry.1.0; count = entry.1.1 })
        totals

  -- `_flush_data` of the aggregator
  unfoldable pub aggregator_flush_data :
      (Text → ℕ)
      → ℕ
      → ℕ
      → ℕ
      → (ℕ → Text)
      → Text
      → Dict Text (Totals Amount)
      → Dict Text (Totals Amount) × List (Sent (List (PaymentFormatPartial Amount)))
  unfolding flush_sharded partials
  aggregator_flush_data hash_of node_id num_shards batch_size str c flows = (
    erase c flows,
    flush_sharded hash_of node_id c (λ p. p.payment_format) num_shards batch_size str
        (partials (get_or c [] flows)),
  )

  module _ (over : Amount → ℕ → Amount) where
    -- the loop of `_flush_data` of the reducer
    unfoldable pub averages : Totals Amount → List (PaymentFormatAverage Amount)
    averages [] = []
    averages ((payment_format, (total_amount, count)) ∷ totals) =
        let rest = averages totals in
        if count == 0
        then rest
        else record { payment_format = payment_format; average_amount = over total_amount count }
          ∷ rest

    -- `_flush_data` of the reducer
    unfoldable pub reducer_flush_data :
        ℕ
        → Text
        → Dict Text (Totals Amount)
        → Dict Text (Totals Amount) × List (Sent (List (PaymentFormatAverage Amount)))
    unfolding averages
    reducer_flush_data node_id c flows = (
      erase c flows,
      record {
        client_id = c;
        body = averages (get_or c [] flows);
        routing_key = none;
        message_id = flush_id node_id c 0;
      }
          ∷ [],
    )
