-- ===== src/Workers/AnomalyFilter.antt =====
-- src/workers/anomaly_filter/main.py: the transactions that are far below the average of their payment
-- format, which is side input. Amounts are floats in the source; here they are any type with the
-- tests `<` and `<= 0` and the product with the threshold that the code uses.
use tp_distribuidos_moneylau.Prelude.{
  nat_eq, list_eq, Bool, false, Option, none, some, List, [], ◌∷◌, map, if◌then◌else◌, Dict, lookup,
  insert,
}
use tp_distribuidos_moneylau.Prelude.Text.{Text, strip, lower}
use tp_distribuidos_moneylau.Worker.SideWorker.{SideHooks}
use tp_distribuidos_moneylau.Workers.PaymentFormat.{PaymentFormatAverage}

-- the fields of a transaction that the filter reads; a field that the message left out is none
pub record AnyTransaction (Amount : Type 0) : Type 0 where
  pub payment_format : Option Text
  pub amount : Option Amount
  pub from_bank : Option Text
  pub from_account : Option Text

-- a transaction with all of them
pub record Transaction (Amount : Type 0) : Type 0 where
  pub payment_format : Text
  pub amount : Amount
  pub from_bank : Text
  pub from_account : Text

pub record Q3Result (Amount : Type 0) : Type 0 where
  pub from_bank : Text
  pub from_account : Text
  pub amount_paid : Amount

-- `_payment_format_key`
unfoldable pub payment_format_key : Text → Text
payment_format_key payment_format = lower (strip payment_format)

module _ {Amount : Type 0} (less : Amount → Amount → Bool) (times_threshold : Amount → Amount)
    (not_positive : Amount → Bool) where
  -- `_has_required_anomaly_fields`
  unfoldable pub required_anomaly_fields : AnyTransaction Amount → Option (Transaction Amount)
  required_anomaly_fields tx = elim tx.payment_format [
    | none ↦ none
    | some payment_format ↦ elim tx.amount [
      | none ↦ none
      | some amount ↦ elim tx.from_bank [
        | none ↦ none
        | some from_bank ↦ elim tx.from_account [
          | none ↦ none
          | some from_account ↦ some (record {
            payment_format = payment_format;
            amount = amount;
            from_bank = from_bank;
            from_account = from_account;
          })
        ]
      ]
    ]
  ]

  -- the transactions that have them
  unfoldable pub with_required_fields : List (AnyTransaction Amount) → List (Transaction Amount)
  unfolding required_anomaly_fields
  with_required_fields [] = []
  with_required_fields (tx ∷ batch) =
      let rest = with_required_fields batch in
      elim (required_anomaly_fields tx) [ none ↦ rest | some t ↦ t ∷ rest ]

  unfoldable pub is_anomalous : Transaction Amount → Dict Text Amount → Bool
  unfolding payment_format_key
  is_anomalous tx avgs = elim (lookup (payment_format_key tx.payment_format) avgs) [
    | none ↦ false
    | some avg ↦ if not_positive avg then false else less tx.amount (times_threshold avg)
  ]

  -- `_filter_and_emit`: the results of a batch
  unfoldable pub filter_anomalous :
      Dict Text Amount → List (Transaction Amount) → List (Q3Result Amount)
  unfolding is_anomalous
  filter_anomalous avgs [] = []
  filter_anomalous avgs (tx ∷ transactions) =
      let rest = filter_anomalous avgs transactions in
      let found : Q3Result Amount = record {
        from_bank = tx.from_bank;
        from_account = tx.from_account;
        amount_paid = tx.amount;
      } in
      if is_anomalous tx avgs then found ∷ rest else rest

  -- `_side_delta`
  unfoldable pub averages_delta : List (PaymentFormatAverage Amount) → Dict Text Amount
  unfolding payment_format_key
  averages_delta payload =
      map (λ entry. (payment_format_key entry.payment_format, entry.average_amount)) payload

  -- the loop of `_apply_side_delta`
  unfoldable pub add_averages : Dict Text Amount → Dict Text Amount → Dict Text Amount
  add_averages [] table = table
  add_averages ((payment_format, avg) ∷ delta) table =
      add_averages delta (insert payment_format avg table)

  abbrev pub anomaly_filter : Text → SideHooks
  anomaly_filter query_id = record {
    Payload = List (AnyTransaction Amount);
    Batch = List (Transaction Amount);
    SidePayload = List (PaymentFormatAverage Amount);
    SideDelta = Dict Text Amount;
    Table = Dict Text Amount;
    Results = List (Q3Result Amount);
    no_table = [];
    select = with_required_fields;
    side_delta = λ payload. some (averages_delta payload);
    apply_side_delta = add_averages;
    side_state_as_delta = λ table. table;
    results_of = λ avgs batch. some (filter_anomalous avgs batch);
    query_id = query_id;
  }
