-- ===== src/Workers/BankMax.antt =====
-- src/workers/bank_max_aggregator/main.py and src/workers/bank_max_reducer/main.py: the largest transaction
-- of each bank. Amounts are floats in the source; here they are any type with the tests `>` and `==`
-- that the code uses, and accounts are compared by a test `<`.
pub mod Laws
use tp_distribuidos_moneylau.Prelude.{
  ℕ, ◌+◌, ◌==◌, nat_eq, list_eq, Bool, true, false, ◌&&◌, ◌||◌, Option, none, some, List, [], ◌∷◌,
  map, ◌>>=◌, if◌then◌else◌, Dict, lookup, insert, erase, get_or,
}
use tp_distribuidos_moneylau.Prelude.Int.{ℤ}
use tp_distribuidos_moneylau.Prelude.Text.{Text, int_of, str_ℤ}
use tp_distribuidos_moneylau.Worker.Hooks.{Sent}
use tp_distribuidos_moneylau.Worker.Sharding.{flush_sharded}

-- The fields of a transaction that the aggregator reads; a field that the message left out is none.
pub record Transaction (Amount : Type 0) : Type 0 where
  pub amount : Option Amount
  pub from_bank : Option Text
  pub from_account : Option Text

pub record BankMaxPartial (Amount : Type 0) : Type 0 where
  pub from_bank : Text
  pub from_account : Text
  pub amount : Amount

-- `[from_account, amount]` of a delta
abbrev pub Maximum : Type 0 → Type 0
Maximum Amount = Text × Amount

-- the deltas, and the flows of `self._local_max` and `self._global_max`
abbrev pub Maxima : Type 0 → Type 0
Maxima Amount = Dict Text (Maximum Amount)

module _ {Amount : Type 0} (greater same : Amount → Amount → Bool) (less : Text → Text → Bool) where
  -- `_beats(amount, account, cur_amount, cur_account)`
  unfoldable pub beats : Maximum Amount → Maximum Amount → Bool
  beats x current = greater x.1 current.1 || (same x.1 current.1 && less x.0 current.0)

  -- the body of the loops: a maximum that is missing or beaten is replaced
  unfoldable pub raise_max : Text → Maximum Amount → Maxima Amount → Maxima Amount
  unfolding beats
  raise_max bank x maxima = elim (lookup bank maxima) [
    | none ↦ insert bank x maxima
    | some current ↦ if beats x current then insert bank x maxima else maxima
  ]

  -- the loops over a batch and over a delta
  unfoldable pub raise_all : List (Text × Maximum Amount) → Maxima Amount → Maxima Amount
  unfolding raise_max
  raise_all [] maxima = maxima
  raise_all ((bank, x) ∷ entries) maxima = raise_all entries (raise_max bank x maxima)

  -- `_apply_delta`
  unfoldable pub apply_delta :
      Text → Maxima Amount → Dict Text (Maxima Amount) → Dict Text (Maxima Amount)
  unfolding raise_all
  apply_delta c delta flows = insert c (raise_all delta (get_or c [] flows)) flows

  -- `_state_as_delta`
  unfoldable pub state_as_delta : Text → Dict Text (Maxima Amount) → Option (Maxima Amount)
  state_as_delta c flows = some (get_or c [] flows)

  -- the entries of the transactions that have the required fields; none is the ValueError of `int`
  unfoldable pub entries_of : List (Transaction Amount) → Option (List (Text × Maximum Amount))
  entries_of [] = some []
  entries_of (t ∷ batch) =
      let rest = entries_of batch in
      elim t.amount [
        | none ↦ rest
        | some amount ↦ elim t.from_bank [
          | none ↦ rest
          | some from_bank ↦ elim t.from_account [
            | none ↦ rest
            | some from_account ↦ do
              bank ← int_of from_bank
              entries ← rest
              some ((str_ℤ bank, (from_account, amount)) ∷ entries)
          ]
        ]
      ]

  -- `_handle_data_message` of the aggregator
  unfoldable pub aggregator_handle_data :
      Text
      → Text
      → List (Transaction Amount)
      → Dict Text (Maxima Amount)
      → Option
          (Dict Text (Maxima Amount) × Maxima Amount × List (Sent (List (BankMaxPartial Amount))))
  unfolding entries_of raise_all apply_delta
  aggregator_handle_data mid c batch flows = do
    entries ← entries_of batch
    let delta = raise_all entries []
    some (apply_delta c delta flows, delta, [])

  unfoldable pub partial_entries : List (BankMaxPartial Amount) → List (Text × Maximum Amount)
  partial_entries batch = map (λ p. (p.from_bank, (p.from_account, p.amount))) batch

  -- `_handle_data_message` of the reducer
  unfoldable pub reducer_handle_data :
      Text
      → Text
      → List (BankMaxPartial Amount)
      → Dict Text (Maxima Amount)
      → Option
          (Dict Text (Maxima Amount) × Maxima Amount × List (Sent (List (BankMaxPartial Amount))))
  unfolding partial_entries raise_all apply_delta
  reducer_handle_data mid c batch flows =
      let delta = raise_all (partial_entries batch) [] in
      some (apply_delta c delta flows, delta, [])

  -- `list(flow_max.values())`
  unfoldable pub partials : Maxima Amount → List (BankMaxPartial Amount)
  partials maxima =
      map (λ entry. record { from_bank = entry.0; from_account = entry.1.0; amount = entry.1.1 })
        maxima

  -- `_flush_data` of both
  unfoldable pub flush_data :
      (Text → ℕ)
      → ℕ
      → ℕ
      → ℕ
      → (ℕ → Text)
      → Text
      → Dict Text (Maxima Amount)
      → Dict Text (Maxima Amount) × List (Sent (List (BankMaxPartial Amount)))
  unfolding flush_sharded partials
  flush_data hash_of node_id num_shards batch_size str c flows = (
    erase c flows,
    flush_sharded hash_of node_id c (λ p. p.from_bank) num_shards batch_size str
        (partials (get_or c [] flows)),
  )
