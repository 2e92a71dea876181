-- ===== src/Workers/BankMapper.antt =====
-- src/workers/bank_mapper/main.py: the largest transactions of the banks with the names of the banks, which
-- are side input. Amounts are any type.
use tp_distribuidos_moneylau.Prelude.{
  ◌==◌, nat_eq, list_eq, list_beq_iff, Option, none, some, List, [], ◌∷◌, ◌>>=◌, if◌then◌else◌,
  Dict, lookup, insert, get_or, lookup-insert, ◌≡◌, ◌∙◌, arith, inl, inr, Option-cases,
}
use tp_distribuidos_moneylau.Prelude.Text.{Text, text, int_of, str_ℤ}
use tp_distribuidos_moneylau.Worker.SideWorker.{SideHooks}
use tp_distribuidos_moneylau.Workers.BankMax.{BankMaxPartial}

-- src/common/models/bank.py
pub record Bank : Type 0 where
  pub bank_id : Text
  pub name : Text

pub record Q2Result (Amount : Type 0) : Type 0 where
  pub bank_name : Text
  pub from_account : Text
  pub amount_paid : Amount

-- `_side_delta`: none is the ValueError of `int`
unfoldable pub names_delta : List Bank → Option (Dict Text Text)
names_delta [] = some []
names_delta (bank ∷ payload) = do
  id ← int_of bank.bank_id
  rest ← names_delta payload
  some ((str_ℤ id, bank.name) ∷ rest)

-- the body of the loop of `_apply_side_delta`: the first name of a bank stays
unfoldable pub add_name : Text → Text → Dict Text Text → Dict Text Text
add_name bank_id name bank_names = elim (lookup bank_id bank_names) [
  | none ↦ insert bank_id name bank_names
  | some current ↦ bank_names
]

-- the loop
unfoldable pub add_names : Dict Text Text → Dict Text Text → Dict Text Text
unfolding add_name
add_names [] bank_names = bank_names
add_names ((bank_id, name) ∷ delta) bank_names = add_names delta (add_name bank_id name bank_names)

lookup-add_name :
    (bank_id name id : Text) (bank_names : Dict Text Text)
    → lookup id (add_name bank_id name bank_names) ≡ (elim (lookup id bank_names) [
      | none ↦ if bank_id == id then some name else none
      | some n ↦ some n
    ])
unfolding add_name
lookup-add_name bank_id name id bank_names = elim (Option-cases (lookup bank_id bank_names)) [
  | inl absent ↦
      rw (absent, add_name)
        (lookup-insert id bank_id name bank_names ∙ ground (arith, list_beq_iff bank_id id))
  | inr (current, present) ↦ rw (present, add_name) (ground (arith, list_beq_iff bank_id id))
]

-- After a delta, a bank has the name that it had before, and otherwise the first name that the
-- delta gives it.
pub lookup-add_names :
    (delta bank_names : Dict Text Text) (id : Text)
    → lookup id (add_names delta bank_names)
      ≡ (elim (lookup id bank_names) [ none ↦ lookup id delta | some name ↦ some name ])
unfolding add_names lookup
lookup-add_names [] bank_names id = ground arith
lookup-add_names ((bank_id, name) ∷ delta) bank_names id =
    lookup-add_names delta (add_name bank_id name bank_names) id
    ∙ rw (lookup-add_name bank_id name id bank_names) (ground arith)

module _ {Amount : Type 0} where
  -- `_map_and_emit`: the results of a batch
  unfoldable pub map_names :
      Dict Text Text → List (BankMaxPartial Amount) → Option (List (Q2Result Amount))
  map_names bank_names [] = some []
  map_names bank_names (bank_max ∷ batch) = do
    id ← int_of bank_max.from_bank
    rest ← map_names bank_names batch
    some (
        record {
          bank_name = get_or (str_ℤ id) (text "Unknown") bank_names;
          from_account = bank_max.from_account;
          amount_paid = bank_max.amount;
        }
        ∷ rest)

abbrev pub bank_mapper : Type 0 → Text → SideHooks
bank_mapper Amount query_id = record {
  Payload = List (BankMaxPartial Amount);
  Batch = List (BankMaxPartial Amount);
  SidePayload = List Bank;
  SideDelta = Dict Text Text;
  Table = Dict Text Text;
  Results = List (Q2Result Amount);
  no_table = [];
  select = λ payload. payload;
  side_delta = names_delta;
  apply_side_delta = add_names;
  side_state_as_delta = λ table. table;
  results_of = map_names;
  query_id = query_id;
}
