-- ===== src/Workers/DuplicateAccounts/Laws.antt =====
-- Laws about the report of the accounts.
use tp_distribuidos_moneylau.Prelude.{count}
use tp_distribuidos_moneylau.Prelude.{
  ℕ, ◌==◌, nat_eq, list_eq, pair_eq, pair_beq_iff, ◌||◌, List, [], ◌∷◌, if◌then◌else◌, insert, keys,
  contains, contains-keys-insert, Distinct, Distinct-insert, ◌≡◌, refl, ◌∙◌, ap, arith, inl, inr,
  Bool-cases,
}
use tp_distribuidos_moneylau.Prelude.Text.{Text}
use tp_distribuidos_moneylau.Worker.Sharding.{flush_sharded}
use tp_distribuidos_moneylau.Worker.Sharding.Laws.{count_sent, count-flush_sharded}
use tp_distribuidos_moneylau.Workers.AccountGraph.{Account, dotted}
use tp_distribuidos_moneylau.Workers.DuplicateAccounts.{UniqueAccounts, add_accounts, values}

-- no account twice, and each result under its own account
abbrev IsUnique : UniqueAccounts → Type 0
IsUnique d = Distinct (keys d) × (values d ≡ keys d)

values-insert :
    (a : Account) (d : UniqueAccounts)
    → values d ≡ keys d
    → values (insert a a d) ≡ keys (insert a a d)
unfolding values insert
values-insert a [] e = refl
values-insert a ((k, v) ∷ d) e =
    let rest : values d ≡ keys d = cc in
    let first : v ≡ k = cc in
    let later = values-insert a d rest in
    elim (Bool-cases (k == a)) [
      | inl same ↦ let key = (pair_beq_iff k a).0 same in rw same cc
      | inr other ↦ rw other cc
    ]

add_accounts-IsUnique :
    (delta : List Account) (d : UniqueAccounts) → IsUnique d → IsUnique (add_accounts delta d)
unfolding add_accounts
add_accounts-IsUnique [] d u = u
add_accounts-IsUnique (a ∷ delta) d u =
    add_accounts-IsUnique delta (insert a a d) (Distinct-insert a a d u.0, values-insert a d u.1)

contains-add_accounts :
    (a : Account) (delta : List Account) (d : UniqueAccounts)
    → contains a (keys (add_accounts delta d)) ≡ (contains a delta || contains a (keys d))
unfolding add_accounts contains
contains-add_accounts a [] d = refl
contains-add_accounts a (x ∷ delta) d =
    contains-add_accounts a delta (insert x x d) ∙ rw (contains-keys-insert a x x d) (ground arith)

count-Distinct :
    (a : Account) (xs : List Account)
    → Distinct xs
    → count (λ x. x == a) xs ≡ (if contains a xs then 1 else 0)
unfolding contains
count-Distinct a [] d = refl
count-Distinct a (x ∷ xs) d = ground (arith, count-Distinct a xs d.1, pair_beq_iff x a)

-- The flush of the accounts of a delta, added to an empty flow, reports an account once if the
-- delta has it, however often, and not at all otherwise.
pub count-reported :
    (hash_of : Text → ℕ) (node_id batch_size : ℕ) (c : Text) (delta : List Account) (a : Account)
    → count_sent
        (λ x. x == a)
        (flush_sharded hash_of node_id c dotted 1 batch_size
          (λ _. c)
          (values (add_accounts delta [])))
      ≡ (if contains a delta then 1 else 0)
unfolding values contains
count-reported hash_of node_id batch_size c delta a =
    let unique = add_accounts-IsUnique delta [] (tt, refl) in
    count-flush_sharded hash_of node_id c dotted 1 batch_size (λ _. c) (λ x. x == a)
      (values (add_accounts delta []))
    ∙ ap (count (λ x. x == a)) unique.1
    ∙ count-Distinct a (keys (add_accounts delta [])) unique.0
    ∙ rw (contains-add_accounts a delta []) (ground arith)
