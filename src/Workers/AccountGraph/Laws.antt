-- ===== src/Workers/AccountGraph/Laws.antt =====
-- Laws about the links of the account graph, and about the paths and edges that are made of it.
use tp_distribuidos_moneylau.Prelude.{
  count, ◌+◌, ◌%◌, some, sum_map, sum_map-append, nat_beq_iff, Option-cases,
}
use tp_distribuidos_moneylau.Prelude.{
  ℕ, ◌==◌, nat_eq, list_eq, pair_eq, pair_beq_iff, list_beq_iff, Bool, true, false, not, ◌&&◌, ◌||◌,
  none, List, [], ◌∷◌, ◌++◌, if◌then◌else◌, Dict, lookup, insert, get_or, add, contains,
  contains-add, contains-append, get_or-insert, keys, Distinct, ◌≡◌, refl, ◌∙◌, ap, arith, inl, inr,
  Bool-cases, lookup_absent,
}
use tp_distribuidos_moneylau.Prelude.Text.{Text}
use tp_distribuidos_moneylau.Worker.Sharding.{shard_of, group_into}
use tp_distribuidos_moneylau.Workers.AccountGraph.{
  Account, AccountEdge, Transaction, Path3, Graph, dotted, edges_of, all_edges,
  create_edges_by_shard, add_edge, apply_delta, paths_to, paths_through, is_empty, create_paths,
}

-- the edges of one shard are those that it had and those that are put into it
count-shard_group {ℓ} :
    {A : Type ℓ} (f : A → ℕ) (p : A → Bool) (shard : ℕ) (xs : List A) (groups : Dict ℕ (List A))
    → count p (get_or shard [] (group_into f (λ x. x) xs groups))
      ≡ count p (get_or shard [] groups) + count (λ x. f x == shard && p x) xs
unfolding group_into
count-shard_group f p shard [] groups = omega arith
count-shard_group f p shard (x ∷ xs) groups =
    let later =
      count-shard_group f p shard xs (insert (f x) (get_or (f x) [] groups ++ x ∷ []) groups) in
    let put = get_or-insert shard (f x) (get_or (f x) [] groups ++ x ∷ []) [] groups in
    elim (Bool-cases (f x == shard)) [
      | inl here ↦
          let key = (nat_beq_iff (f x) shard).0 here in
          later
          ∙ rw (put, here, key)
              (omega (
                arith,
                sum_map-append (λ y. if p y then 1 else 0) (get_or shard [] groups) (x ∷ []),
              ))
      | inr other ↦ later ∙ rw (put, other) (omega arith)
    ]

-- the edges that a transaction has for a test: one from each of its ends if no field is missing
abbrev pub ends_passing : (AccountEdge → Bool) → Transaction → ℕ
ends_passing p t = elim t.from_bank [
  | none ↦ 0
  | some from_bank ↦ elim t.from_account [
    | none ↦ 0
    | some from_account ↦ elim t.to_bank [
      | none ↦ 0
      | some to_bank ↦ elim t.to_account [
        | none ↦ 0
        | some to_account ↦
            let sender : AccountEdge = record {
              account = (from_bank, from_account);
              other = (to_bank, to_account);
              is_sender = true;
            } in
            let receiver : AccountEdge = record {
              account = (to_bank, to_account);
              other = (from_bank, from_account);
              is_sender = false;
            } in
            (if p sender then 1 else 0) + (if p receiver then 1 else 0)
      ]
    ]
  ]
]

count-edges_of :
    (p : AccountEdge → Bool) (t : Transaction) → count p (edges_of t) ≡ ends_passing p t
unfolding edges_of
count-edges_of p t = elim (Option-cases t.from_bank) [
  | inl e ↦ rw e refl
  | inr (from_bank, e) ↦ elim (Option-cases t.from_account) [
    | inl e1 ↦ rw (e, e1) refl
    | inr (from_account, e1) ↦ elim (Option-cases t.to_bank) [
      | inl e2 ↦ rw (e, e1, e2) refl
      | inr (to_bank, e2) ↦ elim (Option-cases t.to_account) [
        | inl e3 ↦ rw (e, e1, e2, e3) refl
        | inr (to_account, e3) ↦ rw (e, e1, e2, e3) (omega arith)
      ]
    ]
  ]
]

count-all_edges :
    (p : AccountEdge → Bool) (payload : List Transaction)
    → count p (all_edges payload) ≡ sum_map (ends_passing p) payload
unfolding all_edges
count-all_edges p [] = refl
count-all_edges p (t ∷ payload) = omega (
  arith,
  sum_map-append (λ e. if p e then 1 else 0) (edges_of t) (all_edges payload),
  count-edges_of p t,
  count-all_edges p payload,
)

-- For every shard and every test on edges, the edges in the shard that pass it are as many as the
-- transactions without a missing field have: each has an edge from its sender and an edge from
-- its receiver, in the shard that the text of the bank and the account of that end hashes to.
pub count-create_edges_by_shard :
    (hash_of : Text → ℕ) (nodes : ℕ) (p : AccountEdge → Bool) (shard : ℕ)
    (payload : List Transaction)
    → count p (get_or shard [] (create_edges_by_shard hash_of nodes payload))
      ≡ sum_map
          (ends_passing (λ e. hash_of (e.account.0 ++ 46 ∷ e.account.1) % nodes == shard && p e))
          payload
unfolding create_edges_by_shard shard_of dotted get_or lookup
count-create_edges_by_shard hash_of nodes p shard payload =
    let inside : AccountEdge → Bool =
      λ e. shard_of hash_of (dotted e.account) nodes == shard && p e in
    count-shard_group (λ (e : AccountEdge). shard_of hash_of (dotted e.account) nodes) p shard
      (all_edges payload) []
    ∙ omega (arith, count-all_edges inside payload)

-- whether an edge of a list goes from or to an account
abbrev pub has_edge : Bool → Account → Account → List AccountEdge → Bool
has_edge sender account other [] = false
has_edge sender account other (e ∷ es) =
    (((if sender then e.is_sender else not e.is_sender) && e.account == account)
      && e.other == other)
    || has_edge sender account other es

abbrev pub linked : Bool → Account → Account → Graph → Bool
linked sender account other graph =
    let accounts = get_or account ([], []) graph in
    contains other (if sender then accounts.1 else accounts.0)

linked-add_edge :
    (sender : Bool) (account other : Account) (e : AccountEdge) (graph : Graph)
    → linked sender account other (add_edge e graph) ≡ (
        (((if sender then e.is_sender else not e.is_sender) && e.account == account)
          && e.other == other)
        || linked sender account other graph)
unfolding add_edge
linked-add_edge sender account other e graph =
    let (ins, outs) = get_or e.account ([], []) graph in
    rw
      (get_or-insert account e.account
        (if e.is_sender then (ins, add e.other outs) else (add e.other ins, outs)) ([], []) graph)
      (elim (Bool-cases (e.account == account)) [
        | inl same ↦
            let key = (pair_beq_iff e.account account).0 same in
            ground (arith, contains-add e.other other ins, contains-add e.other other outs)
        | inr different ↦ ground arith
      ])

-- After a delta, an account is linked to another, as sender or as receiver, exactly if an edge of
-- the delta links them or they were linked before; the flows of the other clients keep their
-- graphs.
pub linked-apply_delta :
    (c : Text) (delta : List AccountEdge) (flows : Dict Text Graph) (k : Text) (sender : Bool)
    (account other : Account)
    → linked sender account other (get_or k [] (apply_delta c delta flows)) ≡ (
        (c == k && has_edge sender account other delta)
        || linked sender account other (get_or k [] flows))
unfolding apply_delta
linked-apply_delta c [] flows k sender account other = ground arith
linked-apply_delta c (e ∷ delta) flows k sender account other =
    linked-apply_delta c delta (insert c (add_edge e (get_or c [] flows)) flows) k sender account
      other
    ∙ rw (get_or-insert k c (add_edge e (get_or c [] flows)) [] flows) (elim (Bool-cases (c == k)) [
      | inl same ↦
          let key = (list_beq_iff c k).0 same in
          rw (same, linked-add_edge sender account other e (get_or c [] flows), key) (ground arith)
      | inr different ↦ rw different refl
    ])

contains-paths_to :
    (p : Path3) (from mid : Account) (outs : List Account)
    → contains p (paths_to from mid outs)
      ≡ ((from == p.0 && mid == p.1.0) && (contains (p.1.1) outs && not (p.0 == p.1.1)))
unfolding paths_to contains
contains-paths_to p from mid [] = ground arith
contains-paths_to p from mid (to ∷ outs) = ground (
  arith,
  contains-paths_to p from mid outs,
  pair_beq_iff from to,
  pair_beq_iff from p.0,
  pair_beq_iff to p.1.1,
  pair_beq_iff p.0 p.1.1,
)

contains-paths_through :
    (p : Path3) (mid : Account) (ins outs : List Account)
    → contains p (paths_through mid ins outs)
      ≡ ((mid == p.1.0 && contains (p.0) ins) && (contains (p.1.1) outs && not (p.0 == p.1.1)))
unfolding paths_through contains
contains-paths_through p mid [] outs = ground arith
contains-paths_through p mid (from ∷ ins) outs = ground (
  arith,
  contains-append p (paths_to from mid outs) (paths_through mid ins outs),
  contains-paths_to p from mid outs,
  contains-paths_through p mid ins outs,
)

and_regroup : (a b c : Bool) → ((a && (b && c)) || false) ≡ ((a && b) && c)
and_regroup true b c = ground arith
and_regroup false b c = refl

-- the loop body with its guard
contains-paths_of :
    (p : Path3) (mid : Account) (ins outs : List Account) (rest : List Path3)
    → contains p
        (if is_empty ins || is_empty outs then rest else paths_through mid ins outs ++ rest)
      ≡ (((mid == p.1.0 && contains (p.0) ins) && (contains (p.1.1) outs && not (p.0 == p.1.1)))
          || contains p rest)
unfolding is_empty contains
contains-paths_of p mid [] outs rest = ground arith
contains-paths_of p mid (i ∷ ins) [] rest = ground arith
contains-paths_of p mid (i ∷ ins) (o ∷ outs) rest =
    contains-append p (paths_through mid (i ∷ ins) (o ∷ outs)) rest
    ∙ ap (λ b. b || contains p rest) (contains-paths_through p mid (i ∷ ins) (o ∷ outs))

-- A graph without an account twice gives the path from one account through a mid account to
-- another exactly if the mid account received from the first, sent to the last, and these two
-- differ.
pub contains-create_paths :
    (graph : Graph) (from mid to : Account)
    → Distinct (keys graph)
    → contains (from, (mid, to)) (create_paths graph)
      ≡ ((linked false mid from graph && linked true mid to graph) && not (from == to))
unfolding create_paths get_or lookup contains
contains-create_paths [] from mid to d = refl
contains-create_paths ((account, (ins, outs)) ∷ graph) from mid to d =
    contains-paths_of (from, (mid, to)) account ins outs (create_paths graph)
    ∙ rw (contains-create_paths graph from mid to d.1) (elim (Bool-cases (account == mid)) [
      | inl same ↦
          let key = (pair_beq_iff account mid).0 same in
          let absent : lookup mid graph ≡ none = lookup_absent mid graph (rw (← key) d.0) in
          rw (same, absent) (and_regroup (contains from ins) (contains to outs) (not (from == to)))
      | inr other ↦ rw other refl
    ])
