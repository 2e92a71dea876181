-- ===== src/Worker/Sharding/Laws.antt =====
-- Laws about what `_flush_sharded` of src/common/worker/stateful_worker.py sends.
use tp_distribuidos_moneylau.Prelude.{
  ℕ, ◌+◌, ◌/◌, ◌%◌, ◌==◌, nat_eq, Bool, List, [], ◌∷◌, ◌++◌, if◌then◌else◌, Dict, insert, lookup,
  get_or, ◌≡◌, refl, arith, inl, inr, Bool-cases, map, sum_map, count, sum_map-append, sum_map-map,
}
use tp_distribuidos_moneylau.Prelude.Text.{Text}
use tp_distribuidos_moneylau.Worker.Hooks.{Sent}
use tp_distribuidos_moneylau.Worker.Sharding.{
  group_into, num_buckets, hashed, bucket_batches, shard_batches, flush_sharded,
}

-- the same over the groups of a dict
abbrev pub count_groups {ℓ} : {B : Type ℓ} → (B → Bool) → Dict ℕ (List B) → ℕ
count_groups p = sum_map (λ entry. count p entry.1)

-- the same over the batches that are sent
abbrev pub count_sent : {A : Type 0} → (A → Bool) → List (Sent (List A)) → ℕ
count_sent p = sum_map (λ sent. count p sent.body)

count-insert {ℓ} :
    {B : Type ℓ} (p : B → Bool) (k : ℕ) (v : List B) (d : Dict ℕ (List B))
    → count_groups p (insert k v d) + count p (get_or k [] d) ≡ count_groups p d + count p v
unfolding insert get_or lookup
count-insert p k v [] = omega arith
count-insert p k v ((j, ys) ∷ d) = elim (Bool-cases (j == k)) [
  | inl same ↦ rw same (omega arith)
  | inr other ↦ rw other (omega (arith, count-insert p k v d))
]

count-grouped {ℓ} :
    {B : Type ℓ} (p : B → Bool) (k : ℕ) (y : B) (d : Dict ℕ (List B))
    → count_groups p (insert k (get_or k [] d ++ y ∷ []) d)
      ≡ count_groups p d + (if p y then 1 else 0)
count-grouped p k y d = omega (
  arith,
  count-insert p k (get_or k [] d ++ y ∷ []) d,
  sum_map-append (λ x. if p x then 1 else 0) (get_or k [] d) (y ∷ []),
)

pub count-group_into {ℓ κ} :
    {A : Type ℓ} {B : Type κ} (f : A → ℕ) (g : A → B) (p : B → Bool) (xs : List A)
    (groups : Dict ℕ (List B))
    → count_groups p (group_into f g xs groups) ≡ count_groups p groups + count (λ x. p (g x)) xs
unfolding group_into
count-group_into f g p [] groups = omega arith
count-group_into f g p (x ∷ xs) groups = omega (
  arith,
  count-group_into f g p xs (insert (f x) (get_or (f x) [] groups ++ g x ∷ []) groups),
  count-grouped p (f x) (g x) groups,
)

module _ {A : Type 0} (hash_of : Text → ℕ) (node_id : ℕ) (client_id : Text) (key_of : A → Text)
    (num_shards batch_size : ℕ) (routing_key_for : ℕ → Text) where
  count-bucket_batches :
      (p : A → Bool) (shard : ℕ) (buckets : Dict ℕ (List A))
      → count_sent p (
          bucket_batches hash_of node_id client_id key_of num_shards batch_size routing_key_for
            shard buckets)
        ≡ count_groups p buckets
  unfolding bucket_batches
  count-bucket_batches p shard [] = refl
  count-bucket_batches p shard ((b, items) ∷ buckets) =
      omega (arith, count-bucket_batches p shard buckets)

  count-shard_batches :
      (p : A → Bool) (shards : Dict ℕ (List (ℕ × A)))
      → count_sent p (
          shard_batches hash_of node_id client_id key_of num_shards batch_size routing_key_for
            shards)
        ≡ count_groups (λ q. p q.1) shards
  unfolding shard_batches
  count-shard_batches p [] = refl
  count-shard_batches p ((shard, pairs) ∷ shards) =
      let buckets =
        group_into
          (λ q.
            (q.0 / num_shards)
            % num_buckets hash_of node_id client_id key_of num_shards batch_size routing_key_for
                pairs)
          (λ q. q.1) pairs [] in
      omega (
        arith,
        sum_map-append (λ (sent : Sent (List A)). count p sent.body)
            (bucket_batches hash_of node_id client_id key_of num_shards batch_size routing_key_for
              shard buckets)
            (shard_batches hash_of node_id client_id key_of num_shards batch_size routing_key_for
              shards),
        count-bucket_batches p shard buckets,
        count-group_into
            (λ (q : ℕ × A).
              (q.0 / num_shards)
              % num_buckets hash_of node_id client_id key_of num_shards batch_size routing_key_for
                  pairs)
            (λ q. q.1) p pairs [],
        count-shard_batches p shards,
      )

  -- A sharded flush sends every item exactly once: for every test on items, the batches together
  -- hold as many items that pass it as the flow did.
  pub count-flush_sharded :
      (p : A → Bool) (items : List A)
      → count_sent p (
          flush_sharded hash_of node_id client_id key_of num_shards batch_size routing_key_for
            items)
        ≡ count p items
  unfolding flush_sharded hashed
  count-flush_sharded p items =
      let pairs : List (ℕ × A) = map (λ item. (hash_of (key_of item), item)) items in
      omega (
        arith,
        count-shard_batches p (group_into (λ (q : ℕ × A). q.0 % num_shards) (λ q. q) pairs []),
        count-group_into (λ (q : ℕ × A). q.0 % num_shards) (λ q. q) (λ q. p q.1) pairs [],
        sum_map-map {A = A} {B = ℕ × A} (λ q. if p q.1 then 1 else 0)
            (λ item. (hash_of (key_of item), item)) items,
      )
