-- ===== src/Worker/Sharding.antt =====
-- src/common/worker/utils/sharding.py and `_flush_sharded` of src/common/worker/stateful_worker.py: the items
-- of a flow are sent in batches that depend only on their content. `hash_of` (MD5) is an argument.
pub mod Laws
use tp_distribuidos_moneylau.Prelude.{
  ℕ, suc, ◌+◌, ◌/◌, ◌%◌, ◌-◌, ◌==◌, nat_eq, Eq, Bool, true, false, Option, none, some, List, [],
  ◌∷◌, ◌++◌, length, if◌then◌else◌, Dict, insert, lookup, get_or, ltb, ◌≡◌, refl, arith, inl, inr,
  Bool-cases, map, or_else, All, All-append,
}
use tp_distribuidos_moneylau.Prelude.Text.{Text}
use tp_distribuidos_moneylau.Ids.{flush_id}
use tp_distribuidos_moneylau.Worker.Hooks.{Sent}

-- `math.ceil(n / size)`; a size of 0 is a ZeroDivisionError, which the configuration rules out
unfoldable pub ceil_div : ℕ → ℕ → ℕ
ceil_div n size = (n + size - 1) / size

-- `d = defaultdict(list)` and `d[f(x)].append(g(x))` for each item in order
module _ {ℓ κ} {A : Type ℓ} {B : Type κ} (f : A → ℕ) (g : A → B) where
  unfoldable pub group_into : List A → Dict ℕ (List B) → Dict ℕ (List B)
  group_into [] groups = groups
  group_into (x ∷ xs) groups =
      group_into xs (insert (f x) (get_or (f x) [] groups ++ g x ∷ []) groups)

-- `shard_of`
unfoldable pub shard_of : (Text → ℕ) → Text → ℕ → ℕ
shard_of hash_of key num_shards = hash_of key % num_shards

module _ {A : Type 0} (hash_of : Text → ℕ) where
  module _ (node_id : ℕ) (client_id : Text) (key_of : A → Text) (num_shards batch_size : ℕ)
      (routing_key_for : ℕ → Text) where
    unfoldable pub num_buckets : List (ℕ × A) → ℕ
    unfolding ceil_div
    num_buckets pairs = let n = ceil_div (length pairs) batch_size in if ltb n 1 then 1 else n

    -- `(h, item)` with `h = hash_of(key_of(item))`
    unfoldable pub hashed : List A → List (ℕ × A)
    hashed items = map (λ item. (hash_of (key_of item), item)) items

    -- the batches of one shard
    unfoldable pub bucket_batches : ℕ → Dict ℕ (List A) → List (Sent (List A))
    bucket_batches shard [] = []
    bucket_batches shard ((bucket, items) ∷ buckets) =
        record {
          client_id = client_id;
          body = items;
          routing_key = some (routing_key_for shard);
          message_id = flush_id node_id client_id bucket;
        }
        ∷ bucket_batches shard buckets

    -- the loop over the shards
    unfoldable pub shard_batches : Dict ℕ (List (ℕ × A)) → List (Sent (List A))
    unfolding bucket_batches num_buckets group_into
    shard_batches [] = []
    shard_batches ((shard, pairs) ∷ shards) =
        bucket_batches shard
          (group_into (λ p. (p.0 / num_shards) % num_buckets pairs) (λ p. p.1) pairs [])
        ++ shard_batches shards

    -- `_flush_sharded`: what is sent
    unfoldable pub flush_sharded : List A → List (Sent (List A))
    unfolding shard_batches group_into hashed
    flush_sharded items =
        shard_batches (group_into (λ p. p.0 % num_shards) (λ p. p) (hashed items) [])
