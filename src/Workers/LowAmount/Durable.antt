-- ===== src/Workers/LowAmount/Durable.antt =====
-- The instances of `AppLaws` for the two low-amount workers.
use tp_distribuidos_moneylau.Prelude.{
  ℕ, ◌+◌, ◌≡◌, ◌≢◌, ◌==◌, refl, Bool, some, List, [], Dict, get_or, lookup, length, erase,
  get_or-insert, get_or-erase, nat_eq, list_eq, list_beq_iff, eq_ne, if◌then◌else◌, arith,
}
use tp_distribuidos_moneylau.Prelude.Text.{Text}
use tp_distribuidos_moneylau.Worker.AppLaws.{AppLaws, restored}
use tp_distribuidos_moneylau.Worker.Hooks.{Sent}
use tp_distribuidos_moneylau.Workers.LowAmount.{
  Count, TransactionAmount, apply_delta, state_as_delta, aggregator, aggregator_handle_data,
  aggregator_flush_data, reducer, reducer_handle_data, reducer_flush_data,
}

count-apply :
    (c k : Text) (d : Count) (counts : Dict Text ℕ)
    → get_or c 0 (apply_delta k d counts)
      ≡ (if k == c then get_or c 0 counts + d.count else get_or c 0 counts)
unfolding apply_delta
count-apply c k d counts =
    rw (get_or-insert c k (get_or k 0 counts + d.count) 0 counts) (ground (arith, list_beq_iff k c))

count-flush :
    (c k : Text) (counts : Dict Text ℕ) → k ≢ c → get_or c 0 (erase k counts) ≡ get_or c 0 counts
count-flush c k counts other = rw (get_or-erase c k 0 counts, eq_ne k c other) refl

count-init : (c : Text) → get_or {V = ℕ} c 0 [] ≡ 0
unfolding get_or lookup
count-init c = refl

count-snapshot :
    (c : Text) (counts : Dict Text ℕ)
    → restored 0 (λ v d. v + d.count) (state_as_delta c counts) ≡ get_or c 0 counts
unfolding state_as_delta
count-snapshot c counts = omega arith

reducer-handled :
    (mid c : Text) (p : Count) (a a' : Dict Text ℕ) (d : Count) (sends : List (Sent (List Count)))
    → reducer_handle_data mid c p a ≡ some (a', d, sends)
    → (a' ≡ apply_delta c d a) × (length sends ≡ 0)
unfolding reducer_handle_data apply_delta
reducer-handled mid c p a a' d sends e = ground arith

module _ {Amount : Type 0} (less : Amount → Amount → Bool) (threshold : Amount) where
  aggregator-handled :
      (mid c : Text) (p : List (TransactionAmount Amount)) (a a' : Dict Text ℕ) (d : Count)
      (sends : List (Sent Count))
      → aggregator_handle_data less threshold mid c p a ≡ some (a', d, sends)
      → (a' ≡ apply_delta c d a) × (length sends ≡ 0)
  unfolding aggregator_handle_data apply_delta
  aggregator-handled mid c p a a' d sends e = ground arith

  -- the laws of the aggregator
  unfoldable pub aggregator_laws : (node_id : ℕ) → AppLaws (aggregator less threshold node_id)
  unfolding aggregator_flush_data count-apply count-flush count-init count-snapshot
      aggregator-handled
  aggregator_laws node_id = record {
    View = ℕ;
    view = λ c counts. get_or c 0 counts;
    start = 0;
    step = λ v d. v + d.count;
    IsValid = λ _. Unit;
    view-init = count-init;
    view-apply = count-apply;
    view-cleanup = λ c k a. get_or-erase c k 0 a;
    view-flush = λ c k a other. count-flush c k a other;
    view-snapshot = λ c a _. count-snapshot c a;
    handled = aggregator-handled;
    IsValid-init = tt;
    IsValid-apply = λ c d a v. tt;
    IsValid-cleanup = λ c a v. tt;
    IsValid-flush = λ c a v. tt;
  }

-- the laws of the reducer
unfoldable pub reducer_laws : (node_id : ℕ) → AppLaws (reducer node_id)
unfolding reducer_flush_data count-apply count-flush count-init count-snapshot reducer-handled
reducer_laws node_id = record {
  View = ℕ;
  view = λ c counts. get_or c 0 counts;
  start = 0;
  step = λ v d. v + d.count;
  IsValid = λ _. Unit;
  view-init = count-init;
  view-apply = count-apply;
  view-cleanup = λ c k a. get_or-erase c k 0 a;
  view-flush = λ c k a other. count-flush c k a other;
  view-snapshot = λ c a _. count-snapshot c a;
  handled = reducer-handled;
  IsValid-init = tt;
  IsValid-apply = λ c d a v. tt;
  IsValid-cleanup = λ c a v. tt;
  IsValid-flush = λ c a v. tt;
}
