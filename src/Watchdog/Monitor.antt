-- ===== src/Watchdog/Monitor.antt =====
-- src/watchdog/internal/health_monitor.py: how many pongs in a row each monitored host has missed,
-- and which hosts are revived. What answers a round of pings is an argument.
use tp_distribuidos_moneylau.Prelude.{
  ℕ, ◌+◌, ◌==◌, nat_eq, list_eq, leb, contains, Bool, true, false, not, ◌&&◌, ◌||◌, List, [], ◌∷◌,
  if◌then◌else◌, Dict, insert, get_or, get_or-insert, Distinct, ◌≡◌, refl, arith, inl, inr,
  Bool-cases, list_beq_iff,
}
use tp_distribuidos_moneylau.Prelude.Text.{Text}

module _ (max_retries : ℕ) where
  -- one turn of the loop of `_process_results`: the miss counts, and whether `_revive` is called
  unfoldable pub process_result : List Text → Text → Dict Text ℕ → Dict Text ℕ × Bool
  process_result responded node miss_count =
      if contains node responded
      then (insert node 0 miss_count, false)
      else (let counted = insert node (get_or node 0 miss_count + 1) miss_count in
          if leb max_retries (get_or node 0 counted)
          then (insert node 0 counted, true)
          else (counted, false))

  -- `_process_results`: the miss counts, and the hosts that are revived, in order
  unfoldable pub process_results : List Text → List Text → Dict Text ℕ → Dict Text ℕ × List Text
  unfolding process_result
  process_results [] responded miss_count = (miss_count, [])
  process_results (node ∷ hosts) responded miss_count =
      let (counted, revived) = process_result responded node miss_count in
      let (final, others) = process_results hosts responded counted in
      (final, if revived then node ∷ others else others)

  -- a host is due if it misses its pong for the `max_retries`-th time
  abbrev pub is_due : Text → List Text → Dict Text ℕ → Bool
  is_due node responded miss_count =
      not (contains node responded) && leb max_retries (get_or node 0 miss_count + 1)

  -- the miss count that a monitored host has after a round
  abbrev pub misses_after : Text → List Text → Dict Text ℕ → ℕ
  misses_after node responded miss_count =
      if contains node responded || is_due node responded miss_count
      then 0
      else get_or node 0 miss_count + 1

  process_result-misses :
      (responded : List Text) (node other : Text) (miss_count : Dict Text ℕ)
      → (get_or other 0 (process_result responded node miss_count).0 ≡ (
          if node == other
          then misses_after node responded miss_count
          else get_or other 0 miss_count))
        × ((process_result responded node miss_count).1 ≡ is_due node responded miss_count)
  unfolding process_result
  process_result-misses responded node other miss_count =
      let misses = get_or node 0 miss_count + 1 in
      ground (
        arith,
        get_or-insert other node 0 0 miss_count,
        get_or-insert other node misses 0 miss_count,
        get_or-insert node node misses 0 miss_count,
        get_or-insert other node 0 0 (insert node misses miss_count),
        list_beq_iff node node,
      )

  -- A round of the health monitor over distinct hosts: each monitored host's miss count starts
  -- again if it answered or is revived and else grows by one, no other count changes, and the
  -- revived hosts are exactly the monitored ones that did not answer and whose misses, with this
  -- one, reach the maximum of retries or are above it.
  pub process_results-misses :
      (hosts responded : List Text) (node : Text) (miss_count : Dict Text ℕ)
      → Distinct hosts
      → (get_or node 0 (process_results hosts responded miss_count).0 ≡ (
          if contains node hosts
          then misses_after node responded miss_count
          else get_or node 0 miss_count))
        × (contains node (process_results hosts responded miss_count).1
            ≡ (contains node hosts && is_due node responded miss_count))
  unfolding process_results contains
  process_results-misses [] responded node miss_count d = (refl, refl)
  process_results-misses (host ∷ hosts) responded node miss_count d =
      let (rest, due) =
        process_results-misses hosts responded node (process_result responded host miss_count).0
          d.1 in
      let (here, is) = process_result-misses responded host node miss_count in
      elim (Bool-cases (host == node)) [
        | inl same ↦
            let e = (list_beq_iff host node).0 same in ground (arith, list_beq_iff host node)
        | inr other ↦ ground (arith)
      ]
