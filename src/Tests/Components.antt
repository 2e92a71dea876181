-- ===== src/Tests/Components.antt =====
-- Runs of the watchdogs, the side input tracker, the sharded flush and the bank maxima.
use tp_distribuidos_moneylau.Prelude.{count}
use tp_distribuidos_moneylau.Prelude.{
  ℕ, ◌+◌, ◌≡◌, ◌==◌, ◌&&◌, refl, Bool, false, Option, none, some, List, [], ◌∷◌, nat_eq, list_eq,
  nat_beq, arith, if◌then◌else◌, lookup, get_or, contains, ltb,
}
use tp_distribuidos_moneylau.Prelude.Int.{pos}
use tp_distribuidos_moneylau.Prelude.Text.{Text, text}
use tp_distribuidos_moneylau.Watchdog.Election.{
  Config, Watchdog, Effect, Event, message, timeout, coordinator, answer, initial, event_loop,
  handle_events, higher_peer_ids, leader, idle, awaiting_answer, follower,
}
use tp_distribuidos_moneylau.Watchdog.Election.Laws.{
  IsConsistent, event_loop-IsConsistent, election-ends,
}
use tp_distribuidos_moneylau.Watchdog.Monitor.{
  process_results, misses_after, is_due, process_results-misses,
}
use tp_distribuidos_moneylau.Worker.SideInput.{empty, fires, is_ready, batch, expect, fires-once}
use tp_distribuidos_moneylau.Worker.Sharding.{flush_sharded}
use tp_distribuidos_moneylau.Worker.Sharding.Laws.{count_sent, count-flush_sharded}
use tp_distribuidos_moneylau.Workers.BankMax.{beats, raise_all}
use tp_distribuidos_moneylau.Workers.BankMax.Laws.{IsOrder, best, raise_all-delta}

abbrev config : Config
config = record { watchdog_id = 2; peers = 1 ∷ 2 ∷ 3 ∷ []; election_timeout = 5 }

abbrev events : List (ℕ × Event)
events = (3, message 3 (answer 3)) ∷ (4, message 3 (coordinator 3)) ∷ []

abbrev outcome : Option (Watchdog × List Effect) → Watchdog × List Effect
outcome none = (initial, [])
outcome (some r) = r

looped : event_loop config 1 events ≡ some (outcome (event_loop config 1 events))
unfolding event_loop
looped = refl

event_loop-IsConsistent_example : IsConsistent config (outcome (event_loop config 1 events)).0
event_loop-IsConsistent_example =
    event_loop-IsConsistent config 1 events {r = outcome (event_loop config 1 events)} looped

-- a watchdog that waits for an answer
abbrev waiting : Watchdog
waiting = record {
  role = follower;
  leader_id = none;
  phase = awaiting_answer;
  deadline = 6;
  closed = false;
}

waiting-IsConsistent : IsConsistent config waiting
unfolding higher_peer_ids
waiting-IsConsistent = record { running = refl; knows = (refl, λ e. cc) }

election-ends_example :
    (w' : Watchdog) × (effects : List Effect) × (handle_events config
        ((6, timeout) ∷ (9, timeout) ∷ [])
        waiting
      ≡ some (w', effects))
    × (w'.role ≡ leader)
    × (w'.phase ≡ idle)
    × (w'.leader_id ≡ some 2)
election-ends_example = election-ends config 6 9 waiting waiting-IsConsistent (λ e. cc)

process_results-misses_example :
    (get_or (text "a") 0 (process_results 3 (text "a" ∷ []) [] []).0 ≡ (
      if contains (text "a") (text "a" ∷ [])
      then misses_after 3 (text "a") [] []
      else get_or (text "a") 0 []))
    × (contains (text "a") (process_results 3 (text "a" ∷ []) [] []).1
        ≡ (contains (text "a") (text "a" ∷ []) && is_due 3 (text "a") [] []))
unfolding contains
process_results-misses_example =
    process_results-misses 3 (text "a" ∷ []) [] (text "a") [] (refl, tt)

fires-once_example :
    (fires (text "a") (batch (text "a") ∷ expect (text "a") (pos 1) ∷ []) empty).0
      + (if is_ready (text "a") empty then 1 else 0)
    ≡ (if is_ready
          (text "a")
          (fires (text "a") (batch (text "a") ∷ expect (text "a") (pos 1) ∷ []) empty).1
        then 1
        else 0)
fires-once_example = fires-once (batch (text "a") ∷ expect (text "a") (pos 1) ∷ []) (text "a") empty

abbrev first_char : Text → ℕ
first_char [] = 0
first_char (c ∷ s) = c

count-flush_sharded_example :
    count_sent {A = ℕ}
      (λ n. n == 7)
      (flush_sharded first_char 0 (text "a") (λ (n : ℕ). n ∷ []) 2 1 (λ s. s ∷ []) (7 ∷ 8 ∷ 7 ∷ []))
    ≡ count {A = ℕ} (λ n. n == 7) (7 ∷ 8 ∷ 7 ∷ [])
count-flush_sharded_example =
    count-flush_sharded first_char 0 (text "a") (λ n. n ∷ []) 2 1 (λ s. s ∷ []) (λ n. n == 7)
      (7 ∷ 8 ∷ 7 ∷ [])

abbrev greater : ℕ → ℕ → Bool
greater a b = ltb b a

abbrev never : Text → Text → Bool
never a b = false

usual-IsOrder : IsOrder greater nat_beq never
unfolding beats
usual-IsOrder = record {
  transitive = λ x y z p q. ground arith;
  cotransitive = λ x y z p. ground arith;
}

abbrev entries : List (Text × (Text × ℕ))
entries = (text "1", (text "x", 5)) ∷ (text "1", (text "y", 9)) ∷ []

raise_all-delta_example :
    (lookup
        (text "1")
        (raise_all greater nat_beq never (raise_all greater nat_beq never entries []) [])
      ≡ lookup (text "1") (raise_all greater nat_beq never entries []))
    × (lookup (text "1") (raise_all greater nat_beq never entries [])
        ≡ best greater nat_beq never (text "1") (lookup (text "1") []) entries)
raise_all-delta_example = raise_all-delta greater nat_beq never usual-IsOrder (text "1") entries []
