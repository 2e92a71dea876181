-- ===== src/Watchdog/Election/Laws.antt =====
-- Laws about the state of a watchdog in the election (src/watchdog/main.py).
use tp_distribuidos_moneylau.Prelude.{
  ℕ, ◌≤◌, ◌==◌, nat_eq, ltb, false, Option, none, some, List, [], ◌∷◌, ◌≡◌, ◌≢◌, refl, arith, ◌⊎◌,
  inl, inr, Option-cases, Bool-cases,
}
use tp_distribuidos_moneylau.Watchdog.Election.{
  Config, Role, follower, leader, Phase, idle, awaiting_answer, awaiting_coordinator, election,
  answer, coordinator, Effect, Watchdog, initial, Event, message, disconnect, timeout,
  higher_peer_ids, become_follower, start_election, handle_election_timeout,
  handle_election_message, handle_coordinator_message, handle_answer_message, handle_disconnect,
  handle_event, handle_events, event_loop,
}

List-cases : (xs : List ℕ) → (xs ≡ []) ⊎ ((y : ℕ) × (ys : List ℕ) × (xs ≡ y ∷ ys))
List-cases [] = inl refl
List-cases (x ∷ xs) = inr (x, xs, refl)

Phase-cases : (p : Phase) → (p ≡ idle) ⊎ (p ≡ awaiting_answer) ⊎ (p ≡ awaiting_coordinator)
Phase-cases idle = inl refl
Phase-cases awaiting_answer = inr (inl refl)
Phase-cases awaiting_coordinator = inr (inr refl)

Role-cases : (r : Role) → (r ≡ follower) ⊎ (r ≡ leader)
Role-cases follower = inl refl
Role-cases leader = inr refl

module _ (config : Config) where
  -- An idle watchdog knows its leader: itself if it leads, and nobody with a lower id if it
  -- follows. A watchdog in an election knows none and has a peer with a higher id.
  abbrev pub Knows : Role → Phase → Option ℕ → Type 0
  Knows leader idle l = l ≡ some config.watchdog_id
  Knows follower idle l = (id : ℕ) × (l ≡ some id) × (config.watchdog_id ≤ id)
  Knows r awaiting_answer l = (l ≡ none) × (higher_peer_ids config ≢ [])
  Knows r awaiting_coordinator l = (l ≡ none) × (higher_peer_ids config ≢ [])

  pub record IsConsistent (w : Watchdog) : Type 0 where
    pub running : w.closed ≡ false
    pub knows : Knows w.role w.phase w.leader_id

  start_election-IsConsistent :
      (now : ℕ) (w : Watchdog) → w.closed ≡ false → IsConsistent (start_election config now w).0
  unfolding start_election
  start_election-IsConsistent now w running = elim (List-cases (higher_peer_ids config)) [
    | inl alone ↦ rw (running, alone) (record { running = running; knows = refl })
    | inr (id, ids, e) ↦ rw (running, e) (record { running = running; knows = (refl, λ x. cc) })
  ]

  follower-IsConsistent :
      (id : ℕ) (w : Watchdog)
      → ltb id config.watchdog_id ≡ false
      → w.closed ≡ false
      → IsConsistent (become_follower config id w).0
  unfolding become_follower
  follower-IsConsistent id w up running = record {
    running = running;
    knows = (id, refl, ground arith);
  }

  coordinator-IsConsistent :
      (now id : ℕ) (w : Watchdog)
      → w.closed ≡ false
      → IsConsistent (handle_coordinator_message config now id w).0
  unfolding handle_coordinator_message
  coordinator-IsConsistent now id w running = elim (Bool-cases (ltb id config.watchdog_id)) [
    | inl lower ↦ rw lower (start_election-IsConsistent now w running)
    | inr up ↦ rw up (follower-IsConsistent id w up running)
  ]

  timeout-IsConsistent :
      (now : ℕ) (w : Watchdog)
      → IsConsistent w
      → IsConsistent (handle_election_timeout config now w).0
  unfolding handle_election_timeout
  timeout-IsConsistent now w c = elim (Phase-cases w.phase) [
    | inl p ↦ let same : (handle_election_timeout config now w).0 ≡ w = rw p refl in rw same c
    | inr (inl p) ↦ rw p (record { running = c.running; knows = refl })
    | inr (inr p) ↦
        rw p (start_election-IsConsistent now (record w { phase = awaiting_coordinator }) c.running)
  ]

  answer-IsConsistent :
      (now : ℕ) (w : Watchdog) → IsConsistent w → IsConsistent (handle_answer_message config now w)
  unfolding handle_answer_message
  answer-IsConsistent now w c = elim (Phase-cases w.phase) [
    | inl p ↦ let same : handle_answer_message config now w ≡ w = rw p refl in rw same c
    | inr (inl p) ↦ rw p (record { running = c.running; knows = rw p at (c.knows) })
    | inr (inr p) ↦ let same : handle_answer_message config now w ≡ w = rw p refl in rw same c
  ]

  disconnect-IsConsistent :
      (now peer_id : ℕ) (w : Watchdog)
      → IsConsistent w
      → IsConsistent (handle_disconnect config now peer_id w).0
  unfolding handle_disconnect
  disconnect-IsConsistent now peer_id w c = elim (Option-cases w.leader_id) [
    | inl n ↦ let same : (handle_disconnect config now peer_id w).0 ≡ w = rw n refl in rw same c
    | inr (id, e) ↦ elim (Bool-cases (peer_id == id)) [
      | inl same ↦
          rw (e, same)
            (start_election-IsConsistent now (record w { leader_id = some id }) c.running)
      | inr other ↦
          let same : (handle_disconnect config now peer_id w).0 ≡ w = rw (e, other) refl in
          rw same c
    ]
  ]

  election-IsConsistent :
      (now peer_id : ℕ) (w : Watchdog) {r : _}
      → IsConsistent w
      → handle_election_message config now peer_id w ≡ some r
      → IsConsistent (r.0)
  unfolding handle_election_message
  election-IsConsistent now peer_id w {r} c e = elim (Role-cases w.role) [
    | inl p ↦
        let same : (start_election config now w).0 ≡ r.0 = ground arith in
        rw (← same) (start_election-IsConsistent now w c.running)
    | inr p ↦ let same : w ≡ r.0 = ground arith in rw (← same) c
  ]

  -- Every event keeps it.
  handle_event-IsConsistent :
      (now : ℕ) (event : Event) (w : Watchdog) {r : _}
      → IsConsistent w
      → handle_event config now event w ≡ some r
      → IsConsistent (r.0)
  unfolding handle_event
  handle_event-IsConsistent now (message peer_id (election _)) w {r} c e =
      election-IsConsistent now peer_id w {r = r} c e
  handle_event-IsConsistent now (message peer_id (answer _)) w {r} c e =
      let same : handle_answer_message config now w ≡ r.0 = cc in
      rw (← same) (answer-IsConsistent now w c)
  handle_event-IsConsistent now (message peer_id (coordinator id)) w {r} c e =
      let same : handle_coordinator_message config now id w ≡ r = cc in
      rw (← same) (coordinator-IsConsistent now id w c.running)
  handle_event-IsConsistent now (disconnect peer_id) w {r} c e =
      let same : handle_disconnect config now peer_id w ≡ r = cc in
      rw (← same) (disconnect-IsConsistent now peer_id w c)
  handle_event-IsConsistent now timeout w {r} c e =
      let same : handle_election_timeout config now w ≡ r = cc in
      rw (← same) (timeout-IsConsistent now w c)

  handle_events-IsConsistent :
      (events : List (ℕ × Event)) (w : Watchdog) {r : _}
      → IsConsistent w
      → handle_events config events w ≡ some r
      → IsConsistent (r.0)
  unfolding handle_events
  handle_events-IsConsistent [] w {r} c e = let same : (w, []) ≡ r = cc in rw (← same) c
  handle_events-IsConsistent ((now, event) ∷ events) w {r} c e =
      elim (Option-cases (handle_event config now event w)) [
        | inl failed ↦ let e' = rw failed at e in cc
        | inr (first, done) ↦ elim (Option-cases (handle_events config events (first.0))) [
          | inl failed ↦ let e' = rw (done, failed) at e in cc
          | inr (last, more) ↦
              let same : last.0 ≡ r.0 = let e' = rw (done, more) at e in ground arith in
              rw (← same) (
                handle_events-IsConsistent events (first.0) {r = last}
                  (handle_event-IsConsistent now event w {r = first} c done) more)
        ]
      ]

  -- After any events from the start of its loop on, a watchdog that is in no election knows a
  -- leader, which is itself if it leads and has no lower id than its own if it follows; one that
  -- is in an election knows no leader and has a peer with a higher id.
  pub event_loop-IsConsistent :
      (now : ℕ) (events : List (ℕ × Event)) {r : _}
      → event_loop config now events ≡ some r
      → IsConsistent (r.0)
  unfolding event_loop
  event_loop-IsConsistent now events {r} e =
      let begun = start_election config now initial in
      elim (Option-cases (handle_events config events (begun.0))) [
        | inl failed ↦ let e' = rw failed at e in cc
        | inr (last, more) ↦
            let same : last.0 ≡ r.0 = let e' = rw more at e in ground arith in
            rw (← same) (
              handle_events-IsConsistent events (begun.0) {r = last}
                (start_election-IsConsistent now initial refl) more)
      ]

  -- Two timeouts in a row make a watchdog that is in an election, and in a state as the loop
  -- reaches it, lead: it is then in no election and knows itself as the leader.
  pub election-ends :
      (now later : ℕ) (w : Watchdog)
      → IsConsistent w
      → w.phase ≢ idle
      → (w' : Watchdog) × (effects : List Effect) × (handle_events config
            ((now, timeout) ∷ (later, timeout) ∷ [])
            w
          ≡ some (w', effects))
        × (w'.role ≡ leader)
        × (w'.phase ≡ idle)
        × (w'.leader_id ≡ some config.watchdog_id)
  unfolding handle_events
  election-ends now later w c busy = elim (Phase-cases w.phase) [
    | inl p ↦ absurd (busy p)
    | inr (inl p) ↦ rw p (_, _, refl, refl, refl, refl)
    | inr (inr p) ↦ elim (List-cases (higher_peer_ids config)) [
      | inl alone ↦ let k = rw p at (c.knows) in absurd (k.1 alone)
      | inr (id, ids, e) ↦ rw (p, c.running, e) (_, _, refl, refl, refl, refl)
    ]
  ]
