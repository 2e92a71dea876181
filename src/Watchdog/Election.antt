-- ===== src/Watchdog/Election.antt =====
-- src/watchdog/main.py: the bully election among the watchdogs, as one watchdog sees it. Its calls of
-- the health monitor, of the health responder and of the peer handlers are the effects of a step. The
-- clock is a number of ticks, read once by a step.
pub mod Laws
use tp_distribuidos_moneylau.Prelude.{
  ℕ, ◌+◌, ◌==◌, nat_eq, ltb, contains, Bool, true, false, not, Option, none, some, List, [], ◌∷◌,
  ◌++◌, map, if◌then◌else◌, ◌>>=◌,
}

pub record Config : Type 0 where
  pub watchdog_id : ℕ
  pub peers : List ℕ
  pub election_timeout : ℕ

pub data Role : Type 0 where
  follower leader : Role

pub data Phase : Type 0 where
  idle awaiting_answer awaiting_coordinator : Phase

-- ELECTION, ANSWER and COORDINATOR, each with the node id that it carries
pub data Message : Type 0 where
  election answer coordinator : ℕ → Message

pub data Effect : Type 0 where
  send : ℕ → Message → Effect
  monitor_start monitor_stop responder_start responder_stop : Effect

pub record Watchdog : Type 0 where
  pub role : Role
  pub leader_id : Option ℕ
  pub phase : Phase
  pub deadline : ℕ
  pub closed : Bool

-- what the queue of events hands to the loop: a message from a peer, the loss of a peer, and the
-- end of the wait
pub data Event : Type 0 where
  message : ℕ → Message → Event
  disconnect : ℕ → Event
  timeout : Event

-- `__init__`
abbrev pub initial : Watchdog
initial = record { role = follower; leader_id = none; phase = idle; deadline = 0; closed = false }

unfoldable pub filter_ids : (ℕ → Bool) → List ℕ → List ℕ
filter_ids p [] = []
filter_ids p (x ∷ xs) = if p x then x ∷ filter_ids p xs else filter_ids p xs

module _ (config : Config) where
  -- the keys of `self._peer_handlers`
  unfoldable pub handler_ids : List ℕ
  unfolding filter_ids
  handler_ids = filter_ids (λ id. not (id == config.watchdog_id)) config.peers

  unfoldable pub higher_peer_ids : List ℕ
  unfolding filter_ids
  higher_peer_ids = filter_ids (λ id. ltb config.watchdog_id id) config.peers

  unfoldable pub send_to_peers : List ℕ → Message → List Effect
  send_to_peers ids msg = map (λ id. send id msg) ids

  unfoldable pub broadcast_coordinator : List Effect
  unfolding send_to_peers handler_ids
  broadcast_coordinator = send_to_peers handler_ids (coordinator config.watchdog_id)

  -- `_become_role(LEADER)`
  unfoldable pub become_leader : Watchdog → Watchdog × List Effect
  unfolding broadcast_coordinator
  become_leader w = (
    record w { role = leader; leader_id = some config.watchdog_id; phase = idle },
    broadcast_coordinator ++ monitor_start ∷ responder_stop ∷ [],
  )

  -- `_become_role(FOLLOWER, leader_id)`
  unfoldable pub become_follower : ℕ → Watchdog → Watchdog × List Effect
  become_follower leader_id w = (
    record w { role = follower; leader_id = some leader_id; phase = idle },
    monitor_stop ∷ responder_start ∷ [],
  )

  unfoldable pub enter_phase : Phase → ℕ → Watchdog → Watchdog
  enter_phase phase now w = record w { phase = phase; deadline = now + config.election_timeout }

  unfoldable pub start_election : ℕ → Watchdog → Watchdog × List Effect
  unfolding higher_peer_ids become_leader send_to_peers enter_phase
  start_election now w = if w.closed then (w, []) else elim higher_peer_ids [
    | [] ↦ become_leader (record w { leader_id = none })
    | id ∷ ids ↦ (
      enter_phase awaiting_answer now (record w { leader_id = none }),
      send_to_peers (id ∷ ids) (election config.watchdog_id),
    )
  ]

  unfoldable pub handle_election_timeout : ℕ → Watchdog → Watchdog × List Effect
  unfolding become_leader start_election
  handle_election_timeout now w = elim w.phase [
    | idle ↦ (w, [])
    | awaiting_answer ↦ become_leader w
    | awaiting_coordinator ↦ start_election now w
  ]

  -- the answer goes to a peer that has a handler: none is the KeyError of any other
  unfoldable pub handle_election_message : ℕ → ℕ → Watchdog → Option (Watchdog × List Effect)
  unfolding handler_ids broadcast_coordinator start_election
  handle_election_message now peer_id w =
      if contains peer_id handler_ids
      then (let reply = send peer_id (answer config.watchdog_id) in
          elim w.role [
            | leader ↦ some (w, reply ∷ broadcast_coordinator)
            | follower ↦ let (w', effects) = start_election now w in some (w', reply ∷ effects)
          ])
      else none

  unfoldable pub handle_coordinator_message : ℕ → ℕ → Watchdog → Watchdog × List Effect
  unfolding start_election become_follower
  handle_coordinator_message now leader_id w =
      if ltb leader_id config.watchdog_id then start_election now w else become_follower leader_id w

  unfoldable pub handle_answer_message : ℕ → Watchdog → Watchdog
  unfolding enter_phase
  handle_answer_message now w = elim w.phase [
    | idle ↦ w
    | awaiting_answer ↦ enter_phase awaiting_coordinator now w
    | awaiting_coordinator ↦ w
  ]

  unfoldable pub handle_message : ℕ → ℕ → Message → Watchdog → Option (Watchdog × List Effect)
  unfolding handle_election_message handle_answer_message handle_coordinator_message
  handle_message now peer_id (election _) w = handle_election_message now peer_id w
  handle_message now peer_id (answer _) w = some (handle_answer_message now w, [])
  handle_message now peer_id (coordinator node_id) w =
      some (handle_coordinator_message now node_id w)

  unfoldable pub handle_disconnect : ℕ → ℕ → Watchdog → Watchdog × List Effect
  unfolding start_election
  handle_disconnect now peer_id w = elim w.leader_id [
    | none ↦ (w, [])
    | some id ↦ if peer_id == id then start_election now w else (w, [])
  ]

  -- one turn of `_event_loop`
  unfoldable pub handle_event : ℕ → Event → Watchdog → Option (Watchdog × List Effect)
  unfolding handle_message handle_disconnect handle_election_timeout
  handle_event now (message peer_id msg) w = handle_message now peer_id msg w
  handle_event now (disconnect peer_id) w = some (handle_disconnect now peer_id w)
  handle_event now timeout w = some (handle_election_timeout now w)

  -- the turns of `_event_loop`, each with the time at which it runs
  unfoldable pub handle_events : List (ℕ × Event) → Watchdog → Option (Watchdog × List Effect)
  unfolding handle_event
  handle_events [] w = some (w, [])
  handle_events ((now, event) ∷ events) w = do
    (w', effects) ← handle_event now event w
    (w'', more) ← handle_events events w'
    some (w'', effects ++ more)

  -- `_event_loop`
  unfoldable pub event_loop : ℕ → List (ℕ × Event) → Option (Watchdog × List Effect)
  unfolding start_election handle_events
  event_loop now events =
      let (w, effects) = start_election now initial in
      do (w', more) ← handle_events events w; some (w', effects ++ more)
