-- ===== src/Gateway/Registry.antt =====
-- src/gateway/internal/client_registry.py, and the cycle of src/gateway/internal/reaper.py that reads
-- it. Each method runs whole under the registry's lock. Time is in ticks, and is an argument.
pub mod Laws
use tp_distribuidos_moneylau.Prelude.{
  ℕ, ◌+◌, ◌==◌, nat_eq, list_eq, ltb, Bool, true, false, not, ◌&&◌, Option, none, some, List, [],
  ◌∷◌, ◌++◌, if◌then◌else◌, Dict, lookup, insert, erase,
}
use tp_distribuidos_moneylau.Prelude.Text.{Text}
use tp_distribuidos_moneylau.Gateway.Router.{Forward, Router, forward_cleanup_eof}

pub record ClientState : Type 0 where
  pub timestamp : ℕ
  pub connected : Bool

-- a record of the store
pub record ClientRecord : Type 0 where
  pub client_id : Text
  pub timestamp : ℕ

-- `store` holds the records on disk; it is none where no STATE_DIR is set
pub record ClientRegistry : Type 0 where
  pub states : Dict Text ClientState
  pub store : Option (List ClientRecord)

-- `__init__`, over the records that are on disk
abbrev pub opened : Option (List ClientRecord) → ClientRegistry
opened store = record { states = []; store = store }

-- the loop of `_persist_locked`
unfoldable pub records_of : Dict Text ClientState → List ClientRecord
records_of [] = []
records_of ((client_id, state) ∷ states) =
    record { client_id = client_id; timestamp = state.timestamp } ∷ records_of states

-- `_persist_locked`, and `persist`
unfoldable pub persist : ClientRegistry → ClientRegistry
unfolding records_of
persist r = elim r.store [ none ↦ r | some _ ↦ record r { store = some (records_of r.states) } ]

-- the loop of `load`
unfoldable pub load_records : ℕ → List ClientRecord → Dict Text ClientState → Dict Text ClientState
load_records now [] states = states
load_records now (rec ∷ records) states =
    load_records now records
      (insert rec.client_id (record { timestamp = now; connected = false }) states)

unfoldable pub load : ℕ → ClientRegistry → ClientRegistry
unfolding load_records
load now r = elim r.store [
  | none ↦ r
  | some records ↦ record r { states = load_records now records r.states }
]

unfoldable pub connect : ℕ → Text → ClientRegistry → ClientRegistry
unfolding persist
connect now client_id r =
    persist (record r {
      states = insert client_id (record { timestamp = now; connected = true }) r.states;
    })

unfoldable pub touch : ℕ → Text → ClientRegistry → ClientRegistry
touch now client_id r = elim (lookup client_id r.states) [
  | none ↦ r
  | some state ↦ record r { states = insert client_id (record state { timestamp = now }) r.states }
]

unfoldable pub disconnect : ℕ → Text → ClientRegistry → ClientRegistry
unfolding persist
disconnect now client_id r = elim (lookup client_id r.states) [
  | none ↦ r
  | some state ↦ persist (record r {
    states = insert client_id (record { timestamp = now; connected = false }) r.states;
  })
]

unfoldable pub remove : Text → ClientRegistry → ClientRegistry
unfolding persist
remove client_id r = persist (record r { states = erase client_id r.states })

-- `not state["connected"] and now - state["timestamp"] > timeout`
unfoldable pub is_dead : ℕ → ℕ → ClientState → Bool
is_dead now timeout state = not state.connected && ltb (state.timestamp + timeout) now

-- the loop of `dead_clients`
unfoldable pub dead_in : ℕ → ℕ → Dict Text ClientState → List Text
unfolding is_dead
dead_in now timeout [] = []
dead_in now timeout ((client_id, state) ∷ states) =
    let rest = dead_in now timeout states in
    if is_dead now timeout state then client_id ∷ rest else rest

unfoldable pub dead_clients : ℕ → ℕ → ClientRegistry → List Text
unfolding dead_in
dead_clients now timeout r = dead_in now timeout r.states

-- what the reaper does beside the registry: a message to the pipeline, and `_delete_results_queue`
pub data ReaperEffect : Type 0 where
  forward : Forward → ReaperEffect
  delete_results_queue : Text → ReaperEffect

unfoldable pub forward_all : List Forward → List ReaperEffect
forward_all [] = []
forward_all (f ∷ fs) = forward f ∷ forward_all fs

-- the loop of a reap cycle over the dead clients
unfoldable pub reap : Router → List Text → ClientRegistry → ClientRegistry × List ReaperEffect
unfolding forward_cleanup_eof forward_all remove
reap router [] r = (r, [])
reap router (client_id ∷ dead) r =
    let (r', effects) = reap router dead (remove client_id r) in
    (
      r',
      forward_all (forward_cleanup_eof router client_id)
          ++ delete_results_queue client_id ∷ effects,
    )

-- one reap cycle of `_run`, with nothing else in between
unfoldable pub reap_cycle : Router → ℕ → ℕ → ClientRegistry → ClientRegistry × List ReaperEffect
unfolding persist dead_clients reap
reap_cycle router now timeout r = let r' = persist r in reap router (dead_clients now timeout r') r'
