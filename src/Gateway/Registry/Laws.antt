-- ===== src/Gateway/Registry/Laws.antt =====
-- Laws about the records of the registry on disk and about the cycle of the reaper.
use tp_distribuidos_moneylau.Prelude.{
  ℕ, nat_eq, list_eq, list_beq_iff, true, false, ◌||◌, some, List, [], ◌∷◌, map, Dict, lookup,
  insert, erase, keys, contains, lookup_present, contains-keys-insert, ◌≡◌, refl, sym, ap, ◌∙◌,
  arith, inl, inr, Option-cases,
}
use tp_distribuidos_moneylau.Prelude.Text.{Text}
use tp_distribuidos_moneylau.Gateway.Router.{Router}
use tp_distribuidos_moneylau.Gateway.Registry.{
  ClientState, ClientRecord, ClientRegistry, opened, records_of, persist, load_records, load,
  connect, touch, disconnect, remove, ReaperEffect, forward, delete_results_queue,
}

-- the clients of the records
abbrev pub ids : List ClientRecord → List Text
ids = map (λ rec. rec.client_id)

ids-records_of : (states : Dict Text ClientState) → ids (records_of states) ≡ keys states
unfolding records_of
ids-records_of [] = refl
ids-records_of ((c, state) ∷ states) = ap (λ xs. c ∷ xs) (ids-records_of states)

-- the clients on disk are those in memory
abbrev IsStored : ClientRegistry → Type 0
IsStored r =
    (records : List ClientRecord) × (r.store ≡ some records)
    × ((c : Text) → contains c (ids records) ≡ contains c (keys r.states))

persist-IsStored :
    (r : ClientRegistry) {records : List ClientRecord}
    → r.store ≡ some records
    → IsStored (persist r)
unfolding persist
persist-IsStored r stored =
    rw stored (records_of r.states, refl, λ c. rw (ids-records_of r.states) refl)

-- what the handlers, the reaper and the clock do to the registry
pub data Operation : Type 0 where
  connecting touching disconnecting : ℕ → Text → Operation
  removing : Text → Operation
  persisting : Operation

unfoldable pub operate : Operation → ClientRegistry → ClientRegistry
unfolding connect touch disconnect remove persist
operate (connecting now c) r = connect now c r
operate (touching now c) r = touch now c r
operate (disconnecting now c) r = disconnect now c r
operate (removing c) r = remove c r
operate persisting r = persist r

unfoldable pub operations : List Operation → ClientRegistry → ClientRegistry
unfolding operate
operations [] r = r
operations (op ∷ ops) r = operations ops (operate op r)

operate-IsStored : (op : Operation) (r : ClientRegistry) → IsStored r → IsStored (operate op r)
unfolding operate
operate-IsStored (connecting now c) r (records, stored, same) =
    persist-IsStored
      (record r { states = insert c (record { timestamp = now; connected = true }) r.states })
      stored
operate-IsStored (touching now c) r (records, stored, same) =
    elim (Option-cases (lookup c r.states)) [
      | inl unknown ↦ rw (unknown, touch) (records, stored, same)
      | inr (state, known) ↦
          let there = lookup_present c r.states known in
          rw (known, touch)
            (
              records,
              stored,
              λ k.
                  same k
                  ∙ rw (contains-keys-insert k c (record state { timestamp = now }) r.states)
                      (ground (arith, list_beq_iff c k)),
            )
    ]
operate-IsStored (disconnecting now c) r (records, stored, same) =
    elim (Option-cases (lookup c r.states)) [
      | inl unknown ↦ rw (unknown, disconnect) (records, stored, same)
      | inr (state, known) ↦
          rw (known, disconnect)
            (persist-IsStored
              (record r {
                states = insert c (record { timestamp = now; connected = false }) r.states;
              })
              stored)
    ]
operate-IsStored (removing c) r (records, stored, same) =
    persist-IsStored (record r { states = erase c r.states }) stored
operate-IsStored persisting r (records, stored, same) = persist-IsStored r stored

operations-IsStored :
    (ops : List Operation) (r : ClientRegistry) → IsStored r → IsStored (operations ops r)
unfolding operations
operations-IsStored [] r s = s
operations-IsStored (op ∷ ops) r s =
    operations-IsStored ops (operate op r) (operate-IsStored op r s)

contains-load_records :
    (c : Text) (now : ℕ) (records : List ClientRecord) (states : Dict Text ClientState)
    → contains c (keys (load_records now records states))
      ≡ (contains c (ids records) || contains c (keys states))
unfolding load_records contains
contains-load_records c now [] states = refl
contains-load_records c now (rec ∷ records) states =
    contains-load_records c now records
      (insert rec.client_id (record { timestamp = now; connected = false }) states)
    ∙ rw
        (contains-keys-insert c rec.client_id (record { timestamp = now; connected = false })
          states)
        (ground arith)

-- Whatever connects, disconnects, stays alive, is removed or is persisted after the start on a
-- store with records, loading the store again gives exactly the clients that the registry has.
pub reload-keys :
    (records : List ClientRecord) (start now : ℕ) (ops : List Operation) (c : Text)
    → contains c (
        keys (load now (opened (operations ops (load start (opened (some records)))).store)).states)
      ≡ contains c (keys (operations ops (load start (opened (some records)))).states)
unfolding load contains
reload-keys records start now ops c =
    let first : IsStored (load start (opened (some records))) =
      (records, refl, λ k. sym (contains-load_records k start records [] ∙ ground arith)) in
    let (stored, there, same) =
      operations-IsStored ops (load start (opened (some records))) first in
    rw there (contains-load_records c now stored [] ∙ rw (same c) (ground arith))

-- the clients whose queue is deleted
abbrev pub deleted : List ReaperEffect → List Text
deleted [] = []
deleted (forward f ∷ effects) = deleted effects
deleted (delete_results_queue c ∷ effects) = c ∷ deleted effects
