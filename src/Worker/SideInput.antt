-- ===== src/Worker/SideInput.antt =====
-- src/common/worker/utils/side_input_tracker.py: whether the side input of a client has arrived in full.
-- An event is whether it is set. A method that returns a test returns it beside the new state.
use tp_distribuidos_moneylau.Prelude.{
  ℕ, suc, ◌+◌, ◌==◌, nat_eq, list_eq, list_beq_iff, Bool, true, false, ◌&&◌, Option, none, some,
  List, [], ◌∷◌, if◌then◌else◌, Dict, lookup, insert, erase, get_or, lookup-insert, get_or-insert,
  ◌≡◌, arith,
}
use tp_distribuidos_moneylau.Prelude.Int.{ℤ, pos, leb_ℤ}
use tp_distribuidos_moneylau.Prelude.Text.{Text}

pub record SideInputTracker : Type 0 where
  pub received : Dict Text ℕ
  pub expected : Dict Text ℤ
  pub ready : Dict Text Bool

abbrev pub empty : SideInputTracker
empty = record { received = []; expected = []; ready = [] }

unfoldable pub is_ready : Text → SideInputTracker → Bool
is_ready key t = get_or key false t.ready

-- the tests of `_check_ready` on a client whose event is not set
unfoldable pub has_all : Text → SideInputTracker → Bool
has_all key t = elim (lookup key t.expected) [
  | none ↦ false
  | some expected ↦ leb_ℤ expected (pos (get_or key 0 t.received))
]

unfoldable pub check_ready : Text → SideInputTracker → Bool × SideInputTracker
unfolding has_all
check_ready key t =
    let event = get_or key false t.ready in
    let opened = record t { ready = insert key event t.ready } in
    if event
    then (false, opened)
    else if has_all key t
    then (true, record t { ready = insert key true t.ready })
    else (false, opened)

unfoldable pub track_batch : Text → SideInputTracker → Bool × SideInputTracker
unfolding check_ready
track_batch key t =
    check_ready key (record t { received = insert key (get_or key 0 t.received + 1) t.received })

unfoldable pub set_expected : Text → ℤ → SideInputTracker → Bool × SideInputTracker
unfolding check_ready
set_expected key expected t =
    check_ready key (record t { expected = insert key expected t.expected })

unfoldable pub stats : Text → SideInputTracker → ℕ × Option ℤ × Bool
unfolding is_ready
stats key t = (get_or key 0 t.received, lookup key t.expected, is_ready key t)

unfoldable pub drop : Text → SideInputTracker → SideInputTracker
drop key t = record {
  received = erase key t.received;
  expected = erase key t.expected;
  ready = erase key t.ready;
}

unfoldable pub restore : Text → ℕ → Option ℤ → SideInputTracker → SideInputTracker
unfolding check_ready
restore key received expected t =
    (check_ready key (record {
      received = insert key received t.received;
      expected = elim expected [ none ↦ t.expected | some e ↦ insert key e t.expected ];
      ready = erase key t.ready;
    })).1

-- what a worker tells the tracker while it runs
pub data Update : Type 0 where
  batch : Text → Update
  expect : Text → ℤ → Update

abbrev pub key_of : Update → Text
key_of (batch key) = key
key_of (expect key _) = key

unfoldable pub step : Update → SideInputTracker → Bool × SideInputTracker
unfolding track_batch set_expected
step (batch key) t = track_batch key t
step (expect key expected) t = set_expected key expected t

-- how often the updates of a client say that its side input is there, and the tracker afterwards
unfoldable pub fires : Text → List Update → SideInputTracker → ℕ × SideInputTracker
unfolding step
fires key [] t = (0, t)
fires key (u ∷ us) t =
    let (fired, t') = step u t in
    let (n, t'') = fires key us t' in (if fired && (key_of u == key) then suc n else n, t'')

-- an update says so exactly if it makes its client ready, and leaves the other clients as they are
pub step-is_ready :
    (u : Update) (key : Text) (t : SideInputTracker)
    → is_ready key (step u t).1 ≡ (
        if key_of u == key then (if is_ready key t then true else (step u t).0) else is_ready key t)
unfolding step is_ready
step-is_ready (batch k) key t = ground (
  arith,
  list_beq_iff k key,
  get_or-insert key k (get_or k false t.ready) false t.ready,
  get_or-insert key k true false t.ready,
)
step-is_ready (expect k e) key t = ground (
  arith,
  list_beq_iff k key,
  get_or-insert key k (get_or k false t.ready) false t.ready,
  get_or-insert key k true false t.ready,
)

step-once :
    (u : Update) (t : SideInputTracker) → (step u t).0 ≡ true → is_ready (key_of u) t ≡ false
unfolding step is_ready
step-once (batch k) t e = ground arith
step-once (expect k x) t e = ground arith

-- Whatever the order of batches and expected counts: a client that was not ready is reported
-- ready exactly once if it is ready in the end, and never otherwise; one that was ready is not
-- reported again.
pub fires-once :
    (us : List Update) (key : Text) (t : SideInputTracker)
    → (fires key us t).0 + (if is_ready key t then 1 else 0)
      ≡ (if is_ready key (fires key us t).1 then 1 else 0)
unfolding fires
fires-once [] key t = omega arith
fires-once (u ∷ us) key t =
    let rest = fires-once us key (step u t).1 in
    let one = step-is_ready u key t in
    let once = step-once u t in ground (arith, list_beq_iff (key_of u) key)

-- no client with all of its side input is left waiting
abbrev pub IsPrompt : SideInputTracker → Type 0
IsPrompt t = (key : Text) → has_all key t ≡ true → is_ready key t ≡ true

step-IsPrompt : (u : Update) (t : SideInputTracker) → IsPrompt t → IsPrompt (step u t).1
unfolding step has_all is_ready
step-IsPrompt (batch k) t p key all = ground (
  arith,
  p key,
  list_beq_iff k key,
  get_or-insert key k (get_or k 0 t.received + 1) 0 t.received,
  get_or-insert key k (get_or k false t.ready) false t.ready,
  get_or-insert key k true false t.ready,
)
step-IsPrompt (expect k e) t p key all = ground (
  arith,
  p key,
  list_beq_iff k key,
  lookup-insert key k e t.expected,
  get_or-insert key k (get_or k false t.ready) false t.ready,
  get_or-insert key k true false t.ready,
)

-- the tracker after some updates
pub fires-IsPrompt :
    (us : List Update) (key : Text) (t : SideInputTracker)
    → IsPrompt t
    → IsPrompt (fires key us t).1
unfolding fires
fires-IsPrompt [] key t p = p
fires-IsPrompt (u ∷ us) key t p = fires-IsPrompt us key (step u t).1 (step-IsPrompt u t p)

empty-IsPrompt : IsPrompt empty
unfolding has_all lookup
empty-IsPrompt key all = cc

-- From the empty tracker, whatever the order of batches and expected counts: a client whose
-- expected count is known and reached has been reported ready exactly once.
pub fires_complete :
    (us : List Update) (key : Text)
    → has_all key (fires key us empty).1 ≡ true
    → (fires key us empty).0 ≡ 1
unfolding is_ready get_or lookup
fires_complete us key all =
    let ready = fires-IsPrompt us key empty empty-IsPrompt key all in
    let once = fires-once us key empty in ground arith
