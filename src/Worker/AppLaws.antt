-- ===== src/Worker/AppLaws.antt =====
-- What recovery asks of the state of a concrete worker, as a record of laws on its deltas and
-- snapshots. The instances for the two workers of src/workers/low_amount_aggregator and
-- src/workers/low_amount_reducer stand in Workers/LowAmount/Durable; the other workers have none here.
use tp_distribuidos_moneylau.Prelude.{
  ◌≡◌, ◌≢◌, ◌==◌, Option, none, some, List, length, or_else, nat_eq, list_eq, if◌then◌else◌,
}
use tp_distribuidos_moneylau.Prelude.Text.{Text}
use tp_distribuidos_moneylau.Worker.Hooks.{Sent, Hooks}

-- the view that restoring a snapshot's delta gives to a flow without state
abbrev pub restored {ℓ} : {V D : Type ℓ} → V → (V → D → V) → Option D → V
restored start step none = start
restored start step (some d) = step start d

pub record AppLaws (h : Hooks) : Type 1 where
  -- what one flow's state means, the order in which dicts and sets hold it left out
  pub View : Type 0
  pub view : Text → h.App → View
  pub start : View
  pub step : View → h.Delta → View
  -- the states that the laws on snapshots are about; the operations keep within them
  pub IsValid : h.App → Type 0
  pub view-init : (c : Text) → view c h.init ≡ start
  pub view-apply :
      (c k : Text) (d : h.Delta) (a : h.App)
      → view c (h.apply_delta k d a) ≡ (if k == c then step (view c a) d else view c a)
  pub view-cleanup :
      (c k : Text) (a : h.App) → view c (h.cleanup_state k a) ≡ (if k == c then start else view c a)
  pub view-flush : (c k : Text) (a : h.App) → k ≢ c → view c (h.flush_data k a).0 ≡ view c a
  pub view-snapshot :
      (c : Text) (a : h.App) → IsValid a → restored start step (h.state_as_delta c a) ≡ view c a
  -- handling a message leaves the state in which replaying its delta would leave it
  pub handled :
      (mid c : Text) (p : h.Payload) (a a' : h.App) (d : h.Delta) (sends : List (Sent (h.Body)))
      → h.handle_data mid c p a ≡ some (a', d, sends)
      → (a' ≡ h.apply_delta c d a) × (length sends ≡ or_else (h.sent_delta d) 0)
  pub IsValid-init : IsValid h.init
  pub IsValid-apply :
      (c : Text) (d : h.Delta) (a : h.App) → IsValid a → IsValid (h.apply_delta c d a)
  pub IsValid-cleanup : (c : Text) (a : h.App) → IsValid a → IsValid (h.cleanup_state c a)
  pub IsValid-flush : (c : Text) (a : h.App) → IsValid a → IsValid (h.flush_data c a).0
