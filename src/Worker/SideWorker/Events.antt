-- ===== src/Worker/SideWorker/Events.antt =====
-- The events of a worker that needs side input, in any order: what the two consumers that `start`
-- starts last call. `serve` of Once runs the whole start before them.
use tp_distribuidos_moneylau.Prelude.{nat_eq, list_eq, pair_eq, Option, some, List, [], ◌∷◌, ◌>>=◌}
use tp_distribuidos_moneylau.Prelude.Text.{Text}
use tp_distribuidos_moneylau.Worker.Hooks.{channel_eq}
use tp_distribuidos_moneylau.Worker.SideWorker.{
  SideHooks, SideWorker, SideIncoming, SideMessage, handle_message, handle_side_message, drain,
}

module _ (h : SideHooks) where
  open h use {Batch, Payload}

  -- a message of the main queue, one of the side queue, or the drain that the side thread does next
  pub data SideEvent : Type 0 where
    arrives : Text → Text → SideIncoming h → SideEvent
    side_arrives : Text → Text → SideMessage h → SideEvent
    draining : SideEvent

  unfoldable pub handle_event : SideEvent → SideWorker h → Option (SideWorker h)
  unfolding handle_message handle_side_message drain
  handle_event (arrives mid c msg) w = handle_message h mid c msg w
  handle_event (side_arrives mid c msg) w = handle_side_message h mid c msg w
  handle_event draining w = drain h w

  unfoldable pub handle_events : List SideEvent → SideWorker h → Option (SideWorker h)
  unfolding handle_event
  handle_events [] w = some w
  handle_events (e ∷ es) w = do w' ← handle_event e w; handle_events es w'
