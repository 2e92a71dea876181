-- ===== src/Worker/Hooks.antt =====
-- What a concrete stateful worker plugs into `StatefulWorker`: its own state and the methods that
-- it overrides. The configuration is that of src/common/worker/stateful_worker_config.py.
use tp_distribuidos_moneylau.Prelude.{ℕ, Bool, true, false, ◌≡◌, ◌↔◌, Eq, Option, List, arith}
use tp_distribuidos_moneylau.Prelude.Text.{Text}

pub record Config : Type 0 where
  pub node_id : ℕ
  pub node_prefix : Text
  pub ring_size : ℕ

-- The channels under which processed messages are remembered: MAIN_CHANNEL, CONTROL_CHANNEL and
-- SIDE_CHANNEL.
pub data Channel : Type 0 where
  main control side : Channel

abbrev pub channel_beq : Channel → Channel → Bool
channel_beq main main = true
channel_beq control control = true
channel_beq side side = true
channel_beq _ _ = false

pub channel_beq_iff : (a b : Channel) → (channel_beq a b ≡ true) ↔ (a ≡ b)
channel_beq_iff main b = ground arith
channel_beq_iff control b = ground arith
channel_beq_iff side b = ground arith

instance abbrev pub channel_eq : Eq Channel
channel_eq = record { beq = channel_beq; beq_iff = channel_beq_iff }

-- A data message handed to the middleware by `_send`.
pub record Sent (Body : Type 0) : Type 0 where
  pub client_id : Text
  pub body : Body
  pub routing_key : Option Text
  pub message_id : Text

-- The state of the subclass and its overrides. `sent_delta` is what `_apply_delta` adds to the
-- sent count, for the worker that counts its sends in the delta.
pub record Hooks : Type 1 where
  pub App : Type 0
  pub Delta : Type 0
  pub Payload : Type 0
  pub Body : Type 0
  pub init : App
  pub handle_data : Text → Text → Payload → App → Option (App × Delta × List (Sent Body))
  pub apply_delta : Text → Delta → App → App
  pub sent_delta : Delta → Option ℕ
  pub state_as_delta : Text → App → Option Delta
  pub cleanup_state : Text → App → App
  pub flush_data : Text → App → App × List (Sent Body)
