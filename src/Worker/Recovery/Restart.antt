-- ===== src/Worker/Recovery/Restart.antt =====
-- Runs of a stateful worker, and laws about a restart from its log.
use tp_distribuidos_moneylau.Prelude.{◌≡◌, refl, some, List, [], ◌∷◌}
use tp_distribuidos_moneylau.Prelude.Text.{Text}
use tp_distribuidos_moneylau.Models.{Eof, RingEof}
use tp_distribuidos_moneylau.Worker.Hooks.{Config, Hooks}
use tp_distribuidos_moneylau.Worker.AppLaws.{AppLaws}
use tp_distribuidos_moneylau.Worker.Memory.{WalRecord, initial, replay}
use tp_distribuidos_moneylau.Worker.Node.{Node, recover, restarted}
use tp_distribuidos_moneylau.Worker.Ring.{Output}
use tp_distribuidos_moneylau.Worker.Messages.{
  data_message, eof_message, handle_message, handle_control_message,
}
use tp_distribuidos_moneylau.Worker.Laws.Compaction.{SameFlow}
use tp_distribuidos_moneylau.Worker.Laws.Invariant.{IsTracked-initial}
use tp_distribuidos_moneylau.Worker.Recovery.{IsRecoverable, data-IsRecoverable, eof-IsRecoverable}
use tp_distribuidos_moneylau.Worker.Recovery.Control.{Spares, control-IsRecoverable}

module _ (h : Hooks) (laws : AppLaws h) (c : Text) (config : Config) where
  -- The messages that a worker handles, in any order and for any clients, but for the flush token of
  -- the client c.
  pub data Run (s : Node h) : Node h → Type 0 where
    begin : Run s s
    data_step :
        (n n' : Node h) (mid k : Text) (p : h.Payload) (out : List (Output (h.Body)))
        → Run s n
        → handle_message h config mid k (data_message p) n ≡ some (n', out)
        → Run s n'
    eof_step :
        (n n' : Node h) (mid k : Text) (eof : Eof) (out : List (Output (h.Body)))
        → Run s n
        → handle_message h config mid k (eof_message eof) n ≡ some (n', out)
        → Run s n'
    token_step :
        (n n' : Node h) (mid k : Text) (ring : RingEof) (out : List (Output (h.Body)))
        → Run s n
        → Spares h laws c k ring
        → handle_control_message h config mid k ring n ≡ some (n', out)
        → Run s n'

  pub Run-IsRecoverable :
      {s n : Node h} → IsRecoverable h laws c s → Run s n → IsRecoverable h laws c n
  Run-IsRecoverable r begin = r
  Run-IsRecoverable r (data_step n n' mid k p out run e) =
      data-IsRecoverable h laws c config mid k p n n' out (Run-IsRecoverable r run) e
  Run-IsRecoverable r (eof_step n n' mid k eof out run e) =
      eof-IsRecoverable h laws c config mid k eof n n' out (Run-IsRecoverable r run) e
  Run-IsRecoverable r (token_step n n' mid k ring out run spares e) =
      control-IsRecoverable h laws c config mid k ring n n' out spares (Run-IsRecoverable r run) e

  pub new-IsRecoverable : IsRecoverable h laws c (restarted h [])
  unfolding replay
  new-IsRecoverable = record {
    durable = record {
      log = [];
      stored = refl;
      same = record { counts_same = refl; seen_kept = λ ch mid old. old; app_same = refl };
    };
    tracked = IsTracked-initial h laws;
  }

  memory-recover :
      (log : List (WalRecord (h.Delta)))
      → (recover h (restarted h log)).memory ≡ replay h (initial h) log
  unfolding recover
  memory-recover [] = refl
  memory-recover (r ∷ log) = refl

  -- For a stateful worker whose state meets the laws of AppLaws, as those of the two low-amount
  -- workers do, and for any one client: after any run of the newly started worker over its log
  -- (data messages and ends of stream of any clients, and every ring token but the flush tokens
  -- of that client), with compactions wherever they fall, a worker that restarts from the log
  -- has, of the flow of that client, the same four counts and the same state, and every message
  -- that was seen is still seen.
  pub restart_restores :
      (n : Node h)
      → Run (restarted h []) n
      → (log : List (WalRecord (h.Delta))) × (n.store ≡ some log)
        × SameFlow laws c (recover h (restarted h log)).memory n.memory
  restart_restores n run =
      let r = Run-IsRecoverable new-IsRecoverable run in
      (r.durable.log, r.durable.stored, rw (memory-recover r.durable.log) r.durable.same)
