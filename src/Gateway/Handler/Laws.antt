-- ===== src/Gateway/Handler/Laws.antt =====
-- Laws about what a handler holds and what it has passed on, over any of its events.
use tp_distribuidos_moneylau.Prelude.{ℕ, nat_eq, Bool, some, List, contains, ◌≡◌, refl, ◌∙◌, arith}
use tp_distribuidos_moneylau.Prelude.Text.{Text}
use tp_distribuidos_moneylau.Gateway.Router.{Router}
use tp_distribuidos_moneylau.Gateway.Handler.Written.{passed_on, arrivals, handle_all-passed_on}
use tp_distribuidos_moneylau.Gateway.Handler.{
  ResultMessage, ClientHandler, started, HandlerEvent, handle_all,
}
use tp_distribuidos_moneylau.Gateway.Handler.Held.{held, delivered, handle_all-held}

module _ {Records : Type 0} where
  -- Whatever messages come from the client, results from RabbitMQ and turns of the sender, in any
  -- order, as long as no handler fails: for every test on tags, the tags that pass it among the
  -- acknowledged ones, the ones that wait for the client and the ones in the queue are as many as
  -- were delivered; and for every test on results, the batches of the queries 1 to 5 and the ends
  -- of queries that pass it are, among those written to the client and those in the queue, as
  -- many as were delivered.
  pub handle_all-conserves :
      (router : Router) (c : Text) (p : ℕ → Bool) (q : ResultMessage Records → Bool)
      (events : List (HandlerEvent Records)) {h : ClientHandler Records}
      → handle_all router c events started ≡ some h
      → (held p h ≡ delivered p events) × (passed_on q h ≡ arrivals q events)
  unfolding contains
  handle_all-conserves router c p q events {h} e = (
    handle_all-held router c p events started {h' = h}
          (record { distinct = tt; old = λ k lt. refl }) e
        ∙ omega arith,
    handle_all-passed_on router c q events started {h' = h} e ∙ omega arith,
  )
