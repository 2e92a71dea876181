-- ===== src/Gateway/Router/Laws.antt =====
-- Laws about the message ids of what the gateway sends for one client.
use tp_distribuidos_moneylau.Prelude.{
  ℕ, ◌+◌, ◌<◌, nat_eq, list_eq, list_beq_iff, true, false, none, List, [], ◌∷◌, map, contains,
  Distinct, ◌≡◌, ◌≢◌, refl, arith,
}
use tp_distribuidos_moneylau.Prelude.Text.{Text, decimal}
use tp_distribuidos_moneylau.Prelude.Int.{pos}
use tp_distribuidos_moneylau.Models.{is_cleanup_eof}
use tp_distribuidos_moneylau.Ids.{root_id, eof_id, final_eof_id}
use tp_distribuidos_moneylau.Ids.Laws.{stream_ids}
use tp_distribuidos_moneylau.Gateway.Router.{
  root_id_of, Forward, Router, cleanup_eof, cleanup_forward, forward_raw_transactions,
  forward_eof_transactions,
}

-- what a client's whole stream of transactions becomes, from a batch index on: its batches, its end
-- and the cleanup
unfoldable pub stream_from : Router → Text → ℕ → List (List Text) → List Forward
unfolding root_id_of forward_raw_transactions forward_eof_transactions cleanup_forward
stream_from router client_id k [] =
    forward_eof_transactions router client_id (pos k)
    ∷ cleanup_forward client_id router.transaction_rk
    ∷ []
stream_from router client_id k (batch ∷ batches) =
    forward_raw_transactions router client_id batch (decimal k)
    ∷ stream_from router client_id (k + 1) batches

abbrev pub message_ids : List Forward → List Text
message_ids = map (λ f. f.message_id)

-- no later message has the id of an earlier batch
root_id-fresh :
    (router : Router) (c : Text) (j k : ℕ) (batches : List (List Text))
    → j < k
    → contains (root_id_of c (decimal j)) (message_ids (stream_from router c k batches)) ≡ false
unfolding stream_from contains root_id root_id_of
root_id-fresh router c j k [] lt =
    let ne_eof : root_id_of c (decimal j) ≢ eof_id c none = (stream_ids c j j cleanup_eof).1 in
    let ne_final : root_id_of c (decimal j) ≢ final_eof_id c cleanup_eof none =
      (stream_ids c j j cleanup_eof).2 in
    ground (
      arith,
      list_beq_iff (eof_id c none) (root_id_of c (decimal j)),
      list_beq_iff (final_eof_id c cleanup_eof none) (root_id_of c (decimal j)),
    )
root_id-fresh router c j k (batch ∷ batches) lt =
    let ne : root_id_of c (decimal j) ≢ root_id_of c (decimal k) =
      λ e. absurd (omega (arith, (stream_ids c j k cleanup_eof).0 e)) in
    ground (
      arith,
      root_id-fresh router c j (k + 1) batches (omega arith),
      list_beq_iff (root_id_of c (decimal k)) (root_id_of c (decimal j)),
    )

-- The batches of a stream of a client, its end and its cleanup all have different message ids.
pub stream_from-Distinct :
    (router : Router) (c : Text) (k : ℕ) (batches : List (List Text))
    → Distinct (message_ids (stream_from router c k batches))
unfolding stream_from contains root_id_of is_cleanup_eof
stream_from-Distinct router c k [] =
    let ne : final_eof_id c cleanup_eof none ≢ eof_id c none =
      λ e. let no : true ≡ false = (stream_ids c k k cleanup_eof).3 e in cc in
    (ground (arith, list_beq_iff (final_eof_id c cleanup_eof none) (eof_id c none)), (refl, tt))
stream_from-Distinct router c k (batch ∷ batches) = (
  root_id-fresh router c k (k + 1) batches (omega arith),
  stream_from-Distinct router c (k + 1) batches,
)
