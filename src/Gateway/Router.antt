-- ===== src/Gateway/Router.antt =====
-- src/gateway/internal/internal_router.py: what the gateway hands to the pipeline.
pub mod Laws
use tp_distribuidos_moneylau.Prelude.{none, List, [], ◌∷◌}
use tp_distribuidos_moneylau.Prelude.Int.{ℤ}
use tp_distribuidos_moneylau.Prelude.Text.{Text, join}
use tp_distribuidos_moneylau.Models.{Eof, cleanup_expected_count}
use tp_distribuidos_moneylau.Ids.{separator, eof_id, final_eof_id}

-- RAW_TRANSACTION_BATCH and RAW_ACCOUNT_BATCH with the raw lines, and EOF
pub data RoutedPayload : Type 0 where
  raw_transactions : List Text → RoutedPayload
  raw_accounts : List Text → RoutedPayload
  end_of_stream : Eof → RoutedPayload

-- a message of `_send`
pub record Forward : Type 0 where
  pub client_id : Text
  pub payload : RoutedPayload
  pub routing_key : Text
  pub message_id : Text

pub record Router : Type 0 where
  pub transaction_rk : Text
  pub account_rk : Text

-- `root_id` of a batch index that the client has sent as text
unfoldable pub root_id_of : Text → Text → Text
root_id_of client_id batch_index = join separator (client_id ∷ batch_index ∷ [])

unfoldable pub forward_raw_transactions : Router → Text → List Text → Text → Forward
forward_raw_transactions router client_id batch batch_index = record {
  client_id = client_id;
  payload = raw_transactions batch;
  routing_key = router.transaction_rk;
  message_id = root_id_of client_id batch_index;
}

unfoldable pub forward_raw_accounts : Router → Text → List Text → Text → Forward
forward_raw_accounts router client_id batch batch_index = record {
  client_id = client_id;
  payload = raw_accounts batch;
  routing_key = router.account_rk;
  message_id = root_id_of client_id batch_index;
}

unfoldable pub forward_eof_transactions : Router → Text → ℤ → Forward
forward_eof_transactions router client_id batch_count = record {
  client_id = client_id;
  payload = end_of_stream (record { message_count = batch_count });
  routing_key = router.transaction_rk;
  message_id = eof_id client_id none;
}

unfoldable pub forward_eof_accounts : Router → Text → ℤ → Forward
forward_eof_accounts router client_id batch_count = record {
  client_id = client_id;
  payload = end_of_stream (record { message_count = batch_count });
  routing_key = router.account_rk;
  message_id = eof_id client_id none;
}

abbrev pub cleanup_eof : Eof
cleanup_eof = record { message_count = cleanup_expected_count }

unfoldable pub cleanup_forward : Text → Text → Forward
cleanup_forward client_id routing_key = record {
  client_id = client_id;
  payload = end_of_stream cleanup_eof;
  routing_key = routing_key;
  message_id = final_eof_id client_id cleanup_eof none;
}

unfoldable pub forward_cleanup_eof : Router → Text → List Forward
unfolding cleanup_forward
forward_cleanup_eof router client_id =
    cleanup_forward client_id router.transaction_rk
    ∷ cleanup_forward client_id router.account_rk
    ∷ []
