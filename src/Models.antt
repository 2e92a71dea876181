-- ===== src/Models.antt =====
-- src/common/models/eof.py and the other dataclasses that travel between the nodes.
use tp_distribuidos_moneylau.Prelude.{ℕ, ◌==◌, Bool, Option}
use tp_distribuidos_moneylau.Prelude.Int.{ℤ, negsuc, int_eq}

-- -1
abbrev pub cleanup_expected_count : ℤ
cleanup_expected_count = negsuc 0

pub record Eof : Type 0 where
  pub message_count : ℤ

unfoldable pub is_cleanup_eof : Eof → Bool
is_cleanup_eof eof = eof.message_count == cleanup_expected_count

pub record RingEof : Type 0 where
  pub expected_count : ℤ
  pub total_processed_count : ℤ
  pub coordinator_id : Option ℕ
  pub total_sent_count : Option ℤ
