-- ===== src/Ids.antt =====
-- src/common/idempotency/ids.py: the identifiers by which every receiver recognises a repeated message.
pub mod Laws
use tp_distribuidos_moneylau.Prelude.{
  ℕ, ◌+◌, ltb, length, Bool, Option, none, some, List, [], ◌∷◌, ◌++◌, if◌then◌else◌,
}
use tp_distribuidos_moneylau.Prelude.Int.{ℤ, negsuc}
use tp_distribuidos_moneylau.Prelude.Text.{Text, text, split, join, decimal, str_ℤ, int_of}
use tp_distribuidos_moneylau.Models.{Eof, is_cleanup_eof}

-- ":"
abbrev pub separator : ℕ
separator = 58

abbrev pub ring_phase_count : Text
ring_phase_count = text "count"

abbrev pub ring_phase_flush : Text
ring_phase_flush = text "flush"

abbrev pub ring_phase_cleanup : Text
ring_phase_cleanup = text "cleanup"

abbrev pub eof_cleanup_disc : Text
eof_cleanup_disc = text "cleanup"

unfoldable pub root_id : Text → ℕ → Text
root_id client_id batch_index = join separator (client_id ∷ decimal batch_index ∷ [])

unfoldable pub flush_id : ℕ → Text → ℕ → Text
flush_id origin client_id n_batch =
    join separator (client_id ∷ decimal origin ∷ decimal n_batch ∷ [])

unfoldable pub ring_id : Text → Text → ℤ → Text
ring_id client_id phase seq = join separator (client_id ∷ phase ∷ str_ℤ seq ∷ [])

-- `parts[-1]`, for a list that is not empty
unfoldable pub last_part : List Text → Text
last_part [] = []
last_part (p ∷ []) = p
last_part (p ∷ q ∷ ps) = last_part (q ∷ ps)

-- the `except ValueError` branch is `none`
unfoldable pub or_minus_one : Option ℤ → ℤ
or_minus_one none = negsuc 0
or_minus_one (some z) = z

unfoldable pub ring_seq_of : Text → ℤ
unfolding last_part or_minus_one
ring_seq_of message_id =
    let parts = split separator message_id in
    if ltb (length parts) 3 then negsuc 0 else or_minus_one (int_of (last_part parts))

unfoldable pub eof_id : Text → Option Text → Text
eof_id client_id none = join separator (client_id ∷ text "eof" ∷ [])
eof_id client_id (some disc) = join separator (client_id ∷ text "eof" ∷ disc ∷ [])

-- the discriminator of a cleanup EOF
unfoldable pub cleanup_disc : Option Text → Text
cleanup_disc none = eof_cleanup_disc
cleanup_disc (some disc) = disc ++ separator ∷ eof_cleanup_disc

unfoldable pub final_eof_id : Text → Eof → Option Text → Text
unfolding cleanup_disc
final_eof_id client_id eof disc =
    eof_id client_id (if is_cleanup_eof eof then some (cleanup_disc disc) else disc)
