-- ===== src/Tests/Wire.antt =====
-- Runs of the socket and of the framing: a socket that gives one byte at a time.
use tp_distribuidos_moneylau.Prelude.{
  ℕ, zero, suc, ◌≤◌, ◌<◌, ◌≡◌, ◌++◌, refl, some, List, [], ◌∷◌, arith, length,
}
use tp_distribuidos_moneylau.Communication.Socket.{recv, IsRecvInto, expected_read, recv_expected}
use tp_distribuidos_moneylau.Communication.Framing.{send_msg, recv_msg, message, recv_msg-send_msg}

abbrev one_byte : ℕ → List ℕ → ℕ
one_byte zero bytes = 0
one_byte (suc space) [] = 0
one_byte (suc space) (b ∷ bytes) = 1

one_byte-fits : (space : ℕ) (bytes : List ℕ) → one_byte space bytes ≤ space
one_byte-fits zero bytes = omega arith
one_byte-fits (suc space) [] = omega arith
one_byte-fits (suc space) (b ∷ bytes) = omega arith

one_byte-there : (space : ℕ) (bytes : List ℕ) → one_byte space bytes ≤ length bytes
one_byte-there zero bytes = omega arith
one_byte-there (suc space) [] = omega arith
one_byte-there (suc space) (b ∷ bytes) = omega arith

one_byte-blocks : (space b : ℕ) (bytes : List ℕ) → 0 < space → 0 < one_byte space (b ∷ bytes)
one_byte-blocks zero b bytes lt = lt
one_byte-blocks (suc space) b bytes lt = omega arith

one_byte-IsRecvInto : IsRecvInto one_byte
one_byte-IsRecvInto = record {
  fits = one_byte-fits;
  there = one_byte-there;
  blocks = one_byte-blocks;
}

recv_expected_example : recv one_byte 2 (1 ∷ 2 ∷ 3 ∷ []) ≡ expected_read 2 (1 ∷ 2 ∷ 3 ∷ [])
recv_expected_example = recv_expected one_byte 2 (1 ∷ 2 ∷ 3 ∷ []) one_byte-IsRecvInto

abbrev same_bytes : List ℕ → List ℕ
same_bytes bytes = bytes

recv_msg-send_msg_example :
    (bytes : List ℕ) × (send_msg same_bytes some (7 ∷ 8 ∷ []) ≡ some bytes)
    × (recv_msg same_bytes some one_byte (bytes ++ 9 ∷ []) ≡ message (7 ∷ 8 ∷ []) (9 ∷ []))
recv_msg-send_msg_example =
    recv_msg-send_msg same_bytes some one_byte (7 ∷ 8 ∷ []) (9 ∷ []) one_byte-IsRecvInto refl
      (omega arith)
