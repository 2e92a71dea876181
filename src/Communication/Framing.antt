-- ===== src/Communication/Framing.antt =====
-- src/common/communication/protocol/length_prefix.py, and `send_msg` and `recv_msg` of external.py beside it:
-- a message on a stream is its length in four bytes and its bytes. What protobuf makes of an envelope
-- is a parameter.
use tp_distribuidos_moneylau.Prelude.{
  ℕ, ◌+◌, ◌*◌, ◌/◌, ◌%◌, ◌<◌, ltb, length, true, Option, none, some, List, [], ◌∷◌, ◌++◌, ◌>>=◌,
  if◌then◌else◌, ◌≡◌, refl, ap, ◌∙◌, arith,
}
use tp_distribuidos_moneylau.Communication.Socket.{
  Read, complete, incomplete, unfinished, recv, IsRecvInto, expected_read-append, recv_expected,
}

abbrev pub uint32_size : ℕ
uint32_size = 4

-- 2 ^ 32
abbrev pub uint32_limit : ℕ
uint32_limit = 4294967296

-- none is the OverflowError of `to_bytes`
unfoldable pub serialize_uint32 : ℕ → Option (List ℕ)
serialize_uint32 u =
    if ltb u uint32_limit
    then some (u / 16777216 ∷ u / 65536 % 256 ∷ u / 256 % 256 ∷ u % 256 ∷ [])
    else none

-- the digits of `int.from_bytes`, from the first on
unfoldable pub from_bytes : ℕ → List ℕ → ℕ
from_bytes acc [] = acc
from_bytes acc (b ∷ bytes) = from_bytes (acc * 256 + b) bytes

unfoldable pub deserialize_uint32 : List ℕ → ℕ
unfolding from_bytes
deserialize_uint32 bytes = from_bytes 0 bytes

-- what a read of a message gives: the message with the bytes still to come, IncompleteReadError with
-- the partial read, the DecodeError of protobuf, and a loop that has not ended
pub data Reception (Envelope : Type 0) : Type 0 where
  message : Envelope → List ℕ → Reception Envelope
  incomplete_read : List ℕ → ℕ → Reception Envelope
  decode_error : Reception Envelope
  still_reading : Reception Envelope

module _ {Envelope : Type 0} (serialize : Envelope → List ℕ)
    (parse : List ℕ → Option Envelope) where
  -- `send_msg`: the bytes that are written
  unfoldable pub send_msg : Envelope → Option (List ℕ)
  unfolding serialize_uint32
  send_msg env = do head ← serialize_uint32 (length (serialize env)); some (head ++ serialize env)

  -- `env.ParseFromString(sock.recv(size))`
  unfoldable pub parsed : Read → Reception Envelope
  parsed (complete bytes rest) = elim (parse bytes) [
    | none ↦ decode_error
    | some env ↦ message env rest
  ]
  parsed (incomplete partial size) = incomplete_read partial size
  parsed unfinished = still_reading

  -- the rest of `recv_msg` after the length was read
  unfoldable pub recv_body : (ℕ → List ℕ → ℕ) → Read → Reception Envelope
  unfolding deserialize_uint32 parsed
  recv_body recv_into (complete head rest) = parsed (recv recv_into (deserialize_uint32 head) rest)
  recv_body recv_into (incomplete partial size) = incomplete_read partial size
  recv_body recv_into unfinished = still_reading

  -- `recv_msg`
  unfoldable pub recv_msg : (ℕ → List ℕ → ℕ) → List ℕ → Reception Envelope
  unfolding recv_body
  recv_msg recv_into bytes = recv_body recv_into (recv recv_into uint32_size bytes)

  -- An envelope that protobuf parses back, and whose bytes are fewer than 2 ^ 32, is sent, and
  -- what was sent is received as that envelope with what follows it left on the stream, however
  -- the socket cuts the bytes into pieces.
  pub recv_msg-send_msg :
      (recv_into : ℕ → List ℕ → ℕ) (env : Envelope) (rest : List ℕ)
      → IsRecvInto recv_into
      → parse (serialize env) ≡ some env
      → length (serialize env) < uint32_limit
      → (bytes : List ℕ) × (send_msg env ≡ some bytes)
        × (recv_msg recv_into (bytes ++ rest) ≡ message env rest)
  unfolding send_msg recv_msg recv_body parsed serialize_uint32 deserialize_uint32 from_bytes
  recv_msg-send_msg recv_into env rest ok parses fits =
      let data_bytes = serialize env in
      let u = length (serialize env) in
      let small : ltb (length (serialize env)) uint32_limit ≡ true = ground arith in
      let head = u / 16777216 ∷ u / 65536 % 256 ∷ u / 256 % 256 ∷ u % 256 ∷ [] in
      let back : ((((0 * 256 + u / 16777216) * 256 + u / 65536 % 256) * 256 + u / 256 % 256) * 256
            + u % 256)
          ≡ u =
        omega arith in
      let read_head : recv recv_into 4 (head ++ (data_bytes ++ rest))
          ≡ complete head (data_bytes ++ rest) =
        recv_expected recv_into 4 (head ++ (data_bytes ++ rest)) ok
        ∙ expected_read-append head (data_bytes ++ rest) in
      let read_body : recv recv_into u (data_bytes ++ rest) ≡ complete data_bytes rest =
        recv_expected recv_into u (data_bytes ++ rest) ok ∙ expected_read-append data_bytes rest in
      (
        head ++ data_bytes,
        rw small refl,
        ap (recv_body recv_into) read_head
            ∙ ap (λ n. parsed (recv recv_into n (data_bytes ++ rest))) back
            ∙ ap parsed read_body
            ∙ rw (parses, parsed) refl,
      )
