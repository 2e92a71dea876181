-- ===== src/Communication/Socket.antt =====
-- src/common/communication/socket/safe_socket.py: a read of exactly as many bytes as asked for. What
-- the other end writes before it closes is a list of bytes, and `recv_into` of the socket library is
-- a parameter: how many of the bytes that are still to come it stores into the space that is left. It
-- stores none only at the end. There is no timeout.
use tp_distribuidos_moneylau.Prelude.{
  ap2, ℕ, zero, suc, ◌+◌, ◌-◌, ◌≤◌, ◌<◌, ◌==◌, nat_eq, leb, length, length-append, true, false,
  List, [], ◌∷◌, ◌++◌, if◌then◌else◌, ◌≡◌, refl, ap, ◌∙◌, arith, inl, inr, Bool-cases,
}

abbrev pub take : ℕ → List ℕ → List ℕ
take zero bytes = []
take (suc n) [] = []
take (suc n) (b ∷ bytes) = b ∷ take n bytes

abbrev pub drop : ℕ → List ℕ → List ℕ
drop zero bytes = bytes
drop (suc n) [] = []
drop (suc n) (b ∷ bytes) = drop n bytes

-- the bytes of a read with those still to come, IncompleteReadError with the partial read, and a loop
-- that has not ended
pub data Read : Type 0 where
  complete : List ℕ → List ℕ → Read
  incomplete : List ℕ → ℕ → Read
  unfinished : Read

-- the loop of `recv`, over what is in the buffer
unfoldable pub recv_from : (ℕ → List ℕ → ℕ) → ℕ → ℕ → List ℕ → List ℕ → Read
recv_from recv_into zero size buf bytes =
    if leb size (length buf) then complete buf bytes else unfinished
recv_from recv_into (suc fuel) size buf bytes =
    let n = recv_into (size - length buf) bytes in
    let later = recv_from recv_into fuel size (buf ++ take n bytes) (drop n bytes) in
    if leb size (length buf)
    then complete buf bytes
    else if n == 0
    then incomplete buf size
    else later

-- `SafeTCPSocket.recv`: each round but the last adds a byte to the buffer
unfoldable pub recv : (ℕ → List ℕ → ℕ) → ℕ → List ℕ → Read
unfolding recv_from
recv recv_into size bytes = recv_from recv_into (size + 1) size [] bytes

-- what the socket library documents of `recv_into`
pub record IsRecvInto (recv_into : ℕ → List ℕ → ℕ) : Type 0 where
  pub fits : (space : ℕ) (bytes : List ℕ) → recv_into space bytes ≤ space
  pub there : (space : ℕ) (bytes : List ℕ) → recv_into space bytes ≤ length bytes
  pub blocks : (space : ℕ) (b : ℕ) (bytes : List ℕ) → 0 < space → 0 < recv_into space (b ∷ bytes)

length-take : (n : ℕ) (bytes : List ℕ) → n ≤ length bytes → length (take n bytes) ≡ n
length-take zero bytes le = refl
length-take (suc n) [] le = omega arith
length-take (suc n) (b ∷ bytes) le = omega (arith, length-take n bytes (omega arith))

length-drop : (n : ℕ) (bytes : List ℕ) → n ≤ length bytes → length (drop n bytes) + n ≡ length bytes
length-drop zero bytes le = omega arith
length-drop (suc n) [] le = omega arith
length-drop (suc n) (b ∷ bytes) le = omega (arith, length-drop n bytes (omega arith))

take-append : (xs ys : List ℕ) → take (length xs) (xs ++ ys) ≡ xs
take-append [] ys = refl
take-append (x ∷ xs) ys = ap (λ l. x ∷ l) (take-append xs ys)

drop-append : (xs ys : List ℕ) → drop (length xs) (xs ++ ys) ≡ ys
drop-append [] ys = refl
drop-append (x ∷ xs) ys = drop-append xs ys

-- what a read of `size` bytes gives
abbrev pub expected_read : ℕ → List ℕ → Read
expected_read size bytes =
    if leb size (length bytes)
    then complete (take size bytes) (drop size bytes)
    else incomplete bytes size

-- a part of the read
take_part :
    (k n : ℕ) (bytes : List ℕ)
    → k ≤ length bytes
    → take k bytes ++ take n (drop k bytes) ≡ take (k + n) bytes
take_part zero n bytes le = let same : n ≡ 0 + n = omega arith in ap (λ m. take m bytes) same
take_part (suc k) n [] le = absurd (omega arith)
take_part (suc k) n (b ∷ bytes) le =
    let same : suc (k + n) ≡ suc k + n = omega arith in
    ap (λ l. b ∷ l) (take_part k n bytes (omega arith)) ∙ ap (λ m. take m (b ∷ bytes)) same

drop_part :
    (k n : ℕ) (bytes : List ℕ) → k ≤ length bytes → drop n (drop k bytes) ≡ drop (k + n) bytes
drop_part zero n bytes le = let same : n ≡ 0 + n = omega arith in ap (λ m. drop m bytes) same
drop_part (suc k) n [] le = absurd (omega arith)
drop_part (suc k) n (b ∷ bytes) le =
    let same : suc (k + n) ≡ suc k + n = omega arith in
    drop_part k n bytes (omega arith) ∙ ap (λ m. drop m (b ∷ bytes)) same

take_all : (bytes : List ℕ) → take (length bytes) bytes ≡ bytes
take_all [] = refl
take_all (b ∷ bytes) = ap (λ l. b ∷ l) (take_all bytes)

-- the socket has nothing more only at the end
nothing_left :
    (recv_into : ℕ → List ℕ → ℕ) (space : ℕ) (bytes : List ℕ)
    → IsRecvInto recv_into
    → 0 < space
    → recv_into space bytes ≡ 0
    → length bytes ≡ 0
nothing_left recv_into space [] ok pos e = refl
nothing_left recv_into space (b ∷ bytes) ok pos e =
    let more = ok.blocks space b bytes pos in absurd (omega arith)

-- the loop after k bytes
recv_from_part :
    (recv_into : ℕ → List ℕ → ℕ) (fuel size k : ℕ) (bytes : List ℕ)
    → IsRecvInto recv_into
    → k ≤ length bytes
    → k ≤ size
    → size < k + fuel
    → recv_from recv_into fuel size (take k bytes) (drop k bytes) ≡ expected_read size bytes
unfolding recv_from
recv_from_part recv_into zero size k bytes ok le fits enough = absurd (omega arith)
recv_from_part recv_into (suc fuel) size k bytes ok le fits enough =
    let has = length-take k bytes le in
    let left = length-drop k bytes le in
    elim (Bool-cases (leb size (length (take k bytes)))) [
      | inl full ↦
          let all : k ≡ size = ground arith in
          let enough_there : leb size (length bytes) ≡ true = ground arith in
          rw (full, enough_there, ← all) refl
      | inr room ↦
          elim (Bool-cases (recv_into (size - length (take k bytes)) (drop k bytes) == 0)) [
            | inl ended ↦
                let empty =
                  nothing_left recv_into (size - length (take k bytes)) (drop k bytes) ok
                    (ground arith) (ground arith) in
                let all : k ≡ length bytes = omega arith in
                let short : leb size (length bytes) ≡ false = ground arith in
                rw (room, ended, short)
                  (ap (λ l. incomplete l size) (ap (λ m. take m bytes) all ∙ take_all bytes))
            | inr going ↦
                let n = recv_into (size - length (take k bytes)) (drop k bytes) in
                let most = ok.fits (size - length (take k bytes)) (drop k bytes) in
                let there = ok.there (size - length (take k bytes)) (drop k bytes) in
                let some_read : 0 < recv_into (size - length (take k bytes)) (drop k bytes) =
                  ground arith in
                let short : length (take k bytes) < size = ground arith in
                rw (room, going)
                  (ap2 (λ buf rest. recv_from recv_into fuel size buf rest) (take_part k n bytes le)
                      (drop_part k n bytes le)
                    ∙ recv_from_part recv_into fuel size (k + n) bytes ok (omega arith)
                        (omega arith) (omega arith))
          ]
    ]

-- However the socket cuts the bytes into pieces, as long as each piece fits and is not empty
-- before the end, a read ends: it gives the first bytes asked for and leaves the others on the
-- stream, or, if too few come before the end, an IncompleteReadError with all that came.
pub recv_expected :
    (recv_into : ℕ → List ℕ → ℕ) (size : ℕ) (bytes : List ℕ)
    → IsRecvInto recv_into
    → recv recv_into size bytes ≡ expected_read size bytes
unfolding recv
recv_expected recv_into size bytes ok =
    recv_from_part recv_into (size + 1) size 0 bytes ok (omega arith) (omega arith) (omega arith)

pub expected_read-append :
    (front rest : List ℕ) → expected_read (length front) (front ++ rest) ≡ complete front rest
expected_read-append front rest =
    let enough : leb (length front) (length (front ++ rest)) ≡ true =
      ground (arith, length-append front rest) in
    rw (enough, take-append front rest, drop-append front rest) refl
