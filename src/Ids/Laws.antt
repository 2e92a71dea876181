-- ===== src/Ids/Laws.antt =====
-- Laws about the ids: what can be read back from one, and when two of a kind are equal.
use tp_distribuidos_moneylau.Prelude.{
  ℕ, false, ◌≡◌, ◌≢◌, refl, ap, sym, length-append, Bool-cases, nat_beq, inl, inr, none, List, [],
  ◌∷◌, ◌++◌, arith,
}
use mathlib.Core.List.{append_assoc}
use tp_distribuidos_moneylau.Prelude.Int.{pos}
use tp_distribuidos_moneylau.Prelude.Text.{
  Text, text, split, join, is_digit, decimal, str_ℤ, int_of,
}
use tp_distribuidos_moneylau.Prelude.TextLaws.{
  IsFree, split_free, split-append, decimal-AllDigits, AllDigits-IsFree, int_of-decimal,
}
use tp_distribuidos_moneylau.Models.{Eof, is_cleanup_eof}
use tp_distribuidos_moneylau.Ids.{
  separator, root_id, flush_id, ring_id, last_part, or_minus_one, ring_seq_of, eof_id, final_eof_id,
}

pub decimal-IsFree : (n : ℕ) → IsFree separator (decimal n)
unfolding is_digit
decimal-IsFree n = AllDigits-IsFree separator (decimal n) refl (decimal-AllDigits n)

split-cons : (p : Text) → (q : Text) × (ps : List Text) × (split separator p ≡ q ∷ ps)
unfolding split
split-cons [] = ([], [], refl)
split-cons (c ∷ p) =
    let (q, ps, e) = split-cons p in
    elim (Bool-cases (nat_beq c separator)) [
      | inl same ↦ ([], split separator p, rw same)
      | inr other ↦ (c ∷ q, ps, rw (other, e))
    ]

-- a client id may itself hold separators
split_any :
    (p s : Text) → split separator (p ++ separator ∷ s) ≡ split separator p ++ split separator s
unfolding split
split_any [] s = refl
split_any (c ∷ p) s =
    let (q, ps, e) = split-cons p in
    elim (Bool-cases (nat_beq c separator)) [
      | inl same ↦ rw same (rw (split_any p s))
      | inr other ↦ rw other (rw (split_any p s, e))
    ]

last_part-append : (ps : List Text) (q : Text) → last_part (ps ++ q ∷ []) ≡ q
unfolding last_part
last_part-append [] q = refl
last_part-append (p ∷ []) q = refl
last_part-append (p ∷ p' ∷ ps) q = last_part-append (p' ∷ ps) q

split-ring_id :
    (client phase : Text) (n : ℕ)
    → split separator (ring_id client phase (pos n))
      ≡ split separator client ++ split separator phase ++ decimal n ∷ []
unfolding ring_id join str_ℤ
split-ring_id client phase n =
    rw
      (
        split_any client (phase ++ separator ∷ decimal n),
        split_any phase (decimal n),
        split_free separator (decimal n) (decimal-IsFree n),
      )
      (sym (append_assoc (split separator client) (split separator phase) (decimal n ∷ [])))

-- The sequence number put into a ring id is the one read back from it, whatever the client id and
-- the phase.
pub ring_seq_of-ring_id :
    (client phase : Text) (n : ℕ) → ring_seq_of (ring_id client phase (pos n)) ≡ pos n
unfolding ring_seq_of
ring_seq_of-ring_id client phase n =
    let (q, ps, e) = split-cons client in
    let (r, rs, f) = split-cons phase in
    rw (split-ring_id client phase n, last_part-append, int_of-decimal, or_minus_one)
      (rw (e, f)
        (ground (arith, length-append (ps ++ r ∷ rs) (decimal n ∷ []), length-append ps (r ∷ rs))))

append_cancel : (c s t : Text) → c ++ s ≡ c ++ t → s ≡ t
append_cancel [] s t h = h
append_cancel (x ∷ c) s t h = append_cancel c s t (cc)

tail-eq : (x : ℕ) (s t : Text) → x ∷ s ≡ x ∷ t → s ≡ t
tail-eq x s t h = cc

sep_cancel : (c s t : Text) → c ++ separator ∷ s ≡ c ++ separator ∷ t → s ≡ t
sep_cancel c s t h = tail-eq separator s t (append_cancel c _ _ h)

decimal-injective : (m n : ℕ) → decimal m ≡ decimal n → m ≡ n
decimal-injective m n h = cc (int_of-decimal m, int_of-decimal n, ap int_of h)

join-injective :
    (p q p' q' : Text)
    → IsFree separator p
    → IsFree separator p'
    → p ++ separator ∷ q ≡ p' ++ separator ∷ q'
    → (p ≡ p') × (q ≡ q')
join-injective p q p' q' f f' h =
    let e = ap (split separator) h in
    let parts : p ∷ split separator q ≡ p' ∷ split separator q' =
      rw (split-append separator p q f, split-append separator p' q' f') at e in
    let same : p ≡ p' = cc in (same, sep_cancel p' q q' (rw same at h))

-- Two ring ids of one client, for phases without a separator, are equal only in the same phase
-- and at the same sequence number.
pub ring_id-injective :
    (client p q : Text) (m n : ℕ)
    → IsFree separator p
    → IsFree separator q
    → ring_id client p (pos m) ≡ ring_id client q (pos n)
    → (p ≡ q) × (m ≡ n)
unfolding ring_id join str_ℤ
ring_id-injective client p q m n fp fq h =
    let (same, digits_same) =
      join-injective p (decimal m) q (decimal n) fp fq (sep_cancel client _ _ h) in
    (same, decimal-injective m n digits_same)

-- Two flush ids of one client are equal only for the same origin node and the same bucket.
pub flush_id-injective :
    (client : Text) (origin n_batch origin' n_batch' : ℕ)
    → flush_id origin client n_batch ≡ flush_id origin' client n_batch'
    → (origin ≡ origin') × (n_batch ≡ n_batch')
unfolding flush_id join
flush_id-injective client o b o' b' h =
    let (same, buckets) =
      join-injective (decimal o) (decimal b) (decimal o') (decimal b') (decimal-IsFree o)
        (decimal-IsFree o') (sep_cancel client _ _ h) in
    (decimal-injective o o' same, decimal-injective b b' buckets)

-- a decimal does not begin with an "e"
decimal-ne-e : (k : ℕ) (s : Text) → decimal k ≢ 101 ∷ s
unfolding is_digit
decimal-ne-e k s h = let d = rw h at (decimal-AllDigits k) in cc (d.0)

-- Two batch ids of one client are equal only at the same index, no batch id is the id of an end
-- of stream, and the final end of stream has the id of the plain one only if it is no cleanup.
pub stream_ids :
    (client : Text) (j k : ℕ) (eof : Eof)
    → (root_id client j ≡ root_id client k → j ≡ k)
      × (root_id client k ≢ eof_id client none)
      × (root_id client k ≢ final_eof_id client eof none)
      × (final_eof_id client eof none ≡ eof_id client none → is_cleanup_eof eof ≡ false)
unfolding root_id eof_id final_eof_id join
stream_ids client j k eof = elim (Bool-cases (is_cleanup_eof eof)) [
  | inl cleanup ↦ rw cleanup (
    (λ h. decimal-injective j k (sep_cancel client _ _ h)),
    (λ h. decimal-ne-e k _ (sep_cancel client _ _ h)),
    (λ h. decimal-ne-e k _ (sep_cancel client _ _ h)),
    (λ h. absurd (cleanup_longer (sep_cancel client _ _ h))),
  )
  | inr regular ↦ rw regular (
    (λ h. decimal-injective j k (sep_cancel client _ _ h)),
    (λ h. decimal-ne-e k _ (sep_cancel client _ _ h)),
    (λ h. decimal-ne-e k _ (sep_cancel client _ _ h)),
    (λ h. refl),
  )
]
  where
    cleanup_longer : text "eof" ++ separator ∷ text "cleanup" ≢ text "eof"
    cleanup_longer h = cc
