-- ===== src/Client/Batches/Laws.antt =====
-- Laws about the batches that the client reads from its files.
use mathlib.Core.List
use mathlib.Core.List.{append_assoc, flatten}
use tp_distribuidos_moneylau.Prelude.{
  ℕ, ◌+◌, ◌<◌, ◌≤◌, nat_eq, leb, length, length-append, some, List, [], ◌∷◌, ◌++◌, if◌then◌else◌,
  ◌≡◌, refl, ap, ◌∙◌, arith, inl, inr, Bool-cases,
}
use tp_distribuidos_moneylau.Prelude.Text.{Text}
use tp_distribuidos_moneylau.Client.Results.{is_empty_text}
use tp_distribuidos_moneylau.Client.Batches.{rstrip_newline, last_batch, batches_from, read_batches}

-- the lines that are not blank, without their line ends
unfoldable pub content : List Text → List Text
unfolding rstrip_newline is_empty_text
content [] = []
content (line ∷ lines) =
    let rest = content lines in
    if is_empty_text (rstrip_newline line) then rest else rstrip_newline line ∷ rest

flatten-batches_from :
    (batch_size : ℕ) (batch : List Text) (lines : List Text)
    → flatten (batches_from batch_size batch lines) ≡ batch ++ content lines
unfolding batches_from content last_batch mathlib.Core.List.flatten
flatten-batches_from n [] [] = refl
flatten-batches_from n (b ∷ batch) [] = refl
flatten-batches_from n batch (line ∷ lines) =
    let raw = rstrip_newline line in
    elim (Bool-cases (is_empty_text raw)) [
      | inl blank ↦ rw blank (flatten-batches_from n batch lines)
      | inr there ↦ elim (Bool-cases (leb n (length (batch ++ raw ∷ [])))) [
        | inl full ↦
            rw (there, full)
              (ap (λ l. (batch ++ raw ∷ []) ++ l) (flatten-batches_from n [] lines)
                ∙ append_assoc batch (raw ∷ []) _)
        | inr room ↦
            rw (there, room)
              (flatten-batches_from n (batch ++ raw ∷ []) lines ∙ append_assoc batch (raw ∷ []) _)
      ]
    ]

-- The batches read from a file, one after the other, are the lines after the header that are not
-- blank, without their line ends.
pub flatten-read_batches :
    (batch_size : ℕ) (header : Text) (lines : List Text) {batches : List (List Text)}
    → read_batches batch_size (header ∷ lines) ≡ some batches
    → flatten batches ≡ content lines
unfolding read_batches
flatten-read_batches n header lines {batches} e =
    let same : batches_from n [] lines ≡ batches = ground arith in
    rw (← same) (flatten-batches_from n [] lines)

-- all but the last batch are full, and none is empty
abbrev pub Filled : ℕ → List (List Text) → Type 0
Filled n [] = Unit
Filled n (b ∷ []) = (0 < length b) × (length b ≤ n)
Filled n (b ∷ c ∷ bs) = (length b ≡ n) × Filled n (c ∷ bs)

Filled-cons :
    (n : ℕ) (b : List Text) (bs : List (List Text))
    → 0 < n
    → length b ≡ n
    → Filled n bs
    → Filled n (b ∷ bs)
Filled-cons n b [] pos e f = (omega arith, omega arith)
Filled-cons n b (c ∷ bs) pos e f = (e, f)

batches_from-Filled :
    (n : ℕ) (batch : List Text) (lines : List Text)
    → 0 < n
    → length batch < n
    → Filled n (batches_from n batch lines)
unfolding batches_from last_batch
batches_from-Filled n [] [] pos lt = tt
batches_from-Filled n (b ∷ batch) [] pos lt = (omega arith, omega arith)
batches_from-Filled n batch (line ∷ lines) pos lt =
    let raw = rstrip_newline line in
    let longer : length (batch ++ raw ∷ []) ≡ length batch + 1 = length-append batch (raw ∷ []) in
    elim (Bool-cases (is_empty_text raw)) [
      | inl blank ↦ rw blank (batches_from-Filled n batch lines pos lt)
      | inr there ↦ elim (Bool-cases (leb n (length (batch ++ raw ∷ [])))) [
        | inl full ↦
            rw (there, full)
              (Filled-cons n (batch ++ raw ∷ []) _ pos (ground arith)
                (batches_from-Filled n [] lines pos pos))
        | inr room ↦
            rw (there, room) (batches_from-Filled n (batch ++ raw ∷ []) lines pos (ground arith))
      ]
    ]

-- With a batch size that is not 0, every batch but the last has exactly that many lines, and the
-- last has at least one and no more.
pub read_batches-Filled :
    (batch_size : ℕ) (lines : List Text) {batches : List (List Text)}
    → 0 < batch_size
    → read_batches batch_size lines ≡ some batches
    → Filled batch_size batches
unfolding read_batches
read_batches-Filled n [] pos e = cc
read_batches-Filled n (header ∷ lines) {batches} pos e =
    let same : batches_from n [] lines ≡ batches = ground arith in
    rw (← same) (batches_from-Filled n [] lines pos pos)
