-- ===== src/Prelude/Unique.antt =====
-- Lists and dictionaries without a key twice.
use mathlib.Core.Path.{◌≡◌, refl}
use mathlib.Core.Logic.{inl, inr}
use mathlib.Core.Bool.{true, false, not, ◌&&◌, ◌||◌}
use mathlib.Core.Option.{none, some}
use mathlib.Core.List.{List, [], ◌∷◌, ◌++◌}
use native.Mathlib.Omega.{arith}
use tp_distribuidos_moneylau.Prelude.Tests.{Bool-cases}
use tp_distribuidos_moneylau.Prelude.Equality.{Eq, ◌==◌}
use tp_distribuidos_moneylau.Prelude.Dictionary.{Dict, lookup, insert, erase, keys}
use tp_distribuidos_moneylau.Prelude.Sets.{contains, add, update, contains-append}

module _ {ℓ} {A : Type ℓ} ⦃e : Eq A⦄ where
  abbrev pub Distinct : List A → Type 0
  Distinct [] = Unit
  Distinct (x ∷ xs) = (contains x xs ≡ false) × Distinct xs

  Distinct-snoc : (a : A) (s : List A) → contains a s ≡ false → Distinct s → Distinct (s ++ a ∷ [])
  unfolding contains
  Distinct-snoc a [] new d = (refl, tt)
  Distinct-snoc a (x ∷ s) new d = (
    ground (arith, contains-append x s (a ∷ []), e.beq_iff a x, e.beq_iff x a),
    Distinct-snoc a s (ground arith) d.1,
  )

  pub Distinct-add : (a : A) (s : List A) → Distinct s → Distinct (add a s)
  unfolding add
  Distinct-add a s d = elim (Bool-cases (contains a s)) [
    | inl old ↦ rw old d
    | inr new ↦ rw new (Distinct-snoc a s new d)
  ]

  pub Distinct-update : (xs s : List A) → Distinct s → Distinct (update xs s)
  unfolding update
  Distinct-update [] s d = d
  Distinct-update (x ∷ xs) s d = Distinct-update xs (add x s) (Distinct-add x s d)

module _ {ℓ κ} {K : Type ℓ} {V : Type κ} ⦃e : Eq K⦄ where
  pub lookup_absent : (k : K) (d : Dict K V) → contains k (keys d) ≡ false → lookup k d ≡ none
  unfolding lookup contains
  lookup_absent k [] h = refl
  lookup_absent k ((j, v) ∷ d) h = ground (arith, lookup_absent k d)

  pub contains-keys-insert :
      (j k : K) (v : V) (d : Dict K V)
      → contains j (keys (insert k v d)) ≡ (k == j || contains j (keys d))
  unfolding insert contains
  contains-keys-insert j k v [] = refl
  contains-keys-insert j k v ((i, w) ∷ d) =
      ground (arith, contains-keys-insert j k v d, e.beq_iff i k, e.beq_iff i j, e.beq_iff k j)

  pub Distinct-insert :
      (k : K) (v : V) (d : Dict K V) → Distinct (keys d) → Distinct (keys (insert k v d))
  unfolding insert contains
  Distinct-insert k v [] h = (refl, tt)
  Distinct-insert k v ((i, w) ∷ d) h = elim (Bool-cases (i == k)) [
    | inl same ↦ rw same h
    | inr other ↦ rw other (
      ground (arith, contains-keys-insert i k v d, e.beq_iff i k, e.beq_iff k i),
      Distinct-insert k v d h.1,
    )
  ]

  pub contains-keys-erase :
      (j k : K) (d : Dict K V)
      → contains j (keys (erase k d)) ≡ (not (k == j) && contains j (keys d))
  unfolding erase contains
  contains-keys-erase j k [] = ground arith
  contains-keys-erase j k ((i, w) ∷ d) =
      ground (arith, contains-keys-erase j k d, e.beq_iff i k, e.beq_iff i j, e.beq_iff k j)

  pub Distinct-erase : (k : K) (d : Dict K V) → Distinct (keys d) → Distinct (keys (erase k d))
  unfolding erase
  Distinct-erase k [] h = h
  Distinct-erase k ((i, w) ∷ d) h = elim (Bool-cases (i == k)) [
    | inl same ↦ rw same (Distinct-erase k d h.1)
    | inr other ↦ rw other (rw (contains-keys-erase i k d) (ground arith), Distinct-erase k d h.1)
  ]

  pub lookup_present :
      (k : K) (d : Dict K V) {v : V} → lookup k d ≡ some v → contains k (keys d) ≡ true
  lookup_present k d h = elim (Bool-cases (contains k (keys d))) [
    | inl present ↦ present
    | inr absent ↦ let none_there = lookup_absent k d absent in cc
  ]
