-- ===== src/Prelude/Sets.antt =====
-- Python's `set` of keys as a list without repetitions: only membership is read.
use mathlib.Core.Path.{◌≡◌, refl}
use mathlib.Core.Logic.{inl, inr}
use mathlib.Core.Bool.{Bool, false, ◌||◌}
use mathlib.Core.List.{List, [], ◌∷◌, ◌++◌}
use native.Mathlib.Omega.{arith}
use tp_distribuidos_moneylau.Prelude.Tests.{if◌then◌else◌, Bool-cases}
use tp_distribuidos_moneylau.Prelude.Equality.{Eq, ◌==◌}

module _ {ℓ} {A : Type ℓ} ⦃e : Eq A⦄ where
  -- `a in s`
  unfoldable pub contains : A → List A → Bool
  contains a [] = false
  contains a (x ∷ xs) = x == a || contains a xs

  -- `s.add(a)`
  unfoldable pub add : A → List A → List A
  add a s = if contains a s then s else s ++ a ∷ []

  -- `s.update(xs)`
  unfoldable pub update : List A → List A → List A
  update [] s = s
  update (x ∷ xs) s = update xs (add x s)

  pub contains-append :
      (a : A) (xs ys : List A) → contains a (xs ++ ys) ≡ (contains a xs || contains a ys)
  unfolding contains
  contains-append a [] ys = refl
  contains-append a (x ∷ xs) ys = ground (arith, contains-append a xs ys)

  pub contains-add : (a b : A) (s : List A) → contains b (add a s) ≡ (a == b || contains b s)
  unfolding add contains
  contains-add a b s = elim (Bool-cases (contains a s)) [
    | inl old ↦ rw old (elim (Bool-cases (e.beq a b)) [
      | inl same ↦ ground (arith, e.beq_iff a b)
      | inr other ↦ rw other
    ])
    | inr new ↦ rw new (ground (arith, contains-append b s (a ∷ [])))
  ]

  pub contains-update :
      (b : A) (xs s : List A) → contains b (update xs s) ≡ (contains b xs || contains b s)
  unfolding update contains
  contains-update b [] s = refl
  contains-update b (x ∷ xs) s = ground (arith, contains-update b xs (add x s), contains-add x b s)

pub ruleset set_laws = (contains-append, contains-add, contains-update)
