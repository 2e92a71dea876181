-- ===== src/Prelude/Branches.antt =====
-- Paths under a function of two arguments, and matches on an option that is known.
use mathlib.Core.Path.{◌≡◌, refl}
use mathlib.Core.Option.{Option, none, some}

pub ap2 {ℓ κ μ} :
    {A : Type ℓ} {B : Type κ} {C : Type μ} (f : A → B → C) {a a' : A} {b b' : B}
    → a ≡ a'
    → b ≡ b'
    → f a b ≡ f a' b'
ap2 f p q = rw (p, q) refl

module _ {ℓ κ} {A : Type ℓ} {B : Type κ} where
  pub on_none : (o : Option A) (x y : B) → o ≡ none → (elim o [ none ↦ x | some _ ↦ y ]) ≡ x
  on_none o x y e = rw e refl

  pub on_some :
      (o : Option A) {a : A} (x y : B) → o ≡ some a → (elim o [ none ↦ x | some _ ↦ y ]) ≡ y
  on_some o x y e = rw e refl

  pub on_some_at :
      (o : Option A) {a : A} (x : B) (f : A → B)
      → o ≡ some a
      → (elim o [ none ↦ x | some b ↦ f b ]) ≡ f a
  on_some_at o x f e = rw e refl
