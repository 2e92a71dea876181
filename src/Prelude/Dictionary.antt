-- ===== src/Prelude/Dictionary.antt =====
-- Python's `dict` as an association list in insertion order: a new key goes to the end, an
-- assignment to a key that is there keeps its place.
use mathlib.Core.Path.{◌≡◌, refl}
use mathlib.Core.Option.{Option, none, some}
use mathlib.Core.List.{List, [], ◌∷◌, map}
use native.Mathlib.Omega.{arith}
use tp_distribuidos_moneylau.Prelude.Tests.{if◌then◌else◌, or_else}
use tp_distribuidos_moneylau.Prelude.Equality.{Eq, ◌==◌}

abbrev pub Dict {ℓ κ} : Type ℓ → Type κ → Type (ℓ ⊔ κ)
Dict K V = List (K × V)

module _ {ℓ κ} {K : Type ℓ} {V : Type κ} ⦃e : Eq K⦄ where
  -- `d.get(k)`
  unfoldable pub lookup : K → Dict K V → Option V
  lookup k [] = none
  lookup k ((j, v) ∷ d) = if j == k then some v else lookup k d

  -- `d[k] = v`
  unfoldable pub insert : K → V → Dict K V → Dict K V
  insert k v [] = (k, v) ∷ []
  insert k v ((j, w) ∷ d) = if j == k then (j, v) ∷ d else (j, w) ∷ insert k v d

  -- `d.pop(k, None)`, `del d[k]`
  unfoldable pub erase : K → Dict K V → Dict K V
  erase k [] = []
  erase k ((j, w) ∷ d) = let rest = erase k d in if j == k then rest else (j, w) ∷ rest

  -- `d.get(k, default)`
  unfoldable pub get_or : K → V → Dict K V → V
  get_or k v d = or_else (lookup k d) v

  -- `d.setdefault(k, v)`: the dict afterwards
  unfoldable pub setdefault : K → V → Dict K V → Dict K V
  setdefault k v d = elim (lookup k d) [ none ↦ insert k v d | some _ ↦ d ]

  pub lookup-insert :
      (j k : K) (v : V) (d : Dict K V)
      → lookup j (insert k v d) ≡ (if k == j then some v else lookup j d)
  unfolding lookup insert
  lookup-insert j k v [] = refl
  lookup-insert j k v ((i, w) ∷ d) =
      ground (arith, e.beq_iff i k, e.beq_iff i j, e.beq_iff k j, lookup-insert j k v d)

  pub lookup-erase :
      (j k : K) (d : Dict K V) → lookup j (erase k d) ≡ (if k == j then none else lookup j d)
  unfolding lookup erase
  lookup-erase j k [] = ground arith
  lookup-erase j k ((i, w) ∷ d) =
      ground (arith, e.beq_iff i k, e.beq_iff i j, e.beq_iff k j, lookup-erase j k d)

  pub get_or-insert :
      (j k : K) (v w : V) (d : Dict K V)
      → get_or j w (insert k v d) ≡ (if k == j then v else get_or j w d)
  unfolding get_or
  get_or-insert j k v w d = rw (lookup-insert j k v d) (ground arith)

  pub get_or-erase :
      (j k : K) (w : V) (d : Dict K V)
      → get_or j w (erase k d) ≡ (if k == j then w else get_or j w d)
  unfolding get_or
  get_or-erase j k w d = rw (lookup-erase j k d) (ground arith)

  pub get_or-setdefault :
      (j k : K) (v w : V) (d : Dict K V)
      → lookup j (setdefault k v d) ≡ (if k == j then some (get_or k v d) else lookup j d)
  unfolding setdefault get_or
  get_or-setdefault j k v w d = ground (arith, lookup-insert j k v d, e.beq_iff k j)

  -- `d.keys()`
  abbrev pub keys : Dict K V → List K
  keys = map (λ p. p.0)

pub ruleset dict_laws = (lookup-insert, lookup-erase, get_or-insert, get_or-erase)
