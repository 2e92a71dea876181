-- ===== src/Workers/BankMax/Laws.antt =====
-- Laws about the deltas of the bank maxima.
use tp_distribuidos_moneylau.Prelude.{
  ◌==◌, nat_eq, list_eq, list_beq_iff, Bool, true, ◌||◌, Option, none, some, List, [], ◌∷◌,
  if◌then◌else◌, lookup, lookup-insert, ◌≡◌, refl, sym, ◌∙◌, ap, arith, inl, inr, Bool-cases,
  Option-cases, keys, Distinct, lookup_absent, Distinct-insert,
}
use tp_distribuidos_moneylau.Prelude.Text.{Text}
use tp_distribuidos_moneylau.Workers.BankMax.{Maximum, Maxima, beats, raise_max, raise_all}

module _ {Amount : Type 0} (greater same : Amount → Amount → Bool) (less : Text → Text → Bool) where
  -- what the comparison of maxima is relied on for: numbers and strings in their usual order have it
  pub record IsOrder : Type 0 where
    pub transitive :
        (x y z : Maximum Amount)
        → beats greater same less x y ≡ true
        → beats greater same less y z ≡ true
        → beats greater same less x z ≡ true
    pub cotransitive :
        (x y z : Maximum Amount)
        → beats greater same less x z ≡ true
        → (beats greater same less x y || beats greater same less y z) ≡ true

  -- the larger of two maxima, the first one of equals
  abbrev merge : Option (Maximum Amount) → Option (Maximum Amount) → Option (Maximum Amount)
  merge none y = y
  merge (some x) none = some x
  merge (some x) (some y) = some (if beats greater same less y x then y else x)

  -- the largest of the entries of a bank, and of one before them
  abbrev pub best :
      Text → Option (Maximum Amount) → List (Text × Maximum Amount) → Option (Maximum Amount)
  best bank o [] = o
  best bank o ((b, x) ∷ entries) = best bank (if b == bank then merge o (some x) else o) entries

  merge_assoc :
      IsOrder → (a b c : Option (Maximum Amount)) → merge (merge a b) c ≡ merge a (merge b c)
  merge_assoc order none b c = refl
  merge_assoc order (some x) none c = refl
  merge_assoc order (some x) (some y) none = refl
  merge_assoc order (some x) (some y) (some z) =
      ground (arith, order.transitive z y x, order.cotransitive z y x)

  lookup-raise_max :
      (bank b : Text) (x : Maximum Amount) (d : Maxima Amount)
      → lookup bank (raise_max greater same less b x d)
        ≡ (if b == bank then merge (lookup bank d) (some x) else lookup bank d)
  unfolding raise_max
  lookup-raise_max bank b x d = elim (Option-cases (lookup b d)) [
    | inl e ↦ rw (e, raise_max) (ground (arith, lookup-insert bank b x d, list_beq_iff b bank))
    | inr (current, e) ↦
        rw (e, raise_max) (ground (arith, lookup-insert bank b x d, list_beq_iff b bank))
  ]

  -- what the loops compute
  lookup-raise_all :
      (bank : Text) (entries : List (Text × Maximum Amount)) (d : Maxima Amount)
      → lookup bank (raise_all greater same less entries d) ≡ best bank (lookup bank d) entries
  unfolding raise_all
  lookup-raise_all bank [] d = refl
  lookup-raise_all bank ((b, x) ∷ entries) d =
      lookup-raise_all bank entries (raise_max greater same less b x d)
      ∙ ap (λ o. best bank o entries) (lookup-raise_max bank b x d)

  merge-best :
      IsOrder
      → (bank : Text) (entries : List (Text × Maximum Amount)) (o p : Option (Maximum Amount))
      → merge o (best bank p entries) ≡ best bank (merge o p) entries
  merge-best order bank [] o p = refl
  merge-best order bank ((b, x) ∷ entries) o p = elim (Bool-cases (b == bank)) [
    | inl e ↦ rw e (
        merge-best order bank entries o (merge p (some x))
        ∙ ap (λ q. best bank q entries) (sym (merge_assoc order o p (some x))))
    | inr e ↦ rw e (merge-best order bank entries o p)
  ]

  Distinct-raise_max :
      (b : Text) (v : Maximum Amount) (d : Maxima Amount)
      → Distinct (keys d)
      → Distinct (keys (raise_max greater same less b v d))
  unfolding raise_max
  Distinct-raise_max b v d x = elim (Option-cases (lookup b d)) [
    | inl e ↦ rw (e, raise_max) (Distinct-insert b v d x)
    | inr (current, e) ↦ elim (Bool-cases (beats greater same less v current)) [
      | inl up ↦ rw (e, raise_max, up) (Distinct-insert b v d x)
      | inr down ↦ rw (e, raise_max, down) x
    ]
  ]

  Distinct-raise_all :
      (entries : List (Text × Maximum Amount)) (d : Maxima Amount)
      → Distinct (keys d)
      → Distinct (keys (raise_all greater same less entries d))
  unfolding raise_all
  Distinct-raise_all [] d x = x
  Distinct-raise_all ((b, v) ∷ entries) d x =
      Distinct-raise_all entries (raise_max greater same less b v d) (Distinct-raise_max b v d x)

  merge-none : (o : Option (Maximum Amount)) → merge o none ≡ o
  merge-none none = refl
  merge-none (some x) = refl

  -- the entries of a dict are those of its lookups
  best-dict :
      (bank : Text) (d : Maxima Amount) (o : Option (Maximum Amount))
      → Distinct (keys d)
      → best bank o d ≡ merge o (lookup bank d)
  unfolding lookup
  best-dict bank [] o x = sym (merge-none o)
  best-dict bank ((b, v) ∷ d) o x = elim (Bool-cases (b == bank)) [
    | inl e ↦
        let absent : lookup bank d ≡ none =
          lookup_absent bank d (ground (arith, list_beq_iff b bank)) in
        rw e (best-dict bank d (merge o (some v)) x.1 ∙ rw absent (merge-none (merge o (some v))))
    | inr e ↦ rw e (best-dict bank d o x.1)
  ]

  -- For a comparison of maxima that is transitive and cotransitive: a batch gathered into a
  -- delta, and the delta added to a flow, gives each bank the maximum that adding the entries of
  -- the batch one by one gives it, which is the largest of the flow's and the entries'.
  pub raise_all-delta :
      IsOrder
      → (bank : Text) (entries : List (Text × Maximum Amount)) (flow : Maxima Amount)
      → (lookup bank (raise_all greater same less (raise_all greater same less entries []) flow)
          ≡ lookup bank (raise_all greater same less entries flow))
        × (lookup bank (raise_all greater same less entries flow)
            ≡ best bank (lookup bank flow) entries)
  unfolding lookup
  raise_all-delta order bank entries flow =
      let delta = raise_all greater same less entries [] in
      let direct = lookup-raise_all bank entries flow in
      let gathered = lookup-raise_all bank entries [] in
      (
        lookup-raise_all bank delta flow
            ∙ best-dict bank delta (lookup bank flow) (Distinct-raise_all entries [] tt)
            ∙ ap (merge (lookup bank flow)) gathered
            ∙ merge-best order bank entries (lookup bank flow) none
            ∙ ap (λ o. best bank o entries) (merge-none (lookup bank flow))
            ∙ sym direct,
        direct,
      )
