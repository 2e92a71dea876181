-- ===== src/Client/Results/Total.antt =====
-- Laws about the KeyError of the collection of the results.
use tp_distribuidos_moneylau.Prelude.{
  ℕ, ◌+◌, nat_eq, list_eq, pair_eq, length, true, none, some, List, [], ◌∷◌, ◌++◌, lookup, insert,
  get_or, contains, add, lookup-insert, All, ◌≡◌, ◌≢◌, refl, arith, inl, inr, Bool-cases,
  Option-cases,
}
use tp_distribuidos_moneylau.Client.Results.{
  Results, for_ids, open_result_files, is_complete, maybe_finalize, write_rows, store_result,
  is_empty_text, handle_query_result, handle_query_end, Received, query_result, query_end, ack,
  closed, handle_received, handle_each,
}

lookup-for_ids :
    {A : Type 0} (k : ℕ) (a : A) (ids : List ℕ)
    → contains k ids ≡ true
    → lookup k (for_ids a ids) ≢ none
unfolding for_ids contains
lookup-for_ids k a [] h = cc
lookup-for_ids k a (id ∷ ids) h =
    λ gone. ground (arith, lookup-insert k id a (for_ids a ids), lookup-for_ids k a ids)

pub nothing_complete :
    (Row : Type 0) (ids : List ℕ) (k : ℕ) → is_complete k (open_result_files {Row = Row} ids) ≢ true
unfolding is_complete open_result_files lookup
nothing_complete Row ids k c = cc

module _ {Row : Type 0} where
  -- the query of an item is one that the client asked for
  abbrev pub Expects : List ℕ → Received Row → Type 0
  Expects ids (query_result q rows mid delivery) = contains q ids ≡ true
  Expects ids (query_end q message_count delivery) = contains q ids ≡ true
  Expects ids ack = Unit
  Expects ids closed = Unit

  abbrev HasFile : Results Row → ℕ → Type 0
  HasFile r k = (lookup k r.writers ≢ none) × (lookup k r.totals ≢ none)

  abbrev Keeps : Results Row → Results Row → Type 0
  Keeps r w = (k : ℕ) → HasFile r k → HasFile w k

  maybe_finalize_total :
      (q : ℕ) (r : Results Row)
      → HasFile r q
      → (w : Results Row) × (maybe_finalize q r ≡ some w) × Keeps r w
  unfolding maybe_finalize
  maybe_finalize_total q r h = elim (Bool-cases (contains q r.finalized)) [
    | inl old ↦ (r, rw old refl, λ k h'. h')
    | inr new ↦ elim (Bool-cases (is_complete q r)) [
      | inr waiting ↦ (r, rw (new, waiting) refl, λ k h'. h')
      | inl complete ↦ elim (Option-cases (lookup q r.totals)) [
        | inl missing ↦ absurd (h.1 missing)
        | inr (total, found) ↦
            (record r { finalized = add q r.finalized }, rw (new, complete, found) refl, λ k h'. h')
      ]
    ]
  ]

  write_rows_total :
      (q : ℕ) (rows : List Row) (r : Results Row)
      → HasFile r q
      → (w : Results Row) × (write_rows q rows r ≡ some w) × Keeps r w
  unfolding write_rows
  write_rows_total q [] r h = (r, refl, λ k h'. h')
  write_rows_total q (row ∷ rows) r h = elim (Option-cases (lookup q r.writers)) [
    | inl missing ↦ absurd (h.0 missing)
    | inr (written, found) ↦ (
      record r { writers = insert q (written ++ row ∷ rows) r.writers },
      rw found refl,
      λ k h'. ((λ gone. ground (arith, lookup-insert k q (written ++ row ∷ rows) r.writers)), h'.1),
    )
  ]

  store_result_total :
      (q : ℕ) (rows : List Row) (r : Results Row)
      → HasFile r q
      → (w : Results Row) × (store_result q rows r ≡ some w) × Keeps r w
  unfolding store_result
  store_result_total q rows r h =
      let (w, wrote, kept) = write_rows_total q rows r h in
      elim (Option-cases (lookup q w.totals)) [
        | inl missing ↦ absurd ((kept q h).1 missing)
        | inr (total, found) ↦
            let counted = record w {
              totals = insert q (total + length rows) w.totals;
              received = insert q (get_or q 0 w.received + 1) w.received;
            } in
            let keeps : Keeps w counted = λ k h'.
              (h'.0, (λ gone. ground (arith, lookup-insert k q (total + length rows) w.totals))) in
            let (w', done, kept') = maybe_finalize_total q counted (keeps q (kept q h)) in
            (w', rw (wrote, found) done, λ k h'. kept' k (keeps k (kept k h')))
      ]

  handle_received_total :
      (ids : List ℕ) (item : Received Row) (r : Results Row)
      → Expects ids item
      → ((k : ℕ) → contains k ids ≡ true → HasFile r k)
      → (w : Results Row × List ℕ) × (handle_received item r ≡ some w) × Keeps r w.0
  unfolding handle_received handle_query_result handle_query_end
  handle_received_total ids (query_result q rows mid delivery) r known files =
      elim (Bool-cases (is_empty_text mid)) [
        | inl nameless ↦
            let (w, done, kept) = store_result_total q rows r (files q known) in
            ((w, delivery ∷ []), rw (nameless, done) refl, kept)
        | inr named ↦ elim (Bool-cases (contains (q, mid) r.seen_results)) [
          | inl old ↦ ((r, delivery ∷ []), rw (named, old) refl, λ k h. h)
          | inr new ↦
              let (w, done, kept) =
                store_result_total q rows (record r { seen_results = add (q, mid) r.seen_results })
                  (files q known) in
              ((w, delivery ∷ []), rw (named, new, done) refl, kept)
        ]
      ]
  handle_received_total ids (query_end q message_count delivery) r known files =
      let (w, done, kept) =
        maybe_finalize_total q (record r { expected = insert q message_count r.expected })
          (files q known) in
      ((w, delivery ∷ []), rw done refl, kept)
  handle_received_total ids ack r known files = ((r, []), refl, λ k h. h)
  handle_received_total ids closed r known files = ((r, []), refl, λ k h. h)

  handle_each_total_from :
      (ids : List ℕ) (items : List (Received Row)) (r : Results Row)
      → All (Expects ids) items
      → ((k : ℕ) → contains k ids ≡ true → HasFile r k)
      → (w : Results Row) × (handle_each items r ≡ some w)
  unfolding handle_each
  handle_each_total_from ids [] r known files = (r, refl)
  handle_each_total_from ids (item ∷ items) r known files =
      let (w, done, kept) = handle_received_total ids item r known.0 files in
      let (r', later) = handle_each_total_from ids items w.0 known.1 (λ k h. kept k (files k h)) in
      (r', rw done later)

  -- The client meets no KeyError as long as the results and the ends of queries that it handles
  -- are of the queries it has files for.
  pub handle_each_total :
      (ids : List ℕ) (items : List (Received Row))
      → All (Expects ids) items
      → (w : Results Row) × (handle_each items (open_result_files ids) ≡ some w)
  unfolding open_result_files
  handle_each_total ids items known =
      handle_each_total_from ids items (open_result_files ids) known
        (λ k h. (lookup-for_ids k [] ids h, lookup-for_ids k 0 ids h))
