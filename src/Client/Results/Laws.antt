-- ===== src/Client/Results/Laws.antt =====
-- Laws about the rows that the client writes for the results that it gets.
use tp_distribuidos_moneylau.Prelude.{
  ℕ, ◌+◌, ◌==◌, nat_eq, nat_beq_iff, list_eq, list_beq_iff, pair_eq, not, Bool, true, false, ◌&&◌,
  ◌||◌, some, List, [], ◌∷◌, ◌++◌, if◌then◌else◌, Dict, lookup, insert, get_or, contains, add,
  contains-add, get_or-insert, ◌≡◌, refl, sym, ap, ◌∙◌, arith, inl, inr, Bool-cases, Option-cases,
}
use mathlib.Core.List.{append_assoc}
use tp_distribuidos_moneylau.Prelude.Int.{ℤ}
use tp_distribuidos_moneylau.Prelude.Text.{Text}
use tp_distribuidos_moneylau.Client.Results.{
  Results, for_ids, open_result_files, maybe_finalize, write_rows, store_result, is_empty_text,
  handle_query_result, handle_query_end, Received, query_result, query_end, ack, closed,
  handle_received, handle_each,
}

for_ids_default : {A : Type 0} (k : ℕ) (a : A) (ids : List ℕ) → get_or k a (for_ids a ids) ≡ a
unfolding for_ids get_or lookup
for_ids_default k a [] = refl
for_ids_default k a (id ∷ ids) =
    get_or-insert k id a a (for_ids a ids) ∙ ground (arith, for_ids_default k a ids)

nothing_yet : (k n : ℕ) → get_or k 0 [] + n ≡ n
unfolding get_or lookup
nothing_yet k n = omega arith

module _ {Row : Type 0} where
  -- finalizing changes nothing but the finalized queries
  maybe_finalize_keeps :
      (q : ℕ) (r : Results Row) {r' : Results Row}
      → maybe_finalize q r ≡ some r'
      → (r'.seen_results ≡ r.seen_results)
        × (r'.received ≡ r.received)
        × (r'.expected ≡ r.expected)
        × (r'.writers ≡ r.writers)
        × (r'.totals ≡ r.totals)
  unfolding maybe_finalize
  maybe_finalize_keeps q r e = ground arith

  append_nil : (xs : List Row) → xs ≡ xs ++ []
  append_nil [] = refl
  append_nil (x ∷ xs) = ap (λ l. x ∷ l) (append_nil xs)

  stored_rows :
      (q k : ℕ) (new written : List Row) (d : Dict ℕ (List Row))
      → lookup q d ≡ some written
      → (if q == k then written ++ new else get_or k [] d)
        ≡ get_or k [] d ++ (if q == k then new else [])
  unfolding get_or
  stored_rows q k new written d found = elim (Bool-cases (q == k)) [
    | inl same ↦
        let key = (nat_beq_iff q k).0 same in
        let found' : lookup k d ≡ some written = rw (← key) found in rw (same, found') refl
    | inr other ↦ rw other (append_nil _)
  ]

  write_rows_keeps :
      (q k : ℕ) (rows : List Row) (r : Results Row) {r' : Results Row}
      → write_rows q rows r ≡ some r'
      → (r'.seen_results ≡ r.seen_results)
        × (r'.received ≡ r.received)
        × (r'.expected ≡ r.expected)
        × (r'.finalized ≡ r.finalized)
        × (r'.totals ≡ r.totals)
        × (get_or k [] r'.writers ≡ get_or k [] r.writers ++ (if q == k then rows else []))
  unfolding write_rows
  write_rows_keeps q k [] r {r'} e =
      let same : r ≡ r' = ground arith in
      rw (← same) (refl, refl, refl, refl, refl, append_nil (get_or k [] r.writers) ∙ ground arith)
  write_rows_keeps q k (row ∷ rows) r {r'} e = elim (Option-cases (lookup q r.writers)) [
    | inl failed ↦ let e' = rw failed at e in cc
    | inr (written, found) ↦
        let e' = rw found at e in
        let same : record r { writers = insert q (written ++ row ∷ rows) r.writers } ≡ r' =
          ground arith in
        rw (← same) (
          refl,
          refl,
          refl,
          refl,
          refl,
          get_or-insert k q (written ++ row ∷ rows) [] r.writers
              ∙ stored_rows q k (row ∷ rows) written r.writers found,
        )
  ]

  -- what storing a result does to what is kept of any query
  store_result_effect :
      (q k : ℕ) (rows : List Row) (r : Results Row) {r' : Results Row}
      → store_result q rows r ≡ some r'
      → (r'.seen_results ≡ r.seen_results)
        × (get_or k [] r'.writers ≡ get_or k [] r.writers ++ (if q == k then rows else []))
        × (get_or k 0 r'.received ≡ get_or k 0 r.received + (if q == k then 1 else 0))
        × (r'.expected ≡ r.expected)
  unfolding store_result
  store_result_effect q k rows r {r'} e = elim (Option-cases (write_rows q rows r)) [
    | inl failed ↦ let e' = rw failed at e in cc
    | inr (w, wrote) ↦ elim (Option-cases (lookup q w.totals)) [
      | inl failed ↦ let e' = rw (wrote, failed) at e in cc
      | inr (total, found) ↦
          let e' = rw (wrote, found) at e in
          let kept = maybe_finalize_keeps q _ {r' = r'} e' in
          let (seen, received, expected, finalized, totals, writers) =
            write_rows_keeps q k rows r {r' = w} wrote in
          (
            kept.0 ∙ seen,
            rw kept.3 writers,
            rw (kept.1, get_or-insert k q (get_or q 0 w.received + 1) 0 w.received, received)
                (ground (arith, nat_beq_iff q k)),
            kept.2 ∙ expected,
          )
    ]
  ]

  abbrev is_new : ℕ → Text → Results Row → Bool
  is_new q mid r = is_empty_text mid || not (contains (q, mid) r.seen_results)

  -- a delivered result is stored if it has no id or its id is new, and else nothing changes
  handle_query_result_effect :
      (q k : ℕ) (rows : List Row) (mid : Text) (delivery : ℕ) (r : Results Row) {r' : Results Row}
      {acked : ℕ}
      → handle_query_result q rows mid delivery r ≡ some (r', acked)
      → (acked ≡ delivery)
        × (r'.seen_results
            ≡ (if is_empty_text mid then r.seen_results else add (q, mid) r.seen_results))
        × (get_or k [] r'.writers
            ≡ get_or k [] r.writers ++ (if is_new q mid r && q == k then rows else []))
        × (get_or k 0 r'.received
            ≡ get_or k 0 r.received + (if is_new q mid r && q == k then 1 else 0))
        × (r'.expected ≡ r.expected)
  unfolding handle_query_result
  handle_query_result_effect q k rows mid delivery r {r'} {acked} e =
      elim (Bool-cases (is_empty_text mid)) [
        | inl nameless ↦ elim (Option-cases (store_result q rows r)) [
          | inl failed ↦ let e' = rw (nameless, failed) at e in cc
          | inr (w, done) ↦
              let e' = rw (nameless, done) at e in
              let (seen, writers, received, expected) =
                store_result_effect q k rows r {r' = w} done in
              let same : w ≡ r' = ground arith in
              let tag : acked ≡ delivery = ground arith in
              rw (← same, nameless) (tag, seen, writers, received, expected)
        ]
        | inr named ↦ elim (Bool-cases (contains (q, mid) r.seen_results)) [
          | inl old ↦
              let e' = rw (named, old) at e in
              let same : r ≡ r' = ground arith in
              let tag : acked ≡ delivery = ground arith in
              rw (← same, named, old)
                (tag, sym (unfold add in rw old refl), append_nil _, omega arith, refl)
          | inr new ↦
              elim (Option-cases
                (store_result q rows (record r { seen_results = add (q, mid) r.seen_results }))) [
                  | inl failed ↦ let e' = rw (named, new, failed) at e in cc
                  | inr (w, done) ↦
                      let e' = rw (named, new, done) at e in
                      let (seen, writers, received, expected) =
                        store_result_effect q k rows _ {r' = w} done in
                      let same : w ≡ r' = ground arith in
                      let tag : acked ≡ delivery = ground arith in
                      rw (← same, named, new) (tag, seen, writers, received, expected)
                ]
        ]
      ]

  -- A result with an id that was handled without a KeyError is only acknowledged when it is
  -- delivered again: the results stay as they are.
  pub handle_query_result_again :
      (q : ℕ) (rows : List Row) (mid : Text) (delivery again : ℕ) (r : Results Row)
      {r' : Results Row} {acked : ℕ}
      → is_empty_text mid ≡ false
      → handle_query_result q rows mid delivery r ≡ some (r', acked)
      → handle_query_result q rows mid again r' ≡ some (r', again)
  handle_query_result_again q rows mid delivery again r {r'} named e =
      let (tag, seen, writers, received, expected) =
        handle_query_result_effect q q rows mid delivery r e in
      let known : contains (q, mid) r'.seen_results ≡ true =
        ap (contains (q, mid)) (seen ∙ rw named refl)
        ∙ contains-add (q, mid) (q, mid) r.seen_results
        ∙ ground (arith, nat_beq_iff q q, list_beq_iff mid mid) in
      unfold handle_query_result in rw (named, known) refl

  -- the rows of a query in the results that are new when they are delivered
  unfoldable pub rows_delivered : ℕ → List (ℕ × Text) → List (Received Row) → List Row
  unfolding is_empty_text
  rows_delivered k seen [] = []
  rows_delivered k seen (query_result q rows mid delivery ∷ items) =
      (if (is_empty_text mid || not (contains (q, mid) seen)) && q == k then rows else [])
      ++ rows_delivered k (if is_empty_text mid then seen else add (q, mid) seen) items
  rows_delivered k seen (query_end q message_count delivery ∷ items) = rows_delivered k seen items
  rows_delivered k seen (ack ∷ items) = rows_delivered k seen items
  rows_delivered k seen (closed ∷ items) = rows_delivered k seen items

  -- how many they are
  unfoldable pub results_delivered : ℕ → List (ℕ × Text) → List (Received Row) → ℕ
  unfolding is_empty_text
  results_delivered k seen [] = 0
  results_delivered k seen (query_result q rows mid delivery ∷ items) =
      (if (is_empty_text mid || not (contains (q, mid) seen)) && q == k then 1 else 0)
      + results_delivered k (if is_empty_text mid then seen else add (q, mid) seen) items
  results_delivered k seen (query_end q message_count delivery ∷ items) =
      results_delivered k seen items
  results_delivered k seen (ack ∷ items) = results_delivered k seen items
  results_delivered k seen (closed ∷ items) = results_delivered k seen items

  handle_query_end_keeps :
      (q : ℕ) (message_count : ℤ) (delivery : ℕ) (r : Results Row) {r' : Results Row} {acked : ℕ}
      → handle_query_end q message_count delivery r ≡ some (r', acked)
      → (r'.seen_results ≡ r.seen_results) × (r'.received ≡ r.received) × (r'.writers ≡ r.writers)
  unfolding handle_query_end
  handle_query_end_keeps q message_count delivery r {r'} e =
      let ended = record r { expected = insert q message_count r.expected } in
      elim (Option-cases (maybe_finalize q ended)) [
        | inl failed ↦ let e' = rw failed at e in cc
        | inr (w, done) ↦
            let e' = rw done at e in
            let kept = maybe_finalize_keeps q ended {r' = w} done in
            let same : w ≡ r' = ground arith in rw (← same) (kept.0, kept.1, kept.3)
      ]

  handle_each_from :
      (k : ℕ) (items : List (Received Row)) (r : Results Row) {r' : Results Row}
      → handle_each items r ≡ some r'
      → (get_or k [] r'.writers ≡ get_or k [] r.writers ++ rows_delivered k r.seen_results items)
        × (get_or k 0 r'.received
            ≡ get_or k 0 r.received + results_delivered k r.seen_results items)
  unfolding handle_each handle_received rows_delivered results_delivered
  handle_each_from k [] r {r'} e =
      let same : r ≡ r' = ground arith in rw (← same) (append_nil _, omega arith)
  handle_each_from k (query_result q rows mid delivery ∷ items) r {r'} e =
      elim (Option-cases (handle_query_result q rows mid delivery r)) [
        | inl failed ↦ let e' = rw failed at e in cc
        | inr (w, done) ↦
            let e' = rw done at e in
            let (tag, seen, writers, received, expected) =
              handle_query_result_effect q k rows mid delivery r done in
            let (later, more) = handle_each_from k items w.0 e' in
            (
              later ∙ rw (writers, seen) (append_assoc (get_or k [] r.writers) _ _),
              more ∙ rw (received, seen) (omega arith),
            )
      ]
  handle_each_from k (query_end q message_count delivery ∷ items) r {r'} e =
      elim (Option-cases (handle_query_end q message_count delivery r)) [
        | inl failed ↦ let e' = rw failed at e in cc
        | inr (w, done) ↦
            let e' = rw done at e in
            let kept =
              handle_query_end_keeps q message_count delivery r {r' = w.0} {acked = w.1} done in
            rw (← kept.0, ← kept.1, ← kept.2) (handle_each_from k items w.0 e')
      ]
  handle_each_from k (ack ∷ items) r e = handle_each_from k items r e
  handle_each_from k (closed ∷ items) r e = handle_each_from k items r e

  -- When the client has handled messages from its start on without a KeyError, the rows it has
  -- written for a query and the number of batches it has counted are those of the results of that
  -- query that had no id, or an id not delivered before, in order.
  pub handle_each-rows_delivered :
      (ids : List ℕ) (k : ℕ) (items : List (Received Row)) {r : Results Row}
      → handle_each items (open_result_files ids) ≡ some r
      → (get_or k [] r.writers ≡ rows_delivered k [] items)
        × (get_or k 0 r.received ≡ results_delivered k [] items)
  unfolding open_result_files
  handle_each-rows_delivered ids k items {r} e =
      let (rows, results) = handle_each_from k items (open_result_files ids) e in
      (
        rows ∙ ap (λ x. x ++ rows_delivered k [] items) (for_ids_default k [] ids),
        results ∙ nothing_yet k (results_delivered k [] items),
      )
