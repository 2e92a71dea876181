-- ===== src/Client/Results/Finalized.antt =====
-- Laws about the queries that the client has finalized.
use tp_distribuidos_moneylau.Prelude.{
  ap2, ℕ, ◌+◌, ◌==◌, nat_eq, nat_beq_iff, list_eq, pair_eq, length, true, false, none, some, List,
  [], ◌∷◌, lookup, insert, get_or, contains, add, contains-add, lookup-insert, get_or-insert, ◌≡◌,
  refl, sym, ◌∙◌, arith, inl, inr, Bool-cases, Option-cases,
}
use tp_distribuidos_moneylau.Prelude.Int.{pos, leb_ℤ}
use tp_distribuidos_moneylau.Client.Results.{
  Results, open_result_files, is_complete, maybe_finalize, write_rows, store_result, is_empty_text,
  handle_query_result, handle_query_end, Received, query_result, query_end, ack, closed,
  handle_received, handle_each,
}
use tp_distribuidos_moneylau.Client.Results.Total.{nothing_complete}

module _ {Row : Type 0} where
  -- a query that is complete has been finalized
  abbrev pub Finalizes : Results Row → Type 0
  Finalizes r = (k : ℕ) → is_complete k r ≡ true → contains k r.finalized ≡ true

  maybe_finalize-Finalizes :
      (q : ℕ) (r : Results Row) {w : Results Row}
      → ((k : ℕ) → (q == k) ≡ false → is_complete k r ≡ true → contains k r.finalized ≡ true)
      → maybe_finalize q r ≡ some w
      → Finalizes w
  unfolding maybe_finalize is_complete
  maybe_finalize-Finalizes q r {w} others e = elim (Bool-cases (contains q r.finalized)) [
    | inl old ↦
        let e' = rw old at e in
        let same : r ≡ w = ground arith in
        rw (← same) (λ k c. ground (arith, nat_beq_iff q k, others k))
    | inr new ↦ elim (Bool-cases (is_complete q r)) [
      | inr waiting ↦
          let e' = rw (new, waiting) at e in
          let same : r ≡ w = ground arith in
          rw (← same) (λ k c. elim (Bool-cases (q == k)) [
            | inl key ↦
                let not_yet : is_complete k r ≡ false = rw (← (nat_beq_iff q k).0 key) waiting in cc
            | inr other ↦ others k other c
          ])
      | inl complete ↦ elim (Option-cases (lookup q r.totals)) [
        | inl missing ↦ let e' = rw (new, complete, missing) at e in cc
        | inr (total, found) ↦
            let e' = rw (new, complete, found) at e in
            let same : record r { finalized = add q r.finalized } ≡ w = ground arith in
            rw (← same) (λ k c. contains-add q k r.finalized ∙ ground (arith, others k))
      ]
    ]
  ]

  is_complete_same :
      (k : ℕ) (r w : Results Row)
      → lookup k r.expected ≡ lookup k w.expected
      → get_or k 0 r.received ≡ get_or k 0 w.received
      → is_complete k r ≡ is_complete k w
  unfolding is_complete
  is_complete_same k r w expected received =
      ap2 (λ found n. elim found [ none ↦ false | some expected ↦ leb_ℤ expected (pos n) ]) expected
        received

  write_rows_same :
      (q : ℕ) (rows : List Row) (r : Results Row) {w : Results Row}
      → write_rows q rows r ≡ some w
      → (w.received ≡ r.received) × (w.expected ≡ r.expected) × (w.finalized ≡ r.finalized)
  unfolding write_rows
  write_rows_same q [] r e = ground arith
  write_rows_same q (row ∷ rows) r e = ground arith

  store_result-Finalizes :
      (q : ℕ) (rows : List Row) (r : Results Row) {w : Results Row}
      → Finalizes r
      → store_result q rows r ≡ some w
      → Finalizes w
  unfolding store_result
  store_result-Finalizes q rows r {w} f e = elim (Option-cases (write_rows q rows r)) [
    | inl failed ↦ let e' = rw failed at e in cc
    | inr (w', wrote) ↦ elim (Option-cases (lookup q w'.totals)) [
      | inl failed ↦ let e' = rw (wrote, failed) at e in cc
      | inr (total, found) ↦
          let e' = rw (wrote, found) at e in
          let (received, expected, finalized) = write_rows_same q rows r {w = w'} wrote in
          let counted = record w' {
            totals = insert q (total + length rows) w'.totals;
            received = insert q (get_or q 0 w'.received + 1) w'.received;
          } in
          maybe_finalize-Finalizes q counted {w = w}
            (λ k other c. rw finalized (
              f k (
                is_complete_same k r counted (rw expected refl) (
                  rw (get_or-insert k q (get_or q 0 w'.received + 1) 0 w'.received, other, received)
                    refl)
                ∙ c)))
            e'
    ]
  ]

  handle_received-Finalizes :
      (item : Received Row) (r : Results Row) {w : Results Row × List ℕ}
      → Finalizes r
      → handle_received item r ≡ some w
      → Finalizes w.0
  unfolding handle_received handle_query_result handle_query_end
  handle_received-Finalizes (query_result q rows mid delivery) r {w} f e =
      elim (Bool-cases (is_empty_text mid)) [
        | inl nameless ↦ elim (Option-cases (store_result q rows r)) [
          | inl failed ↦ let e' = rw (nameless, failed) at e in cc
          | inr (w', done) ↦
              let e' = rw (nameless, done) at e in
              let same : w' ≡ w.0 = ground arith in
              rw (← same) (store_result-Finalizes q rows r {w = w'} f done)
        ]
        | inr named ↦ elim (Bool-cases (contains (q, mid) r.seen_results)) [
          | inl old ↦
              let e' = rw (named, old) at e in let same : r ≡ w.0 = ground arith in rw (← same) f
          | inr new ↦
              let r' = record r { seen_results = add (q, mid) r.seen_results } in
              elim (Option-cases (store_result q rows r')) [
                | inl failed ↦ let e' = rw (named, new, failed) at e in cc
                | inr (w', done) ↦
                    let e' = rw (named, new, done) at e in
                    let same : w' ≡ w.0 = ground arith in
                    let f' : Finalizes r' = λ k c. f k (is_complete_same k r r' refl refl ∙ c) in
                    rw (← same) (store_result-Finalizes q rows r' {w = w'} f' done)
              ]
        ]
      ]
  handle_received-Finalizes (query_end q message_count delivery) r {w} f e =
      let r' = record r { expected = insert q message_count r.expected } in
      elim (Option-cases (maybe_finalize q r')) [
        | inl failed ↦ let e' = rw failed at e in cc
        | inr (w', done) ↦
            let e' = rw done at e in
            let same : w' ≡ w.0 = ground arith in
            rw (← same) (
              maybe_finalize-Finalizes q r' {w = w'}
                (λ k other c. f k (
                  is_complete_same k r r'
                    (sym (lookup-insert k q message_count r.expected ∙ rw other refl)) refl
                  ∙ c))
                done)
      ]
  handle_received-Finalizes ack r {w} f e = let same : r ≡ w.0 = ground arith in rw (← same) f
  handle_received-Finalizes closed r {w} f e = let same : r ≡ w.0 = ground arith in rw (← same) f

  handle_each-Finalizes_from :
      (items : List (Received Row)) (r : Results Row) {w : Results Row}
      → Finalizes r
      → handle_each items r ≡ some w
      → Finalizes w
  unfolding handle_each
  handle_each-Finalizes_from [] r {w} f e = let same : r ≡ w = ground arith in rw (← same) f
  handle_each-Finalizes_from (item ∷ items) r {w} f e =
      elim (Option-cases (handle_received item r)) [
        | inl failed ↦ let e' = rw failed at e in cc
        | inr (w', done) ↦
            let e' = rw done at e in
            handle_each-Finalizes_from items w'.0 {w = w} (handle_received-Finalizes item r f done)
              e'
      ]

  -- After any messages handled from the start on, every query whose expected number of batches is
  -- known and has been received is finalized.
  pub handle_each-Finalizes :
      (ids : List ℕ) (items : List (Received Row)) {w : Results Row}
      → handle_each items (open_result_files ids) ≡ some w
      → (k : ℕ) → is_complete k w ≡ true
      → contains k w.finalized ≡ true
  handle_each-Finalizes ids items e k complete =
      handle_each-Finalizes_from items (open_result_files ids)
        (λ j c. absurd (nothing_complete Row ids j c)) e k complete
