-- ===== src/Worker/Termination.antt =====
-- The ring of the stateful workers of one stage, for one client: the nodes handle data messages in
-- any order and at any time, one of them starts the ring when the end of the stream reaches it,
-- and the token goes from node to node until one of them becomes the coordinator.
use tp_distribuidos_moneylau.Prelude.{
  ℕ, ◌+◌, ◌≤◌, ◌≡◌, sym, ap, ◌∙◌, Option, none, some, List, [], ◌∷◌, ◌++◌, All, sum_map, arith,
}
use mathlib.Core.Path.{subst}
use tp_distribuidos_moneylau.Prelude.Int.{ℤ, pos, ◌≤ℤ◌, int_laws}
use tp_distribuidos_moneylau.Prelude.Text.{Text}
use tp_distribuidos_moneylau.Models.{Eof, RingEof}
use tp_distribuidos_moneylau.Worker.Hooks.{Config, Hooks}
use tp_distribuidos_moneylau.Worker.Node.{Node}
use tp_distribuidos_moneylau.Worker.Ring.{Output, ring_token}
use tp_distribuidos_moneylau.Worker.Messages.{
  data_message, eof_message, handle_message, handle_control_message,
}
use tp_distribuidos_moneylau.Worker.Laws.Counts.{
  processed, partial, data_message-counts, token-counts, start-counts,
}

module _ (h : Hooks) (c : Text) where
  -- the nodes of the stage, and the token that is on its way
  pub record Stage : Type 0 where
    pub nodes : List (Node h)
    pub token : Option RingEof

  abbrev pub stage : List (Node h) → Option RingEof → Stage
  stage nodes token = record { nodes = nodes; token = token }

  -- One handler runs on one node, or a token reaches a node. Messages of other clients may be
  -- handled too. The end of the stream is handled once, before there is a token.
  pub data Step : Stage → Stage → Type 0 where
    work :
        (xs ys : List (Node h)) (t : Option RingEof) (config : Config) (mid k : Text)
        (payload : h.Payload) (n n' : Node h) (out : List (Output (h.Body)))
        → handle_message h config mid k (data_message payload) n ≡ some (n', out)
        → Step (stage (xs ++ n ∷ ys) t) (stage (xs ++ n' ∷ ys) t)
    start :
        (xs ys : List (Node h)) (config : Config) (mid : Text) (eof : Eof) (n n' : Node h)
        (rk id : Text) (ring : RingEof)
        → handle_message h config mid c (eof_message eof) n
          ≡ some (n', ring_token rk id c ring ∷ [])
        → Step (stage (xs ++ n ∷ ys) none) (stage (xs ++ n' ∷ ys) (some ring))
    hop :
        (xs ys : List (Node h)) (config : Config) (mid : Text) (n n' : Node h) (rk id : Text)
        (ring ring' : RingEof)
        → ring.coordinator_id ≡ none
        → handle_control_message h config mid c ring n ≡ some (n', ring_token rk id c ring' ∷ [])
        → Step (stage (xs ++ n ∷ ys) (some ring)) (stage (xs ++ n' ∷ ys) (some ring'))

  pub data Reach (s : Stage) : Stage → Type 0 where
    here : Reach s s
    next : {t u : Stage} → Reach s t → Step t u → Reach s u

  abbrev pub processed_sum : List (Node h) → ℕ
  processed_sum = sum_map (processed h c)

  abbrev pub partial_sum : List (Node h) → ℕ
  partial_sum = sum_map (partial h c)

  -- What the token says: the total is the sum of what the nodes have told the ring, and a
  -- coordinator is there only if that total has reached the expected count.
  pub record IsCounted (nodes : List (Node h)) (ring : RingEof) : Type 0 where
    pub total : ring.total_processed_count ≡ pos (partial_sum nodes)
    pub reached :
        (id : ℕ) → ring.coordinator_id ≡ some id → ring.expected_count ≤ℤ ring.total_processed_count

  abbrev pub TokenHolds : List (Node h) → Option RingEof → Type 0
  TokenHolds nodes none = partial_sum nodes ≡ 0
  TokenHolds nodes (some ring) = IsCounted nodes ring

  pub record IsSound (s : Stage) : Type 0 where
    pub told : All (λ n. partial h c n ≤ processed h c n) s.nodes
    pub token : TokenHolds s.nodes s.token

  sum_split :
      (f : Node h → ℕ) (xs ys : List (Node h)) (n n' : Node h)
      → sum_map f (xs ++ n ∷ ys) + f n' ≡ sum_map f (xs ++ n' ∷ ys) + f n
  sum_split f [] ys n n' = omega arith
  sum_split f (x ∷ xs) ys n n' = omega (arith, sum_split f xs ys n n')

  sum_member :
      (f : Node h → ℕ) (xs ys : List (Node h)) (n : Node h) → f n ≤ sum_map f (xs ++ n ∷ ys)
  sum_member f [] ys n = omega arith
  sum_member f (x ∷ xs) ys n = omega (arith, sum_member f xs ys n)

  All-replace :
      (P : Node h → Type 0) (xs ys : List (Node h)) (n n' : Node h)
      → (P n → P n')
      → All P (xs ++ n ∷ ys)
      → All P (xs ++ n' ∷ ys)
  All-replace P [] ys n n' keep a = (keep a.0, a.1)
  All-replace P (x ∷ xs) ys n n' keep a = (a.0, All-replace P xs ys n n' keep a.1)

  TokenHolds-same :
      (nodes nodes' : List (Node h)) (t : Option RingEof)
      → partial_sum nodes ≡ partial_sum nodes'
      → TokenHolds nodes t
      → TokenHolds nodes' t
  TokenHolds-same nodes nodes' none e x = sym e ∙ x
  TokenHolds-same nodes nodes' (some ring) e x = record {
    total = x.total ∙ ap pos e;
    reached = x.reached;
  }

  -- Every handler keeps the token's account.
  pub Step-IsSound : {s t : Stage} → Step s t → IsSound s → IsSound t
  Step-IsSound (work xs ys t config mid k payload n n' out e) sound =
      let (same, more) = data_message-counts h config mid k payload c n e in
      record {
        told =
            All-replace (λ n. partial h c n ≤ processed h c n) xs ys n n' (λ b. omega arith)
              sound.told;
        token =
            TokenHolds-same (xs ++ n ∷ ys) (xs ++ n' ∷ ys) t
              (omega (arith, sum_split (partial h c) xs ys n n')) sound.token;
      }
  Step-IsSound (start xs ys config mid eof n n' rk id ring e) sound =
      let (proc, told, total, free, expected) = start-counts h config mid c eof n e in
      record {
        told =
            All-replace (λ n. partial h c n ≤ processed h c n) xs ys n n' (λ b. omega arith)
              sound.told;
        token = record {
          total =
              total
              ∙ omega
                  (int_laws, sum_split (partial h c) xs ys n n', sum_member (partial h c) xs ys n);
          reached = λ i x. cc;
        };
      }
  Step-IsSound (hop xs ys config mid n n' rk id ring ring' free e) sound =
      let (proc, told, total, coordinator, expected) = token-counts h config mid c ring n free e in
      record {
        told =
            All-replace (λ n. partial h c n ≤ processed h c n) xs ys n n' (λ b. omega arith)
              sound.told;
        token = record {
          total =
              total
              ∙ rw sound.token.total (
                  omega (
                    int_laws,
                    sum_split (partial h c) xs ys n n',
                    sum_member (partial h c) xs ys n,
                  ));
          reached = λ i x. ground arith;
        };
      }

  pub Reach-IsSound : {s t : Stage} → IsSound s → Reach s t → IsSound t
  Reach-IsSound x here = x
  Reach-IsSound x (next r st) = Step-IsSound st (Reach-IsSound x r)

  partial-le-processed :
      (nodes : List (Node h))
      → All (λ n. partial h c n ≤ processed h c n) nodes
      → partial_sum nodes ≤ processed_sum nodes
  partial-le-processed [] a = omega arith
  partial-le-processed (n ∷ nodes) a = omega (arith, partial-le-processed nodes a.1, a.0)

  le_via : (e t : ℤ) {a b : ℕ} → t ≡ pos a → a ≤ b → e ≤ℤ t → e ≤ℤ pos b
  le_via e t {a} same le x = let y : e ≤ℤ pos a = subst (λ z. e ≤ℤ z) same x in omega arith

  -- From a stage in which no node has told the ring more than it has processed, and whose token,
  -- if it has one, agrees with what its nodes have told, and whatever the order of data messages
  -- and token hops among the nodes: the total in the ring token never exceeds the number of
  -- messages that the nodes have processed, and a node becomes the coordinator only when the
  -- nodes together have processed at least the expected count.
  pub coordinator-processed :
      (s : Stage) (nodes : List (Node h)) (ring : RingEof)
      → IsSound s
      → Reach s (stage nodes (some ring))
      → (ring.total_processed_count ≤ℤ pos (processed_sum nodes))
        × ((id : ℕ)
            → ring.coordinator_id ≡ some id
            → ring.expected_count ≤ℤ pos (processed_sum nodes))
  coordinator-processed s nodes ring sound reach =
      let after = Reach-IsSound sound reach in
      let le = partial-le-processed nodes after.told in
      (
        rw after.token.total (omega arith),
        λ id x.
            le_via ring.expected_count ring.total_processed_count (after.token.total) le
              (after.token.reached id x),
      )
