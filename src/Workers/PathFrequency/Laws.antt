-- ===== src/Workers/PathFrequency/Laws.antt =====
-- Laws about the mid accounts of a flow.
use tp_distribuidos_moneylau.Prelude.{
  ◌==◌, nat_eq, list_eq, pair_eq, pair_beq_iff, list_beq_iff, Bool, false, ◌&&◌, ◌||◌, List, [],
  ◌∷◌, Dict, insert, get_or, add, contains, contains-add, get_or-insert, ◌≡◌, refl, ◌∙◌, arith, inl,
  inr, Bool-cases,
}
use tp_distribuidos_moneylau.Prelude.Text.{Text}
use tp_distribuidos_moneylau.Workers.AccountGraph.{Account}
use tp_distribuidos_moneylau.Workers.PathFrequency.{Ends, Paths, add_path, apply_delta}

-- whether a delta has a path
abbrev pub has_path : Ends → Account → List (Ends × Account) → Bool
has_path ends mid [] = false
has_path ends mid (e ∷ delta) = (e.0 == ends && e.1 == mid) || has_path ends mid delta

contains-add_path :
    (ends other : Ends) (mid m : Account) (paths : Paths)
    → contains m (get_or other [] (add_path ends mid paths))
      ≡ ((ends == other && mid == m) || contains m (get_or other [] paths))
unfolding add_path
contains-add_path ends other mid m paths =
    rw (get_or-insert other ends (add mid (get_or ends [] paths)) [] paths)
      (elim (Bool-cases (ends == other)) [
        | inl same ↦
            let key = (pair_beq_iff ends other).0 same in
            rw (same, contains-add mid m (get_or ends [] paths), key) refl
        | inr different ↦ rw different refl
      ])

-- After a delta, the flow of a client has a mid account between two ends exactly if the delta is
-- of that client and has that path, or the flow had the mid account before; the flows of the
-- other clients keep theirs.
pub contains-apply_delta :
    (c : Text) (delta : List (Ends × Account)) (flows : Dict Text Paths) (k : Text) (ends : Ends)
    (mid : Account)
    → contains mid (get_or ends [] (get_or k [] (apply_delta c delta flows)))
      ≡ ((c == k && has_path ends mid delta) || contains mid (get_or ends [] (get_or k [] flows)))
unfolding apply_delta
contains-apply_delta c [] flows k ends mid = ground arith
contains-apply_delta c ((e, m) ∷ delta) flows k ends mid =
    contains-apply_delta c delta (insert c (add_path e m (get_or c [] flows)) flows) k ends mid
    ∙ rw (get_or-insert k c (add_path e m (get_or c [] flows)) [] flows)
        (elim (Bool-cases (c == k)) [
          | inl same ↦
              let key = (list_beq_iff c k).0 same in
              rw (same, contains-add_path e ends m mid (get_or c [] flows), key) (ground arith)
          | inr different ↦ rw different refl
        ])
