-- ===== src/Worker/Laws/Tracking.antt =====
-- Laws about the flow keys of a memory under single updates.
use tp_distribuidos_moneylau.Prelude.{
  ℕ, false, ◌==◌, ◌||◌, ◌≡◌, refl, List, [], ◌∷◌, Dict, lookup, keys, insert, erase, setdefault,
  contains, add, nat_eq, list_eq, pair_eq, list_beq_iff, contains-add, arith, Bool-cases,
  Option-cases, inl, inr, Distinct, Distinct-insert,
}
use tp_distribuidos_moneylau.Prelude.Text.{Text}
use tp_distribuidos_moneylau.Worker.Hooks.{Channel, channel_eq, channel_beq_iff}
use tp_distribuidos_moneylau.Worker.Memory.{
  Seen, open_seen, add_to_open, forget_seen, seen_clients, count_clients,
}

pub contains-count_clients-insert :
    (j k : Text) (n : ℕ) (counts : Dict Text ℕ)
    → contains j (count_clients (insert k n counts)) ≡ (k == j || contains j (count_clients counts))
unfolding count_clients insert
contains-count_clients-insert j k n [] = contains-add k j []
contains-count_clients-insert j k n ((i, w) ∷ counts) = elim (Bool-cases (i == k)) [
  | inl same ↦ rw same (ground (arith, contains-add i j (count_clients counts), list_beq_iff i k))
  | inr other ↦ rw other (
      ground (
        arith,
        contains-add i j (count_clients counts),
        contains-add i j (count_clients (insert k n counts)),
        contains-count_clients-insert j k n counts,
      ))
]

pub contains-count_clients-erase :
    (j k : Text) (counts : Dict Text ℕ)
    → (k == j) ≡ false
    → contains j (count_clients (erase k counts)) ≡ contains j (count_clients counts)
unfolding count_clients erase
contains-count_clients-erase j k [] h = refl
contains-count_clients-erase j k ((i, w) ∷ counts) h = ground (
  arith,
  contains-add i j (count_clients counts),
  contains-add i j (count_clients (erase k counts)),
  contains-count_clients-erase j k counts,
  list_beq_iff i k,
  list_beq_iff i j,
  list_beq_iff k j,
)

pub contains-seen_clients-insert :
    (j : Text) (key : Channel × Text) (v : List Text) (seen : Seen)
    → contains j (seen_clients (insert key v seen)) ≡ (key.1 == j || contains j (seen_clients seen))
unfolding seen_clients insert
contains-seen_clients-insert j (x, k) v [] = contains-add k j []
contains-seen_clients-insert j (x, k) v (((y, i), w) ∷ seen) = ground (
  arith,
  contains-add i j (seen_clients seen),
  contains-add i j (seen_clients (insert (x, k) v seen)),
  contains-seen_clients-insert j (x, k) v seen,
  channel_beq_iff y x,
  list_beq_iff i k,
  list_beq_iff i j,
)

pub contains-seen_clients-forget :
    (j k : Text) (seen : Seen)
    → (k == j) ≡ false
    → contains j (seen_clients (forget_seen k seen)) ≡ contains j (seen_clients seen)
unfolding seen_clients forget_seen
contains-seen_clients-forget j k [] h = refl
contains-seen_clients-forget j k (((x, i), w) ∷ seen) h = ground (
  arith,
  contains-add i j (seen_clients seen),
  contains-add i j (seen_clients (forget_seen k seen)),
  contains-seen_clients-forget j k seen,
  list_beq_iff i k,
  list_beq_iff i j,
  list_beq_iff k j,
)

contains-keys-forget :
    (key : Channel × Text) (k : Text) (seen : Seen)
    → contains key (keys seen) ≡ false
    → contains key (keys (forget_seen k seen)) ≡ false
unfolding contains forget_seen
contains-keys-forget key k [] h = refl
contains-keys-forget key k ((q, w) ∷ seen) h = elim (Bool-cases (q.1 == k)) [
  | inl same ↦ rw same (contains-keys-forget key k seen (ground arith))
  | inr other ↦ rw other (ground (arith, contains-keys-forget key k seen))
]

pub Distinct-forget :
    (k : Text) (seen : Seen) → Distinct (keys seen) → Distinct (keys (forget_seen k seen))
unfolding forget_seen
Distinct-forget k [] d = tt
Distinct-forget k ((q, w) ∷ seen) d = elim (Bool-cases (q.1 == k)) [
  | inl same ↦ rw same (Distinct-forget k seen d.1)
  | inr other ↦ rw other (contains-keys-forget q k seen d.0, Distinct-forget k seen d.1)
]

pub Distinct-open_seen :
    (ch : Channel) (c : Text) (seen : Seen)
    → Distinct (keys seen)
    → Distinct (keys (open_seen ch c seen))
unfolding open_seen setdefault
Distinct-open_seen ch c seen d = elim (Option-cases (lookup (ch, c) seen)) [
  | inl e ↦ rw (e, setdefault) (Distinct-insert (ch, c) [] seen d)
  | inr (s, e) ↦ rw (e, setdefault) d
]

pub Distinct-add_to_open :
    (ch : Channel) (c mid : Text) (seen : Seen)
    → Distinct (keys seen)
    → Distinct (keys (add_to_open ch c mid seen))
unfolding add_to_open
Distinct-add_to_open ch c mid seen d = elim (Option-cases (lookup (ch, c) seen)) [
  | inl e ↦ rw (e, add_to_open) d
  | inr (s, e) ↦ rw (e, add_to_open) (Distinct-insert (ch, c) (add mid s) seen d)
]
