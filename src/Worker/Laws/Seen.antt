-- ===== src/Worker/Laws/Seen.antt =====
-- Laws about the `_seen` index.
use tp_distribuidos_moneylau.Prelude.{
  false, ◌==◌, ◌&&◌, ◌||◌, ◌≡◌, refl, none, some, List, [], ◌∷◌, lookup, get_or, setdefault,
  contains, add, nat_eq, list_eq, pair_eq, list_beq_iff, lookup-insert, contains-add, if◌then◌else◌,
  arith, Option-cases, inl, inr, or_else,
}
use tp_distribuidos_moneylau.Prelude.Text.{Text}
use tp_distribuidos_moneylau.Worker.Hooks.{Channel, channel_beq, channel_eq, channel_beq_iff}
use tp_distribuidos_moneylau.Worker.Memory.{
  Seen, is_seen, open_seen, remember, add_to_open, forget_seen,
}

module _ (ch : Channel) (c : Text) (seen : Seen) where
  pub lookup-open_seen : lookup (ch, c) (open_seen ch c seen) ≡ some (get_or (ch, c) [] seen)
  unfolding open_seen setdefault get_or
  lookup-open_seen = elim (Option-cases (lookup (ch, c) seen)) [
    | inl e ↦
        rw (e, setdefault)
          (rw (lookup-insert (ch, c) (ch, c) [] seen)
            (ground (arith, channel_beq_iff ch ch, list_beq_iff c c)))
    | inr (s, e) ↦ rw (e, setdefault) e
  ]

  pub is_seen-open_seen :
      (x : Channel) (k mid : Text) → is_seen x k mid (open_seen ch c seen) ≡ is_seen x k mid seen
  unfolding is_seen open_seen setdefault get_or
  is_seen-open_seen x k mid = elim (Option-cases (lookup (ch, c) seen)) [
    | inl e ↦
        rw (e, setdefault)
          (rw (lookup-insert (x, k) (ch, c) [] seen)
            (ground (arith, channel_beq_iff ch x, list_beq_iff c k)))
    | inr (s, e) ↦ rw (e, setdefault) refl
  ]

  pub open_seen_opened : {s : List Text} → lookup (ch, c) seen ≡ some s → open_seen ch c seen ≡ seen
  unfolding open_seen setdefault
  open_seen_opened e = rw (e, setdefault) refl

  pub add_to_open_opened :
      (mid : Text) {s : List Text}
      → lookup (ch, c) seen ≡ some s
      → add_to_open ch c mid seen ≡ remember ch c mid seen
  unfolding add_to_open remember get_or
  add_to_open_opened mid e = rw (e, add_to_open) refl

  pub lookup-remember :
      (mid x : Text) (y : Channel)
      → lookup (y, x) (remember ch c mid seen) ≡ (
          if channel_beq ch y && c == x
          then some (add mid (get_or (ch, c) [] seen))
          else lookup (y, x) seen)
  unfolding remember
  lookup-remember mid x y = lookup-insert (y, x) (ch, c) (add mid (get_or (ch, c) [] seen)) seen

  pub is_seen-remember :
      (mid : Text) (x : Channel) (k m : Text)
      → is_seen x k m (remember ch c mid seen)
        ≡ (((channel_beq ch x && c == k) && mid == m) || is_seen x k m seen)
  unfolding is_seen remember get_or
  is_seen-remember mid x k m =
      rw (lookup-insert (x, k) (ch, c) (add mid (or_else (lookup (ch, c) seen) [])) seen) (
        ground (
          arith,
          contains-add mid m (or_else (lookup (ch, c) seen) []),
          channel_beq_iff ch x,
          list_beq_iff c k,
        ))

pub lookup-forget_seen :
    (ch : Channel) (c k : Text) (seen : Seen)
    → lookup (ch, c) (forget_seen k seen) ≡ (if k == c then none else lookup (ch, c) seen)
unfolding lookup forget_seen
lookup-forget_seen ch c k [] = ground arith
lookup-forget_seen ch c k (((x, i), mids) ∷ seen) =
    ground
      (arith, lookup-forget_seen ch c k seen, list_beq_iff i k, list_beq_iff i c, list_beq_iff k c)

pub is_seen-forget_seen :
    (ch : Channel) (c mid k : Text) (seen : Seen)
    → is_seen ch c mid (forget_seen k seen) ≡ (if k == c then false else is_seen ch c mid seen)
unfolding is_seen get_or contains
is_seen-forget_seen ch c mid k seen = rw (lookup-forget_seen ch c k seen) (ground arith)
