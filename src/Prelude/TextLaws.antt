-- ===== src/Prelude/TextLaws.antt =====
-- Laws about `split` and `join`, and about `str` and `int` on natural numbers.
use Prim.Native.Nat.{ℕ, zero, suc, ◌+◌, ◌-◌, ◌*◌, ◌/◌, ◌%◌, ◌<◌}
use mathlib.Core.Path.{◌≡◌, refl, ap, ◌∙◌}
use mathlib.Core.Bool.{true, false}
use mathlib.Core.List.{List, [], ◌∷◌, ◌++◌, reverse, reverse-reverse, reverse-cons}
use mathlib.Core.Logic.{◌≢◌, inl, inr}
use mathlib.Core.Option.{some}
use native.Mathlib.Omega.{arith}
use tp_distribuidos_moneylau.Prelude.Tests.{ltb, Bool-cases}
use tp_distribuidos_moneylau.Prelude.Lists.{All, All-append}
use tp_distribuidos_moneylau.Prelude.Int.{pos}
use tp_distribuidos_moneylau.Prelude.Text.{
  Text, split, join, is_space, lstrip, strip, is_digit, decimal_fuel, decimal, digits, signed,
  int_of,
}

abbrev pub IsFree : ℕ → Text → Type 0
IsFree sep = All (λ c. c ≢ sep)

pub split_free : (sep : ℕ) (p : Text) → IsFree sep p → split sep p ≡ p ∷ []
unfolding split
split_free sep [] h = refl
split_free sep (c ∷ p) h = ground (arith, split_free sep p h.1)

pub split-append :
    (sep : ℕ) (p s : Text) → IsFree sep p → split sep (p ++ sep ∷ s) ≡ p ∷ split sep s
unfolding split
split-append sep [] s h = ground arith
split-append sep (c ∷ p) s h = ground (arith, split-append sep p s h.1)

pub split-join :
    (sep : ℕ) (p : Text) (ps : List Text)
    → All (IsFree sep) (p ∷ ps)
    → split sep (join sep (p ∷ ps)) ≡ p ∷ ps
unfolding join
split-join sep p [] h = split_free sep p h.0
split-join sep p (q ∷ ps) h =
    split-append sep p (join sep (q ∷ ps)) h.0 ∙ ap (λ l. p ∷ l) (split-join sep q ps h.1)

abbrev pub AllDigits : Text → Type 0
AllDigits = All (λ c. is_digit c ≡ true)

decimal_fuel-AllDigits : (f n : ℕ) → AllDigits (decimal_fuel f n)
unfolding decimal_fuel is_digit
decimal_fuel-AllDigits zero n = tt
decimal_fuel-AllDigits (suc f) n = elim (Bool-cases (ltb n 10)) [
  | inl small ↦ rw small (ground arith, tt)
  | inr big ↦ rw big (
      All-append (λ c. is_digit c ≡ true) (decimal_fuel f (n / 10)) _
        (decimal_fuel-AllDigits f (n / 10)) (ground arith, tt))
]

pub decimal-AllDigits : (n : ℕ) → AllDigits (decimal n)
unfolding decimal
decimal-AllDigits n = decimal_fuel-AllDigits (suc n) n

pub AllDigits-IsFree : (sep : ℕ) (s : Text) → is_digit sep ≡ false → AllDigits s → IsFree sep s
AllDigits-IsFree sep [] h d = tt
AllDigits-IsFree sep (c ∷ s) h d = ((λ e. ground arith), AllDigits-IsFree sep s h d.1)

-- reading a digit at the end
digits-snoc :
    (acc : ℕ) (s : Text) (d m : ℕ)
    → d < 10
    → AllDigits s
    → digits true acc s ≡ some m
    → digits true acc (s ++ (48 + d) ∷ []) ≡ some (m * 10 + d)
unfolding digits is_digit
digits-snoc acc [] d m h a e = ground arith
digits-snoc acc (c ∷ s) d m h a e = ground (arith, digits-snoc (acc * 10 + (c - 48)) s d m h a.1)

digits-decimal_fuel : (f n : ℕ) → n < f → digits true 0 (decimal_fuel f n) ≡ some n
unfolding decimal_fuel digits is_digit
digits-decimal_fuel zero n h = elim h [ ]
digits-decimal_fuel (suc f) n h = elim (Bool-cases (ltb n 10)) [
  | inl small ↦ rw small (ground arith)
  | inr big ↦ rw big (
      digits-snoc 0 (decimal_fuel f (n / 10)) (n % 10) (n / 10) (omega arith)
        (decimal_fuel-AllDigits f (n / 10)) (digits-decimal_fuel f (n / 10) (ground arith))
      ∙ ap some (omega arith))
]

snoc-ne-nil : (s : Text) (c : ℕ) → s ++ c ∷ [] ≢ []
snoc-ne-nil [] c e = cc
snoc-ne-nil (d ∷ s) c e = cc

decimal-ne-nil : (n : ℕ) → decimal n ≢ []
unfolding decimal decimal_fuel
decimal-ne-nil n e = elim (Bool-cases (ltb n 10)) [
  | inl small ↦ let h = rw small at e in cc
  | inr big ↦ let h = rw big at e in snoc-ne-nil (decimal_fuel n (n / 10)) _ h
]

All-reverse : (s : Text) → AllDigits s → AllDigits (reverse s)
All-reverse [] h = tt
All-reverse (c ∷ s) h =
    rw reverse-cons
      (All-append (λ c. is_digit c ≡ true) (reverse s) (c ∷ []) (All-reverse s h.1) (h.0, tt))

lstrip_digits : (s : Text) → AllDigits s → lstrip s ≡ s
unfolding lstrip is_space is_digit
lstrip_digits [] h = refl
lstrip_digits (c ∷ s) h = ground arith

strip_digits : (s : Text) → AllDigits s → strip s ≡ s
unfolding strip
strip_digits s h =
    rw (lstrip_digits s h, lstrip_digits (reverse s) (All-reverse s h)) (reverse-reverse s)

signed-digits :
    (s : Text) (n : ℕ) → s ≢ [] → AllDigits s → digits true 0 s ≡ some n → signed s ≡ some (pos n)
unfolding signed digits is_digit
signed-digits [] n ne h e = absurd (ne refl)
signed-digits (c ∷ s) n ne h e = ground arith

-- `int(str(n)) == n`
pub int_of-decimal : (n : ℕ) → int_of (decimal n) ≡ some (pos n)
unfolding int_of
int_of-decimal n = rw (strip_digits (decimal n) (decimal-AllDigits n)) (
    signed-digits (decimal n) n (decimal-ne-nil n) (decimal-AllDigits n)
      (unfold decimal in digits-decimal_fuel (suc n) n (omega arith)))
