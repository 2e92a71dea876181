-- ===== src/Prelude/Text.antt =====
-- Python's `str` as its code points, with `split`, `join`, `strip`, `str(int)` and `int(str)`.
-- White space and digits are those of ASCII.
use Prim.Native.Char.{code}
use Prim.Native.Nat.{ℕ, zero, suc, ◌+◌, ◌-◌, ◌*◌, ◌/◌, ◌%◌}
use Prim.Native.String.{String}
use mathlib.Core.Bool.{Bool, true, false, ◌&&◌, ◌||◌}
use mathlib.Core.List.{List, [], ◌∷◌, ◌++◌, map, reverse}
use mathlib.Core.Option
use mathlib.Core.Option.{Option, none, some}
use tp_distribuidos_moneylau.Prelude.Tests.{ltb, leb, nat_beq, if◌then◌else◌}
use tp_distribuidos_moneylau.Prelude.Int.{ℤ, pos, negsuc, sub_ℕ}

abbrev pub Text : Type 0
Text = List ℕ

-- the code points of a literal
abbrev pub text : String → Text
text String.[] = []
text (String.◌∷◌ c s) = code c ∷ text s

-- the parts after a character is put before the first part
abbrev pub onto_first : ℕ → List Text → List Text
onto_first c [] = (c ∷ []) ∷ []
onto_first c (p ∷ ps) = (c ∷ p) ∷ ps

-- `s.split(sep)` for a separator of one character: never empty
unfoldable pub split : ℕ → Text → List Text
split sep [] = [] ∷ []
split sep (c ∷ s) =
    let parts = split sep s in if nat_beq c sep then [] ∷ parts else onto_first c parts

-- `sep.join(parts)` for a separator of one character
unfoldable pub join : ℕ → List Text → Text
join sep [] = []
join sep (p ∷ []) = p
join sep (p ∷ q ∷ ps) = p ++ sep ∷ join sep (q ∷ ps)

unfoldable pub is_space : ℕ → Bool
is_space c = (leb 9 c && leb c 13) || (leb 28 c && leb c 32)

unfoldable pub lstrip : Text → Text
lstrip [] = []
lstrip (c ∷ s) = let rest = lstrip s in if is_space c then rest else c ∷ s

-- `s.strip()`
unfoldable pub strip : Text → Text
strip s = reverse (lstrip (reverse (lstrip s)))

unfoldable pub to_lower : ℕ → ℕ
to_lower c = if leb 65 c && leb c 90 then c + 32 else c

-- `s.lower()`
unfoldable pub lower : Text → Text
lower = map to_lower

unfoldable pub is_digit : ℕ → Bool
is_digit c = leb 48 c && leb c 57

-- the digits of `str(n)`, with fuel
unfoldable pub decimal_fuel : ℕ → ℕ → Text
decimal_fuel zero n = []
decimal_fuel (suc f) n =
    let front = decimal_fuel f (n / 10) in
    if ltb n 10 then (48 + n) ∷ [] else front ++ (48 + n % 10) ∷ []

-- `str(n)` for a natural number; the number itself is fuel enough, since each round divides by 10
unfoldable pub decimal : ℕ → Text
unfolding decimal_fuel
decimal n = decimal_fuel (suc n) n

-- `str(z)`
unfoldable pub str_ℤ : ℤ → Text
str_ℤ (pos n) = decimal n
str_ℤ (negsuc n) = 45 ∷ decimal (suc n)

-- the digits of `int(s)`: `ended` says that the text may end or have an underscore here
unfoldable pub digits : Bool → ℕ → Text → Option ℕ
digits ended acc [] = if ended then some acc else none
digits ended acc (c ∷ s) =
    let more = digits true (acc * 10 + (c - 48)) s in
    let gap = digits false acc s in
    if is_digit c then more else if ended && nat_beq c 95 then gap else none

unfoldable pub signed : Text → Option ℤ
signed [] = none
signed (c ∷ s) =
    if nat_beq c 45
    then Option.map (λ n. sub_ℕ 0 n) (digits false 0 s)
    else if nat_beq c 43
    then Option.map pos (digits false 0 s)
    else Option.map pos (digits false 0 (c ∷ s))

-- `int(s)`; `none` is the `ValueError`
unfoldable pub int_of : Text → Option ℤ
int_of s = signed (strip s)
