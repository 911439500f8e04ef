-- ===== src/Text.antt =====
-- Python's `str` as the list of its code points, and the methods of it that the program uses.
pub mod Strip
pub mod Words
pub mod Split
pub mod Decimal
use Prim.Native.Char.{code}
use Prim.Native.String
use chronicler.Base.{
  ℕ, zero, suc, ◌+◌, ◌-◌, ◌*◌, ◌/◌, ◌%◌, ◌<◌, String, Bool, true, false, not, ◌&&◌, ◌||◌, Option,
  none, some, List, [], ◌∷◌, ◌++◌, ltb, leb, if◌then◌else◌, ◌==◌, ℕ_eq, all, any,
}
use mathlib.Core.List.{reverse}

abbrev pub Text : Type 0
Text = List ℕ

-- A literal.
abbrev pub codes : String → Text
codes String.[] = []
codes (String.◌∷◌ c s) = code c ∷ codes s

-- `str.isspace`
unfoldable pub is_space : ℕ → Bool
is_space c =
    (leb 9 c && leb c 13)
    || (leb 28 c && leb c 32)
    || c == 133
    || c == 160
    || c == 5760
    || (leb 8192 c && leb c 8202)
    || c == 8232
    || c == 8233
    || c == 8239
    || c == 8287
    || c == 12288

unfoldable pub lstrip : Text → Text
unfolding is_space
lstrip [] = []
lstrip (c ∷ cs) = if is_space c then lstrip cs else c ∷ cs

unfoldable pub rstrip : Text → Text
unfolding lstrip
rstrip cs = reverse (lstrip (reverse cs))

unfoldable pub strip : Text → Text
unfolding rstrip
strip cs = rstrip (lstrip cs)

abbrev pub cons_first : ℕ → List Text → List Text
cons_first c [] = (c ∷ []) ∷ []
cons_first c (w ∷ ws) = (c ∷ w) ∷ ws

-- `str.split()`: the runs of characters that are not white space.
abbrev pub starts_solid : Text → Bool
starts_solid [] = false
starts_solid (c ∷ cs) = not (is_space c)

unfoldable pub words : Text → List Text
words [] = []
words (c ∷ cs) =
    let rest = words cs in
    if is_space c then rest else if starts_solid cs then cons_first c rest else (c ∷ []) ∷ rest

-- `str.split(sep)` for a separator of one character
unfoldable pub split_on : ℕ → Text → List Text
split_on sep [] = [] ∷ []
split_on sep (c ∷ cs) =
    let rest = split_on sep cs in if c == sep then [] ∷ rest else cons_first c rest

-- `sep.join(parts)`
unfoldable pub join : Text → List Text → Text
join sep [] = []
join sep (w ∷ ws) = elim ws [ [] ↦ w | v ∷ vs ↦ w ++ sep ++ join sep ws ]

abbrev pub is_digit : ℕ → Bool
is_digit c = leb 48 c && leb c 57

-- `str.isdigit`, over ASCII
abbrev pub all_digits : Text → Bool
all_digits [] = false
all_digits (c ∷ cs) = all is_digit (c ∷ cs)

-- `int(text)` of digits
unfoldable pub to_int_from : ℕ → Text → ℕ
to_int_from n [] = n
to_int_from n (c ∷ cs) = to_int_from (n * 10 + (c - 48)) cs

unfoldable pub to_int : Text → ℕ
unfolding to_int_from
to_int cs = to_int_from 0 cs

-- `str(n)`: the fuel bounds the number of digits.
unfoldable pub decimal_within : ℕ → ℕ → Text
decimal_within zero n = []
decimal_within (suc fuel) n =
    let more = decimal_within fuel (n / 10) ++ (48 + n % 10) ∷ [] in
    if ltb n 10 then (48 + n) ∷ [] else more

unfoldable pub decimal : ℕ → Text
unfolding decimal_within
decimal n = decimal_within (suc n) n

-- `f"{n:02d}"` and `f"{n:03d}"`
unfoldable pub pad2 : ℕ → Text
pad2 n = if ltb n 10 then 48 ∷ decimal n else decimal n

unfoldable pub pad3 : ℕ → Text
pad3 n = if ltb n 100 then 48 ∷ pad2 n else decimal n
