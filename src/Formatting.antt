-- ===== src/Formatting.antt =====
-- chronicler/core/formatting.py. A time in seconds, a float in the source, is a number of
-- milliseconds; negative times, which the functions clamp to zero, are left out.
pub mod RoundTrip
mod Examples
use chronicler.Base.{
  ℕ, zero, suc, ◌+◌, ◌-◌, ◌*◌, ◌/◌, ◌%◌, Bool, true, false, not, ◌&&◌, ◌||◌, Option, none, some,
  List, [], ◌∷◌, ◌++◌, map, ltb, if◌then◌else◌, ◌==◌, ℕ_eq, all, any, length,
}
use chronicler.Models.{TranscriptLine}
use chronicler.Text.{Text, codes, strip, split_on, all_digits, to_int, decimal, pad2, pad3}

-- `int(round(seconds))`: halves go to the even neighbour.
unfoldable pub round_seconds : ℕ → ℕ
round_seconds ms =
    let whole = ms / 1000 in
    let part = ms % 1000 in
    if ltb part 500 then whole else if ltb 500 part then whole + 1 else whole + whole % 2

unfoldable pub format_duration : ℕ → Text
format_duration ms =
    let total = round_seconds ms in
    let hours = total / 3600 in
    let minutes = total % 3600 / 60 in
    let secs = total % 3600 % 60 in
    if not (hours == 0)
    then decimal hours ++ (codes "h " ++ (decimal minutes ++ codes "m"))
    else if not (minutes == 0)
    then decimal minutes ++ (codes "m " ++ (decimal secs ++ codes "s"))
    else decimal secs ++ codes "s"

abbrev pub colon : ℕ
colon = b':'

unfoldable pub format_timestamp : ℕ → Bool → Text
format_timestamp total_ms include_millis =
    let hours = total_ms / 3600000 in
    let minutes = total_ms % 3600000 / 60000 in
    let secs = total_ms % 3600000 % 60000 / 1000 in
    let millis = total_ms % 3600000 % 60000 % 1000 in
    let clock = pad2 hours ++ (colon ∷ (pad2 minutes ++ (colon ∷ pad2 secs))) in
    if include_millis then clock ++ b',' ∷ pad3 millis else clock

-- `text.split(".", 1)` where "." occurs in it: what stands before and behind the first one.
unfoldable pub split_once : ℕ → Text → Option (Text × Text)
split_once sep [] = none
split_once sep (c ∷ cs) =
    let rest = split_once sep cs in
    if c == sep then some ([], cs) else elim rest [ none ↦ none | some (a, b) ↦ some (c ∷ a, b) ]

-- `float(f"0.{digits}")` to the millisecond
unfoldable pub fraction_ms : Text → ℕ
fraction_ms (a ∷ b ∷ c ∷ _) = to_int (a ∷ b ∷ c ∷ [])
fraction_ms (a ∷ b ∷ []) = to_int (a ∷ b ∷ []) * 10
fraction_ms (a ∷ []) = to_int (a ∷ []) * 100
fraction_ms [] = 0

unfoldable pub clock_seconds : List Text → Option ℕ
clock_seconds (h ∷ m ∷ s ∷ []) = some (to_int h * 3600 + to_int m * 60 + to_int s)
clock_seconds (m ∷ s ∷ []) = some (to_int m * 60 + to_int s)
clock_seconds _ = none

unfoldable pub parse_clock : Text → ℕ → Option ℕ
unfolding clock_seconds
parse_clock text frac =
    let parts = split_on colon text in
    if all all_digits parts
    then elim (clock_seconds parts) [ none ↦ none | some secs ↦ some (secs * 1000 + frac) ]
    else none

-- `none` is the `ValueError` of an unrecognised format.
unfoldable pub parse_timestamp : Text → Option ℕ
unfolding parse_clock split_once fraction_ms
parse_timestamp text =
    let stripped = strip text in
    elim (split_once b'.' stripped) [
      | none ↦ parse_clock stripped 0
      | some (clock, frac) ↦ if all_digits frac then parse_clock clock (fraction_ms frac) else none
    ]

abbrev pub is_integer : ℕ → Bool
is_integer ms = ms % 1000 == 0

abbrev pub has_flag : TranscriptLine → Bool
has_flag l = elim l.synthetic_timing [ none ↦ false | some _ ↦ true ]

abbrev pub is_not_false : TranscriptLine → Bool
is_not_false l = elim l.synthetic_timing [ none ↦ true | some b ↦ b ]

unfoldable pub looks_synthetic : List TranscriptLine → Bool
looks_synthetic lines =
    if any has_flag lines
    then all is_not_false lines
    else if ltb (length lines) 2
    then false
    else all (λ l. is_integer l.start_time && is_integer l.end_time) lines
