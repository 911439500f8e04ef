-- ===== src/Import.antt =====
-- chronicler/core/processing/importers.py: a text transcript as one line for each speaker's turn. The
-- compiled pattern is a parameter that gives a line's groups; so is `uuid4`, by a counter.
pub mod Times
pub mod Words
pub mod Starts
mod Examples
use chronicler.Base.{
  ℕ, zero, suc, ◌+◌, ◌≡◌, Bool, true, false, not, ◌&&◌, ◌||◌, Option, none, some, List, [], ◌∷◌,
  ◌++◌, map, leb, if◌then◌else◌, ◌==◌, ℕ_eq,
}
use chronicler.Text.{Text, strip, join, cons_first}
use chronicler.Models.{TranscriptLine}
use chronicler.Formatting.{parse_timestamp}

-- What `match.group` gives for the three group numbers: `none` is a group that took no part in the
-- match, whose `None` has no `strip`, or a number the pattern does not have, an `IndexError`.
pub record Groups : Type 0 where
  pub speaker : Option Text
  pub text : Option Text
  pub timestamp : Option Text

-- The groups as the loop reads them
pub record Match : Type 0 where
  pub speaker : Text
  pub text : Text
  pub timestamp : Text

abbrev pub match_of : Option Text → Option Text → Option Text → Option Match
match_of (some s) (some t) (some at) = some (record { speaker = s; text = t; timestamp = at })
match_of _ _ _ = none

pub record Importer : Type 0 where
  pub match_line : Text → Option Groups
  pub has_timestamps : Bool
  pub uuid4 : ℕ → ℕ

abbrev pub is_break : ℕ → Bool
is_break c = (leb 10 c && leb c 13) || (leb 28 c && leb c 30) || c == 133 || c == 8232 || c == 8233

abbrev is_crlf : ℕ → Text → Bool
is_crlf c [] = false
is_crlf c (d ∷ _) = c == 13 && d == 10

-- `str.splitlines`, where a carriage return and the line feed behind it are one break
unfoldable pub splitlines : Text → List Text
splitlines [] = []
splitlines (c ∷ cs) =
    let rest = splitlines cs in
    if is_crlf c cs then rest else if is_break c then [] ∷ rest else cons_first c rest

abbrev pub is_nil : Text → Bool
is_nil [] = true
is_nil (c ∷ cs) = false

abbrev pub line_break : Text
line_break = 10 ∷ []

-- The loop's `speaker`, `text` and `start_time`, and how many ids it has drawn
pub record Turn : Type 0 where
  pub speaker : Text
  pub text : List Text
  pub start_time : ℕ
  pub drawn : ℕ

-- `if speaker:`, where `None` is the empty text
abbrev pub is_heard : Turn → Bool
is_heard t = not (is_nil t.speaker)

module _ (importer : Importer) where
  open importer use {match_line, has_timestamps, uuid4}

  abbrev pub line_of : Turn → TranscriptLine
  line_of t = record {
    id = uuid4 t.drawn;
    speaker_id = none;
    speaker_name = some t.speaker;
    source_id = none;
    synthetic_timing = none;
    chronicle_id = none;
    start_time = t.start_time;
    end_time = t.start_time;
    text = strip (join line_break t.text);
  }

  abbrev pub flush : Turn → List TranscriptLine
  flush t = if is_heard t then line_of t ∷ [] else []

  -- `none` is the `ValueError` of `parse_timestamp`.
  abbrev pub start_of : ℕ → Match → ℕ → Option ℕ
  start_of offset m before =
      if has_timestamps
      then elim (parse_timestamp (strip m.timestamp)) [ none ↦ none | some at ↦ some (offset + at) ]
      else some before

  -- Without a timestamp group none is asked for. `none` is the `AttributeError` or `IndexError`.
  abbrev pub read_groups : Groups → Option Match
  read_groups g = match_of g.speaker g.text (if has_timestamps then g.timestamp else some [])

  abbrev pub next_turn : Turn → Match → ℕ → Turn
  next_turn t m start = record {
    speaker = strip m.speaker;
    text = strip m.text ∷ [];
    start_time = start;
    drawn = t.drawn + 1;
  }

  abbrev pub continued : Turn → Text → Turn
  continued t line = if is_heard t then record t { text = t.text ++ (strip line ∷ []) } else t

  abbrev pub prepend :
      List TranscriptLine → Option (List TranscriptLine) → Option (List TranscriptLine)
  prepend ls none = none
  prepend ls (some ms) = some (ls ++ ms)

  -- The loop of `_collect_turns` and the `flush` behind it
  unfoldable pub collect_from : ℕ → Turn → List Text → Option (List TranscriptLine)
  collect_from offset t [] = some (flush t)
  collect_from offset t (line ∷ lines) =
      let skipped = collect_from offset t lines in
      let longer = collect_from offset (continued t line) lines in
      if is_nil (strip line) then skipped else elim (match_line line) [
        | none ↦ longer
        | some g ↦ elim (read_groups g) [
          | none ↦ none
          | some m ↦ elim (start_of offset m t.start_time) [
            | none ↦ none
            | some start ↦
                let rest = collect_from offset (next_turn t m start) lines in prepend (flush t) rest
          ]
        ]
      ]

  abbrev pub first_turn : ℕ → Turn
  first_turn offset = record { speaker = []; text = []; start_time = offset; drawn = 0 }

  unfoldable pub collect_turns : Text → ℕ → Option (List TranscriptLine)
  unfolding splitlines collect_from
  collect_turns content offset = collect_from offset (first_turn offset) (splitlines content)

  -- A turn runs until the next one starts.
  unfoldable pub end_at_next : List TranscriptLine → List TranscriptLine
  end_at_next [] = []
  end_at_next (l ∷ ls) =
      let rest = end_at_next ls in
      elim ls [ [] ↦ l ∷ [] | following ∷ _ ↦ record l { end_time = following.start_time } ∷ rest ]

  unfoldable pub number_from : ℕ → List TranscriptLine → List TranscriptLine
  number_from n [] = []
  number_from n (l ∷ ls) =
      record l { start_time = n; end_time = n + 1000 } ∷ number_from (n + 1000) ls

  unfoldable pub assign_times : ℕ → List TranscriptLine → List TranscriptLine
  unfolding end_at_next number_from
  assign_times offset turns = if has_timestamps then end_at_next turns else number_from offset turns

  abbrev pub flagged : TranscriptLine → TranscriptLine
  flagged l = record l { synthetic_timing = some (not has_timestamps) }

  unfoldable pub parse : Text → ℕ → Option (List TranscriptLine)
  unfolding collect_turns assign_times
  parse content offset = elim (collect_turns content offset) [
    | none ↦ none
    | some turns ↦ some (map flagged (assign_times offset turns))
  ]
