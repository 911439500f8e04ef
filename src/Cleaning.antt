-- ===== src/Cleaning.antt =====
-- chronicler/core/processing/cleaners.py: the cleaning rules as data, and the pipeline that applies
-- the enabled ones in order. Regular expressions and the Unicode database are parameters.
pub mod Blank
pub mod Merge
pub mod Repeats
pub mod Duplicates
mod Examples
use mathlib.Core.List.{reverse, foldl}
use chronicler.Base.{
  ℕ, zero, suc, ◌+◌, Bool, true, false, not, ◌&&◌, Option, none, some, List, [], ◌∷◌, ◌++◌, map,
  leb, ltb, if◌then◌else◌, ◌==◌, ℕ_eq, List_eq, Option_eq, Equality, Pair_eq, keep, any, length,
}
use chronicler.Text.{Text, codes, strip, words, join}
use chronicler.Models.{TranscriptLine}
use chronicler.Formatting.{round_seconds}

-- A compiled pattern is its source text.
pub record TextEngine : Type 0 where
  pub is_punctuation : ℕ → Bool
  pub casefold : Text → Text
  pub remove : Text → Text → Text
  pub fullmatch : Text → Text → Bool

pub data HallucinationMatch : Type 0 where
  exact normalized regex : HallucinationMatch

pub record CleaningSettings : Type 0 where
  pub collapse_whitespace : Bool
  pub merge_same_speaker : Bool
  pub drop_hallucinations : Bool
  pub hallucination_phrases : List Text
  pub hallucination_match : HallucinationMatch
  pub drop_repeats : Bool
  pub repetition_window : ℕ
  pub drop_duplicate_segments : Bool
  pub min_characters : ℕ
  pub strip_patterns : List Text

pub data Rule : Type 0 where
  collapse : Rule
  strip_patterns : List Text → Rule
  drop_empty : Rule
  hallucinations : List Text → HallucinationMatch → Rule
  short_lines : ℕ → Rule
  duplicate_segments : Rule
  repeats : ℕ → Rule
  merge : Rule

abbrev pub space : Text
space = codes " "

abbrev pub newline : Text
newline = 10 ∷ []

abbrev pub is_blank : Text → Bool
is_blank [] = true
is_blank (c ∷ cs) = false

abbrev pub contains : Text → List Text → Bool
contains t ts = any (λ u. t == u) ts

-- The speaker's name, the normalized text and the rounded times.
abbrev pub SegmentKey : Type 0
SegmentKey = Option Text × (Text × (ℕ × ℕ))

abbrev pub PhraseKey : Type 0
PhraseKey = Option Text × Text

-- When a speaker's phrase was last kept, the newest first.
abbrev pub Kept : Type 0
Kept = List (PhraseKey × ℕ)

unfoldable pub last_kept : PhraseKey → Kept → Option ℕ
last_kept k [] = none
last_kept k ((j, time) ∷ kept) = if j == k then some time else last_kept k kept

-- `current` joined with the next line of its turn
unfoldable pub join_lines : TranscriptLine → TranscriptLine → TranscriptLine
join_lines current line = record current {
  text = strip (current.text ++ (space ++ line.text));
  end_time = line.end_time;
}

abbrev pub same_turn : TranscriptLine → TranscriptLine → Bool
same_turn a b =
    a.speaker_id == b.speaker_id && a.speaker_name == b.speaker_name && a.source_id == b.source_id

-- The loop of `MergeSameSpeaker.apply` from its second line on.
unfoldable pub merge_from : TranscriptLine → List TranscriptLine → List TranscriptLine
unfolding join_lines
merge_from current [] = current ∷ []
merge_from current (line ∷ lines) =
    let joined = merge_from (join_lines current line) lines in
    let next = merge_from line lines in if same_turn current line then joined else current ∷ next

unfoldable pub merge_lines : List TranscriptLine → List TranscriptLine
unfolding merge_from
merge_lines [] = []
merge_lines (line ∷ lines) = merge_from line lines

module _ (engine : TextEngine) where
  open engine use {is_punctuation, casefold, remove, fullmatch}

  -- The two `while` loops, at the front and at the end.
  pub drop_punctuation : Text → Text
  drop_punctuation [] = []
  drop_punctuation (c ∷ cs) = if is_punctuation c then drop_punctuation cs else c ∷ cs

  pub normalize_for_comparison : Text → Text
  normalize_for_comparison text =
      let stripped = reverse (drop_punctuation (reverse (drop_punctuation (strip text)))) in
      casefold (join space (words stripped))

  pub is_hallucination : List Text → HallucinationMatch → Text → Bool
  is_hallucination phrases exact text = contains text phrases
  is_hallucination phrases regex text = any (λ p. fullmatch p (strip text)) phrases
  is_hallucination phrases normalized text =
      contains (normalize_for_comparison text) (map normalize_for_comparison phrases)

  pub segment_key : TranscriptLine → SegmentKey
  segment_key line = (
    line.speaker_name,
    (
      normalize_for_comparison line.text,
      (round_seconds line.start_time, round_seconds line.end_time),
    ),
  )

  pub phrase_key : TranscriptLine → PhraseKey
  phrase_key line = (line.speaker_name, normalize_for_comparison line.text)

  -- The loop of `DropDuplicateSegments.apply`
  unfoldable pub drop_seen : List SegmentKey → List TranscriptLine → List TranscriptLine
  drop_seen seen [] = []
  drop_seen seen (line ∷ lines) =
      let skipped = drop_seen seen lines in
      let taken = drop_seen (segment_key line ∷ seen) lines in
      if any (λ k. segment_key line == k) seen then skipped else line ∷ taken

  abbrev pub is_repeat : ℕ → ℕ → Option ℕ → Bool
  is_repeat window start none = false
  is_repeat window start (some previous) = leb start (previous + window)

  -- The loop of `DropRepeats.apply`
  unfoldable pub drop_repeated : ℕ → Kept → List TranscriptLine → List TranscriptLine
  drop_repeated window kept [] = []
  drop_repeated window kept (line ∷ lines) =
      let skipped = drop_repeated window kept lines in
      let taken = drop_repeated window ((phrase_key line, line.start_time) ∷ kept) lines in
      if is_repeat window line.start_time (last_kept (phrase_key line) kept)
      then skipped
      else line ∷ taken

  abbrev pub with_text : TranscriptLine → Text → TranscriptLine
  with_text line text' = record line { text = text' }

  unfoldable pub apply : Rule → List TranscriptLine → List TranscriptLine
  unfolding merge_lines
  apply collapse lines = map (λ l. with_text l (join space (words l.text))) lines
  apply (strip_patterns patterns) lines =
      map (λ l. with_text l (foldl (λ text pattern. remove pattern text) l.text patterns)) lines
  apply drop_empty lines = keep (λ l. not (is_blank (strip l.text))) lines
  apply (hallucinations [] match) lines = lines
  apply (hallucinations (p ∷ phrases) match) lines =
      keep (λ l. not (is_hallucination (p ∷ phrases) match l.text)) lines
  apply (short_lines min_characters) lines =
      if min_characters == 0
      then lines
      else keep (λ l. leb min_characters (length (strip l.text))) lines
  apply duplicate_segments lines = drop_seen [] lines
  apply (repeats window) lines = if window == 0 then lines else drop_repeated window [] lines
  apply merge lines = merge_lines lines

  unfoldable pub run_rules : List Rule → List TranscriptLine → List TranscriptLine
  run_rules [] lines = lines
  run_rules (r ∷ rules) lines = run_rules rules (apply r lines)

abbrev pub when : Bool → Rule → List Rule
when true r = r ∷ []
when false r = []

unfoldable pub build_pipeline : CleaningSettings → List Rule
build_pipeline s =
    when s.collapse_whitespace collapse
    ++ (strip_patterns s.strip_patterns
        ∷ drop_empty
        ∷ (when s.drop_hallucinations (hallucinations s.hallucination_phrases s.hallucination_match)
            ++ (short_lines s.min_characters
                ∷ (when s.drop_duplicate_segments duplicate_segments
                    ++ (when s.drop_repeats (repeats s.repetition_window)
                        ++ when s.merge_same_speaker merge)))))

unfoldable pub clean : TextEngine → CleaningSettings → List TranscriptLine → List TranscriptLine
unfolding build_pipeline run_rules
clean engine settings lines = run_rules engine (build_pipeline settings) lines
