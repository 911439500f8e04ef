-- ===== src/Cleaning/Examples.antt =====
-- The cleaning theorems at a conversation of three lines.
use chronicler.Base.{
  ℕ, ◌≡◌, ◌≢◌, ◌+◌, ◌<◌, refl, true, List, [], ◌∷◌, map, none, some, In, Pairwise, ◌==◌, ℕ_eq,
  List_eq, All, ◌⊎◌, arith, if◌then◌else◌, leb, ◌&&◌,
}
use chronicler.Text.{Text, codes}
use chronicler.Models.{TranscriptLine}
use chronicler.Cleaning.{
  TextEngine, CleaningSettings, apply, clean, duplicate_segments, repeats, merge_lines, segment_key,
  normalized,
}
use chronicler.Cleaning.Merge.{Alternates, all_words, merge_lines-Alternates}
use chronicler.Cleaning.Duplicates.{Covered, duplicate_segments-Pairwise, key}
use chronicler.Cleaning.Repeats.{RepeatOf, repeats-Pairwise, key as phrase}
use chronicler.Cleaning.Blank.{Visible, clean-Visible}

abbrev lower : ℕ → ℕ
lower c = if leb 65 c && leb c 90 then c + 32 else c

abbrev ascii : TextEngine
ascii = record {
  is_punctuation = λ c. c == 46;
  casefold = λ t. map lower t;
  remove = λ p t. if p == t then [] else t;
  fullmatch = λ p t. p == t;
}

abbrev said : ℕ → Text → ℕ → TranscriptLine
said n text start = record {
  id = n;
  speaker_id = some 7;
  speaker_name = some (codes "Ada");
  source_id = some 1;
  synthetic_timing = none;
  chronicle_id = some 9;
  start_time = start;
  end_time = start + 900;
  text = text;
}

abbrev conversation : List TranscriptLine
conversation =
    said 1 (codes "Hello there.") 1000
    ∷ said 2 (codes " hello THERE") 1100
    ∷ said 3 (codes "  ") 5000
    ∷ []

abbrev all_on : CleaningSettings
all_on = record {
  collapse_whitespace = true;
  merge_same_speaker = true;
  drop_hallucinations = true;
  hallucination_phrases = codes "Thank you." ∷ [];
  hallucination_match = normalized;
  drop_repeats = true;
  repetition_window = 5000;
  drop_duplicate_segments = true;
  min_characters = 1;
  strip_patterns = codes "[noise]" ∷ [];
}

merge_lines-Alternates_example :
    (all_words (merge_lines conversation) ≡ all_words conversation)
    × Alternates (merge_lines conversation)
merge_lines-Alternates_example = merge_lines-Alternates conversation

duplicate_segments-Pairwise_example :
    Pairwise
      (λ a b. segment_key ascii b ≢ segment_key ascii a)
      (apply ascii duplicate_segments conversation)
    × ((l : TranscriptLine)
        → In l conversation
        → Covered ascii (key ascii l) (apply ascii duplicate_segments conversation))
duplicate_segments-Pairwise_example = duplicate_segments-Pairwise ascii conversation

repeats-Pairwise_example :
    Pairwise
      (λ a b. phrase ascii 5000 b ≡ phrase ascii 5000 a → a.start_time + 5000 < b.start_time)
      (apply ascii (repeats 5000) conversation)
    × ((l : TranscriptLine)
        → In l conversation
        → In l (apply ascii (repeats 5000) conversation)
          ⊎ RepeatOf ascii 5000 l (apply ascii (repeats 5000) conversation))
repeats-Pairwise_example = repeats-Pairwise ascii 5000 conversation (omega arith)

clean-Visible_example :
    All Visible (clean ascii all_on conversation)
    × (true ≡ true → Alternates (clean ascii all_on conversation))
clean-Visible_example = clean-Visible ascii all_on conversation

-- The second line repeats the first, and the third is blank.
cleaned : clean ascii all_on conversation ≡ said 1 (codes "Hello there.") 1000 ∷ []
unfolding clean apply chronicler.Cleaning.drop_repeated chronicler.Cleaning.drop_seen
    chronicler.Text.strip chronicler.Text.join chronicler.Text.words
    chronicler.Cleaning.is_hallucination chronicler.Cleaning.normalize_for_comparison
    chronicler.Cleaning.drop_punctuation chronicler.Cleaning.last_kept segment_key
    chronicler.Formatting.round_seconds
cleaned = refl
