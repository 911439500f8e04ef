-- ===== src/Cleaning/Merge.antt =====
-- `MergeSameSpeaker` of chronicler/core/processing/cleaners.py.
use chronicler.Base.{◌≡◌, refl, ap, ◌∙◌, inl, inr, false, Bool-cases, List, [], ◌∷◌, ◌++◌}
use mathlib.Core.List.{append_assoc}
use chronicler.Text.{Text, is_space, words}
use chronicler.Text.Words.{words-append, words-strip}
use chronicler.Models.{TranscriptLine}
use chronicler.Cleaning.{join_lines, same_turn, merge_from, merge_lines}

abbrev pub all_words : List TranscriptLine → List Text
all_words [] = []
all_words (l ∷ ls) = words l.text ++ all_words ls

pub words-join_lines :
    (a b : TranscriptLine) → words (join_lines a b).text ≡ words a.text ++ words b.text
unfolding join_lines
words-join_lines a b = words-strip _ ∙ words-append a.text 32 b.text (unfold is_space in refl)

words-merge_from :
    (current : TranscriptLine) (lines : List TranscriptLine)
    → all_words (merge_from current lines) ≡ words current.text ++ all_words lines
unfolding merge_from
words-merge_from current [] = refl
words-merge_from current (line ∷ lines) = elim (Bool-cases (same_turn current line)) [
  | inl e ↦ rw e (
      words-merge_from (join_lines current line) lines
      ∙ ap (λ (t : List Text). t ++ all_words lines) (words-join_lines current line)
      ∙ append_assoc (words current.text) (words line.text) (all_words lines))
  | inr e ↦ rw e (ap (λ (t : List Text). words current.text ++ t) (words-merge_from line lines))
]

-- Neighbours belong to different turns.
abbrev pub Alternates : List TranscriptLine → Type 0
Alternates [] = Unit
Alternates (a ∷ []) = Unit
Alternates (a ∷ b ∷ ls) = (same_turn a b ≡ false) × Alternates (b ∷ ls)

Alternates-after :
    (p c : TranscriptLine) (lines : List TranscriptLine)
    → same_turn p c ≡ false
    → Alternates (p ∷ merge_from c lines)
unfolding merge_from join_lines
Alternates-after p c [] h = (h, tt)
Alternates-after p c (line ∷ lines) h = elim (Bool-cases (same_turn c line)) [
  | inl e ↦ rw e (Alternates-after p (join_lines c line) lines h)
  | inr e ↦ rw e (h, Alternates-after c line lines e)
]

merge_from-Alternates :
    (c : TranscriptLine) (lines : List TranscriptLine) → Alternates (merge_from c lines)
unfolding merge_from
merge_from-Alternates c [] = tt
merge_from-Alternates c (line ∷ lines) = elim (Bool-cases (same_turn c line)) [
  | inl e ↦ rw e (merge_from-Alternates (join_lines c line) lines)
  | inr e ↦ rw e (Alternates-after c line lines e)
]

-- `MergeSameSpeaker.apply` keeps every word of the transcript in its order, and no two neighbours of
-- its result belong to the same turn: the same speaker, name and track.
pub merge_lines-Alternates :
    (lines : List TranscriptLine)
    → (all_words (merge_lines lines) ≡ all_words lines) × Alternates (merge_lines lines)
unfolding merge_lines
merge_lines-Alternates [] = (refl, tt)
merge_lines-Alternates (line ∷ lines) =
    (words-merge_from line lines, merge_from-Alternates line lines)
