-- ===== src/Cleaning/Blank.antt =====
-- What the whole of `TranscriptCleaner.clean` (chronicler/core/processing/cleaners.py) leaves.
use mathlib.Core.List.{append_assoc}
use chronicler.Base.{
  ℕ, ◌≡◌, ◌≢◌, refl, sym, ap, ◌∙◌, true, false, not, Bool, Bool-cases, List, [], ◌∷◌, ◌++◌, All,
  All-append, All-keep, All_of_In, keep-In, arith, inl, inr, any, ◌==◌, ℕ_eq, Pair_eq, Option_eq,
  List_eq,
}
use chronicler.Text.{Text, words, strip}
use chronicler.Text.Words.{words-strip, strip-nil}
use chronicler.Models.{TranscriptLine}
use chronicler.Cleaning.{
  TextEngine, CleaningSettings, Rule, is_blank, drop_seen, segment_key, drop_repeated, is_repeat,
  phrase_key, last_kept, Kept, SegmentKey, apply, run_rules, build_pipeline, clean, when,
  merge_from, merge_lines, join_lines, same_turn, drop_empty, hallucinations, short_lines,
  duplicate_segments, repeats, merge, collapse, strip_patterns,
}
use chronicler.Cleaning.Merge.{words-join_lines, Alternates, merge_lines-Alternates}

-- Something is left of the text when the white space around it is gone.
abbrev pub Visible : TranscriptLine → Type 0
Visible l = strip l.text ≢ []

words-nil→strip : (l : TranscriptLine) → strip l.text ≡ [] → words l.text ≡ []
unfolding words
words-nil→strip l h = sym (words-strip l.text) ∙ ap words h

append_eq_nil : (ws vs : List Text) → ws ++ vs ≡ [] → ws ≡ []
append_eq_nil [] vs h = refl
append_eq_nil (w ∷ ws) vs h = ground (arith, h)

join_lines-Visible : (a b : TranscriptLine) → Visible a → Visible (join_lines a b)
join_lines-Visible a b visible blank = visible (
    strip-nil a.text (
      append_eq_nil (words a.text) (words b.text)
        (sym (words-join_lines a b) ∙ words-nil→strip (join_lines a b) blank)))

merge_from-Visible :
    (current : TranscriptLine) (lines : List TranscriptLine)
    → Visible current
    → All Visible lines
    → All Visible (merge_from current lines)
unfolding merge_from
merge_from-Visible current [] v vs = (v, tt)
merge_from-Visible current (line ∷ lines) v vs = elim (Bool-cases (same_turn current line)) [
  | inl e ↦
      rw e (
        merge_from-Visible (join_lines current line) lines (join_lines-Visible current line v) vs.1)
  | inr e ↦ rw e (v, merge_from-Visible line lines vs.0 vs.1)
]

module _ (engine : TextEngine) where
  drop_seen-Visible :
      (seen : List SegmentKey) (lines : List TranscriptLine)
      → All Visible lines
      → All Visible (drop_seen engine seen lines)
  unfolding drop_seen
  drop_seen-Visible seen [] h = tt
  drop_seen-Visible seen (line ∷ lines) h =
      elim (Bool-cases (any (λ k. segment_key engine line == k) seen)) [
        | inl e ↦ rw e (drop_seen-Visible seen lines h.1)
        | inr e ↦ rw e (h.0, drop_seen-Visible (segment_key engine line ∷ seen) lines h.1)
      ]

  drop_repeated-Visible :
      (window : ℕ) (kept : Kept) (lines : List TranscriptLine)
      → All Visible lines
      → All Visible (drop_repeated engine window kept lines)
  unfolding drop_repeated
  drop_repeated-Visible window kept [] h = tt
  drop_repeated-Visible window kept (line ∷ lines) h =
      elim (Bool-cases
        (is_repeat engine window line.start_time (last_kept (phrase_key engine line) kept))) [
          | inl e ↦ rw e (drop_repeated-Visible window kept lines h.1)
          | inr e ↦ rw e (
            h.0,
            drop_repeated-Visible window ((phrase_key engine line, line.start_time) ∷ kept) lines
                h.1,
          )
        ]

  -- The rules that run after `DropEmpty` only leave lines out or join them.
  abbrev Late : Rule → Type 0
  Late r = (lines : List TranscriptLine) → All Visible lines → All Visible (apply engine r lines)

  hallucinations-Late :
      (phrases : List Text) (s : CleaningSettings)
      → Late (hallucinations phrases s.hallucination_match)
  unfolding apply
  hallucinations-Late [] s lines h = h
  hallucinations-Late (p ∷ phrases) s lines h = All-keep Visible _ lines h

  short_lines-Late : (n : ℕ) → Late (short_lines n)
  unfolding apply
  short_lines-Late n lines h = elim (Bool-cases (n == 0)) [
    | inl e ↦ rw e h
    | inr e ↦ rw e (All-keep Visible _ lines h)
  ]

  duplicates-Late : Late duplicate_segments
  unfolding apply
  duplicates-Late lines h = drop_seen-Visible [] lines h

  repeats-Late : (window : ℕ) → Late (repeats window)
  unfolding apply
  repeats-Late window lines h = elim (Bool-cases (window == 0)) [
    | inl e ↦ rw e h
    | inr e ↦ rw e (drop_repeated-Visible window [] lines h)
  ]

  merge-Late : Late merge
  unfolding apply merge_lines
  merge-Late [] h = tt
  merge-Late (line ∷ lines) h = merge_from-Visible line lines h.0 h.1

  drop_empty-Visible : (lines : List TranscriptLine) → All Visible (apply engine drop_empty lines)
  unfolding apply
  drop_empty-Visible lines = All_of_In Visible _ (λ l m blank.
      let passed = (keep-In (λ l. not (is_blank (strip l.text))) l lines m).1 in
      let bad : false ≡ true = rw blank at passed in ground arith)

  run_rules-Late :
      (rules : List Rule) (lines : List TranscriptLine)
      → All Late rules
      → All Visible lines
      → All Visible (run_rules engine rules lines)
  unfolding run_rules
  run_rules-Late [] lines late h = h
  run_rules-Late (r ∷ rules) lines late h =
      run_rules-Late rules (apply engine r lines) late.1 (late.0 lines h)

  run_rules-append :
      (rs ts : List Rule) (lines : List TranscriptLine)
      → run_rules engine (rs ++ ts) lines ≡ run_rules engine ts (run_rules engine rs lines)
  unfolding run_rules
  run_rules-append [] ts lines = refl
  run_rules-append (r ∷ rs) ts lines = run_rules-append rs ts (apply engine r lines)

  when-Late : (b : Bool) (r : Rule) → Late r → All Late (when b r)
  when-Late true r h = (h, tt)
  when-Late false r h = tt

  -- The rules after `DropEmpty`, without `MergeSameSpeaker`
  abbrev dropping : CleaningSettings → List Rule
  dropping s =
      when s.drop_hallucinations (hallucinations s.hallucination_phrases s.hallucination_match)
      ++ (short_lines s.min_characters
          ∷ (when s.drop_duplicate_segments duplicate_segments
              ++ when s.drop_repeats (repeats s.repetition_window)))

  dropping-Late : (s : CleaningSettings) → All Late (dropping s)
  dropping-Late s =
      All-append Late _ _
        (when-Late s.drop_hallucinations _ (hallucinations-Late s.hallucination_phrases s))
        (
          short_lines-Late s.min_characters,
          All-append Late _ _ (when-Late s.drop_duplicate_segments _ duplicates-Late)
              (when-Late s.drop_repeats _ (repeats-Late s.repetition_window)),
        )

  abbrev opening : CleaningSettings → List Rule
  opening s = when s.collapse_whitespace collapse ++ strip_patterns s.strip_patterns ∷ []

  in_order :
      (s : CleaningSettings)
      → build_pipeline s
        ≡ opening s ++ (drop_empty ∷ (dropping s ++ when s.merge_same_speaker merge))
  unfolding build_pipeline
  in_order s = simp append_assoc

  merges : (lines : List TranscriptLine) → Alternates (apply engine merge lines)
  unfolding apply
  merges lines = (merge_lines-Alternates lines).1

  -- For every setting, no line that `TranscriptCleaner.clean` returns is blank, and where
  -- `merge_same_speaker` is on no two neighbours belong to the same turn.
  pub clean-Visible :
      (s : CleaningSettings) (lines : List TranscriptLine)
      → All Visible (clean engine s lines)
        × (s.merge_same_speaker ≡ true → Alternates (clean engine s lines))
  unfolding clean run_rules
  clean-Visible s lines =
      let rest =
        run_rules engine (dropping s)
          (apply engine drop_empty (run_rules engine (opening s) lines)) in
      let same : clean engine s lines ≡ run_rules engine (when s.merge_same_speaker merge) rest =
        ap (λ (rs : List Rule). run_rules engine rs lines) (in_order s)
        ∙ run_rules-append (opening s)
            (drop_empty ∷ (dropping s ++ when s.merge_same_speaker merge)) lines
        ∙ run_rules-append (dropping s) (when s.merge_same_speaker merge) _ in
      (
        rw same (
            run_rules-Late (when s.merge_same_speaker merge) rest
              (when-Late s.merge_same_speaker merge merge-Late)
              (run_rules-Late (dropping s) _ (dropping-Late s) (drop_empty-Visible _))),
        λ on. rw same (rw on (merges rest)),
      )
