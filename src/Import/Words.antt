-- ===== src/Import/Words.antt =====
-- What chronicler/core/processing/importers.py keeps of the text.
use mathlib.Core.List.{append-nil, append_assoc}
use chronicler.Base.{
  ℕ, ◌+◌, ◌≡◌, ◌≢◌, refl, sym, ap, ◌∙◌, inl, inr, true, false, not, Bool, Bool-cases, Option,
  Option-cases, none, some, List, [], ◌∷◌, ◌++◌, map, if◌then◌else◌, arith,
}
use chronicler.Text.{Text, strip, words, join, is_space}
use chronicler.Text.Words.{words-strip, words-append}
use chronicler.Models.{TranscriptLine}
use chronicler.Cleaning.Merge.{all_words}
use chronicler.Import.{
  Importer, Groups, Match, match_of, read_groups, Turn, collect_from, collect_turns, flush,
  next_turn, first_turn, splitlines, continued, is_nil, is_heard, start_of, line_break, end_at_next,
  number_from, assign_times, flagged, parse,
}

words_of : List Text → List Text
words_of [] = []
words_of (t ∷ ts) = words t ++ words_of ts

words-join : (ts : List Text) → words (join line_break ts) ≡ words_of ts
unfolding join words_of words
words-join [] = refl
words-join (t ∷ []) = sym (append-nil (words t))
words-join (t ∷ u ∷ ts) =
    ap (λ (x : Text). words x) (append_assoc t line_break (join line_break (u ∷ ts)))
    ∙ words-append t 10 (join line_break (u ∷ ts)) (unfold is_space in refl)
    ∙ ap (λ (x : List Text). words t ++ x) (words-join (u ∷ ts))

words_of-append : (ts : List Text) (u : Text) → words_of (ts ++ (u ∷ [])) ≡ words_of ts ++ words u
unfolding words_of
words_of-append [] u = append-nil (words u)
words_of-append (t ∷ ts) u =
    ap (λ (x : List Text). words t ++ x) (words_of-append ts u)
    ∙ sym (append_assoc (words t) (words_of ts) (words u))

all_words-append :
    (ls ms : List TranscriptLine) → all_words (ls ++ ms) ≡ all_words ls ++ all_words ms
all_words-append [] ms = refl
all_words-append (l ∷ ls) ms =
    ap (λ (x : List Text). words l.text ++ x) (all_words-append ls ms)
    ∙ sym (append_assoc (words l.text) (all_words ls) (all_words ms))

module _ (importer : Importer) where
  abbrev pub text_of : Option Text → Text
  text_of none = []
  text_of (some t) = t

  match_of-groups :
      (s t at : Option Text) (m : Match)
      → match_of s t at ≡ some m
      → (s ≡ some m.speaker) × (t ≡ some m.text)
  match_of-groups (some s) (some t) (some at) m h =
      let it : record { speaker = s; text = t; timestamp = at } ≡ m = ground (arith, h) in
      (ap (λ (n : Match). some n.speaker) it, ap (λ (n : Match). some n.text) it)
  match_of-groups none t at m h = ground arith
  match_of-groups (some s) none at m h = ground arith
  match_of-groups (some s) (some t) none m h = ground arith

  -- What is said in the lines, from the first one on that names a speaker: the text group of a line
  -- that matches, and the whole of a line that continues a turn.
  abbrev pub spoken : Bool → List Text → List Text
  spoken heard [] = []
  spoken heard (line ∷ lines) =
      if is_nil (strip line) then spoken heard lines else elim (importer.match_line line) [
        | none ↦ (if heard then words line else []) ++ spoken heard lines
        | some g ↦ words (text_of g.text) ++ spoken true lines
      ]

  abbrev held : Turn → List Text
  held t = if is_heard t then words_of t.text else []

  flush-words : (t : Turn) → all_words (flush importer t) ≡ held t
  flush-words t = elim (Bool-cases (is_heard t)) [
    | inl e ↦ rw e (append-nil _ ∙ words-strip (join line_break t.text) ∙ words-join t.text)
    | inr e ↦ rw e refl
  ]

  continued-heard : (t : Turn) (line : Text) → is_heard (continued importer t line) ≡ is_heard t
  continued-heard t line = elim (Bool-cases (is_heard t)) [ inl e ↦ simp e | inr e ↦ simp e ]

  continued_in :
      (speaker : Text) (text : List Text) (start drawn : ℕ) (line : Text)
      → held (
          continued importer
            (record { speaker = speaker; text = text; start_time = start; drawn = drawn })
            line)
        ≡ (if not (is_nil speaker) then words_of text else [])
          ++ (if not (is_nil speaker) then words line else [])
  continued_in [] text start drawn line = refl
  continued_in (c ∷ cs) text start drawn line =
      words_of-append text (strip line)
      ∙ ap (λ (x : List Text). words_of text ++ x) (words-strip line)

  continued-held :
      (t : Turn) (line : Text)
      → held (continued importer t line) ≡ held t ++ (if is_heard t then words line else [])
  continued-held t line = continued_in t.speaker t.text t.start_time t.drawn line

  -- Each line that matches names a speaker.
  abbrev pub Named : Type 0
  Named =
      (line : Text) (g : Groups) (s : Text)
      → importer.match_line line ≡ some g
      → g.speaker ≡ some s
      → strip s ≢ []

  next_turn-heard :
      (t : Turn) (m : Match) (start : ℕ)
      → strip m.speaker ≢ []
      → is_heard (next_turn importer t m start) ≡ true
  next_turn-heard t m start h =
      elim (strip m.speaker) as (λ x. x ≢ [] → not (is_nil x) ≡ true) [
        | [] ↦ λ k. absurd (k refl)
        | c ∷ cs ↦ λ k. refl
      ]
        h

  next_turn-held :
      (t : Turn) (m : Match) (start : ℕ)
      → strip m.speaker ≢ []
      → held (next_turn importer t m start) ≡ words m.text
  unfolding words_of
  next_turn-held t m start h =
      ap (λ (b : Bool). if b then words (strip m.text) ++ [] else []) (next_turn-heard t m start h)
      ∙ append-nil (words (strip m.text))
      ∙ words-strip m.text

  collect_from-words :
      (offset : ℕ) (t : Turn) (lines : List Text) (ls : List TranscriptLine)
      → Named
      → collect_from importer offset t lines ≡ some ls
      → all_words ls ≡ held t ++ spoken (is_heard t) lines
  unfolding collect_from
  collect_from-words offset t [] ls named h =
      let it : flush importer t ≡ ls = ground (arith, h) in
      ap (λ (x : List TranscriptLine). all_words x) (sym it)
      ∙ flush-words t
      ∙ sym (append-nil (held t))
  collect_from-words offset t (line ∷ lines) ls named h = elim (Bool-cases (is_nil (strip line))) [
    | inl blank ↦ rw blank (collect_from-words offset t lines ls named (rw blank at h))
    | inr e ↦ elim (Option-cases (importer.match_line line)) [
      | inl unmatched ↦
          rw (e, unmatched)
            (collect_from-words offset (continued importer t line) lines ls named
                (rw (e, unmatched) at h)
              ∙ ap (λ (x : List Text). x ++ spoken (is_heard (continued importer t line)) lines)
                  (continued-held t line)
              ∙ ap
                  (λ (b : Bool).
                    (held t ++ (if is_heard t then words line else [])) ++ spoken b lines)
                  (continued-heard t line)
              ∙ append_assoc (held t) (if is_heard t then words line else [])
                  (spoken (is_heard t) lines))
      | inr (g, matches) ↦ elim (Option-cases (read_groups importer g)) [
        | inl unread ↦
            let bad : none ≡ some ls = rw (e, matches, unread) at h in ground (arith, bad)
        | inr (m, matched) ↦ elim (Option-cases (start_of importer offset m t.start_time)) [
          | inl refused ↦
              let bad : none ≡ some ls = rw (e, matches, matched, refused) at h in
              ground (arith, bad)
          | inr (start, starts) ↦
              elim (Option-cases
                (collect_from importer offset (next_turn importer t m start) lines)) [
                  | inl fails ↦
                      let bad : none ≡ some ls = rw (e, matches, matched, starts, fails) at h in
                      ground (arith, bad)
                  | inr (ms, rest) ↦
                      let whole : some (flush importer t ++ ms) ≡ some ls =
                        rw (e, matches, matched, starts, rest) at h in
                      let it : flush importer t ++ ms ≡ ls = ground (arith, whole) in
                      let groups =
                        match_of-groups g.speaker g.text
                          (if importer.has_timestamps then g.timestamp else some []) m matched in
                      let named_here = named line g m.speaker matches groups.0 in
                      rw (e, matches, groups.1)
                        (ap (λ (x : List TranscriptLine). all_words x) (sym it)
                          ∙ all_words-append (flush importer t) ms
                          ∙ ap (λ (x : List Text). x ++ all_words ms) (flush-words t)
                          ∙ ap (λ (x : List Text). held t ++ x)
                              (collect_from-words offset (next_turn importer t m start) lines ms
                                  named rest
                                ∙ ap
                                    (λ (x : List Text).
                                      x ++ spoken (is_heard (next_turn importer t m start)) lines)
                                    (next_turn-held t m start named_here)
                                ∙ ap (λ (b : Bool). words m.text ++ spoken b lines)
                                    (next_turn-heard t m start named_here)))
                ]
        ]
      ]
    ]
  ]

  end_at_next-words :
      (ls : List TranscriptLine) → all_words (end_at_next importer ls) ≡ all_words ls
  unfolding end_at_next
  end_at_next-words [] = refl
  end_at_next-words (l ∷ []) = refl
  end_at_next-words (l ∷ m ∷ ls) =
      ap (λ (x : List Text). words l.text ++ x) (end_at_next-words (m ∷ ls))

  number_from-words :
      (n : ℕ) (ls : List TranscriptLine) → all_words (number_from importer n ls) ≡ all_words ls
  unfolding number_from
  number_from-words n [] = refl
  number_from-words n (l ∷ ls) =
      ap (λ (x : List Text). words l.text ++ x) (number_from-words (n + 1000) ls)

  assign_times-words :
      (offset : ℕ) (ls : List TranscriptLine)
      → all_words (assign_times importer offset ls) ≡ all_words ls
  unfolding assign_times
  assign_times-words offset ls = elim (Bool-cases importer.has_timestamps) [
    | inl e ↦ simp e (end_at_next-words ls)
    | inr e ↦ simp e (number_from-words offset ls)
  ]

  flagged-words : (ls : List TranscriptLine) → all_words (map (flagged importer) ls) ≡ all_words ls
  flagged-words [] = refl
  flagged-words (l ∷ ls) = ap (λ (x : List Text). words l.text ++ x) (flagged-words ls)

  collect_turns-words :
      (content : Text) (offset : ℕ) (ls : List TranscriptLine)
      → Named
      → collect_turns importer content offset ≡ some ls
      → all_words ls ≡ spoken false (splitlines content)
  unfolding collect_turns
  collect_turns-words content offset ls named h =
      collect_from-words offset (first_turn importer offset) (splitlines content) ls named h

  -- Where each line that matches names a speaker, the imported lines hold every word that the text says
  -- from the first such line on, in its order and no other words, whichever way they are timed.
  pub parse-words :
      (content : Text) (offset : ℕ) (ls : List TranscriptLine)
      → Named
      → parse importer content offset ≡ some ls
      → all_words ls ≡ spoken false (splitlines content)
  unfolding parse
  parse-words content offset ls named h =
      elim (Option-cases (collect_turns importer content offset)) [
        | inl e ↦ let bad : none ≡ some ls = rw (e, parse) at h in ground (arith, bad)
        | inr (turns, e) ↦
            let it : map (flagged importer) (assign_times importer offset turns) ≡ ls =
              ground (arith, (rw (e, parse) at h)) in
            ap (λ (x : List TranscriptLine). all_words x) (sym it)
            ∙ flagged-words (assign_times importer offset turns)
            ∙ assign_times-words offset turns
            ∙ collect_turns-words content offset turns named e
      ]
