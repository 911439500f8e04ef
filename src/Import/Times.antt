-- ===== src/Import/Times.antt =====
-- The times and the flag that chronicler/core/processing/importers.py gives to imported lines, and how
-- `looks_synthetic` (chronicler/core/formatting.py) reads them back.
use chronicler.Base.{
  ℕ, ◌+◌, ◌≡◌, ◌≢◌, refl, inl, inr, true, false, not, Bool-cases, Option-cases, none, some, List,
  [], ◌∷◌, ◌++◌, map, all, any, arith, subst,
}
use chronicler.Text.{Text, strip}
use chronicler.Models.{TranscriptLine}
use chronicler.Formatting.{looks_synthetic, has_flag, is_not_false}
use chronicler.Import.{
  Importer, Groups, Match, read_groups, Turn, collect_from, flush, start_of, next_turn, first_turn,
  splitlines, continued, is_nil, collect_turns, end_at_next, number_from, assign_times, flagged,
  parse,
}

module _ (importer : Importer) where
  any-flagged :
      (ls : List TranscriptLine) → ls ≢ [] → any has_flag (map (flagged importer) ls) ≡ true
  any-flagged [] h = absurd (h refl)
  any-flagged (l ∷ ls) h = refl

  all-flagged :
      (ls : List TranscriptLine)
      → ls ≢ []
      → all is_not_false (map (flagged importer) ls) ≡ not importer.has_timestamps
  all-flagged [] h = absurd (h refl)
  all-flagged (l ∷ []) h = ground arith
  all-flagged (l ∷ m ∷ ls) h = ground (arith, all-flagged (m ∷ ls) (λ e. ground (arith, e)))

  -- Each line starts where the one before it ended, from `time` on, and lasts a second.
  abbrev pub Numbered : ℕ → List TranscriptLine → Type 0
  Numbered time [] = Unit
  Numbered time (l ∷ ls) =
      (l.start_time ≡ time) × (l.end_time ≡ time + 1000) × Numbered (time + 1000) ls

  -- Each line ends where the next one starts.
  abbrev pub Chained : List TranscriptLine → Type 0
  Chained [] = Unit
  Chained (l ∷ []) = Unit
  Chained (l ∷ m ∷ ls) = (l.end_time ≡ m.start_time) × Chained (m ∷ ls)

  number_from-Numbered :
      (time : ℕ) (ls : List TranscriptLine)
      → Numbered time (map (flagged importer) (number_from importer time ls))
  unfolding number_from
  number_from-Numbered time [] = tt
  number_from-Numbered time (l ∷ ls) = (refl, refl, number_from-Numbered (time + 1000) ls)

  end_at_next-Chained :
      (ls : List TranscriptLine) → Chained (map (flagged importer) (end_at_next importer ls))
  unfolding end_at_next
  end_at_next-Chained [] = tt
  end_at_next-Chained (l ∷ []) = tt
  end_at_next-Chained (l ∷ m ∷ []) = (refl, tt)
  end_at_next-Chained (l ∷ m ∷ n ∷ ls) = (refl, end_at_next-Chained (m ∷ n ∷ ls))

  number_from_ne :
      (time : ℕ) (ls : List TranscriptLine) → number_from importer time ls ≢ [] → ls ≢ []
  unfolding number_from
  number_from_ne time [] h e = h refl
  number_from_ne time (l ∷ ls) h e = ground (arith, e)

  -- What the caller gets for its times
  abbrev pub Timed : ℕ → List TranscriptLine → Type 0
  Timed offset ls =
      (importer.has_timestamps ≡ false → Numbered offset ls)
      × (importer.has_timestamps ≡ true → Chained ls)
      × (ls ≢ [] → looks_synthetic ls ≡ not importer.has_timestamps)

  map_ne : (ls : List TranscriptLine) → map (flagged importer) ls ≢ [] → ls ≢ []
  map_ne [] h e = h refl
  map_ne (l ∷ ls) h e = ground (arith, e)

  flagged-synthetic :
      (ls : List TranscriptLine)
      → map (flagged importer) ls ≢ []
      → looks_synthetic (map (flagged importer) ls) ≡ not importer.has_timestamps
  unfolding looks_synthetic
  flagged-synthetic ls h = rw (any-flagged ls (map_ne ls h)) (all-flagged ls (map_ne ls h))

  assigned-Timed :
      (offset : ℕ) (ls : List TranscriptLine)
      → Timed offset (map (flagged importer) (assign_times importer offset ls))
  unfolding assign_times
  assigned-Timed offset ls = (
    λ e. simp e (number_from-Numbered offset ls),
    λ e. simp e (end_at_next-Chained ls),
    λ h. flagged-synthetic _ h,
  )

  -- Each line that matches has a speaker and a text.
  abbrev pub Grouped : Type 0
  Grouped =
      (line : Text) (g : Groups)
      → importer.match_line line ≡ some g
      → ((s : Text) × (g.speaker ≡ some s)) × ((t : Text) × (g.text ≡ some t))

  read_groups_lem :
      (g : Groups) (s text : Text)
      → importer.has_timestamps ≡ false
      → g.speaker ≡ some s
      → g.text ≡ some text
      → read_groups importer g ≡ some (record { speaker = s; text = text; timestamp = [] })
  read_groups_lem g s text h speaker said = simp (h, speaker, said)

  collect_from_turn :
      (offset : ℕ) (t : Turn) (line : Text) (lines : List Text) (g : Groups) (m : Match) (start : ℕ)
      (ls : List TranscriptLine)
      → is_nil (strip line) ≡ false
      → importer.match_line line ≡ some g
      → read_groups importer g ≡ some m
      → start_of importer offset m t.start_time ≡ some start
      → collect_from importer offset (next_turn importer t m start) lines ≡ some ls
      → collect_from importer offset t (line ∷ lines) ≡ some (flush importer t ++ ls)
  unfolding collect_from
  collect_from_turn offset t line lines g m start ls e matches read starts rest =
      rw (e, matches, read, starts, rest) refl

  start_of_untimed :
      (offset : ℕ) (m : Match) (before : ℕ)
      → importer.has_timestamps ≡ false
      → start_of importer offset m before ≡ some before
  start_of_untimed offset m before h = rw h refl

  -- Without a timestamp group nothing is raised.
  collect_total :
      (offset : ℕ) (t : Turn) (lines : List Text)
      → importer.has_timestamps ≡ false
      → Grouped
      → (ls : List TranscriptLine) × (collect_from importer offset t lines ≡ some ls)
  unfolding collect_from
  collect_total offset t [] h grouped = (_, refl)
  collect_total offset t (line ∷ lines) h grouped = elim (Bool-cases (is_nil (strip line))) [
    | inl e ↦ rw e (collect_total offset t lines h grouped)
    | inr e ↦ elim (Option-cases (importer.match_line line)) [
      | inl none_there ↦
          rw (e, none_there) (collect_total offset (continued importer t line) lines h grouped)
      | inr (g, matched) ↦
          let ((s, speaker), (text, said)) = grouped line g matched in
          let m : Match = record { speaker = s; text = text; timestamp = [] } in
          let read = read_groups_lem g s text h speaker said in
          let (ls, done) =
            collect_total offset (next_turn importer t m t.start_time) lines h grouped in
          (
            flush importer t ++ ls,
            collect_from_turn offset t line lines g m t.start_time ls e matched read
                (start_of_untimed offset m t.start_time h) done,
          )
    ]
  ]

  collect_turns_total :
      (content : Text) (offset : ℕ)
      → importer.has_timestamps ≡ false
      → Grouped
      → (ls : List TranscriptLine) × (collect_turns importer content offset ≡ some ls)
  unfolding collect_turns
  collect_turns_total content offset h grouped =
      collect_total offset (first_turn importer offset) (splitlines content) h grouped

  -- `parse` of a pattern without a timestamp group returns lines, whatever the text, when each line
  -- that matches has a speaker and a text group. The lines that it returns, if it does, follow each
  -- other second by second from the offset without a timestamp group; with one, each line ends where
  -- the next one starts. `looks_synthetic` tells the two kinds of lines apart.
  pub parse-Timed :
      (content : Text) (offset : ℕ)
      → (importer.has_timestamps ≡ false
          → Grouped
          → (ls : List TranscriptLine) × (parse importer content offset ≡ some ls))
        × ((ls : List TranscriptLine) → parse importer content offset ≡ some ls → Timed offset ls)
  unfolding parse
  parse-Timed content offset = (
    λ h grouped.
        let (ls, done) = collect_turns_total content offset h grouped in
        (map (flagged importer) (assign_times importer offset ls), rw (done, parse) refl),
    λ ls h. elim (Option-cases (collect_turns importer content offset)) [
      | inl e ↦ let bad : none ≡ some ls = rw (e, parse) at h in ground (arith, bad)
      | inr (turns, e) ↦
          let it : map (flagged importer) (assign_times importer offset turns) ≡ ls =
            ground (arith, (rw (e, parse) at h)) in
          subst (λ (ms : List TranscriptLine). Timed offset ms) it (assigned-Timed offset turns)
    ],
  )
