-- ===== src/Import/Starts.antt =====
-- Where the lines of chronicler/core/processing/importers.py start, and that each says who speaks.
use chronicler.Base.{
  ℕ, ◌+◌, ◌≤◌, ◌≡◌, refl, inl, inr, Bool-cases, Option-cases, none, some, List, [], ◌∷◌, ◌++◌, map,
  All, All-append, All-map, subst, arith,
}
use chronicler.Text.{Text, strip}
use chronicler.Models.{TranscriptLine}
use chronicler.Formatting.{parse_timestamp}
use chronicler.Import.{
  Importer, Match, read_groups, Turn, collect_from, flush, next_turn, first_turn, splitlines,
  continued, is_heard, is_nil, start_of, collect_turns, end_at_next, number_from, assign_times,
  flagged, parse,
}

-- A line behind the offset with a speaker's name
abbrev pub Placed : ℕ → TranscriptLine → Type 0
Placed offset l = (offset ≤ l.start_time) × ((n : Text) × (l.speaker_name ≡ some n))

module _ (importer : Importer) where
  flush-Placed :
      (offset : ℕ) (t : Turn) → offset ≤ t.start_time → All (Placed offset) (flush importer t)
  flush-Placed offset t h = elim (Bool-cases (is_heard t)) [
    | inl e ↦ rw e ((h, (t.speaker, refl)), tt)
    | inr e ↦ rw e tt
  ]

  continued-start : (t : Turn) (line : Text) → (continued importer t line).start_time ≡ t.start_time
  continued-start t line = elim (Bool-cases (is_heard t)) [ inl e ↦ rw e refl | inr e ↦ rw e refl ]

  start_of-le :
      (offset : ℕ) (m : Match) (before start : ℕ)
      → offset ≤ before
      → start_of importer offset m before ≡ some start
      → offset ≤ start
  start_of-le offset m before start h e = elim (Bool-cases importer.has_timestamps) [
    | inl timed ↦ elim (Option-cases (parse_timestamp (strip m.timestamp))) [
      | inl fails ↦ let bad : none ≡ some start = rw (timed, fails) at e in ground (arith, bad)
      | inr (at, parsed) ↦
          let it : some (offset + at) ≡ some start = rw (timed, parsed) at e in
          let sum : offset + at ≡ start = ground (arith, it) in omega (arith, sum)
    ]
    | inr untimed ↦
        let it : some before ≡ some start = rw untimed at e in
        let same : before ≡ start = ground (arith, it) in omega (arith, h, same)
  ]

  collect_from-Placed :
      (offset : ℕ) (t : Turn) (lines : List Text) (ls : List TranscriptLine)
      → offset ≤ t.start_time
      → collect_from importer offset t lines ≡ some ls
      → All (Placed offset) ls
  unfolding collect_from
  collect_from-Placed offset t [] ls later h =
      let it : flush importer t ≡ ls = ground (arith, h) in
      subst (All (Placed offset)) it (flush-Placed offset t later)
  collect_from-Placed offset t (line ∷ lines) ls later h = elim (Bool-cases (is_nil (strip line))) [
    | inl blank ↦ collect_from-Placed offset t lines ls later (rw blank at h)
    | inr e ↦ elim (Option-cases (importer.match_line line)) [
      | inl unmatched ↦
          collect_from-Placed offset (continued importer t line) lines ls
            (rw (continued-start t line) later) (rw (e, unmatched) at h)
      | inr (g, matches) ↦ elim (Option-cases (read_groups importer g)) [
        | inl unread ↦
            let bad : none ≡ some ls = rw (e, matches, unread) at h in ground (arith, bad)
        | inr (m, matched) ↦ elim (Option-cases (start_of importer offset m t.start_time)) [
          | inl refused ↦
              let bad : none ≡ some ls = rw (e, matches, matched, refused) at h in
              ground (arith, bad)
          | inr (start, starts) ↦
              elim (Option-cases
                (collect_from importer offset (next_turn importer t m start) lines)) [
                  | inl fails ↦
                      let bad : none ≡ some ls = rw (e, matches, matched, starts, fails) at h in
                      ground (arith, bad)
                  | inr (ms, rest) ↦
                      let whole : some (flush importer t ++ ms) ≡ some ls =
                        rw (e, matches, matched, starts, rest) at h in
                      let it : flush importer t ++ ms ≡ ls = ground (arith, whole) in
                      subst (All (Placed offset)) it (
                        All-append (Placed offset) (flush importer t) ms
                          (flush-Placed offset t later)
                          (collect_from-Placed offset (next_turn importer t m start) lines ms
                            (start_of-le offset m t.start_time start later starts) rest))
                ]
        ]
      ]
    ]
  ]

  end_at_next-Placed :
      (offset : ℕ) (ls : List TranscriptLine)
      → All (Placed offset) ls
      → All (Placed offset) (end_at_next importer ls)
  unfolding end_at_next
  end_at_next-Placed offset [] h = tt
  end_at_next-Placed offset (l ∷ []) h = h
  end_at_next-Placed offset (l ∷ m ∷ ls) h = (h.0, end_at_next-Placed offset (m ∷ ls) h.1)

  number_from-Placed :
      (offset n : ℕ) (ls : List TranscriptLine)
      → offset ≤ n
      → All (Placed offset) ls
      → All (Placed offset) (number_from importer n ls)
  unfolding number_from
  number_from-Placed offset n [] later h = tt
  number_from-Placed offset n (l ∷ ls) later h =
      ((later, h.0.1), number_from-Placed offset (n + 1000) ls (omega (arith, later)) h.1)

  assign_times-Placed :
      (offset : ℕ) (ls : List TranscriptLine)
      → All (Placed offset) ls
      → All (Placed offset) (assign_times importer offset ls)
  unfolding assign_times
  assign_times-Placed offset ls h = elim (Bool-cases importer.has_timestamps) [
    | inl e ↦ simp e (end_at_next-Placed offset ls h)
    | inr e ↦ simp e (number_from-Placed offset offset ls (omega arith) h)
  ]

  collect_turns-Placed :
      (content : Text) (offset : ℕ) (ls : List TranscriptLine)
      → collect_turns importer content offset ≡ some ls
      → All (Placed offset) ls
  unfolding collect_turns
  collect_turns-Placed content offset ls h =
      collect_from-Placed offset (first_turn importer offset) (splitlines content) ls (omega arith)
        h

  -- No imported line starts before the offset, and each says who speaks.
  pub parse-Placed :
      (content : Text) (offset : ℕ) (ls : List TranscriptLine)
      → parse importer content offset ≡ some ls
      → All (Placed offset) ls
  unfolding parse
  parse-Placed content offset ls h = elim (Option-cases (collect_turns importer content offset)) [
    | inl e ↦ let bad : none ≡ some ls = rw (e, parse) at h in ground (arith, bad)
    | inr (turns, e) ↦
        let it : map (flagged importer) (assign_times importer offset turns) ≡ ls =
          ground (arith, (rw (e, parse) at h)) in
        subst (All (Placed offset)) it (
          All-map (Placed offset) (flagged importer) (assign_times importer offset turns)
            (assign_times-Placed offset turns (collect_turns-Placed content offset turns e)))
  ]
