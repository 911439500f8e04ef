-- ===== src/Cleaning/Repeats.antt =====
-- `DropRepeats` of chronicler/core/processing/cleaners.py.
use mathlib.Core.Logic.{◌⊎◌, inl, inr}
use chronicler.Base.{
  ℕ, ◌+◌, ◌<◌, ◌≤◌, ◌≡◌, refl, sym, subst, ap, ◌∙◌, true, false, Bool-cases, List, [], ◌∷◌, All,
  All-mono, Pairwise, In, here, there, ◌==◌, Pair_eq, List_eq, Option_eq, ℕ_eq, pair_beq_iff, arith,
  In-cases, Option, none, some, Option-cases,
}
use chronicler.Models.{TranscriptLine}
use chronicler.Cleaning.{
  TextEngine, PhraseKey, Kept, phrase_key, last_kept, is_repeat, drop_repeated, apply, repeats,
}

module _ (engine : TextEngine) (window : ℕ) where
  abbrev pub key : TranscriptLine → PhraseKey
  key l = phrase_key engine l

  last_kept-newest :
      (k : PhraseKey) (time : ℕ) (kept : Kept) → last_kept k ((k, time) ∷ kept) ≡ some time
  unfolding last_kept
  last_kept-newest k time kept = rw ((pair_beq_iff k k).1 refl)

  last_kept-other :
      (j k : PhraseKey) (time : ℕ) (kept : Kept)
      → (j == k) ≡ false
      → last_kept k ((j, time) ∷ kept) ≡ last_kept k kept
  unfolding last_kept
  last_kept-other j k time kept h = rw h

  newest_at :
      (j k : PhraseKey) (time : ℕ) (kept : Kept)
      → (j == k) ≡ true
      → last_kept k ((j, time) ∷ kept) ≡ some time
  unfolding last_kept
  newest_at j k time kept h = rw h

  out_of_window :
      (time start : ℕ) (last : Option ℕ)
      → last ≡ some time
      → is_repeat engine window start last ≡ false
      → time + window < start
  out_of_window time start none e h = ground (arith, e)
  out_of_window time start (some t) e h = ground (arith, e, h)

  -- What is kept after a line with its key stands more than the window after it.
  drop_repeated-after :
      (k : PhraseKey) (time : ℕ) (kept : Kept) (lines : List TranscriptLine)
      → last_kept k kept ≡ some time
      → All (λ m. key m ≡ k → time + window < m.start_time) (drop_repeated engine window kept lines)
  unfolding drop_repeated
  drop_repeated-after k time kept [] h = tt
  drop_repeated-after k time kept (line ∷ lines) h =
      elim (Bool-cases (is_repeat engine window line.start_time (last_kept (key line) kept))) [
        | inl e ↦ rw e (drop_repeated-after k time kept lines h)
        | inr e ↦ elim (Bool-cases (key line == k)) [
          | inl same ↦
              let at_k : last_kept (key line) kept ≡ some time =
                rw ((pair_beq_iff (key line) k).0 same) h in
              let late : time + window < line.start_time =
                out_of_window time line.start_time _ at_k e in
              rw e (
                (λ _. late),
                All-mono _ _ _ (λ m after here_too. ground (arith, late, after here_too))
                    (drop_repeated-after k line.start_time ((key line, line.start_time) ∷ kept)
                      lines (newest_at (key line) k line.start_time kept same)),
              )
          | inr differs ↦ rw e (
            (λ same. ground (arith, pair_beq_iff (key line) k, same, differs)),
            drop_repeated-after k time ((key line, line.start_time) ∷ kept) lines
                (last_kept-other (key line) k line.start_time kept differs ∙ h),
          )
        ]
      ]

  -- `m` is kept, and `l` says the same within the window after it.
  abbrev pub RepeatOf : TranscriptLine → List TranscriptLine → Type 0
  RepeatOf l kept =
      (m : TranscriptLine) × In m kept × (key m ≡ key l) × (l.start_time ≤ m.start_time + window)

  drop_repeated-Pairwise :
      (kept : Kept) (lines : List TranscriptLine)
      → Pairwise
          (λ a b. key b ≡ key a → a.start_time + window < b.start_time)
          (drop_repeated engine window kept lines)
  unfolding drop_repeated
  drop_repeated-Pairwise kept [] = tt
  drop_repeated-Pairwise kept (line ∷ lines) =
      elim (Bool-cases (is_repeat engine window line.start_time (last_kept (key line) kept))) [
        | inl e ↦ rw e (drop_repeated-Pairwise kept lines)
        | inr e ↦ rw e (
          drop_repeated-after (key line) line.start_time ((key line, line.start_time) ∷ kept) lines
              (last_kept-newest (key line) line.start_time kept),
          drop_repeated-Pairwise ((key line, line.start_time) ∷ kept) lines,
        )
      ]

  -- A line is kept, or repeats a kept line, or repeats one of the entries.
  abbrev Accounted : TranscriptLine → Kept → List TranscriptLine → Type 0
  Accounted l kept result =
      In l result
      ⊎ (RepeatOf l result ⊎ ((time : ℕ) × In (key l, time) kept × (l.start_time ≤ time + window)))

  last_kept-In :
      (k : PhraseKey) (kept : Kept) (time : ℕ) → last_kept k kept ≡ some time → In (k, time) kept
  unfolding last_kept
  last_kept-In k [] time h = ground (arith, h)
  last_kept-In k ((j, t) ∷ kept) time h = elim (Bool-cases (j == k)) [
    | inl same ↦
        let kept_then : some t ≡ some time = rw same at h in
        let then_it_is : t ≡ time = ground (arith, kept_then) in
        let found : In (j, t) ((j, t) ∷ kept) = here in
        subst (λ (u : ℕ). In (k, u) ((j, t) ∷ kept)) then_it_is
          (subst (λ (i : PhraseKey). In (i, t) ((j, t) ∷ kept)) ((pair_beq_iff j k).0 same) found)
    | inr differs ↦ there (last_kept-In k kept time (rw differs at h))
  ]

  repeat-entry :
      (l : TranscriptLine) (kept : Kept)
      → is_repeat engine window l.start_time (last_kept (key l) kept) ≡ true
      → (time : ℕ) × In (key l, time) kept × (l.start_time ≤ time + window)
  repeat-entry l kept h = elim (Option-cases (last_kept (key l) kept)) [
    | inl e ↦ let bad : false ≡ true = rw e at h in ground arith
    | inr (time, e) ↦ (time, last_kept-In (key l) kept time e, ground (arith, (rw e at h)))
  ]

  Accounted-cons :
      (line l : TranscriptLine) (kept : Kept) (result : List TranscriptLine)
      → Accounted l ((key line, line.start_time) ∷ kept) result
      → Accounted l kept (line ∷ result)
  Accounted-cons line l kept result (inl found) = inl (there found)
  Accounted-cons line l kept result (inr (inl (m, found, same, near))) =
      inr (inl (m, there found, same, near))
  Accounted-cons line l kept result (inr (inr (time, found, near))) = elim (In-cases found) [
    | inl same ↦ inr (
        inl (
          line,
          here,
          sym (ap (λ (e : PhraseKey × ℕ). e.0) same),
          rw (sym (ap (λ (e : PhraseKey × ℕ). e.1) same)) near,
        ))
    | inr earlier ↦ inr (inr (time, earlier, near))
  ]

  repeated-Accounted :
      (kept : Kept) (lines : List TranscriptLine) (l : TranscriptLine)
      → In l lines
      → Accounted l kept (drop_repeated engine window kept lines)
  unfolding drop_repeated
  repeated-Accounted kept [] l m = elim m [ ]
  repeated-Accounted kept (line ∷ lines) l m =
      elim (Bool-cases (is_repeat engine window line.start_time (last_kept (key line) kept))) [
        | inl e ↦ elim (In-cases m) [
          | inl same ↦ inr (inr (rw same (repeat-entry line kept e)))
          | inr m' ↦ rw e (repeated-Accounted kept lines l m')
        ]
        | inr e ↦ elim (In-cases m) [
          | inl same ↦ rw e (rw same (inl here))
          | inr m' ↦ rw e (
              Accounted-cons line l kept _
                (repeated-Accounted ((key line, line.start_time) ∷ kept) lines l m'))
        ]
      ]

  -- Of two lines that `DropRepeats.apply` keeps with the same speaker and phrase, the later one in the
  -- transcript starts more than the window after the other, and a line that is not kept starts at
  -- most the window after a kept line with its speaker and phrase. The window is positive.
  pub repeats-Pairwise :
      (lines : List TranscriptLine)
      → 0 < window
      → Pairwise
          (λ a b. key b ≡ key a → a.start_time + window < b.start_time)
          (apply engine (repeats window) lines)
        × ((l : TranscriptLine)
            → In l lines
            → In l (apply engine (repeats window) lines)
              ⊎ RepeatOf l (apply engine (repeats window) lines))
  unfolding apply
  repeats-Pairwise lines positive =
      let on : (window == 0) ≡ false = ground arith in
      rw on (
        drop_repeated-Pairwise [] lines,
        λ l m. elim (repeated-Accounted [] lines l m) [
          | inl found ↦ inl found
          | inr (inl repeat) ↦ inr repeat
          | inr (inr (time, found, _)) ↦ elim found [ ]
        ],
      )
