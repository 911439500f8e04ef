-- ===== src/Cleaning/Duplicates.antt =====
-- `DropDuplicateSegments` of chronicler/core/processing/cleaners.py.
use mathlib.Core.Logic.{◌⊎◌, inl, inr}
use chronicler.Base.{
  ◌≡◌, ◌≢◌, refl, sym, false, Bool-cases, List, [], ◌∷◌, any, All, Pairwise, In, here, there, ◌==◌,
  Pair_eq, List_eq, Option_eq, ℕ_eq, pair_beq_iff, arith, In-cases, any-In, any-false, All-In,
}
use chronicler.Models.{TranscriptLine}
use chronicler.Cleaning.{TextEngine, SegmentKey, segment_key, drop_seen, apply, duplicate_segments}

module _ (engine : TextEngine) where
  abbrev pub key : TranscriptLine → SegmentKey
  key l = segment_key engine l

  -- What is kept has a key that was not seen before.
  drop_seen-unseen :
      (seen : List SegmentKey) (k : SegmentKey) (lines : List TranscriptLine)
      → In k seen
      → All (λ l. key l ≢ k) (drop_seen engine seen lines)
  unfolding drop_seen
  drop_seen-unseen seen k [] m = tt
  drop_seen-unseen seen k (line ∷ lines) m = elim (Bool-cases (any (λ j. key line == j) seen)) [
    | inl e ↦ rw e (drop_seen-unseen seen k lines m)
    | inr e ↦
        let differs : (key line == k) ≡ false =
          All-In _ m (any-false (λ j. key line == j) seen e) in
        rw e (
          (λ same. ground (arith, pair_beq_iff (key line) k, same, differs)),
          drop_seen-unseen (key line ∷ seen) k lines (there m),
        )
  ]

  drop_seen-Pairwise :
      (seen : List SegmentKey) (lines : List TranscriptLine)
      → Pairwise (λ a b. key b ≢ key a) (drop_seen engine seen lines)
  unfolding drop_seen
  drop_seen-Pairwise seen [] = tt
  drop_seen-Pairwise seen (line ∷ lines) = elim (Bool-cases (any (λ j. key line == j) seen)) [
    | inl e ↦ rw e (drop_seen-Pairwise seen lines)
    | inr e ↦ rw e (
      drop_seen-unseen (key line ∷ seen) (key line) lines here,
      drop_seen-Pairwise (key line ∷ seen) lines,
    )
  ]

  abbrev pub Covered : SegmentKey → List TranscriptLine → Type 0
  Covered k kept = (m : TranscriptLine) × In m kept × (key m ≡ k)

  drop_seen-Covered :
      (seen : List SegmentKey) (lines : List TranscriptLine) (l : TranscriptLine)
      → In l lines
      → In (key l) seen ⊎ Covered (key l) (drop_seen engine seen lines)
  unfolding drop_seen
  drop_seen-Covered seen [] l m = elim m [ ]
  drop_seen-Covered seen (line ∷ lines) l m = elim (Bool-cases (any (λ j. key line == j) seen)) [
    | inl e ↦ elim (In-cases m) [
      | inl same ↦
          let (k, found, passes) = any-In (λ j. key line == j) seen e in
          inl (rw same (rw ((pair_beq_iff (key line) k).0 passes) found))
      | inr m' ↦ rw e (drop_seen-Covered seen lines l m')
    ]
    | inr e ↦ elim (In-cases m) [
      | inl same ↦ rw e (rw same (inr (line, here, refl)))
      | inr m' ↦ elim (drop_seen-Covered (key line ∷ seen) lines l m') [
        | inl found ↦ elim (In-cases found) [
          | inl same ↦ rw e (inr (line, here, sym same))
          | inr earlier ↦ inl earlier
        ]
        | inr (k, found, same) ↦ rw e (inr (k, there found, same))
      ]
    ]
  ]

  -- The lines that `DropDuplicateSegments.apply` keeps have different keys (speaker's name, normalized
  -- text and rounded times), and every line of the transcript has the key of a line that is kept.
  pub duplicate_segments-Pairwise :
      (lines : List TranscriptLine)
      → Pairwise
          (λ a b. segment_key engine b ≢ segment_key engine a)
          (apply engine duplicate_segments lines)
        × ((l : TranscriptLine)
            → In l lines
            → Covered (key l) (apply engine duplicate_segments lines))
  unfolding apply
  duplicate_segments-Pairwise lines = (
    drop_seen-Pairwise [] lines,
    λ l m. elim (drop_seen-Covered [] lines l m) [ inl found ↦ elim found [ ] | inr c ↦ c ],
  )
