-- ===== src/Regex/Guard.antt =====
-- `assert_safe_pattern` of chronicler/core/processing/regex_guard.py against `Unsafe`.
use chronicler.Base.{
  ℕ, ◌≤◌, ◌≡◌, inl, inr, true, false, Option, some, List, length, arith, Option-cases,
}
use chronicler.Regex.{Pattern, find_unsafe_repeat, assert_safe_pattern, safe, unsafe, nested_repeat}
use chronicler.Regex.Spec.{Unsafe}
use chronicler.Regex.Sound.{find_unsafe_repeat-Unsafe}
use chronicler.Regex.Complete.{IsPlain, Unsafe-find_unsafe_repeat}

module _ (parse : List ℕ → Option Pattern) (pattern : List ℕ) where
  nested_cases :
      assert_safe_pattern parse pattern ≡ unsafe nested_repeat
      → (p : Pattern) → parse pattern ≡ some p
      → find_unsafe_repeat p ≡ true
  unfolding assert_safe_pattern
  nested_cases h p e = ground arith

  nested_parsed :
      assert_safe_pattern parse pattern ≡ unsafe nested_repeat
      → (p : Pattern) × (parse pattern ≡ some p)
  unfolding assert_safe_pattern
  nested_parsed h = elim (Option-cases (parse pattern)) [
    | inl e ↦ absurd (ground arith)
    | inr found ↦ found
  ]

  -- The guard reports a nested or ambiguous repeat only in a pattern that parses and has, inside the
  -- body of a repeat, another repeat or an alternation two branches of which may start with the same
  -- code point, or one of which starts with something unknown.
  pub rejected-Unsafe :
      assert_safe_pattern parse pattern ≡ unsafe nested_repeat
      → (p : Pattern) × (parse pattern ≡ some p) × Unsafe p
  rejected-Unsafe h =
      let (p, e) = nested_parsed h in (p, e, find_unsafe_repeat-Unsafe p (nested_cases h p e))

  accepted_cases :
      (p : Pattern)
      → assert_safe_pattern parse pattern ≡ safe
      → parse pattern ≡ some p
      → (length pattern ≤ 500) × (find_unsafe_repeat p ≡ false)
  unfolding assert_safe_pattern
  accepted_cases p h e = ground arith

  -- A pattern that the guard accepts has at most 500 characters, and, if it parses to a tree with
  -- no atomic group, possessive repeat or conditional group, no repeat of it has another repeat in its
  -- body, or an alternation two branches of which may start with the same code point; upper and lower
  -- case are different here, whatever the flags say.
  pub accepted-not-Unsafe :
      (p : Pattern)
      → assert_safe_pattern parse pattern ≡ safe
      → parse pattern ≡ some p
      → IsPlain p
      → (length pattern ≤ 500) × (¬ Unsafe p)
  accepted-not-Unsafe p h e plain =
      let (short, quiet) = accepted_cases p h e in
      (short, λ u. ground (arith, Unsafe-find_unsafe_repeat p plain u, quiet))
