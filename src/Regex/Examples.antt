-- ===== src/Regex/Examples.antt =====
-- `(a+)+` and `a+b`, and the theorems at them.
use chronicler.Base.{ℕ, ◌≤◌, ◌≡◌, refl, Option, some, List, [], ◌∷◌, length}
use chronicler.Regex.{
  Pattern, char, repeat, group, empty, ◌▸◌, is_dangerous_body, assert_safe_pattern, safe, unsafe,
  nested_repeat,
}
use chronicler.Regex.Spec.{Unsafe}
use chronicler.Regex.Guard.{rejected-Unsafe, accepted-not-Unsafe}
use chronicler.Regex.Complete.{IsPlain}

abbrev plus : Pattern
plus = repeat (char b'a' ▸ empty) ▸ empty

abbrev nested : Pattern
nested = repeat (group plus ▸ empty) ▸ empty

abbrev simple_plus : Pattern
simple_plus = repeat (char b'a' ▸ empty) ▸ char b'b' ▸ empty

-- The parser's answers at the two texts.
abbrev parse_nested : List ℕ → Option Pattern
parse_nested text = some nested

abbrev parse_plus : List ℕ → Option Pattern
parse_plus text = some simple_plus

nested_rejected :
    assert_safe_pattern parse_nested (b'(' ∷ b'a' ∷ b'+' ∷ b')' ∷ b'+' ∷ []) ≡ unsafe nested_repeat
unfolding assert_safe_pattern is_dangerous_body
nested_rejected = refl

rejected-Unsafe_example :
    (p : Pattern) × (parse_nested (b'(' ∷ b'a' ∷ b'+' ∷ b')' ∷ b'+' ∷ []) ≡ some p) × Unsafe p
rejected-Unsafe_example =
    rejected-Unsafe parse_nested (b'(' ∷ b'a' ∷ b'+' ∷ b')' ∷ b'+' ∷ []) nested_rejected

plus_accepted : assert_safe_pattern parse_plus (b'a' ∷ b'+' ∷ b'b' ∷ []) ≡ safe
unfolding assert_safe_pattern is_dangerous_body
plus_accepted = refl

simple_plus-IsPlain : IsPlain simple_plus
unfolding IsPlain
simple_plus-IsPlain = ((tt, tt), (tt, tt))

accepted-not-Unsafe_example :
    (length {A = ℕ} (b'a' ∷ b'+' ∷ b'b' ∷ []) ≤ 500) × (¬ Unsafe simple_plus)
accepted-not-Unsafe_example =
    accepted-not-Unsafe parse_plus (b'a' ∷ b'+' ∷ b'b' ∷ []) simple_plus plus_accepted refl
      simple_plus-IsPlain
