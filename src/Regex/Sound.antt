-- ===== src/Regex/Sound.antt =====
-- What `_find_unsafe_repeat` of chronicler/core/processing/regex_guard.py reports is unsafe.
use chronicler.Base.{◌≡◌, true, inl, inr}
use chronicler.Regex.{
  Node, Pattern, Branches, char, in_class, repeat, group, branch, look, atomic, possessive,
  conditional, simple, empty, ◌▸◌, last, alt, branches_overlap, is_dangerous_body,
  is_dangerous_node, any_dangerous, find_unsafe_repeat, unsafe_node, any_unsafe,
}
use chronicler.Regex.Overlap.{or_cases, branches_overlap-Overlap}
use chronicler.Regex.Spec.{Somewhere, At, InBranch, Ambiguous, NestsRepeat, Unsafe}

mutual
  unfolding is_dangerous_body Somewhere

  body-Somewhere : (p : Pattern) → is_dangerous_body p ≡ true → Somewhere Ambiguous p
  body-Somewhere empty h = cc
  body-Somewhere (n ▸ p) h = elim (or_cases (is_dangerous_node n) (is_dangerous_body p) h) [
    | inl e ↦ inl (node-At n e)
    | inr e ↦ inr (body-Somewhere p e)
  ]

  node-At : (n : Node) → is_dangerous_node n ≡ true → At Ambiguous n
  node-At (char c) h = cc
  node-At (in_class items) h = cc
  node-At (repeat p) h = inl tt
  node-At (group p) h = inr (body-Somewhere p h)
  node-At (branch bs) h = elim (or_cases (branches_overlap bs) (any_dangerous bs) h) [
    | inl e ↦ inl (branches_overlap-Overlap bs e)
    | inr e ↦ inr (any-InBranch bs e)
  ]
  node-At (look p) h = inr (body-Somewhere p h)
  node-At (atomic p) h = cc
  node-At (possessive p) h = cc
  node-At (conditional p q) h = cc
  node-At simple h = cc

  any-InBranch : (bs : Branches) → any_dangerous bs ≡ true → InBranch Ambiguous bs
  any-InBranch last h = cc
  any-InBranch (alt p bs) h = elim (or_cases (is_dangerous_body p) (any_dangerous bs) h) [
    | inl e ↦ inl (body-Somewhere p e)
    | inr e ↦ inr (any-InBranch bs e)
  ]

mutual
  unfolding find_unsafe_repeat Somewhere

  found-Unsafe : (p : Pattern) → find_unsafe_repeat p ≡ true → Somewhere NestsRepeat p
  found-Unsafe empty h = cc
  found-Unsafe (n ▸ p) h = elim (or_cases (unsafe_node n) (find_unsafe_repeat p) h) [
    | inl e ↦ inl (found-At n e)
    | inr e ↦ inr (found-Unsafe p e)
  ]

  found-At : (n : Node) → unsafe_node n ≡ true → At NestsRepeat n
  found-At (char c) h = cc
  found-At (in_class items) h = cc
  found-At (repeat p) h = elim (or_cases (is_dangerous_body p) (find_unsafe_repeat p) h) [
    | inl e ↦ inl (body-Somewhere p e)
    | inr e ↦ inr (found-Unsafe p e)
  ]
  found-At (group p) h = inr (found-Unsafe p h)
  found-At (branch bs) h = inr (found-InBranch bs h)
  found-At (look p) h = inr (found-Unsafe p h)
  found-At (atomic p) h = cc
  found-At (possessive p) h = cc
  found-At (conditional p q) h = cc
  found-At simple h = cc

  found-InBranch : (bs : Branches) → any_unsafe bs ≡ true → InBranch NestsRepeat bs
  found-InBranch last h = cc
  found-InBranch (alt p bs) h = elim (or_cases (find_unsafe_repeat p) (any_unsafe bs) h) [
    | inl e ↦ inl (found-Unsafe p e)
    | inr e ↦ inr (found-InBranch bs e)
  ]

pub find_unsafe_repeat-Unsafe : (p : Pattern) → find_unsafe_repeat p ≡ true → Unsafe p
find_unsafe_repeat-Unsafe p h = found-Unsafe p h
