-- ===== src/Regex.antt =====
-- chronicler/core/processing/regex_guard.py over the syntax tree that Python's `re._parser` builds.
-- The parser itself is a parameter: `none` is its `re.error`.
pub mod Spec
pub mod Overlap
pub mod Sound
pub mod Complete
pub mod Guard
pub mod Examples
use chronicler.Base.{
  ℕ, zero, suc, ◌+◌, ◌-◌, Bool, true, false, ◌||◌, Option, none, some, List, [], ◌∷◌, ◌++◌, length,
  ltb, if◌then◌else◌, ◌==◌, ℕ_eq, any,
}

-- The items of a character class; every other kind, `NEGATE` and `CATEGORY`, is `other`.
pub data Item : Type 0 where
  literal : ℕ → Item
  range : ℕ → ℕ → Item
  other : Item

-- One (op, av) pair. `repeat` stands for MAX_REPEAT and MIN_REPEAT, `look` for ASSERT and
-- ASSERT_NOT, and `simple` for every kind that holds no pattern and no leading literal.
mutual
  pub data Node : Type 0 where
    char : ℕ → Node
    in_class : List Item → Node
    repeat : Pattern → Node
    group : Pattern → Node
    branch : Branches → Node
    look : Pattern → Node
    atomic : Pattern → Node
    possessive : Pattern → Node
    conditional : Pattern → Pattern → Node
    simple : Node

  pub data Pattern : Type 0 where
    empty : Pattern
    ◌▸◌ : Node → Pattern → Pattern

  pub data Branches : Type 0 where
    last : Branches
    alt : Pattern → Branches → Branches

infixr 60 ◌▸◌
abbrev pub max_range_span : ℕ
max_range_span = 64

-- `range(lo, lo + n)`
pub code_points : ℕ → ℕ → List ℕ
code_points lo zero = []
code_points lo (suc n) = lo ∷ code_points (lo + 1) n

unfoldable pub class_chars : List Item → Option (List ℕ)
unfolding code_points
class_chars [] = some []
class_chars (literal c ∷ items) = elim (class_chars items) [ none ↦ none | some cs ↦ some (c ∷ cs) ]
class_chars (range lo hi ∷ items) =
    let rest = class_chars items in
    if ltb max_range_span (hi - lo)
    then none
    else elim rest [ none ↦ none | some cs ↦ some (code_points lo (hi + 1 - lo) ++ cs) ]
class_chars (other ∷ items) = none

unfoldable mutual
  pub leading_chars : Pattern → Option (List ℕ)
  leading_chars empty = none
  leading_chars (n ▸ p) = leading_node n

  pub leading_node : Node → Option (List ℕ)
  leading_node (char c) = some (c ∷ [])
  leading_node (in_class items) = class_chars items
  leading_node (group p) = leading_chars p
  leading_node _ = none

-- `a & b` is not empty.
abbrev pub meets : List ℕ → List ℕ → Bool
meets xs ys = any (λ x. any (λ y. x == y) ys) xs

abbrev pub may_clash : Option (List ℕ) → Option (List ℕ) → Bool
may_clash (some xs) (some ys) = meets xs ys
may_clash _ _ = true

abbrev pub leading_sets : Branches → List (Option (List ℕ))
leading_sets last = []
leading_sets (alt p bs) = leading_chars p ∷ leading_sets bs

abbrev pub any_clash : List (Option (List ℕ)) → Bool
any_clash [] = false
any_clash (s ∷ ss) = any (may_clash s) ss || any_clash ss

unfoldable pub branches_overlap : Branches → Bool
branches_overlap bs = any_clash (leading_sets bs)

unfoldable mutual
  pub is_dangerous_body : Pattern → Bool
  is_dangerous_body empty = false
  is_dangerous_body (n ▸ p) = is_dangerous_node n || is_dangerous_body p

  pub is_dangerous_node : Node → Bool
  is_dangerous_node (repeat p) = true
  is_dangerous_node (branch bs) = branches_overlap bs || any_dangerous bs
  is_dangerous_node (group p) = is_dangerous_body p
  is_dangerous_node (look p) = is_dangerous_body p
  is_dangerous_node _ = false

  pub any_dangerous : Branches → Bool
  any_dangerous last = false
  any_dangerous (alt p bs) = is_dangerous_body p || any_dangerous bs

unfoldable mutual
  pub find_unsafe_repeat : Pattern → Bool
  find_unsafe_repeat empty = false
  find_unsafe_repeat (n ▸ p) = unsafe_node n || find_unsafe_repeat p

  pub unsafe_node : Node → Bool
  unsafe_node (repeat p) = is_dangerous_body p || find_unsafe_repeat p
  unsafe_node (group p) = find_unsafe_repeat p
  unsafe_node (branch bs) = any_unsafe bs
  unsafe_node (look p) = find_unsafe_repeat p
  unsafe_node _ = false

  pub any_unsafe : Branches → Bool
  any_unsafe last = false
  any_unsafe (alt p bs) = find_unsafe_repeat p || any_unsafe bs

pub data PatternError : Type 0 where
  too_long invalid nested_repeat : PatternError

pub data Checked : Type 0 where
  safe : Checked
  unsafe : PatternError → Checked

abbrev pub max_pattern_length : ℕ
max_pattern_length = 500

-- The pattern is the list of its characters.
unfoldable pub assert_safe_pattern : (List ℕ → Option Pattern) → List ℕ → Checked
unfolding find_unsafe_repeat
assert_safe_pattern parse pattern =
    if ltb max_pattern_length (length pattern) then unsafe too_long else elim (parse pattern) [
      | none ↦ unsafe invalid
      | some parsed ↦ if find_unsafe_repeat parsed then unsafe nested_repeat else safe
    ]
