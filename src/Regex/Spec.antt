-- ===== src/Regex/Spec.antt =====
-- What the guard of chronicler/core/processing/regex_guard.py is to reject, said without its walk and
-- its sets: a repeat inside whose body, at any depth, stands another repeat or an alternation two
-- branches of which may start alike.
use chronicler.Base.{ℕ, ◌+◌, ◌<◌, ◌≤◌, ◌≡◌, ◌⊎◌, List, [], ◌∷◌}
use chronicler.Regex.{
  Item, literal, range, other, Node, Pattern, Branches, char, in_class, repeat, group, branch, look,
  atomic, possessive, conditional, simple, empty, ◌▸◌, last, alt,
}

-- The item lists the code point.
abbrev pub Lists : ℕ → Item → Type 0
Lists c (literal d) = c ≡ d
Lists c (range lo hi) = (lo ≤ c) × (c ≤ hi)
Lists c other = ⊥

-- The item is a negation, a category or a range over more than 65 code points.
abbrev pub IsVague : Item → Type 0
IsVague (literal d) = ⊥
IsVague (range lo hi) = lo + 64 < hi
IsVague other = Unit

abbrev pub Some : (Item → Type 0) → List Item → Type 0
Some P [] = ⊥
Some P (i ∷ items) = P i ⊎ Some P items

-- The pattern begins with a literal, or a class, that has this code point, in a group or not. A flag
-- that ignores case is not seen.
unfoldable mutual
  pub StartsWith : Pattern → ℕ → Type 0
  StartsWith empty c = ⊥
  StartsWith (n ▸ p) c = NodeStarts n c

  pub NodeStarts : Node → ℕ → Type 0
  NodeStarts (char d) c = c ≡ d
  NodeStarts (in_class items) c = Some (Lists c) items
  NodeStarts (group p) c = StartsWith p c
  NodeStarts _ c = ⊥

-- It is not told from its first node what the pattern may begin with.
unfoldable mutual
  pub IsOpen : Pattern → Type 0
  IsOpen empty = Unit
  IsOpen (n ▸ p) = NodeOpen n

  pub NodeOpen : Node → Type 0
  NodeOpen (char d) = ⊥
  NodeOpen (in_class items) = Some IsVague items
  NodeOpen (group p) = IsOpen p
  NodeOpen _ = Unit

abbrev pub Alike : Pattern → Pattern → Type 0
Alike p q = IsOpen p ⊎ (IsOpen q ⊎ ((c : ℕ) × StartsWith p c × StartsWith q c))

abbrev pub AlikeSome : Pattern → Branches → Type 0
AlikeSome p last = ⊥
AlikeSome p (alt q bs) = Alike p q ⊎ AlikeSome p bs

-- Two of the branches may start alike.
abbrev pub Overlap : Branches → Type 0
Overlap last = ⊥
Overlap (alt p bs) = AlikeSome p bs ⊎ Overlap bs

-- Some node of the tree, at any depth, satisfies `P`.
unfoldable mutual
  pub Somewhere : (Node → Type 0) → Pattern → Type 0
  Somewhere P empty = ⊥
  Somewhere P (n ▸ p) = At P n ⊎ Somewhere P p

  pub At : (Node → Type 0) → Node → Type 0
  At P (char c) = P (char c)
  At P (in_class items) = P (in_class items)
  At P (repeat p) = P (repeat p) ⊎ Somewhere P p
  At P (group p) = P (group p) ⊎ Somewhere P p
  At P (branch bs) = P (branch bs) ⊎ InBranch P bs
  At P (look p) = P (look p) ⊎ Somewhere P p
  At P (atomic p) = P (atomic p) ⊎ Somewhere P p
  At P (possessive p) = P (possessive p) ⊎ Somewhere P p
  At P (conditional p q) = P (conditional p q) ⊎ Somewhere P p ⊎ Somewhere P q
  At P simple = P simple

  pub InBranch : (Node → Type 0) → Branches → Type 0
  InBranch P last = ⊥
  InBranch P (alt p bs) = Somewhere P p ⊎ InBranch P bs

abbrev pub Ambiguous : Node → Type 0
Ambiguous (repeat p) = Unit
Ambiguous (branch bs) = Overlap bs
Ambiguous _ = ⊥

abbrev pub NestsRepeat : Node → Type 0
NestsRepeat (repeat p) = Somewhere Ambiguous p
NestsRepeat _ = ⊥

abbrev pub Unsafe : Pattern → Type 0
Unsafe p = Somewhere NestsRepeat p
