-- ===== src/Regex/Complete.antt =====
-- Which unsafe patterns `_find_unsafe_repeat` of chronicler/core/processing/regex_guard.py finds: it
-- does not walk into an atomic group, a possessive repeat or a conditional group.
use chronicler.Base.{◌≡◌, true, inl, inr}
use chronicler.Regex.{
  Node, Pattern, Branches, char, in_class, repeat, group, branch, look, atomic, possessive,
  conditional, simple, empty, ◌▸◌, last, alt, is_dangerous_body, is_dangerous_node, any_dangerous,
  find_unsafe_repeat, unsafe_node, any_unsafe,
}
use chronicler.Regex.Overlap.{or_left, or_right, Overlap-branches_overlap}
use chronicler.Regex.Spec.{Somewhere, At, InBranch, Ambiguous, NestsRepeat, Unsafe}

-- No atomic group, possessive repeat or conditional group stands in the tree.
unfoldable mutual
  pub IsPlain : Pattern → Type 0
  IsPlain empty = Unit
  IsPlain (n ▸ p) = IsPlainNode n × IsPlain p

  pub IsPlainNode : Node → Type 0
  IsPlainNode (repeat p) = IsPlain p
  IsPlainNode (group p) = IsPlain p
  IsPlainNode (look p) = IsPlain p
  IsPlainNode (branch bs) = ArePlain bs
  IsPlainNode (char c) = Unit
  IsPlainNode (in_class items) = Unit
  IsPlainNode simple = Unit
  IsPlainNode (atomic p) = ⊥
  IsPlainNode (possessive p) = ⊥
  IsPlainNode (conditional p q) = ⊥

  pub ArePlain : Branches → Type 0
  ArePlain last = Unit
  ArePlain (alt p bs) = IsPlain p × ArePlain bs

mutual
  unfolding is_dangerous_body Somewhere IsPlain

  Somewhere-body : (p : Pattern) → IsPlain p → Somewhere Ambiguous p → is_dangerous_body p ≡ true
  Somewhere-body empty plain h = absurd h
  Somewhere-body (n ▸ p) plain (inl h) = or_left _ _ (At-node n plain.0 h)
  Somewhere-body (n ▸ p) plain (inr h) = or_right _ _ (Somewhere-body p plain.1 h)

  At-node : (n : Node) → IsPlainNode n → At Ambiguous n → is_dangerous_node n ≡ true
  At-node (char c) plain h = absurd h
  At-node (in_class items) plain h = absurd h
  At-node (repeat p) plain h = cc
  At-node (group p) plain (inl h) = absurd h
  At-node (group p) plain (inr h) = Somewhere-body p plain h
  At-node (branch bs) plain (inl h) = or_left _ _ (Overlap-branches_overlap bs h)
  At-node (branch bs) plain (inr h) = or_right _ _ (InBranch-any bs plain h)
  At-node (look p) plain (inl h) = absurd h
  At-node (look p) plain (inr h) = Somewhere-body p plain h
  At-node (atomic p) plain h = absurd plain
  At-node (possessive p) plain h = absurd plain
  At-node (conditional p q) plain h = absurd plain
  At-node simple plain h = absurd h

  InBranch-any : (bs : Branches) → ArePlain bs → InBranch Ambiguous bs → any_dangerous bs ≡ true
  InBranch-any last plain h = absurd h
  InBranch-any (alt p bs) plain (inl h) = or_left _ _ (Somewhere-body p plain.0 h)
  InBranch-any (alt p bs) plain (inr h) = or_right _ _ (InBranch-any bs plain.1 h)

mutual
  unfolding find_unsafe_repeat Somewhere IsPlain

  Unsafe-found : (p : Pattern) → IsPlain p → Somewhere NestsRepeat p → find_unsafe_repeat p ≡ true
  Unsafe-found empty plain h = absurd h
  Unsafe-found (n ▸ p) plain (inl h) = or_left _ _ (At-found n plain.0 h)
  Unsafe-found (n ▸ p) plain (inr h) = or_right _ _ (Unsafe-found p plain.1 h)

  At-found : (n : Node) → IsPlainNode n → At NestsRepeat n → unsafe_node n ≡ true
  At-found (char c) plain h = absurd h
  At-found (in_class items) plain h = absurd h
  At-found (repeat p) plain (inl h) = or_left _ _ (Somewhere-body p plain h)
  At-found (repeat p) plain (inr h) = or_right _ _ (Unsafe-found p plain h)
  At-found (group p) plain (inl h) = absurd h
  At-found (group p) plain (inr h) = Unsafe-found p plain h
  At-found (branch bs) plain (inl h) = absurd h
  At-found (branch bs) plain (inr h) = InBranch-found bs plain h
  At-found (look p) plain (inl h) = absurd h
  At-found (look p) plain (inr h) = Unsafe-found p plain h
  At-found (atomic p) plain h = absurd plain
  At-found (possessive p) plain h = absurd plain
  At-found (conditional p q) plain h = absurd plain
  At-found simple plain h = absurd h

  InBranch-found : (bs : Branches) → ArePlain bs → InBranch NestsRepeat bs → any_unsafe bs ≡ true
  InBranch-found last plain h = absurd h
  InBranch-found (alt p bs) plain (inl h) = or_left _ _ (Unsafe-found p plain.0 h)
  InBranch-found (alt p bs) plain (inr h) = or_right _ _ (InBranch-found bs plain.1 h)

pub Unsafe-find_unsafe_repeat : (p : Pattern) → IsPlain p → Unsafe p → find_unsafe_repeat p ≡ true
Unsafe-find_unsafe_repeat p plain h = Unsafe-found p plain h
