-- ===== src/Regex/Overlap.antt =====
-- `_leading_chars` and `_branches_overlap` of chronicler/core/processing/regex_guard.py against what the
-- patterns begin with.
use chronicler.Base.{
  ℕ, zero, suc, ◌+◌, ◌-◌, ◌<◌, ◌≤◌, ◌≡◌, refl, ◌⊎◌, inl, inr, Bool, true, ◌||◌, ltb, ◌==◌, ℕ_eq,
  nat_eq_iff, if◌then◌else◌, Bool-cases, Option, none, some, List, [], ◌∷◌, ◌++◌, any, In, here,
  there, In-cases, In-append_left, In-append_right, any-In, In-any, arith,
}
use chronicler.Regex.{
  Item, literal, range, other, Node, Pattern, Branches, char, in_class, repeat, group, branch, look,
  atomic, possessive, conditional, simple, empty, ◌▸◌, last, alt, code_points, class_chars,
  leading_chars, leading_node, meets, may_clash, leading_sets, any_clash, branches_overlap,
}
use chronicler.Regex.Spec.{
  Lists, IsVague, Some, StartsWith, NodeStarts, IsOpen, NodeOpen, Alike, AlikeSome, Overlap,
}

pub or_cases : (a b : Bool) → (a || b) ≡ true → (a ≡ true) ⊎ (b ≡ true)
or_cases a b h = ground arith

pub or_left : (a b : Bool) → a ≡ true → (a || b) ≡ true
or_left a b h = ground arith

pub or_right : (a b : Bool) → b ≡ true → (a || b) ≡ true
or_right a b h = ground arith

append-In : (c : ℕ) (xs ys : List ℕ) → In c (xs ++ ys) → In c xs ⊎ In c ys
append-In c [] ys m = inr m
append-In c (x ∷ xs) ys here = inl here
append-In c (x ∷ xs) ys (there m) = elim (append-In c xs ys m) [
  | inl m' ↦ inl (there m')
  | inr m' ↦ inr m'
]

code_points-In : (lo n c : ℕ) → In c (code_points lo n) → (lo ≤ c) × (c < lo + n)
unfolding code_points
code_points-In lo zero c m = elim m [ ]
code_points-In lo (suc n) c here = (omega arith, omega arith)
code_points-In lo (suc n) c (there m) =
    let (least, most) = code_points-In (lo + 1) n c m in (omega (arith, least), omega (arith, most))

In-code_points : (lo n c : ℕ) → lo ≤ c → c < lo + n → In c (code_points lo n)
unfolding code_points
In-code_points lo zero c least most = absurd (omega (arith, least, most))
In-code_points lo (suc n) c least most = elim (Bool-cases (lo == c)) [
  | inl e ↦ let same : lo ≡ c = (nat_eq_iff lo c).0 e in rw same here
  | inr e ↦ there (
      In-code_points (lo + 1) n c (ground (arith, e, least, nat_eq_iff lo c)) (omega (arith, most)))
]

-- What `_leading_chars` returns, `None` or a set, tells of a beginning.
abbrev Reads : Type 0 → (ℕ → Type 0) → Option (List ℕ) → Type 0
Reads Open Starts none = Open
Reads Open Starts (some cs) =
    (¬ Open) × ((c : ℕ) → In c cs → Starts c) × ((c : ℕ) → Starts c → In c cs)

module _ (Open : Type 0) (Starts : ℕ → Type 0) where
  literal-Reads :
      (d : ℕ) (o : Option (List ℕ))
      → Reads Open Starts o
      → Reads
          (⊥ ⊎ Open)
          (λ c. (c ≡ d) ⊎ Starts c)
          (elim o [ none ↦ none | some cs ↦ some (d ∷ cs) ])
  literal-Reads d none h = inr h
  literal-Reads d (some cs) (closed, sound, complete) = (
    λ o. elim o [ inl e ↦ absurd e | inr e ↦ closed e ],
    λ c m. elim (In-cases m) [ inl e ↦ inl e | inr m' ↦ inr (sound c m') ],
    λ c s. elim s [ inl e ↦ rw e here | inr s' ↦ there (complete c s') ],
  )

  range-listed :
      (lo hi : ℕ) (o : Option (List ℕ))
      → hi ≤ lo + 64
      → Reads Open Starts o
      → Reads
          ((lo + 64 < hi) ⊎ Open)
          (λ c. ((lo ≤ c) × (c ≤ hi)) ⊎ Starts c)
          (elim o [ none ↦ none | some cs ↦ some (code_points lo (hi + 1 - lo) ++ cs) ])
  range-listed lo hi none near h = inr h
  range-listed lo hi (some cs) near (closed, sound, complete) = (
    λ o. elim o [ inl wide ↦ absurd (omega (arith, wide, near)) | inr e ↦ closed e ],
    λ c m. elim (append-In c (code_points lo (hi + 1 - lo)) cs m) [
      | inl m' ↦
          let (least, most) = code_points-In lo (hi + 1 - lo) c m' in
          inl (least, omega (arith, least, most))
      | inr m' ↦ inr (sound c m')
    ],
    λ c s. elim s [
      | inl within ↦
          In-append_left c (code_points lo (hi + 1 - lo)) cs
            (In-code_points lo (hi + 1 - lo) c within.0 (omega (arith, within.0, within.1)))
      | inr s' ↦ In-append_right c (code_points lo (hi + 1 - lo)) cs (complete c s')
    ],
  )

  range-Reads :
      (lo hi : ℕ) (o : Option (List ℕ))
      → Reads Open Starts o
      → Reads
          ((lo + 64 < hi) ⊎ Open)
          (λ c. ((lo ≤ c) × (c ≤ hi)) ⊎ Starts c)
          (if ltb 64 (hi - lo)
            then none
            else elim o [ none ↦ none | some cs ↦ some (code_points lo (hi + 1 - lo) ++ cs) ])
  range-Reads lo hi o h = elim (Bool-cases (ltb 64 (hi - lo))) [
    | inl wide ↦ rw wide (inl (ground (arith, wide)))
    | inr narrow ↦ rw narrow (range-listed lo hi o (ground (arith, narrow)) h)
  ]

class_chars-Reads :
    (items : List Item) → Reads (Some IsVague items) (λ c. Some (Lists c) items) (class_chars items)
unfolding class_chars
class_chars-Reads [] = (λ e. e, λ c m. elim m [ ], λ c s. absurd s)
class_chars-Reads (literal d ∷ items) =
    literal-Reads (Some IsVague items) (λ c. Some (Lists c) items) d (class_chars items)
      (class_chars-Reads items)
class_chars-Reads (range lo hi ∷ items) =
    range-Reads (Some IsVague items) (λ c. Some (Lists c) items) lo hi (class_chars items)
      (class_chars-Reads items)
class_chars-Reads (other ∷ items) = inl tt

mutual
  unfolding leading_chars StartsWith IsOpen

  leading_chars-Reads : (p : Pattern) → Reads (IsOpen p) (StartsWith p) (leading_chars p)
  leading_chars-Reads empty = tt
  leading_chars-Reads (n ▸ p) = leading_node-Reads n

  leading_node-Reads : (n : Node) → Reads (NodeOpen n) (NodeStarts n) (leading_node n)
  leading_node-Reads (char d) =
      (λ e. e, λ c m. elim (In-cases m) [ inl e ↦ e | inr m' ↦ elim m' [ ] ], λ c e. rw e here)
  leading_node-Reads (in_class items) = class_chars-Reads items
  leading_node-Reads (group p) = leading_chars-Reads p
  leading_node-Reads (repeat p) = tt
  leading_node-Reads (branch bs) = tt
  leading_node-Reads (look p) = tt
  leading_node-Reads (atomic p) = tt
  leading_node-Reads (possessive p) = tt
  leading_node-Reads (conditional p q) = tt
  leading_node-Reads simple = tt

meets-In : (xs ys : List ℕ) → meets xs ys ≡ true → (c : ℕ) × In c xs × In c ys
meets-In xs ys h =
    let (x, in_xs, met) = any-In (λ x. any (λ y. x == y) ys) xs h in
    let (y, in_ys, e) = any-In (λ y. x == y) ys met in
    let same : x ≡ y = (nat_eq_iff x y).0 e in (x, in_xs, rw same in_ys)

In-meets : (c : ℕ) (xs ys : List ℕ) → In c xs → In c ys → meets xs ys ≡ true
In-meets c xs ys in_xs in_ys =
    In-any (λ x. any (λ y. x == y) ys) c xs in_xs
      (In-any (λ y. c == y) c ys in_ys ((nat_eq_iff c c).1 refl))

module _ (p q : Pattern) where
  may_clash-Alike :
      (a b : Option (List ℕ))
      → Reads (IsOpen p) (StartsWith p) a
      → Reads (IsOpen q) (StartsWith q) b
      → may_clash a b ≡ true
      → Alike p q
  may_clash-Alike none b f g h = inl f
  may_clash-Alike (some xs) none f g h = inr (inl g)
  may_clash-Alike (some xs) (some ys) f g h =
      let (c, in_xs, in_ys) = meets-In xs ys h in inr (inr (c, f.1 c in_xs, g.1 c in_ys))

  Alike-may_clash :
      (a b : Option (List ℕ))
      → Reads (IsOpen p) (StartsWith p) a
      → Reads (IsOpen q) (StartsWith q) b
      → Alike p q
      → may_clash a b ≡ true
  Alike-may_clash none b f g h = refl
  Alike-may_clash (some xs) none f g h = refl
  Alike-may_clash (some xs) (some ys) f g (inl open_p) = absurd (f.0 open_p)
  Alike-may_clash (some xs) (some ys) f g (inr (inl open_q)) = absurd (g.0 open_q)
  Alike-may_clash (some xs) (some ys) f g (inr (inr (c, in_p, in_q))) =
      In-meets c xs ys (f.2 c in_p) (g.2 c in_q)

any-AlikeSome :
    (p : Pattern) (bs : Branches)
    → any (may_clash (leading_chars p)) (leading_sets bs) ≡ true
    → AlikeSome p bs
any-AlikeSome p last h = cc
any-AlikeSome p (alt q bs) h =
    elim (or_cases (may_clash (leading_chars p) (leading_chars q))
      (any (may_clash (leading_chars p)) (leading_sets bs)) h) [
        | inl e ↦ inl (may_clash-Alike p q _ _ (leading_chars-Reads p) (leading_chars-Reads q) e)
        | inr e ↦ inr (any-AlikeSome p bs e)
      ]

AlikeSome-any :
    (p : Pattern) (bs : Branches)
    → AlikeSome p bs
    → any (may_clash (leading_chars p)) (leading_sets bs) ≡ true
AlikeSome-any p last h = absurd h
AlikeSome-any p (alt q bs) (inl h) =
    or_left _ _ (Alike-may_clash p q _ _ (leading_chars-Reads p) (leading_chars-Reads q) h)
AlikeSome-any p (alt q bs) (inr h) = or_right _ _ (AlikeSome-any p bs h)

-- `_branches_overlap` answers true just when two of the branches may start alike.
pub branches_overlap-Overlap : (bs : Branches) → branches_overlap bs ≡ true → Overlap bs
unfolding branches_overlap
branches_overlap-Overlap last h = cc
branches_overlap-Overlap (alt p bs) h =
    elim (or_cases (any (may_clash (leading_chars p)) (leading_sets bs))
      (any_clash (leading_sets bs)) h) [
        | inl e ↦ inl (any-AlikeSome p bs e)
        | inr e ↦ inr (branches_overlap-Overlap bs e)
      ]

pub Overlap-branches_overlap : (bs : Branches) → Overlap bs → branches_overlap bs ≡ true
unfolding branches_overlap
Overlap-branches_overlap last h = absurd h
Overlap-branches_overlap (alt p bs) (inl h) = or_left _ _ (AlikeSome-any p bs h)
Overlap-branches_overlap (alt p bs) (inr h) = or_right _ _ (Overlap-branches_overlap bs h)
