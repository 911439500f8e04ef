-- ===== src/Intake/Names.antt =====
-- What names `add_audio_source` gives (chronicler/core/services/chronicle_service.py, with
-- `safe_display_name` of chronicler/core/file_staging.py).
use chronicler.Base.{
  ℕ, ◌+◌, ◌≡◌, ◌≢◌, refl, sym, ap, inl, inr, Bool-cases, Option-cases, false, not, ◌||◌, Option,
  none, some, List, [], ◌∷◌, ◌++◌, keep, length, All, All-append, All-mono, All-keep, In, In-cases,
  here, In-append_right, subst, ◌==◌, ℕ_eq, List_eq, nat_eq_iff, arith,
}
use chronicler.Base.Table.{find}
use chronicler.Text.{Text, codes, strip, lstrip, rstrip, split_on, decimal, cons_first}
use chronicler.Text.Strip.{lstrip_split, rstrip_split}
use chronicler.Text.Decimal.{decimal-Digits}
use chronicler.Search.{replace_char, is_empty}
use chronicler.Intake.{
  Stored, Disk, file_name, exists, numbered, free_name, stem_suffix, last_dot, last_of, is_part,
  path_name, display_name, safe_display_name, is_special, or_empty, given_name, move_to,
  add_audio_source,
}
use chronicler.Intake.Free.{free_name-ends}

-- No character that leaves a directory
abbrev pub IsPlain : Text → Type 0
IsPlain t = All (λ (c : ℕ). c ≢ b'/') t

-- A name of a file in one directory
abbrev pub IsSafe : Text → Type 0
IsSafe t = IsPlain t × (is_special t ≡ false)

All_right : (P : ℕ → Type 0) (xs ys : Text) → All P (xs ++ ys) → All P ys
All_right P [] ys h = h
All_right P (x ∷ xs) ys h = All_right P xs ys h.1

All_left : (P : ℕ → Type 0) (xs ys : Text) → All P (xs ++ ys) → All P xs
All_left P [] ys h = tt
All_left P (x ∷ xs) ys h = (h.0, All_left P xs ys h.1)

strip-All : (P : ℕ → Type 0) (t : Text) → All P t → All P (strip t)
unfolding strip
strip-All P t h =
    let (ws, blank, e) = lstrip_split t in
    let (us, empty, f) = rstrip_split (lstrip t) in
    let left : All P (lstrip t) = All_right P ws (lstrip t) (subst (All P) e h) in
    All_left P (rstrip (lstrip t)) us (subst (All P) f left)

-- The parts of a path have no slash.
cons_first-All :
    (P : Text → Type 0) (c : ℕ) (ws : List Text)
    → ((w : Text) → P w → P (c ∷ w))
    → P []
    → All P ws
    → All P (cons_first c ws)
cons_first-All P c [] step nil h = (step [] nil, tt)
cons_first-All P c (w ∷ ws) step nil h = (step w h.0, h.1)

split_on-IsPlain : (t : Text) → All IsPlain (split_on b'/' t)
unfolding split_on
split_on-IsPlain [] = (tt, tt)
split_on-IsPlain (c ∷ cs) = elim (Bool-cases (c == b'/')) [
  | inl e ↦ rw e (tt, split_on-IsPlain cs)
  | inr e ↦ rw e (
      cons_first-All IsPlain c (split_on b'/' cs) (λ w h. (ground (arith, e, nat_eq_iff c b'/'), h))
        tt (split_on-IsPlain cs))
]

last_of-All : (P : Text → Type 0) (ps : List Text) → P [] → All P ps → P (last_of ps)
last_of-All P [] nil h = nil
last_of-All P (p ∷ []) nil h = h.0
last_of-All P (p ∷ q ∷ ps) nil h = last_of-All P (q ∷ ps) nil h.1

replace-IsPlain : (c : ℕ) (new t : Text) → IsPlain new → IsPlain t → IsPlain (replace_char c new t)
unfolding replace_char
replace-IsPlain c new [] k h = tt
replace-IsPlain c new (d ∷ ds) k h = elim (Bool-cases (d == c)) [
  | inl e ↦ rw e (All-append _ new (replace_char c new ds) k (replace-IsPlain c new ds k h.1))
  | inr e ↦ rw e (h.0, replace-IsPlain c new ds k h.1)
]

display_name-IsPlain : (original : Option Text) → IsPlain (display_name original)
unfolding display_name path_name
display_name-IsPlain original =
    let path = replace_char b'\\' (codes "/") (or_empty original) in
    strip-All _ _ (
      replace-IsPlain b':' (codes "_") (path_name path) ((λ e. ground (arith, e)), tt)
        (last_of-All IsPlain (keep is_part (split_on b'/' path)) tt
          (All-keep IsPlain is_part (split_on b'/' path) (split_on-IsPlain path))))

safe_display_name-IsSafe :
    (original : Option Text) (fallback : Text)
    → IsSafe fallback
    → IsSafe (safe_display_name original fallback)
unfolding safe_display_name
safe_display_name-IsSafe original fallback h =
    elim (Bool-cases (is_special (display_name original))) [
      | inl e ↦ rw e h
      | inr e ↦ rw e (display_name-IsPlain original, e)
    ]

last_dot-split : (t before from : Text) → last_dot t ≡ some (before, from) → before ++ from ≡ t
unfolding last_dot
last_dot-split [] before from h = ground (arith, h)
last_dot-split (c ∷ cs) before from h = elim (Option-cases (last_dot cs)) [
  | inr ((b, f), e) ↦
      let it : some (c ∷ b, f) ≡ some (before, from) = rw e at h in
      let first : c ∷ b ≡ before = ground (arith, it) in
      let second : f ≡ from = ground (arith, it) in
      rw (← first, ← second) (ap (λ (xs : Text). c ∷ xs) (last_dot-split cs b f e))
  | inl e ↦ elim (Bool-cases (c == b'.')) [
    | inl dot ↦
        let it : some ([], c ∷ cs) ≡ some (before, from) = rw (e, dot) at h in
        let first : [] ≡ before = ground (arith, it) in
        let second : c ∷ cs ≡ from = ground (arith, it) in rw (← first, ← second) refl
    | inr other ↦ let bad : none ≡ some (before, from) = rw (e, other) at h in ground (arith, bad)
  ]
]

stem_suffix-IsPlain :
    (name : Text) → IsPlain name → IsPlain (stem_suffix name).0 × IsPlain (stem_suffix name).1
unfolding stem_suffix
stem_suffix-IsPlain name h = elim (Option-cases (last_dot name)) [
  | inl e ↦ rw (e, stem_suffix) (h, tt)
  | inr ((before, from), e) ↦
      let whole : IsPlain (before ++ from) =
        subst IsPlain (sym (last_dot-split name before from e)) h in
      rw (e, stem_suffix)
        (elim (Bool-cases (is_empty before || chronicler.Intake.is_single from)) [
          | inl f ↦ rw f (h, tt)
          | inr f ↦ rw f (All_left _ before from whole, All_right _ before from whole)
        ])
]

numbered-IsPlain :
    (parts : Text × Text) (k : ℕ) → IsPlain parts.0 → IsPlain parts.1 → IsPlain (numbered parts k)
unfolding numbered
numbered-IsPlain parts k left right =
    All-append _ parts.0 (codes " (" ++ (decimal k ++ (codes ")" ++ parts.1))) left (
      (λ e. ground (arith, e)),
      (
        (λ e. ground (arith, e)),
        All-append _ (decimal k) (codes ")" ++ parts.1)
            (All-mono _ _ (decimal k) (λ c digit e. omega (arith, digit.0, e)) (decimal-Digits k))
            ((λ e. ground (arith, e)), right),
      ),
    )

-- A name with a bracket is not special.
bracket_plain : (t : Text) → In b')' t → is_special t ≡ false
bracket_plain [] m = elim m [ ]
bracket_plain (c ∷ []) m = elim (In-cases m) [
  | inl e ↦ ground (arith, e, nat_eq_iff c b'.')
  | inr m' ↦ elim m' [ ]
]
bracket_plain (c ∷ d ∷ []) m = elim (In-cases m) [
  | inl e ↦ ground (arith, e, nat_eq_iff c b'.')
  | inr m' ↦ elim (In-cases m') [
    | inl e ↦ ground (arith, e, nat_eq_iff d b'.')
    | inr m'' ↦ elim m'' [ ]
  ]
]
bracket_plain (c ∷ d ∷ e ∷ ts) m = ground arith

numbered-IsSafe :
    (parts : Text × Text) (k : ℕ) → IsPlain parts.0 → IsPlain parts.1 → IsSafe (numbered parts k)
unfolding numbered
numbered-IsSafe parts k left right = (
  numbered-IsPlain parts k left right,
  bracket_plain (numbered parts k) (
      In-append_right b')' parts.0 (codes " (" ++ (decimal k ++ (codes ")" ++ parts.1))) (
        In-append_right b')' (codes " (") (decimal k ++ (codes ")" ++ parts.1))
          (In-append_right b')' (decimal k) (codes ")" ++ parts.1) here))),
)

moved_away :
    (name : Text) (files : List Stored)
    → exists name (keep (λ (g : Stored). not (g.name == name)) files) ≡ false
moved_away name [] = refl
moved_away name (f ∷ fs) = ground (arith, moved_away name fs)

-- Whatever name the caller gives: a staged file is moved into the sources under a name that no file
-- there has and that stays in that directory; the files there stay, and the staged one is gone. The
-- loop ends within one round more than there are files. A file that is not staged is refused.
pub add_audio_source-Added :
    (staged : Text) (original : Option Text) (d : Disk)
    → IsSafe staged
    → (find file_name staged d.imports ≡ none
        → add_audio_source (length d.sources + 1) staged original d ≡ none)
      × ((f : Stored)
          → find file_name staged d.imports ≡ some f
          → (dest : Text) × (d' : Disk) × (add_audio_source (length d.sources + 1) staged original d
              ≡ some (dest, d'))
            × (exists dest d.sources ≡ false)
            × IsSafe dest
            × (d'.sources ≡ d.sources ++ (record { name = dest; content = f.content } ∷ []))
            × (exists f.name d'.imports ≡ false))
unfolding add_audio_source move_to
add_audio_source-Added staged original d safe = (
  λ h. rw (h, add_audio_source) refl,
  λ f h.
      let name = safe_display_name (some (given_name original staged)) staged in
      let named = safe_display_name-IsSafe (some (given_name original staged)) staged safe in
      let (dest, done, free, made) = free_name-ends name d.sources in
      let parts = stem_suffix-IsPlain name named.0 in
      let is_safe : IsSafe dest = elim made [
        | inl e ↦ rw e named
        | inr (k, e) ↦ rw e (numbered-IsSafe (stem_suffix name) k parts.0 parts.1)
      ] in
      (
        dest,
        _,
        rw (h, add_audio_source, done) refl,
        free,
        is_safe,
        refl,
        moved_away f.name d.imports,
      ),
)
