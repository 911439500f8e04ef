-- ===== src/Search/Contains.antt =====
-- What the patterns of chronicler/core/sqlite/patterns.py match.
use chronicler.Base.{
  ℕ, ◌≡◌, refl, ap, ◌∙◌, inl, inr, Bool, Bool-cases, true, ◌||◌, [], ◌∷◌, ◌++◌, if◌then◌else◌, ◌==◌,
  ℕ_eq, List_eq, nat_eq_iff, arith,
}
use mathlib.Core.List.{append_assoc}
use chronicler.Text.{Text}
use chronicler.Search.{
  like_escape, replace_char, escaped, contains_pattern, any_rest, next_is, Like,
}

-- The text starts with the query, or some rest of it does.
unfoldable pub starts_with : (ℕ → ℕ → Bool) → Text → Text → Bool
unfolding next_is
starts_with same [] t = true
starts_with same (c ∷ cs) t = next_is same c (starts_with same cs) t

unfoldable pub contains : (ℕ → ℕ → Bool) → Text → Text → Bool
unfolding any_rest starts_with
contains same query t = any_rest (starts_with same query) t

-- One character of the query in the pattern
abbrev escape_char : ℕ → Text
escape_char c = if c == like_escape || c == b'%' || c == b'_' then like_escape ∷ c ∷ [] else c ∷ []

escaped-cons : (c : ℕ) (cs : Text) → escaped (c ∷ cs) ≡ escape_char c ++ escaped cs
unfolding escaped replace_char
escaped-cons c cs = elim (Bool-cases (c == like_escape)) [
  | inl e ↦ let it : c ≡ like_escape = (nat_eq_iff c like_escape).0 e in rw it refl
  | inr e1 ↦ elim (Bool-cases (c == b'%')) [
    | inl e ↦ let it : c ≡ b'%' = (nat_eq_iff c b'%').0 e in rw it refl
    | inr e2 ↦ elim (Bool-cases (c == b'_')) [
      | inl e ↦ let it : c ≡ b'_' = (nat_eq_iff c b'_').0 e in rw it refl
      | inr e3 ↦ rw (e1, e2, e3) refl
    ]
  ]
]

module _ (l : Like) where
  any_rest-true : (test : Text → Bool) (t : Text) → test [] ≡ true → any_rest test t ≡ true
  unfolding any_rest
  any_rest-true test [] h = h
  any_rest-true test (c ∷ cs) h = ground (arith, any_rest-true test cs h)

  any_rest-ext :
      (p q : Text → Bool) (t : Text) → ((s : Text) → p s ≡ q s) → any_rest p t ≡ any_rest q t
  unfolding any_rest
  any_rest-ext p q [] h = h []
  any_rest-ext p q (c ∷ cs) h = rw (h (c ∷ cs), any_rest-ext p q cs h) refl

  next_is-ext :
      (c : ℕ) (p q : Text → Bool) (t : Text)
      → ((s : Text) → p s ≡ q s)
      → next_is l.same c p t ≡ next_is l.same c q t
  unfolding next_is
  next_is-ext c p q [] h = refl
  next_is-ext c p q (d ∷ ds) h = rw (h ds) refl

  -- An escaped character stands for itself.
  matches-escape_char :
      (c : ℕ) (p t : Text) → l.matches (escape_char c ++ p) t ≡ next_is l.same c (l.matches p) t
  matches-escape_char c p t = elim (Bool-cases (c == like_escape || c == b'%' || c == b'_')) [
    | inl e ↦ rw e (l.matches-escape c p t)
    | inr e ↦ rw e (
        l.matches-plain c p t (ground (arith, e, nat_eq_iff c b'%'))
          (ground (arith, e, nat_eq_iff c b'_')) (ground (arith, e, nat_eq_iff c like_escape)))
  ]

  matches-escaped :
      (query t : Text) → l.matches (escaped query ++ (b'%' ∷ [])) t ≡ starts_with l.same query t
  unfolding starts_with escaped replace_char
  matches-escaped [] t = l.matches-percent [] t ∙ any_rest-true (l.matches []) t (l.matches-nil [])
  matches-escaped (c ∷ cs) t =
      ap (λ (p : Text). l.matches (p ++ (b'%' ∷ [])) t) (escaped-cons c cs)
      ∙ ap (λ (p : Text). l.matches p t) (append_assoc (escape_char c) (escaped cs) (b'%' ∷ []))
      ∙ matches-escape_char c (escaped cs ++ (b'%' ∷ [])) t
      ∙ next_is-ext c _ _ t (matches-escaped cs)

  -- Whatever the query holds, `%`, `_` and `!` included, a text matches its pattern just when it
  -- contains the query as it is written, up to the case that `LIKE` ignores.
  pub contains_pattern-contains :
      (query t : Text) → l.matches (contains_pattern query) t ≡ contains l.same query t
  unfolding contains_pattern contains
  contains_pattern-contains query t =
      l.matches-percent (escaped query ++ (b'%' ∷ [])) t
      ∙ any_rest-ext _ _ t (matches-escaped query)
