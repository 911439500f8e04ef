-- ===== src/Search/Examples.antt =====
-- A `LIKE` that minds the case, and a query with a per cent sign.
use chronicler.Base.{
  ℕ, ◌≡◌, ◌≢◌, refl, Bool, false, [], ◌∷◌, if◌then◌else◌, ◌==◌, ℕ_eq, nat_eq_iff, arith,
}
use chronicler.Text.{Text, codes}
use chronicler.Search.{Like, like_escape, contains_pattern, any_rest, next_is, is_empty}
use chronicler.Search.Contains.{contains, contains_pattern-contains}

abbrev same : ℕ → ℕ → Bool
same c d = c == d

abbrev any_one : (Text → Bool) → Text → Bool
any_one test [] = false
any_one test (c ∷ cs) = test cs

like : Text → Text → Bool
unfolding any_rest next_is
like [] t = is_empty t
like (c ∷ []) t =
    if c == b'%'
    then any_rest (like []) t
    else if c == b'_'
    then any_one (like []) t
    else next_is same c (like []) t
like (c ∷ d ∷ ds) t =
    if c == b'%'
    then any_rest (like (d ∷ ds)) t
    else if c == b'_'
    then any_one (like (d ∷ ds)) t
    else if c == like_escape
    then next_is same d (like ds) t
    else next_is same c (like (d ∷ ds)) t

like-percent : (p t : Text) → like (b'%' ∷ p) t ≡ any_rest (like p) t
unfolding like
like-percent [] t = refl
like-percent (d ∷ ds) t = refl

like-escape : (c : ℕ) (p t : Text) → like (like_escape ∷ c ∷ p) t ≡ next_is same c (like p) t
unfolding like
like-escape c p t = refl

like-plain :
    (c : ℕ) (p t : Text)
    → c ≢ b'%'
    → c ≢ b'_'
    → c ≢ like_escape
    → like (c ∷ p) t ≡ next_is same c (like p) t
unfolding like
like-plain c [] t h k m = ground (arith, h, k, nat_eq_iff c b'%', nat_eq_iff c b'_')
like-plain c (d ∷ ds) t h k m =
    ground (arith, h, k, m, nat_eq_iff c b'%', nat_eq_iff c b'_', nat_eq_iff c like_escape)

abbrev case_minded : Like
unfolding like
case_minded = record {
  same = same;
  matches = like;
  matches-nil = λ t. refl;
  matches-percent = like-percent;
  matches-escape = like-escape;
  matches-plain = like-plain;
}

contains_pattern-contains_example :
    case_minded.matches (contains_pattern (codes "5%")) (codes "up 5% now")
    ≡ contains case_minded.same (codes "5%") (codes "up 5% now")
contains_pattern-contains_example =
    contains_pattern-contains case_minded (codes "5%") (codes "up 5% now")

literal_percent : like (contains_pattern (codes "5%")) (codes "5 of 9") ≡ false
unfolding like contains_pattern
literal_percent = refl
