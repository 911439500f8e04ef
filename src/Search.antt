-- ===== src/Search.antt =====
-- chronicler/core/sqlite/patterns.py, and the `LIKE` of SQLite that reads its patterns as a parameter.
pub mod Contains
mod Examples
use chronicler.Base.{
  ℕ, ◌+◌, ◌≡◌, ◌≢◌, Bool, true, false, ◌&&◌, ◌||◌, Option, none, some, List, [], ◌∷◌, ◌++◌,
  if◌then◌else◌, ◌==◌, ℕ_eq, List_eq,
}
use chronicler.Text.{Text, codes}

abbrev pub like_escape : ℕ
like_escape = b'!'

-- `str.replace` of one character
unfoldable pub replace_char : ℕ → Text → Text → Text
replace_char c new [] = []
replace_char c new (d ∷ ds) =
    let rest = replace_char c new ds in if d == c then new ++ rest else d ∷ rest

unfoldable pub escaped : Text → Text
unfolding replace_char
escaped query = replace_char b'_' (like_escape ∷ b'_' ∷ []) (
    replace_char b'%' (like_escape ∷ b'%' ∷ [])
      (replace_char like_escape (like_escape ∷ like_escape ∷ []) query))

unfoldable pub contains_pattern : Text → Text
unfolding escaped
contains_pattern query = b'%' ∷ (escaped query ++ (b'%' ∷ []))

abbrev pub is_empty : Text → Bool
is_empty [] = true
is_empty (c ∷ cs) = false

-- Some rest of the text passes.
unfoldable pub any_rest : (Text → Bool) → Text → Bool
any_rest test [] = test []
any_rest test (c ∷ cs) = test (c ∷ cs) || any_rest test cs

-- The first character is one that `same` takes for `c`, and the rest passes.
unfoldable pub next_is : (ℕ → ℕ → Bool) → ℕ → (Text → Bool) → Text → Bool
next_is same c test [] = false
next_is same c test (d ∷ ds) = same c d && test ds

-- `text LIKE pattern ESCAPE '!'` as SQLite documents it: `%` is any text, `_` any one character, and a
-- character behind the escape or any other character stands for itself, whatever its case.
pub record Like : Type 0 where
  pub same : ℕ → ℕ → Bool
  pub matches : Text → Text → Bool
  pub matches-nil : (t : Text) → matches [] t ≡ is_empty t
  pub matches-percent : (p t : Text) → matches (b'%' ∷ p) t ≡ any_rest (matches p) t
  pub matches-escape :
      (c : ℕ) (p t : Text) → matches (like_escape ∷ c ∷ p) t ≡ next_is same c (matches p) t
  pub matches-plain :
      (c : ℕ) (p t : Text)
      → c ≢ b'%'
      → c ≢ b'_'
      → c ≢ like_escape
      → matches (c ∷ p) t ≡ next_is same c (matches p) t
