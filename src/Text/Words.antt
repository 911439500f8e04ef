-- ===== src/Text/Words.antt =====
-- The words of a text, under `strip` and under joining with white space.
use chronicler.Base.{ℕ, ◌≡◌, ◌≢◌, refl, sym, ap, ◌∙◌, true, List, [], ◌∷◌, ◌++◌, arith}
use mathlib.Core.List.{append-nil}
use chronicler.Text.{Text, is_space, lstrip, rstrip, strip, cons_first, starts_solid, words}
use chronicler.Text.Strip.{Spaces, lstrip_split, rstrip_split}

cons_first_ne : (c : ℕ) (ws : List Text) → cons_first c ws ≢ []
cons_first_ne c [] h = cc
cons_first_ne c (w ∷ ws) h = cc

words_ne : (cs : Text) → starts_solid cs ≡ true → words cs ≢ []
unfolding words
words_ne [] s h = cc
words_ne (c ∷ cs) s h = ground (arith, cons_first_ne c (words cs))

cons_first-append :
    (c : ℕ) (ws vs : List Text) → ws ≢ [] → cons_first c (ws ++ vs) ≡ cons_first c ws ++ vs
cons_first-append c [] vs h = absurd (h refl)
cons_first-append c (w ∷ ws) vs h = refl

starts_solid-append :
    (cs : Text) (s : ℕ) (ds : Text)
    → is_space s ≡ true
    → starts_solid (cs ++ (s ∷ ds)) ≡ starts_solid cs
starts_solid-append [] s ds h = rw h
starts_solid-append (c ∷ cs) s ds h = refl

-- White space between two texts keeps their words apart.
pub words-append :
    (cs : Text) (s : ℕ) (ds : Text)
    → is_space s ≡ true
    → words (cs ++ (s ∷ ds)) ≡ words cs ++ words ds
unfolding words
words-append [] s ds h = rw h
words-append (c ∷ cs) s ds h = ground (
  arith,
  words-append cs s ds h,
  starts_solid-append cs s ds h,
  words_ne cs,
  cons_first-append c (words cs) (words ds),
)

words-Spaces : (ws cs : Text) → Spaces ws → words (ws ++ cs) ≡ words cs
unfolding words
words-Spaces [] cs h = refl
words-Spaces (w ∷ ws) cs h = rw h.0 (words-Spaces ws cs h.1)

words-append-Spaces : (cs ws : Text) → Spaces ws → words (cs ++ ws) ≡ words cs
unfolding words
words-append-Spaces cs [] h = ap words (append-nil cs)
words-append-Spaces cs (w ∷ ws) h =
    words-append cs w ws h.0
    ∙ ap (λ (t : List Text). words cs ++ t)
        (ap words (sym (append-nil ws)) ∙ words-Spaces ws [] h.1)
    ∙ append-nil (words cs)

words-lstrip : (cs : Text) → words (lstrip cs) ≡ words cs
words-lstrip cs =
    let (ws, h, same) = lstrip_split cs in sym (ap words same ∙ words-Spaces ws (lstrip cs) h)

words-rstrip : (cs : Text) → words (rstrip cs) ≡ words cs
words-rstrip cs =
    let (ws, h, same) = rstrip_split cs in
    sym (ap words same ∙ words-append-Spaces (rstrip cs) ws h)

pub words-strip : (cs : Text) → words (strip cs) ≡ words cs
unfolding strip
words-strip cs = words-rstrip (lstrip cs) ∙ words-lstrip cs

cons_first-eq-nil : (c : ℕ) (cs : Text) → words (c ∷ cs) ≡ [] → is_space c ≡ true
unfolding words
cons_first-eq-nil c cs h = ground (arith, cons_first_ne c (words cs))

lstrip-nil : (cs : Text) → words cs ≡ [] → lstrip cs ≡ []
unfolding words lstrip
lstrip-nil [] h = refl
lstrip-nil (c ∷ cs) h = let e = cons_first-eq-nil c cs h in rw e (lstrip-nil cs (rw e at h))

-- A text with no words strips to the empty text.
pub strip-nil : (cs : Text) → words cs ≡ [] → strip cs ≡ []
unfolding strip rstrip
strip-nil cs h = rw (lstrip-nil cs h)
