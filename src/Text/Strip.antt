-- ===== src/Text/Strip.antt =====
-- `strip` of text that has no white space.
use mathlib.Core.List.{reverse, reverse-reverse, reverse-append}
use chronicler.Base.{
  ◌≡◌, refl, sym, ap, ◌∙◌, inl, inr, Bool-cases, true, false, List, [], ◌∷◌, ◌++◌, All, All-append,
}
use chronicler.Text.{Text, is_space, lstrip, rstrip, strip}

pub All-reverse {ℓ κ} : {A : Type ℓ} (P : A → Type κ) (xs : List A) → All P xs → All P (reverse xs)
All-reverse P [] h = tt
All-reverse P (x ∷ xs) h =
    rw (reverse-append (x ∷ []) xs)
      (All-append P (reverse xs) (x ∷ []) (All-reverse P xs h.1) (h.0, tt))

abbrev pub Solid : Text → Type 0
Solid cs = All (λ c. is_space c ≡ false) cs

lstrip-Solid : (cs : Text) → Solid cs → lstrip cs ≡ cs
unfolding lstrip
lstrip-Solid [] h = refl
lstrip-Solid (c ∷ cs) h = rw h.0

pub strip-Solid : (cs : Text) → Solid cs → strip cs ≡ cs
unfolding strip
strip-Solid cs h =
    rw (lstrip-Solid cs h)
      (rw (lstrip-Solid (reverse cs) (All-reverse _ cs h)) (reverse-reverse cs))

abbrev pub Spaces : Text → Type 0
Spaces cs = All (λ c. is_space c ≡ true) cs

-- What `strip` removes is white space at both ends.
pub lstrip_split : (cs : Text) → (ws : Text) × Spaces ws × (cs ≡ ws ++ lstrip cs)
unfolding lstrip
lstrip_split [] = ([], tt, refl)
lstrip_split (c ∷ cs) = elim (Bool-cases (is_space c)) [
  | inl e ↦
      let (ws, h, same) = lstrip_split cs in (c ∷ ws, (e, h), rw e (ap (λ (t : Text). c ∷ t) same))
  | inr e ↦ ([], tt, rw e)
]

pub rstrip_split : (cs : Text) → (ws : Text) × Spaces ws × (cs ≡ rstrip cs ++ ws)
unfolding rstrip
rstrip_split cs =
    let (ws, h, same) = lstrip_split (reverse cs) in
    (
      reverse ws,
      All-reverse _ ws h,
      sym (reverse-reverse cs)
          ∙ ap (λ (t : Text). reverse t) same
          ∙ reverse-append ws (lstrip (reverse cs)),
    )
