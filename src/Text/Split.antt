-- ===== src/Text/Split.antt =====
-- `split` of joined text.
use chronicler.Base.{ℕ, ◌≡◌, ◌≢◌, refl, [], ◌∷◌, ◌++◌, All, arith, ℕ_eq}
use chronicler.Text.{Text, split_on}

abbrev pub Without : ℕ → Text → Type 0
Without sep cs = All (λ c. c ≢ sep) cs

pub split_on-Without : (sep : ℕ) (cs : Text) → Without sep cs → split_on sep cs ≡ cs ∷ []
unfolding split_on
split_on-Without sep [] h = refl
split_on-Without sep (c ∷ cs) h = ground (arith, split_on-Without sep cs h.1)

pub split_on-append :
    (sep : ℕ) (cs ds : Text) → Without sep cs → split_on sep (cs ++ sep ∷ ds) ≡ cs ∷ split_on sep ds
unfolding split_on
split_on-append sep [] ds h = ground arith
split_on-append sep (c ∷ cs) ds h = ground (arith, split_on-append sep cs ds h.1)
