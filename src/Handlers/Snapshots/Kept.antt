-- ===== src/Handlers/Snapshots/Kept.antt =====
-- Which snapshots chronicler/core/processing/handlers/cleaning.py keeps.
use chronicler.Base.{ℕ, ◌<◌, ◌≡◌, refl, ap, ◌∙◌, List, [], ◌∷◌, All, ℕ_eq, arith}
use chronicler.Handlers.Snapshots.{
  insert_stamp, prune, snapshot_before_clean, clean_at, after_cleans,
}

-- Later cleans have later times.
abbrev pub Increasing : List ℕ → Type 0
Increasing [] = Unit
Increasing (t ∷ ts) = All (λ s. s < t) ts × Increasing ts

abbrev pub first_of : ℕ → List ℕ → ℕ
first_of t [] = t
first_of t (s ∷ ss) = first_of s ss

-- The first snapshot, and the latest two
abbrev pub first_and_last : List ℕ → List ℕ
first_and_last [] = []
first_and_last (t ∷ []) = t ∷ []
first_and_last (t ∷ s ∷ []) = s ∷ t ∷ []
first_and_last (t ∷ s ∷ r ∷ ts) = first_of r ts ∷ s ∷ t ∷ []

first_of-less : (t r : ℕ) (ts : List ℕ) → All (λ s. s < t) (r ∷ ts) → first_of r ts < t
first_of-less t r [] h = h.0
first_of-less t r (s ∷ ts) h = first_of-less t s ts h.1

clean_at-one : (t a : ℕ) → a < t → clean_at t (a ∷ []) ≡ a ∷ t ∷ []
unfolding clean_at snapshot_before_clean insert_stamp prune
clean_at-one t a h = ground (arith, h)

clean_at-two : (t a b : ℕ) → a < t → b < t → clean_at t (a ∷ b ∷ []) ≡ a ∷ b ∷ t ∷ []
unfolding clean_at snapshot_before_clean insert_stamp prune
clean_at-two t a b h k = ground (arith, h, k)

clean_at-three :
    (t a b c : ℕ) → a < t → b < t → c < t → clean_at t (a ∷ b ∷ c ∷ []) ≡ a ∷ c ∷ t ∷ []
unfolding clean_at snapshot_before_clean insert_stamp prune
clean_at-three t a b c h k m = ground (arith, h, k, m)

-- While each clean is later than those before it, the snapshots are the one from before the first clean
-- and the two latest, or fewer after fewer cleans.
pub after_cleans-first_and_last :
    (ts : List ℕ) → Increasing ts → after_cleans ts ≡ first_and_last ts
unfolding after_cleans
after_cleans-first_and_last [] h = refl
after_cleans-first_and_last (t ∷ []) h = refl
after_cleans-first_and_last (t ∷ s ∷ []) h =
    ap (clean_at t) (after_cleans-first_and_last (s ∷ []) h.1) ∙ clean_at-one t s h.0.0
after_cleans-first_and_last (t ∷ s ∷ r ∷ []) h =
    ap (clean_at t) (after_cleans-first_and_last (s ∷ r ∷ []) h.1)
    ∙ clean_at-two t r s h.0.1.0 h.0.0
after_cleans-first_and_last (t ∷ s ∷ r ∷ q ∷ ts) h =
    ap (clean_at t) (after_cleans-first_and_last (s ∷ r ∷ q ∷ ts) h.1)
    ∙ clean_at-three t (first_of q ts) r s (first_of-less t q ts h.0.1.1) h.0.1.0 h.0.0
