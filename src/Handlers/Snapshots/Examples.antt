-- ===== src/Handlers/Snapshots/Examples.antt =====
-- Five cleans, and one whose clock was set back.
use chronicler.Base.{ℕ, ◌≡◌, refl, some, List, [], ◌∷◌, arith}
use chronicler.Handlers.Snapshots.{snapshot_before_clean, after_cleans}
use chronicler.Handlers.Snapshots.Kept.{Increasing, first_and_last, after_cleans-first_and_last}

-- The latest first
abbrev times : List ℕ
times = 9 ∷ 8 ∷ 6 ∷ 4 ∷ 2 ∷ []

times-Increasing : Increasing times
times-Increasing = (
  (omega arith, (omega arith, (omega arith, (omega arith, tt)))),
  (
    (omega arith, (omega arith, (omega arith, tt))),
    ((omega arith, (omega arith, tt)), ((omega arith, tt), (tt, tt))),
  ),
)

after_cleans-first_and_last_example : after_cleans times ≡ first_and_last times
after_cleans-first_and_last_example = after_cleans-first_and_last times times-Increasing

left_over : after_cleans times ≡ 2 ∷ 8 ∷ 9 ∷ []
unfolding after_cleans
left_over = refl

-- The snapshot that was just taken is deleted.
set_back : snapshot_before_clean 5 (2 ∷ 8 ∷ 9 ∷ []) ≡ some (2 ∷ 8 ∷ 9 ∷ [])
unfolding snapshot_before_clean
set_back = refl

-- The first one is deleted.
set_back_more : snapshot_before_clean 1 (2 ∷ 8 ∷ 9 ∷ []) ≡ some (1 ∷ 8 ∷ 9 ∷ [])
unfolding snapshot_before_clean
set_back_more = refl
