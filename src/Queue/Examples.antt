-- ===== src/Queue/Examples.antt =====
-- Sample rows, and the theorems about the task table at them.
use chronicler.Base.{◌+◌, ◌≤◌, ◌<◌, ◌≡◌, ◌≢◌, refl, ◌⊎◌, none, some, [], ◌∷◌, arith, All, ℕ_eq}
use chronicler.Base.Table.{IsKeyed}
use chronicler.Models.{Task, import_, transcribe, new_task, working, done, failed}
use chronicler.Queue.{Db, key, claim_next, recover_interrupted, claimed}
use chronicler.Queue.Claim.{Claims, claim_next-Claims}
use chronicler.Queue.Recovery.{recover_interrupted-settles, Returned}
use chronicler.Queue.Retry.{History, fresh, then_, claim, fail, retry, apply, History-attempts}
use chronicler.Queue.Schedule.{System, run, select, attempt}
use chronicler.Queue.Race.{IsExclusive, run-IsExclusive}
use chronicler.Queue.Sorted.{insertion_order}

abbrev first : Task
first = new_task 1 import_ (some 7) none 100

abbrev pub urgent : Task
urgent = record (new_task 2 import_ (some 7) none 200) { priority = 1 }

abbrev stuck : Task
stuck = record (new_task 3 transcribe (some 7) none 50) { status = working; max_attempts = 1 }

abbrev pub rows : Db
rows = first ∷ urgent ∷ stuck ∷ []

pub rows-IsKeyed : IsKeyed key rows
rows-IsKeyed = omega arith

claim_next-Claims_example : Claims "w" 300 rows (claim_next insertion_order "w" 300 rows)
claim_next-Claims_example = claim_next-Claims insertion_order "w" 300 rows rows-IsKeyed

recover_interrupted-settles_example :
    All (λ t. t.status ≢ working) (recover_interrupted "cut" rows).0
    × All (Returned "cut" rows) (recover_interrupted "cut" rows).1
    × (recover_interrupted "again" (recover_interrupted "cut" rows).0
        ≡ ((recover_interrupted "cut" rows).0, []))
recover_interrupted-settles_example = recover_interrupted-settles "cut" "again" rows rows-IsKeyed

-- One claim, one failure, a manual retry.
abbrev failed_once : Task
failed_once = apply retry (apply (fail 400 "boom") (apply (claim "w" 300) first))

failed_once-History : History first 1 1 failed_once
unfolding claimed
failed_once-History =
    then_ retry
      (then_ (fail 400 "boom") (then_ (claim "w" 300) fresh refl refl refl) refl refl refl) tt refl
      refl

History-attempts_example :
    (failed_once.attempts ≡ 1)
    × (1 ≤ 3 + 1)
    × ((failed_once.status ≡ done) ⊎ (failed_once.status ≡ failed) ⊎ (1 < 3 + 1))
History-attempts_example = History-attempts first refl (omega arith) failed_once-History

abbrev idle : System
idle = record { db = rows; plan = λ _. []; held = [] }

run-IsExclusive_example : IsExclusive (
    run insertion_order
      (select "a" 300 ∷ select "b" 300 ∷ attempt "a" 300 ∷ attempt "b" 300 ∷ [])
      idle)
run-IsExclusive_example =
    run-IsExclusive insertion_order
      (select "a" 300 ∷ select "b" 300 ∷ attempt "a" 300 ∷ attempt "b" 300 ∷ []) idle
      (record { distinct = tt; marked = tt })
