-- ===== src/Queue/Schedule.antt =====
-- `claim_next` of chronicler/core/sqlite/task_repository.py among other writers: each worker selects
-- its candidates in one statement and tries them in later ones, and anything may be committed in
-- between. A schedule is the list of the statements in the order in which they are committed.
use chronicler.Base.{
  ℕ, String, Bool, false, not, ◌&&◌, ◌||◌, Option, none, some, List, [], ◌∷◌, if◌then◌else◌, ◌==◌,
  keep, ℕ_eq, String_eq,
}
use chronicler.Models.{Task, done, failed, TaskStatus_eq}
use chronicler.Queue.{
  Db, TaskOrder, candidates, try_claim, mark_failed_or_retry, update_status, update_progress,
  create,
}

-- `plan w` are the candidates that worker `w` has not tried; `held` are the tasks that a worker has
-- claimed and not written an outcome for.
pub record System : Type 0 where
  pub db : Db
  pub plan : String → List ℕ
  pub held : List (ℕ × String)

pub data Event : Type 0 where
  select : String → ℕ → Event
  attempt : String → ℕ → Event
  report : ℕ → ℕ → Event
  finish : String → ℕ → Event
  give_up : String → ℕ → String → Event
  fail : String → ℕ → ℕ → String → Event
  queue : Task → Event

abbrev pub set_plan : String → List ℕ → (String → List ℕ) → String → List ℕ
set_plan w ids plan v = if w == v then ids else plan v

abbrev pub holds : String → ℕ → List (ℕ × String) → Bool
holds w id [] = false
holds w id ((j, v) ∷ held) = (j == id && v == w) || holds w id held

abbrev pub release : ℕ → List (ℕ × String) → List (ℕ × String)
release id held = keep (λ h. not (h.0 == id)) held

unfoldable pub tried : String → ℕ → ℕ → List ℕ → System → System
tried w now id ids s =
    let (won, db) = try_claim id w now s.db in
    if won
    then record { db = db; plan = set_plan w [] s.plan; held = (id, w) ∷ s.held }
    else record s { db = db; plan = set_plan w ids s.plan }

unfoldable pub try_next : String → ℕ → List ℕ → System → System
unfolding tried
try_next w now [] s = s
try_next w now (id ∷ ids) s = tried w now id ids s

unfoldable pub created : Option (Db × Task) → Db → Db
created none db = db
created (some (db', t)) db = db'

-- A worker writes the outcome of a task that it holds, and of no other.
unfoldable pub step : TaskOrder → Event → System → System
unfolding try_next created
step order (select w now) s = record s { plan = set_plan w (candidates order now s.db) s.plan }
step order (attempt w now) s = try_next w now (s.plan w) s
step order (report id n) s = record s { db = update_progress id n s.db }
step order (finish w id) s =
    if holds w id s.held
    then record s { db = update_status id done none s.db; held = release id s.held }
    else s
step order (give_up w id error) s =
    if holds w id s.held
    then record s { db = update_status id failed (some error) s.db; held = release id s.held }
    else s
step order (fail w id now error) s =
    if holds w id s.held
    then record s { db = mark_failed_or_retry now id error s.db; held = release id s.held }
    else s
step order (queue t) s = record s { db = created (create t s.db) s.db }

unfoldable pub run : TaskOrder → List Event → System → System
run order [] s = s
run order (e ∷ es) s = run order es (step order e s)
