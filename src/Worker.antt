-- ===== src/Worker.antt =====
-- chronicler/core/workers.py: the loop that runs queued tasks, and chronicler/core/task_events.py's
-- event. A handler, the clock and the order of SQLite's rows are the environment's. The status
-- writes of the loop succeed; `write_outcome` is their retrying while the database is locked.
pub mod Change
pub mod Progress
pub mod Drain
pub mod Startup
pub mod Outcomes
pub mod Examples
use chronicler.Base.{
  ℕ, zero, suc, ◌+◌, ◌*◌, min, ltb, String, Bool, true, false, Option, none, some, List, [], ◌∷◌,
  ◌++◌, if◌then◌else◌, ◌==◌,
}
use chronicler.Models.{Task, TaskStatus, TaskType, pending, done, failed, TaskStatus_eq}
use chronicler.Queue.{
  Db, TaskOrder, get_by_id, claim_next, mark_failed_or_retry, recover_interrupted, update_status,
  update_progress,
}

pub record TaskCompletedEvent : Type 0 where
  pub task_id : ℕ
  pub task_type : TaskType
  pub status : TaskStatus
  pub chronicle_id : Option ℕ

-- How a handler's run ends: it returns, it raises, or it is cancelled.
pub data Outcome : Type 0 where
  returned : Outcome
  raised : String → Outcome
  cancelled : Outcome

-- What a handler does to the task table: the progress that it reports, in order, and its end.
pub record Job : Type 0 where
  pub progress : List ℕ
  pub outcome : Outcome

-- The `n`-th execution is given its job, the times at which its task was claimed and written, and
-- what the rest of the program writes to the table: `between` before the claim, `meanwhile` while
-- the handler is awaited.
pub record Environment : Type 0 where
  pub order : TaskOrder
  pub worker_id : String
  pub has_handler : TaskType → Bool
  pub job : ℕ → Task → Job
  pub claim_time : ℕ → ℕ
  pub write_time : ℕ → ℕ
  pub no_handler : TaskType → String
  pub between : ℕ → Db → Db
  pub meanwhile : ℕ → Db → Db

-- The events are those on the bus; without one, `has_bus` is false.
pub record Manager : Type 0 where
  pub db : Db
  pub runs : ℕ
  pub has_bus : Bool
  pub events : List TaskCompletedEvent

abbrev pub event_of : Task → TaskCompletedEvent
event_of t = record {
  task_id = t.id;
  task_type = t.type;
  status = t.status;
  chronicle_id = t.chronicle_id;
}

unfoldable pub completion : Option Task → List TaskCompletedEvent
completion none = []
completion (some t) = if t.status == pending then [] else event_of t ∷ []

unfoldable pub publish_completion : ℕ → Manager → Manager
unfolding completion get_by_id
publish_completion id m =
    if m.has_bus then record m { events = m.events ++ completion (get_by_id id m.db) } else m

unfoldable pub report : ℕ → List ℕ → Db → Db
unfolding update_progress
report id [] db = db
report id (n ∷ ns) db = report id ns (update_progress id n db)

-- The write for each outcome; a cancelled run goes back to the queue.
unfoldable pub record_outcome : ℕ → ℕ → Outcome → Db → Db
unfolding update_status mark_failed_or_retry
record_outcome now id returned db = update_status id done none db
record_outcome now id (raised error) db = mark_failed_or_retry now id error db
record_outcome now id cancelled db = update_status id pending none db

abbrev pub is_cancelled : Outcome → Bool
is_cancelled cancelled = true
is_cancelled _ = false

-- Whether `CancelledError` leaves the method, and the state that it leaves; then nothing is
-- published.
unfoldable pub execute_task : Environment → Task → Manager → Bool × Manager
unfolding publish_completion report record_outcome
execute_task env task m =
    if env.has_handler task.type
    then (let run = env.job m.runs task in
        let db =
          record_outcome (env.write_time m.runs) task.id run.outcome
            (env.meanwhile m.runs (report task.id run.progress m.db)) in
        let m' = record m { db = db; runs = m.runs + 1 } in
        if is_cancelled run.outcome then (true, m') else (false, publish_completion task.id m'))
    else (let db = update_status task.id failed (some (env.no_handler task.type)) m.db in
        (false, publish_completion task.id (record m { db = db; runs = m.runs + 1 })))

-- How `process_tasks` ends: with nothing left to claim, or stopped.
pub data Ended : Type 0 where
  drained stopped : Ended

-- The `while True` loop with fuel; `none` is a loop that has used it up.
unfoldable pub process_tasks : ℕ → Environment → Manager → Option (Ended × Manager)
process_tasks zero env m = none
process_tasks (suc fuel) env m =
    let claim =
      claim_next env.order env.worker_id (env.claim_time m.runs) (env.between m.runs m.db) in
    let m' = record m { db = claim.1 } in
    elim claim.0 [
      | none ↦ some (drained, m')
      | some task ↦
          let ran = execute_task env task m' in
          let rest = process_tasks fuel env ran.1 in if ran.0 then some (stopped, ran.1) else rest
    ]

abbrev pub interrupted : String
interrupted = "Interrupted before finishing"

-- For each task that recovery failed, its cleanup runs and its completion is published; an
-- exception of either is logged. The tasks handed to a cleanup come back beside the state.
unfoldable pub announce : (TaskType → Bool) → List Task → Manager → List Task × Manager
unfolding publish_completion
announce has_cleanup [] m = ([], m)
announce has_cleanup (t ∷ ts) m =
    let failed_now = t.status == failed in
    let (cleaned, m') =
      announce has_cleanup ts (if failed_now then publish_completion t.id m else m) in
    (if failed_now then (if has_cleanup t.type then t ∷ cleaned else cleaned) else cleaned, m')

unfoldable pub recover_at_start : (TaskType → Bool) → Manager → List Task × Manager
unfolding announce
recover_at_start has_cleanup m =
    let (db, recovered) = recover_interrupted interrupted m.db in
    announce has_cleanup recovered (record m { db = db })

-- How `_record_outcome` ends: the attempt that wrote, or the one whose `OperationalError` it raised.
pub data Recorded : Type 0 where
  written given_up : ℕ → Recorded

abbrev pub first_delay : ℕ
first_delay = 100

abbrev pub status_write_timeout : ℕ
status_write_timeout = 30000

abbrev pub next_delay : ℕ → ℕ
next_delay delay = min (delay * 2) 2000

-- The loop from the i-th attempt on, with fuel: `busy` tells which attempts find the database
-- locked, and `clock` when each of them failed.
unfoldable pub write_from : ℕ → (ℕ → Bool) → (ℕ → ℕ) → ℕ → ℕ → ℕ → Option Recorded
write_from zero busy clock deadline delay i = none
write_from (suc fuel) busy clock deadline delay i =
    let rest = write_from fuel busy clock deadline (next_delay delay) (suc i) in
    if busy i
    then if ltb deadline (clock i + delay) then some (given_up i) else rest
    else some (written i)

unfoldable pub write_outcome : ℕ → (ℕ → Bool) → (ℕ → ℕ) → ℕ → Option Recorded
unfolding write_from
write_outcome fuel busy clock begun =
    write_from fuel busy clock (begun + status_write_timeout) first_delay 0
