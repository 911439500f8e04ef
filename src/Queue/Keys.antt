-- ===== src/Queue/Keys.antt =====
-- No method of chronicler/core/sqlite/task_repository.py writes the primary key.
use chronicler.Base.{ℕ, String, ◌≡◌, Option, arith}
use chronicler.Models.{Task, TaskStatus}
use chronicler.Queue.{key, fail_or_retry, with_status}

pub id-with_status :
    (status : TaskStatus) (error : Option String) (t : Task)
    → key (with_status status error t) ≡ key t
unfolding with_status
id-with_status status error t = ground arith

pub id-fail_or_retry :
    (now : ℕ) (error : String) (t : Task) → key (fail_or_retry now error t) ≡ key t
unfolding fail_or_retry
id-fail_or_retry now error t = ground arith
