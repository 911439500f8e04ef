-- ===== src/Queue/Retry.antt =====
-- Failed attempts, recovery and manual retries of chronicler/core/sqlite/task_repository.py.
use chronicler.Base.{
  ℕ, ◌+◌, ◌-◌, min, max, ◌≤◌, ◌<◌, String, ◌≡◌, ◌⊎◌, ◌&&◌, none, some, arith, ltb, leb,
  if◌then◌else◌, ℕ_eq, nat_eq,
}
use chronicler.Models.{Task, pending, working, done, failed, TaskStatus_eq}
use chronicler.Queue.{is_claimable, claimed, retry_delay, fail_or_retry, recover, with_status}

index-retry_delays : (n : ℕ) → min (max (n + 1) 1) 2 - 1 ≡ (if nat_eq n 0 then 0 else 1)
index-retry_delays n = ground arith

-- The index of `retry_delays` is in range at every failure.
pub retry_delay_suc : (n : ℕ) → retry_delay (n + 1) ≡ (if nat_eq n 0 then 30000 else 300000)
unfolding retry_delay
retry_delay_suc n = rw (index-retry_delays n) (ground arith)

-- After a failed attempt the task can be claimed exactly from the end of its delay on, 30 seconds
-- after the first failure and 300 after any later one, and only while attempts are left.
pub is_claimable-fail_or_retry :
    (now later : ℕ) (error : String) (t : Task)
    → is_claimable later (fail_or_retry now error t) ≡ (
        ltb (t.attempts + 1) t.max_attempts
        && leb (now + (if nat_eq t.attempts 0 then 30000 else 300000)) later)
unfolding is_claimable fail_or_retry
is_claimable-fail_or_retry now later error t = ground (arith, retry_delay_suc t.attempts)

-- One write to the row of a task: by the worker that runs it, by recovery, or by a user's retry.
pub data Write : Type 0 where
  claim : String → ℕ → Write
  progress : ℕ → Write
  fail : ℕ → String → Write
  interrupt : String → Write
  requeue : Write
  finish : Write
  give_up : String → Write
  retry : Write

abbrev pub apply : Write → Task → Task
apply (claim worker now) t = claimed worker now t
apply (progress n) t = record t { progress = n }
apply (fail now error) t = fail_or_retry now error t
apply (interrupt error) t = recover error t
apply requeue t = with_status pending none t
apply finish t = with_status done none t
apply (give_up error) t = with_status failed (some error) t
apply retry t = with_status pending none t

-- Which writes a row can get: a claim finds it PENDING, and recovery finds it WORKING.
-- ...
abbrev pub Allowed : Write → Task → Type 0
Allowed (claim worker now) t = t.status ≡ pending
Allowed (fail now error) t = t.status ≡ working
Allowed (interrupt error) t = t.status ≡ working
Allowed requeue t = t.status ≡ working
Allowed finish t = t.status ≡ working
Allowed (give_up error) t = t.status ≡ working
Allowed (progress n) t = Unit
Allowed retry t = Unit

abbrev is_failure : Write → ℕ
is_failure (fail now error) = 1
is_failure (interrupt error) = 1
is_failure _ = 0

abbrev is_retry : Write → ℕ
is_retry retry = 1
is_retry _ = 0

-- `History start fails retries t`: `start` becomes `t` by allowed writes, of which `fails` are
-- failed attempts and `retries` are manual retries.
pub data History (start : Task) : ℕ → ℕ → Task → Type 0 where
  fresh : History start 0 0 start
  then_ :
      {fails retries fails' retries' : ℕ} {t : Task} (w : Write)
      → History start fails retries t
      → Allowed w t
      → fails' ≡ fails + is_failure w
      → retries' ≡ retries + is_retry w
      → History start fails' retries' (apply w t)

record Budget (start : Task) (fails retries : ℕ) (t : Task) : Type 0 where
  counted : t.attempts ≡ fails
  same_budget : t.max_attempts ≡ start.max_attempts
  within : t.attempts ≤ start.max_attempts + retries
  live : (t.status ≡ done) ⊎ (t.status ≡ failed) ⊎ (t.attempts < start.max_attempts + retries)

Budget-apply :
    (start : Task) (fails retries fails' retries' : ℕ) (t : Task) (w : Write)
    → Budget start fails retries t
    → Allowed w t
    → fails' ≡ fails + is_failure w
    → retries' ≡ retries + is_retry w
    → Budget start fails' retries' (apply w t)
unfolding claimed fail_or_retry recover with_status
Budget-apply start fails retries fails' retries' t (claim worker now) b a e f = ground arith
Budget-apply start fails retries fails' retries' t _ b a e f = ground arith

History-Budget :
    (start : Task)
    → start.attempts ≡ 0
    → 0 < start.max_attempts
    → {fails retries : ℕ} {t : Task} → History start fails retries t
    → Budget start fails retries t
History-Budget start a m fresh = ground arith
History-Budget start a m
      (then_ {fails = f} {retries = r} {fails' = f'} {retries' = r'} {t = t} w h ok e e') =
    Budget-apply start f r f' r' t w (History-Budget start a m h) ok e e'

-- From a new task with an attempt budget, whatever its row gets written: `attempts` counts the
-- failed and interrupted attempts, and they are never more than the budget and the manual retries
-- together; a task that is still PENDING or WORKING has fewer than that.
pub History-attempts :
    (start : Task)
    → start.attempts ≡ 0
    → 0 < start.max_attempts
    → {fails retries : ℕ} {t : Task} → History start fails retries t
    → (t.attempts ≡ fails)
      × (fails ≤ start.max_attempts + retries)
      × ((t.status ≡ done) ⊎ (t.status ≡ failed) ⊎ (fails < start.max_attempts + retries))
History-attempts start a m h = let b = History-Budget start a m h in ground arith
