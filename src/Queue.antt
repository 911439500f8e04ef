-- ===== src/Queue.antt =====
-- chronicler/core/sqlite/task_repository.py: the task table and each method of
-- `SQLiteTaskRepository` that reads or writes it. The table is the list of its rows; `id` is its
-- primary key. The order of SQLite's `ORDER BY`, which leaves ties open, is a parameter.
pub mod Keys
pub mod Claim
pub mod Retry
pub mod Recovery
pub mod Schedule
pub mod Race
pub mod Sorted
pub mod Examples
use mathlib.Core.Option
use chronicler.Base.{
  ℕ, ◌+◌, ◌-◌, ◌≤◌, ◌<◌, min, max, String, ◌≡◌, ◌⊎◌, Bool, true, false, ◌&&◌, Option, none, some,
  List, [], ◌∷◌, ◌++◌, map, ltb, leb, if◌then◌else◌, ◌==◌, take, get_elem?, keep, In, Pairwise,
  ℕ_eq, length,
}
use chronicler.Base.Table.{find, modify}
use chronicler.Models.{Task, TaskStatus, pending, working, failed, TaskStatus_eq}

abbrev pub Db : Type 0
Db = List Task

abbrev pub key : Task → ℕ
key t = t.id

-- `ORDER BY priority DESC, created_at ASC`: `a` may stand before `b`.
abbrev pub Precedes : Task → Task → Type 0
Precedes a b =
    (b.priority < a.priority) ⊎ ((a.priority ≡ b.priority) × (a.created_at ≤ b.created_at))

-- What the code relies on of SQLite's sort.
pub record TaskOrder : Type 0 where
  pub sort : List Task → List Task
  pub In-sort : (t : Task) (ts : List Task) → In t ts → In t (sort ts)
  pub sort-In : (t : Task) (ts : List Task) → In t (sort ts) → In t ts
  pub sort-IsSorted : (ts : List Task) → Pairwise Precedes (sort ts)

abbrev pub max_claim_candidates : ℕ
max_claim_candidates = 5

abbrev pub retry_delays : List ℕ
retry_delays = 30000 ∷ 300000 ∷ []

unfoldable pub get_pending : TaskOrder → Db → List Task
get_pending order db = order.sort (keep (λ t. t.status == pending) db)

unfoldable pub get_by_id : ℕ → Db → Option Task
unfolding find
get_by_id id db = find key id db

-- The new row has the columns that `create` names; `error` and the claim take their defaults.
unfoldable pub new_row : Task → Task
new_row t = record t { error = none; claimed_by = none; claimed_at = none }

-- `none` is the `IntegrityError` of a second row with one primary key.
unfoldable pub create : Task → Db → Option (Db × Task)
unfolding find new_row
create t db = elim (find key t.id db) [
  | none ↦ some (db ++ new_row t ∷ [], new_row t)
  | some _ ↦ none
]

unfoldable pub is_claimable : ℕ → Task → Bool
is_claimable now t =
    t.status == pending && elim t.not_before [ none ↦ true | some due ↦ leb due now ]

unfoldable pub candidates : TaskOrder → ℕ → Db → List ℕ
unfolding is_claimable
candidates order now db =
    map key (take max_claim_candidates (order.sort (keep (is_claimable now) db)))

unfoldable pub claimed : String → ℕ → Task → Task
claimed worker now t = record t {
  status = working;
  claimed_by = some worker;
  claimed_at = some now;
}

-- `UPDATE tasks SET ... WHERE id = :id AND status = 'PENDING'`, and whether it hit one row.
unfoldable pub try_claim : ℕ → String → ℕ → Db → Bool × Db
unfolding find modify claimed
try_claim id worker now db = elim (find key id db) [
  | none ↦ (false, db)
  | some t ↦
      if t.status == pending then (true, modify key id (claimed worker now) db) else (false, db)
]

unfoldable pub claim_from : List ℕ → String → ℕ → Db → Option Task × Db
unfolding try_claim get_by_id
claim_from [] worker now db = (none, db)
claim_from (id ∷ ids) worker now db =
    let (won, db') = try_claim id worker now db in
    let rest = claim_from ids worker now db' in if won then (get_by_id id db', db') else rest

unfoldable pub claim_next : TaskOrder → String → ℕ → Db → Option Task × Db
unfolding candidates claim_from
claim_next order worker now db = claim_from (candidates order now db) worker now db

-- `self.retry_delays[min(max(attempts, 1), len(self.retry_delays)) - 1]`
unfoldable pub retry_delay : ℕ → ℕ
retry_delay attempts =
    Option.get_or (get_elem? retry_delays (min (max attempts 1) (length retry_delays) - 1)) 0

unfoldable pub fail_or_retry : ℕ → String → Task → Task
unfolding retry_delay
fail_or_retry now error t =
    let t' = record t { attempts = t.attempts + 1; error = some error } in
    if ltb t'.attempts t'.max_attempts
    then record t' {
      status = pending;
      claimed_by = none;
      claimed_at = none;
      progress = 0;
      not_before = some (now + retry_delay t'.attempts);
    }
    else record t' { status = failed }

-- A missing row is passed over, here and in the methods below.
unfoldable pub mark_failed_or_retry : ℕ → ℕ → String → Db → Db
unfolding modify fail_or_retry
mark_failed_or_retry now id error db = modify key id (fail_or_retry now error) db

unfoldable pub recover : String → Task → Task
recover error t =
    let t' = record t {
      attempts = t.attempts + 1;
      error = some error;
      claimed_by = none;
      claimed_at = none;
      progress = 0;
      not_before = none;
    } in
    record t' { status = if ltb t'.attempts t'.max_attempts then pending else failed }

-- The table after it, and the rows that it returns.
unfoldable pub recover_interrupted : String → Db → Db × List Task
unfolding recover
recover_interrupted error db = (
  map (λ row. if row.status == working then recover error row else row) db,
  map (recover error) (keep (λ t. t.status == working) db),
)

unfoldable pub with_status : TaskStatus → Option String → Task → Task
with_status status error t =
    let t' = record t { status = status; error = error } in
    if status == pending
    then record t' {
      progress = 0;
      error = none;
      claimed_by = none;
      claimed_at = none;
      not_before = none;
    }
    else t'

unfoldable pub update_status : ℕ → TaskStatus → Option String → Db → Db
unfolding modify with_status
update_status id status error db = modify key id (with_status status error) db

unfoldable pub update_progress : ℕ → ℕ → Db → Db
unfolding modify
update_progress id progress db = modify key id (λ t. record t { progress = progress }) db
