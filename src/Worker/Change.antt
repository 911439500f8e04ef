-- ===== src/Worker/Change.antt =====
-- What a worker's writes (chronicler/core/workers.py) change of a task's row, and of what the rows may
-- still cost.
use chronicler.Base.{
  ℕ, ◌+◌, ◌-◌, ◌<◌, max, String, ◌≡◌, ◌≢◌, refl, inl, inr, false, Option, none, some, List, [], ◌∷◌,
  if◌then◌else◌, ◌==◌, ℕ_eq, All, arith, Bool-cases,
}
use chronicler.Base.Table.{find, modify, find-modify, IsKeyed, IsKeyed-modify}
use chronicler.Models.{Task, TaskStatus, pending, working, done, TaskStatus_eq}
use chronicler.Queue.Keys.{id-with_status, id-fail_or_retry}
use chronicler.Queue.{Db, key, fail_or_retry, with_status, update_progress}
use chronicler.Worker.{Outcome, returned, raised, cancelled, report, record_outcome, is_cancelled}

-- How many more times a row can be run by the worker before it is DONE or FAILED.
unfoldable pub potential : Task → ℕ
potential t = if t.status == pending then max 1 (t.max_attempts - t.attempts) else 0

unfoldable pub total : Db → ℕ
unfolding potential
total [] = 0
total (t ∷ db) = potential t + total db

pub modify-absent :
    (k : ℕ) (f : Task → Task) (db : Db) → All (λ b. k ≢ key b) db → modify key k f db ≡ db
unfolding modify
modify-absent k f [] h = refl
modify-absent k f (t ∷ db) h = ground (arith, modify-absent k f db h.1)

-- A write to one row changes the total by what it changes of that row.
pub total-modify :
    (f : Task → Task) (k : ℕ) (db : Db) (t : Task)
    → IsKeyed key db
    → find key k db ≡ some t
    → total (modify key k f db) + potential t ≡ total db + potential (f t)
unfolding total find modify
total-modify f k [] t keyed h = cc
total-modify f k (r ∷ db) t keyed h = elim (Bool-cases (key r == k)) [
  | inl e ↦
      let same : key r ≡ k = ground (arith, e) in
      let absent = modify-absent (key r) f db keyed.0 in ground (arith, e, absent, same)
  | inr e ↦ ground (arith, e, total-modify f k db t keyed.1)
]

-- From `db` to `db'` only the row `id` changed, from `t` to `t'`.
pub record Change (id : ℕ) (db : Db) (t : Task) (db' : Db) (t' : Task) : Type 0 where
  pub keyed : IsKeyed key db'
  pub found : find key id db' ≡ some t'
  pub cost : total db' + potential t ≡ total db + potential t'

pub Change-modify :
    (f : Task → Task)
    → ((t : Task) → key (f t) ≡ key t)
    → (id : ℕ) (db : Db) (t : Task) → IsKeyed key db
    → find key id db ≡ some t
    → Change id db t (modify key id f db) (f t)
Change-modify f same id db t keyed row = record {
  keyed = IsKeyed-modify key f same id db keyed;
  found = rw (find-modify key f same id id db) (ground (arith, row));
  cost = total-modify f id db t keyed row;
}

pub Change-trans :
    {id : ℕ} {db db' db'' : Db} {t t' t'' : Task}
    → Change id db t db' t'
    → Change id db' t' db'' t''
    → Change id db t db'' t''
Change-trans a b = record { keyed = b.keyed; found = b.found; cost = omega (arith, a.cost, b.cost) }

-- The worker is to write the outcome of this row.
pub record Running (start t : Task) : Type 0 where
  pub status : t.status ≡ working
  pub attempts : t.attempts ≡ start.attempts
  pub max_attempts : t.max_attempts ≡ start.max_attempts

pub report-Change :
    (start : Task) (id : ℕ) (ns : List ℕ) (db : Db) (t : Task)
    → IsKeyed key db
    → find key id db ≡ some t
    → Running start t
    → (t' : Task) × Change id db t (report id ns db) t' × Running start t'
unfolding report
report-Change start id [] db t keyed row r =
    (t, record { keyed = keyed; found = row; cost = refl }, r)
report-Change start id (n ∷ ns) db t keyed row r =
    let one = Change-modify (λ u. record u { progress = n }) (λ u. refl) id db t keyed row in
    let (t', rest, r') =
      report-Change start id ns (update_progress id n db) (record t { progress = n }) one.keyed
        one.found
        (record { status = r.status; attempts = r.attempts; max_attempts = r.max_attempts }) in
    (t', Change-trans one rest, r')

-- What a row is after its outcome was written.
abbrev pub Settled : Task → Task → Type 0
Settled start t = (potential t < potential start) × (t.status ≢ working)

pub done-Settled :
    (start t : Task) (status : TaskStatus) (error : Option String)
    → start.status ≡ pending
    → status ≢ pending
    → status ≢ working
    → Settled start (with_status status error t)
unfolding potential with_status
done-Settled start t status error p a b = ground arith

pub fail-Settled :
    (start t : Task) (now : ℕ) (error : String)
    → start.status ≡ pending
    → Running start t
    → Settled start (fail_or_retry now error t)
unfolding potential fail_or_retry
fail-Settled start t now error p r = ground arith

pub outcome-Settled :
    (start : Task) (now id : ℕ) (outcome : Outcome) (db : Db) (t : Task)
    → start.status ≡ pending
    → IsKeyed key db
    → find key id db ≡ some t
    → Running start t
    → is_cancelled outcome ≡ false
    → (t' : Task) × Change id db t (record_outcome now id outcome db) t' × Settled start t'
unfolding record_outcome
outcome-Settled start now id returned db t p keyed row r c = (
  with_status done none t,
  Change-modify (with_status done none) (id-with_status done none) id db t keyed row,
  done-Settled start t done none p (λ e. cc) (λ e. cc),
)
outcome-Settled start now id (raised error) db t p keyed row r c = (
  fail_or_retry now error t,
  Change-modify (fail_or_retry now error) (id-fail_or_retry now error) id db t keyed row,
  fail-Settled start t now error p r,
)
outcome-Settled start now id cancelled db t p keyed row r c = cc
