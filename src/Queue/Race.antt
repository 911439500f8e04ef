-- ===== src/Queue/Race.antt =====
-- No two workers hold one task, whatever the schedule of chronicler/core/sqlite/task_repository.py's
-- statements is.
use chronicler.Base.{
  ℕ, String, ◌≡◌, ◌≢◌, refl, inl, inr, Bool, true, false, not, ◌⊎◌, none, some, List, [], ◌∷◌,
  arith, if◌then◌else◌, ◌==◌, keep, All, Pairwise, ℕ_eq, String_eq, All-keep, Bool-cases,
  Option-cases,
}
use chronicler.Base.Table.{find, modify, find-modify, find-append}
use chronicler.Models.{Task, pending, working, done, failed, TaskStatus_eq, status_beq_iff}
use chronicler.Queue.Keys.{id-with_status, id-fail_or_retry}
use chronicler.Queue.{
  Db, key, TaskOrder, claimed, try_claim, fail_or_retry, mark_failed_or_retry, with_status,
  update_status, update_progress, create,
}
use chronicler.Queue.Schedule.{
  System, Event, select, attempt, report, finish, give_up, fail, queue, holds, release, tried,
  try_next, created, step, run,
}

-- The row of a held task says so.
abbrev pub Marked : Db → ℕ × String → Type 0
Marked db h =
    (t : Task) × (find key h.0 db ≡ some t) × (t.status ≡ working) × (t.claimed_by ≡ some h.1)

pub record IsExclusive (s : System) : Type 0 where
  pub distinct : Pairwise (λ g h. g.0 ≢ h.0) s.held
  pub marked : All (Marked s.db) s.held

All-imp {ℓ κ} :
    {A : Type ℓ} (P Q : A → Type κ) (xs : List A) → ((a : A) → P a → Q a) → All P xs → All Q xs
All-imp P Q [] f h = tt
All-imp P Q (x ∷ xs) f h = (f x h.0, All-imp P Q xs f h.1)

-- A write to the row of another task leaves a mark alone.
Marked-modify :
    (f : Task → Task)
    → ((t : Task) → key (f t) ≡ key t)
    → (id : ℕ) (db : Db) (h : ℕ × String) → id ≢ h.0
    → Marked db h
    → Marked (modify key id f db) h
Marked-modify f same id db (j, v) ne (t, row, w, c) =
    (t, rw (find-modify key f same j id db) (ground arith), w, c)

Pairwise-keep {ℓ κ} :
    {A : Type ℓ} (R : A → A → Type κ) (test : A → Bool) (xs : List A)
    → Pairwise R xs
    → Pairwise R (keep test xs)
Pairwise-keep R test [] h = tt
Pairwise-keep R test (x ∷ xs) h =
    elim (test x) as (λ b. Pairwise R (if b then x ∷ keep test xs else keep test xs)) [
      | true ↦ (All-keep (R x) test xs h.0, Pairwise-keep R test xs h.1)
      | false ↦ Pairwise-keep R test xs h.1
    ]

All-both {ℓ κ} :
    {A : Type ℓ} (P Q R : A → Type κ) (xs : List A)
    → ((a : A) → P a → Q a → R a)
    → All P xs
    → All Q xs
    → All R xs
All-both P Q R [] f h k = tt
All-both P Q R (x ∷ xs) f h k = (f x h.0 k.0, All-both P Q R xs f h.1 k.1)

Marked-release :
    (f : Task → Task)
    → ((t : Task) → key (f t) ≡ key t)
    → (id : ℕ) (db : Db) (held : List (ℕ × String)) → All (Marked db) held
    → All (Marked (modify key id f db)) (release id held)
Marked-release f same id db [] h = tt
Marked-release f same id db ((j, v) ∷ held) h = elim (Bool-cases (j == id)) [
  | inl e ↦ rw e (Marked-release f same id db held h.1)
  | inr e ↦ rw e (
    Marked-modify f same id db (j, v) (λ p. ground arith) h.0,
    Marked-release f same id db held h.1,
  )
]

try_claim_cases :
    (id : ℕ) (w : String) (now : ℕ) (db : Db)
    → (try_claim id w now db ≡ (false, db))
      ⊎ ((t : Task) × (find key id db ≡ some t)
          × (t.status ≡ pending)
          × (try_claim id w now db ≡ (true, modify key id (claimed w now) db)))
unfolding try_claim
try_claim_cases id w now db = elim (Option-cases (find key id db)) [
  | inl e ↦ inl (ground (arith, e))
  | inr (t, e) ↦ elim (Bool-cases (t.status == pending)) [
    | inl p ↦ inr (t, e, (status_beq_iff t.status pending).0 p, ground (arith, e, p))
    | inr p ↦ inl (ground (arith, e, p))
  ]
]

-- A held task is not PENDING, so that a claim of it fails.
not-held :
    (id : ℕ) (db : Db) (t : Task) (held : List (ℕ × String))
    → find key id db ≡ some t
    → t.status ≡ pending
    → All (Marked db) held
    → All (λ h. id ≢ h.0) held
not-held id db t [] row p h = tt
not-held id db t ((j, v) ∷ held) row p ((u, row', w', _), hs) =
    ((λ e. ground arith), not-held id db t held row p hs)

tried-IsExclusive :
    (w : String) (now id : ℕ) (ids : List ℕ) (s : System)
    → IsExclusive s
    → IsExclusive (tried w now id ids s)
unfolding tried claimed
tried-IsExclusive w now id ids s x = elim (try_claim_cases id w now s.db) [
  | inl lost ↦ rw lost (record { distinct = x.distinct; marked = x.marked })
  | inr (t, row, p, won) ↦
      let fresh = not-held id s.db t s.held row p x.marked in
      rw won (record {
        distinct = (fresh, x.distinct);
        marked = (
          (
            claimed w now t,
            rw (find-modify key (claimed w now) (λ r. refl) id id s.db) (ground arith),
            refl,
            refl,
          ),
          All-both (λ h. id ≢ h.0) (Marked s.db) _ s.held
              (λ h ne m. Marked-modify (claimed w now) (λ r. refl) id s.db h ne m) fresh x.marked,
        );
      })
]

created-Marked :
    (t : Task) (db : Db) (h : ℕ × String) → Marked db h → Marked (created (create t db) db) h
unfolding create created
created-Marked t db (j, v) (u, row, w, c) = elim (Option-cases (find key t.id db)) [
  | inl e ↦ rw (e, created, create) (u, rw find-append (ground arith), w, c)
  | inr (t', e) ↦ rw (e, created, create) (u, row, w, c)
]

released :
    (f : Task → Task)
    → ((t : Task) → key (f t) ≡ key t)
    → (id : ℕ) (s : System) → IsExclusive s
    → IsExclusive (record s { db = modify key id f s.db; held = release id s.held })
released f same id s x = record {
  distinct = Pairwise-keep (λ g h. g.0 ≢ h.0) (λ h. not (h.0 == id)) s.held x.distinct;
  marked = Marked-release f same id s.db s.held x.marked;
}

reported : (n id : ℕ) (db : Db) (h : ℕ × String) → Marked db h → Marked (update_progress id n db) h
unfolding update_progress
reported n id db (j, v) (t, row, w, c) = (
  record t { progress = if id == j then n else t.progress },
  rw (find-modify key (λ (t : Task). record t { progress = n }) (λ r. refl) j id db) (ground arith),
  w,
  c,
)

try_next-IsExclusive :
    (w : String) (now : ℕ) (ids : List ℕ) (s : System)
    → IsExclusive s
    → IsExclusive (try_next w now ids s)
unfolding try_next
try_next-IsExclusive w now [] s x = x
try_next-IsExclusive w now (id ∷ ids) s x = tried-IsExclusive w now id ids s x

step-IsExclusive :
    (order : TaskOrder) (e : Event) (s : System) → IsExclusive s → IsExclusive (step order e s)
unfolding step update_status mark_failed_or_retry
step-IsExclusive order (select w now) s x = record { distinct = x.distinct; marked = x.marked }
step-IsExclusive order (attempt w now) s x = try_next-IsExclusive w now (s.plan w) s x
step-IsExclusive order (report id n) s x = record {
  distinct = x.distinct;
  marked = All-imp (Marked s.db) _ s.held (reported n id s.db) x.marked;
}
step-IsExclusive order (finish w id) s x = elim (Bool-cases (holds w id s.held)) [
  | inl h ↦ rw h (released (with_status done none) (id-with_status done none) id s x)
  | inr h ↦ rw h x
]
step-IsExclusive order (give_up w id error) s x = elim (Bool-cases (holds w id s.held)) [
  | inl h ↦
      rw h (released (with_status failed (some error)) (id-with_status failed (some error)) id s x)
  | inr h ↦ rw h x
]
step-IsExclusive order (fail w id now error) s x = elim (Bool-cases (holds w id s.held)) [
  | inl h ↦ rw h (released (fail_or_retry now error) (id-fail_or_retry now error) id s x)
  | inr h ↦ rw h x
]
step-IsExclusive order (queue t) s x = record {
  distinct = x.distinct;
  marked = All-imp (Marked s.db) _ s.held (created-Marked t s.db) x.marked;
}

-- For every number of workers and every schedule of their statements, with progress reports,
-- outcomes and new tasks in between: if at the start no task is held by two workers and the row of
-- each held task is WORKING and names its holder, then it is so after the schedule. (A user's retry of a task that is running is no event here.)
pub run-IsExclusive :
    (order : TaskOrder) (events : List Event) (s : System)
    → IsExclusive s
    → IsExclusive (run order events s)
unfolding run
run-IsExclusive order [] s x = x
run-IsExclusive order (e ∷ es) s x =
    run-IsExclusive order es (step order e s) (step-IsExclusive order e s x)
