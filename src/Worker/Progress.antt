-- ===== src/Worker/Progress.antt =====
-- One run of `_execute_task` of chronicler/core/workers.py beside the writes of the rest of the program:
-- it uses up part of what the rows of the table may still cost.
use chronicler.Base.{
  ℕ, ◌+◌, ◌<◌, ◌≤◌, String, ◌≡◌, ◌≢◌, refl, ◌∙◌, ◌⊎◌, inl, inr, false, none, some, [], sym, ℕ_eq,
  All, arith, Bool-cases, All-append, All-mono,
}
use chronicler.Base.Table.{find, modify, IsKeyed, find-none-All}
use chronicler.Models.{Task, pending, working, done, failed, TaskStatus_eq}
use chronicler.Queue.Keys.{id-with_status}
use chronicler.Queue.{Db, key, claimed, with_status, fail_or_retry, update_status}
use chronicler.Worker.{
  Environment, Manager, Job, Outcome, returned, raised, cancelled, completion, publish_completion,
  report, record_outcome, is_cancelled, execute_task, TaskCompletedEvent,
}
use chronicler.Worker.Change.{
  total, potential, Change, Change-modify, Change-trans, Running, report-Change, Settled,
  modify-absent, done-Settled, outcome-Settled,
}

abbrev pub Terminal : TaskCompletedEvent → Type 0
Terminal e = (e.status ≡ done) ⊎ (e.status ≡ failed)

completion-Terminal : (t : Task) → t.status ≢ working → All Terminal (completion (some t))
unfolding completion
completion-Terminal t w = ground arith

-- What the rest of the program may do to the table in one go: rows keep different ids, the PENDING
-- rows are given at most `cost` more attempts, and a row that is WORKING stays as it is or goes.
pub record Shares (cost : ℕ) (write : Db → Db) : Type 0 where
  pub keyed : (db : Db) → IsKeyed key db → IsKeyed key (write db)
  pub bounded : (db : Db) → total (write db) ≤ total db + cost
  pub running :
      (db : Db) (id : ℕ) (t : Task)
      → find key id db ≡ some t
      → t.status ≡ working
      → (find key id (write db) ≡ some t) ⊎ (find key id (write db) ≡ none)

-- The rest of the program brings a bounded number of attempts: `left n` is what it still brings
-- from the n-th round on.
pub record Budget (env : Environment) (left : ℕ → ℕ) : Type 0 where
  pub early : ℕ → ℕ
  pub late : ℕ → ℕ
  pub between : (n : ℕ) → Shares (early n) (env.between n)
  pub meanwhile : (n : ℕ) → Shares (late n) (env.meanwhile n)
  pub spends : (n : ℕ) → left (n + 1) + early n + late n ≤ left n

-- What an execution leaves if it is not cancelled, when the rest of the program brings `late`.
pub record Progress (late : ℕ) (before after : Manager) : Type 0 where
  pub keyed : IsKeyed key after.db
  pub less : total after.db < total before.db + late
  pub terminal : All Terminal before.events → All Terminal after.events
  pub runs : after.runs ≡ before.runs + 1

publish_completion-same :
    (id : ℕ) (m : Manager)
    → ((publish_completion id m).db ≡ m.db) × ((publish_completion id m).runs ≡ m.runs)
unfolding publish_completion
publish_completion-same id m = elim (Bool-cases m.has_bus) [
  | inl e ↦ (simp e, simp e)
  | inr e ↦ (simp e, simp e)
]

publish_completion-Terminal :
    (id : ℕ) (m : Manager) (t : Task)
    → find key id m.db ≡ some t
    → t.status ≢ working
    → All Terminal m.events
    → All Terminal (publish_completion id m).events
unfolding publish_completion
publish_completion-Terminal id m t row w h = elim (Bool-cases m.has_bus) [
  | inl e ↦
      simp e
        (rw row (All-append Terminal m.events (completion (some t)) h (completion-Terminal t w)))
  | inr e ↦ simp e h
]

publish-Progress :
    (id late : ℕ) (before after : Manager) (start t : Task)
    → IsKeyed key after.db
    → find key id after.db ≡ some t
    → total after.db + potential start ≤ total before.db + potential t + late
    → Settled start t
    → after.events ≡ before.events
    → after.runs ≡ before.runs + 1
    → Progress late before (publish_completion id after)
publish-Progress id late before after start t keyed found cost s e r =
    let (same, run) = publish_completion-same id after in
    record {
      keyed = rw same keyed;
      less = rw same (omega (arith, cost, s.0));
      terminal = λ h. publish_completion-Terminal id after t found s.1 (rw e h);
      runs = run ∙ r;
    }

publish_completion-gone :
    (id : ℕ) (m : Manager)
    → find key id m.db ≡ none
    → All Terminal m.events
    → All Terminal (publish_completion id m).events
unfolding publish_completion completion
publish_completion-gone id m row h = elim (Bool-cases m.has_bus) [
  | inl e ↦ simp e (rw row (All-append Terminal m.events [] h tt))
  | inr e ↦ simp e h
]

-- A run whose row goes meanwhile writes nothing more and publishes nothing.
gone-Progress :
    (id late : ℕ) (before after : Manager)
    → IsKeyed key after.db
    → find key id after.db ≡ none
    → total after.db < total before.db + late
    → after.events ≡ before.events
    → after.runs ≡ before.runs + 1
    → Progress late before (publish_completion id after)
gone-Progress id late before after keyed row less e r =
    let (same, run) = publish_completion-same id after in
    record {
      keyed = rw same keyed;
      less = rw same less;
      terminal = λ h. publish_completion-gone id after row (rw e h);
      runs = run ∙ r;
    }

absent : (id : ℕ) (f : Task → Task) (db : Db) → find key id db ≡ none → modify key id f db ≡ db
absent id f db row =
    modify-absent id f db
      (All-mono _ _ db (λ b differs e. differs (sym e)) (find-none-All key id db row))

record_outcome-gone :
    (now id : ℕ) (outcome : Outcome) (db : Db)
    → find key id db ≡ none
    → record_outcome now id outcome db ≡ db
unfolding record_outcome
record_outcome-gone now id returned db row = absent id (with_status done none) db row
record_outcome-gone now id (raised error) db row = absent id (fail_or_retry now error) db row
record_outcome-gone now id cancelled db row = absent id (with_status pending none) db row

potential-pending : (t : Task) → t.status ≡ pending → 0 < potential t
unfolding potential
potential-pending t p = ground arith

potential-working : (t : Task) → t.status ≡ working → potential t ≡ 0
unfolding potential
potential-working t w = ground arith

claimed-Running : (worker : String) (now : ℕ) (t : Task) → Running t (claimed worker now t)
unfolding claimed
claimed-Running worker now t = record { status = refl; attempts = refl; max_attempts = refl }

module _ (env : Environment) (start : Task) (m : Manager) (now : ℕ) (keyed : IsKeyed key m.db)
    (row : find key start.id m.db ≡ some start) (p : start.status ≡ pending) (late : ℕ)
    (others : Shares late (env.meanwhile m.runs)) where
  abbrev mine : Task
  mine = claimed env.worker_id now start

  abbrev claiming : Manager
  claiming = record m { db = modify key start.id (claimed env.worker_id now) m.db }

  claim_Change : Change start.id m.db start claiming.db mine
  unfolding claimed
  claim_Change = Change-modify (claimed env.worker_id now) (λ r. refl) start.id m.db start keyed row

  handled-Progress :
      (run : Job)
      → is_cancelled run.outcome ≡ false
      → Progress late m (
          publish_completion start.id (record m {
            db =
                record_outcome
                  (env.write_time m.runs)
                  start.id
                  run.outcome
                  (env.meanwhile m.runs (report start.id run.progress claiming.db));
            runs = m.runs + 1;
          }))
  handled-Progress run c =
      let (t, reported, r) =
        report-Change start start.id run.progress claiming.db mine claim_Change.keyed
          claim_Change.found (claimed-Running env.worker_id now start) in
      let more = others.bounded (report start.id run.progress claiming.db) in
      elim (others.running _ start.id t reported.found r.status) [
        | inl found ↦
            let (t', written, s) =
              outcome-Settled start (env.write_time m.runs) start.id run.outcome _ t p
                (others.keyed _ reported.keyed) found r c in
            publish-Progress start.id late m _ start t' written.keyed written.found
              (omega (arith, claim_Change.cost, reported.cost, more, written.cost)) s refl refl
        | inr gone ↦
            let none_left = potential-working t r.status in
            let one = potential-pending start p in
            rw (record_outcome-gone (env.write_time m.runs) start.id run.outcome _ gone) (
              gone-Progress start.id late m _ (others.keyed _ reported.keyed) gone
                (omega (arith, claim_Change.cost, reported.cost, more, none_left, one)) refl refl)
      ]

  missing-Progress :
      (error : String)
      → Progress late m (
          publish_completion start.id (record m {
            db = update_status start.id failed (some error) claiming.db;
            runs = m.runs + 1;
          }))
  unfolding update_status
  missing-Progress error =
      let written = Change-trans claim_Change (
        Change-modify (with_status failed (some error)) (id-with_status failed (some error))
          start.id claiming.db mine claim_Change.keyed claim_Change.found) in
      publish-Progress start.id late m _ start (with_status failed (some error) mine) written.keyed
        written.found (omega (arith, written.cost))
        (done-Settled start mine failed (some error) p (λ e. cc) (λ e. cc)) refl refl

  pub execute_task-Progress :
      (execute_task env mine claiming).0 ≡ false
      → Progress late m (execute_task env mine claiming).1
  unfolding execute_task claimed
  execute_task-Progress = elim (Bool-cases (env.has_handler start.type)) [
    | inl e ↦ elim (Bool-cases (is_cancelled (env.job m.runs mine).outcome)) [
      | inl c ↦ rw (e, c) (λ h. cc)
      | inr c ↦ rw (e, c) (λ h. handled-Progress (env.job m.runs mine) c)
    ]
    | inr e ↦ rw e (λ h. missing-Progress (env.no_handler start.type))
  ]
