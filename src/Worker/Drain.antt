-- ===== src/Worker/Drain.antt =====
-- `process_tasks` of chronicler/core/workers.py ends: each round uses up part of what the rows of
-- the table may still cost.
use chronicler.Base.{
  ℕ, zero, suc, ◌+◌, ◌<◌, ◌≤◌, ◌≡◌, refl, inl, inr, false, Option, none, some, if◌then◌else◌, ℕ_eq,
  All, arith, Bool-cases,
}
use chronicler.Base.Table.{modify, IsKeyed, find-In}
use chronicler.Models.{Task, TaskStatus_eq}
use chronicler.Queue.{Db, key, is_claimable, claimed, claim_next}
use chronicler.Queue.Claim.{Claims, IsNext-pending, claim_next-Claims}
use chronicler.Worker.{Environment, Manager, execute_task, Ended, drained, stopped, process_tasks}
use chronicler.Worker.Change.{total}
use chronicler.Worker.Progress.{Terminal, Budget, execute_task-Progress}

-- What a run of `process_tasks` that ends by itself leaves: nothing is PENDING and due at the time
-- of the last look, and completions were published for DONE and FAILED tasks only.
abbrev pub Drained : Environment → Ended × Manager → Type 0
Drained env (stopped, m) = Unit
Drained env (drained, m) =
    All (λ u. is_claimable (env.claim_time m.runs) u ≡ false) m.db × All Terminal m.events

abbrev Ends : ℕ → Environment → Manager → Type 0
Ends fuel env m = (r : Ended × Manager) × (process_tasks fuel env m ≡ some r) × Drained env r

process_tasks-claimed :
    (env : Environment) (fuel : ℕ) (m : Manager) (c : Task) (db : Db)
    → claim_next env.order env.worker_id (env.claim_time m.runs) (env.between m.runs m.db)
      ≡ (some c, db)
    → let ran = execute_task env c (record m { db = db }) in
      process_tasks (suc fuel) env m
      ≡ (if ran.0 then some (stopped, ran.1) else process_tasks fuel env ran.1)
unfolding process_tasks
process_tasks-claimed env fuel m c db e = rw (e, process_tasks) (rw e)

module _ (env : Environment) (left : ℕ → ℕ) (budget : Budget env left) where
  -- One round, from what it claims of the table that the rest of the program has left; the rounds
  -- after it are a premise.
  process_round :
      (fuel : ℕ) (m : Manager) (claim : Option Task × Db)
      → IsKeyed key m.db
      → All Terminal m.events
      → total m.db + left m.runs < suc fuel
      → ((m' : Manager)
          → IsKeyed key m'.db
          → All Terminal m'.events
          → total m'.db + left m'.runs < fuel
          → Ends fuel env m')
      → claim_next env.order env.worker_id (env.claim_time m.runs) (env.between m.runs m.db) ≡ claim
      → Claims env.worker_id (env.claim_time m.runs) (env.between m.runs m.db) claim
      → Ends (suc fuel) env m
  unfolding process_tasks
  process_round fuel m (none, db) keyed h less rounds e (idle, same) =
      ((drained, record m { db = db }), rw (e, process_tasks) (rw e), (rw same idle, h))
  process_round fuel m (some c, db) keyed h less rounds e (t, next, stamped, written) =
      let shared = env.between m.runs m.db in
      let n = record m { db = shared } in
      let found = find-In key t shared ((budget.between m.runs).keyed m.db keyed) next.row in
      let p = IsNext-pending next in
      let now = env.claim_time m.runs in
      let ran =
        execute_task env (claimed env.worker_id now t)
          (record m { db = modify key t.id (claimed env.worker_id now) shared }) in
      let run = process_tasks-claimed env fuel m c db e in
      elim (Bool-cases ran.0) [
        | inl stop ↦ ((stopped, ran.1), rw (run, stamped, written, stop), tt)
        | inr on ↦
            let progress =
              execute_task-Progress env t n now ((budget.between m.runs).keyed m.db keyed) found p
                (budget.late m.runs) (budget.meanwhile m.runs) on in
            let before = (budget.between m.runs).bounded m.db in
            let spent : left ran.1.runs + budget.early m.runs + budget.late m.runs ≤ left m.runs =
              rw progress.runs (budget.spends m.runs) in
            let (r, ends, final) =
              rounds ran.1 progress.keyed (progress.terminal h)
                (omega (arith, progress.less, before, spent, less)) in
            (r, rw (run, stamped, written, on) ends, final)
      ]

  process_rounds :
      (fuel : ℕ) (m : Manager)
      → IsKeyed key m.db
      → All Terminal m.events
      → total m.db + left m.runs < fuel
      → Ends fuel env m
  process_rounds zero m keyed h less = elim less [ ]
  process_rounds (suc fuel) m keyed h less =
      process_round fuel m _ keyed h less (process_rounds fuel) refl (
        claim_next-Claims env.order env.worker_id (env.claim_time m.runs) (env.between m.runs m.db)
          ((budget.between m.runs).keyed m.db keyed))

-- Over a table with different ids the loop ends, whatever the handlers do, whatever the clock says and
-- whatever the rest of the program writes before a claim and while a handler runs, as long as that
-- keeps ids different, changes no WORKING row but by deleting it, and brings a bounded number of
-- attempts, and no status write fails. It takes at most one round more than the PENDING rows have
-- attempts left and the others bring (a row counted once at least). Unless a handler was cancelled,
-- nothing was PENDING and due at its last look, and completions were published for DONE and FAILED
-- tasks only, if the events published before were such.
pub process_tasks_ends :
    (env : Environment) (left : ℕ → ℕ) (fuel : ℕ) (m : Manager)
    → Budget env left
    → IsKeyed key m.db
    → All Terminal m.events
    → total m.db + left m.runs < fuel
    → (r : Ended × Manager) × (process_tasks fuel env m ≡ some r) × Drained env r
process_tasks_ends env left fuel m budget = process_rounds env left budget fuel m
