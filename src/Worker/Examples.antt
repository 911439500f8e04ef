-- ===== src/Worker/Examples.antt =====
-- A worker over the sample rows.
use chronicler.Base.{
  zero, suc, inl, ◌≤◌, ◌++◌, Option, none, refl, ℕ_eq, ◌+◌, ◌*◌, ◌≡◌, some, true, [], ◌∷◌, arith,
}
use chronicler.Queue.Examples.{urgent, rows, rows-IsKeyed}
use chronicler.Queue.Sorted.{insertion_order}
use chronicler.Worker.{Environment, Manager, Ended, raised, process_tasks}
use chronicler.Worker.Drain.{Drained, process_tasks_ends}
use chronicler.Worker.Progress.{Shares, Budget}
use chronicler.Worker.Change.{total, potential}
use chronicler.Worker.Startup.{Announced, recover_at_start-Announced}
use chronicler.Worker.{recover_at_start, interrupted}
use chronicler.Queue.{Db, key, recover_interrupted}
use chronicler.Base.{◌≢◌, All, ℕ, Bool, ltb}
use chronicler.Worker.{Recorded, write_outcome}
use chronicler.Worker.Outcomes.{Right, write_outcome_ends}
use chronicler.Models.{Task, pending, working}
use chronicler.Base.Table.{find, find-more, IsKeyed, IsKeyed-snoc}

abbrev queued : Task
queued = record urgent { id = 9; status = pending; attempts = 0; max_attempts = 2 }

-- A task is queued while the first handler runs.
abbrev insert_new : Option Task → Db → Db
insert_new none db = db ++ (queued ∷ [])
insert_new (some _) db = db

abbrev arrivals : ℕ → Db → Db
arrivals zero db = insert_new (find key 9 db) db
arrivals (suc n) db = db

total-snoc : (t : Task) (db : Db) → total (db ++ (t ∷ [])) ≡ total db + potential t
unfolding total
total-snoc t [] = omega arith
total-snoc t (u ∷ db) = omega (arith, total-snoc t db)

insert_new-IsKeyed :
    (o : Option Task) (db : Db) → find key 9 db ≡ o → IsKeyed key db → IsKeyed key (insert_new o db)
insert_new-IsKeyed none db h keyed = IsKeyed-snoc key queued db h keyed
insert_new-IsKeyed (some t) db h keyed = keyed

insert_new-bounded : (o : Option Task) (db : Db) → total (insert_new o db) ≤ total db + 2
unfolding potential
insert_new-bounded none db = omega (arith, total-snoc queued db)
insert_new-bounded (some t) db = omega arith

insert_new-running :
    (o : Option Task) (db : Db) (id : ℕ) (t : Task)
    → find key id db ≡ some t
    → find key id (insert_new o db) ≡ some t
insert_new-running none db id t row = find-more key id db (queued ∷ []) t row
insert_new-running (some _) db id t row = row

nothing-Shares : Shares 0 (λ db. db)
nothing-Shares = record {
  keyed = λ db keyed. keyed;
  bounded = λ db. omega arith;
  running = λ db id t row w. inl row;
}

abbrev brought : ℕ → ℕ
brought zero = 2
brought (suc n) = 0

arrivals-Shares : (n : ℕ) → Shares (brought n) (arrivals n)
arrivals-Shares zero = record {
  keyed = λ db keyed. insert_new-IsKeyed (find key 9 db) db refl keyed;
  bounded = λ db. insert_new-bounded (find key 9 db) db;
  running = λ db id t row w. inl (insert_new-running (find key 9 db) db id t row);
}
arrivals-Shares (suc n) = nothing-Shares

-- Every handler reports some progress and fails.
abbrev failing : Environment
failing = record {
  order = insertion_order;
  worker_id = "w";
  has_handler = λ _. true;
  job = λ n t. record { progress = 10 ∷ 50 ∷ []; outcome = raised "boom" };
  claim_time = λ n. 300 + 60000 * n;
  write_time = λ n. 310 + 60000 * n;
  no_handler = λ _. "no handler";
  between = λ n db. db;
  meanwhile = arrivals;
}

abbrev start : Manager
start = record { db = rows; runs = 0; has_bus = true; events = [] }

brought_less : (n : ℕ) → brought (n + 1) + 0 + brought n ≤ brought n
brought_less zero = omega arith
brought_less (suc n) = let e : suc n + 1 ≡ suc (suc n) = omega arith in rw e (omega arith)

failing-Budget : Budget failing brought
failing-Budget = record {
  early = λ n. 0;
  late = brought;
  between = λ n. nothing-Shares;
  meanwhile = arrivals-Shares;
  spends = brought_less;
}

process_tasks_ends_example :
    (r : Ended × Manager) × (process_tasks 20 failing start ≡ some r) × Drained failing r
process_tasks_ends_example =
    process_tasks_ends failing brought 20 start failing-Budget rows-IsKeyed tt
      (unfold total in omega arith)

recover_at_start-Announced_example :
    All (λ t. t.status ≢ working) (recover_at_start (λ _. true) start).1.db
    × Announced
        (λ _. true)
        (recover_interrupted interrupted rows).1
        (record start { db = (recover_interrupted interrupted rows).0 })
        (recover_at_start (λ _. true) start)
recover_at_start-Announced_example = recover_at_start-Announced (λ _. true) start rows-IsKeyed

abbrev locked_twice : ℕ → Bool
locked_twice i = ltb i 2

write_outcome_ends_example :
    (r : Recorded) × (write_outcome 302 locked_twice (λ i. 50 + 200 * i) 40 ≡ some r)
    × Right locked_twice (λ i. 50 + 200 * i) (40 + 30000) 0 r
write_outcome_ends_example =
    write_outcome_ends locked_twice (λ i. 50 + 200 * i) 40 (λ i. omega arith) (omega arith)
