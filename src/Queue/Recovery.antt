-- ===== src/Queue/Recovery.antt =====
-- `recover_interrupted` of chronicler/core/sqlite/task_repository.py, at the start of a worker.
use mathlib.Core.Option
use chronicler.Base.{
  ℕ, String, ◌≡◌, ◌≢◌, refl, ◌⊎◌, true, some, [], ◌∷◌, map, arith, if◌then◌else◌, ◌==◌, keep, All,
  ℕ_eq, All_of_In, keep-In, All-map,
}
use chronicler.Base.Table.{find, IsKeyed, find-In, find-map}
use chronicler.Models.{Task, pending, working, failed, TaskStatus_eq}
use chronicler.Queue.{Db, key, recover, recover_interrupted}

recovered : String → Task → Task
recovered error row = if row.status == working then recover error row else row

id-recovered : (error : String) (t : Task) → key (recovered error t) ≡ key t
unfolding recovered recover
id-recovered error t = ground arith

module _ (error : String) where
  none_working : (db : Db) → All (λ t. t.status ≢ working) (recover_interrupted error db).0
  unfolding recover_interrupted
  none_working [] = tt
  none_working (t ∷ db) = (ground arith, none_working db)

  keep-working-nil :
      (db : Db) → All (λ t. t.status ≢ working) db → keep (λ t. t.status == working) db ≡ []
  keep-working-nil [] h = refl
  keep-working-nil (t ∷ db) h = ground (arith, keep-working-nil db)

  map-recovered_self : (db : Db) → All (λ t. t.status ≢ working) db → map (recovered error) db ≡ db
  unfolding recovered
  map-recovered_self [] h = refl
  map-recovered_self (t ∷ db) h = ground (arith, map-recovered_self db)

  settled_self :
      (db : Db) → All (λ t. t.status ≢ working) db → recover_interrupted error db ≡ (db, [])
  unfolding recover_interrupted recovered
  settled_self db h = ground (arith, keep-working-nil db h, map-recovered_self db h)

  find-recover_interrupted :
      (j : ℕ) (db : Db)
      → find key j (recover_interrupted error db).0 ≡ Option.map (recovered error) (find key j db)
  unfolding recover_interrupted recovered
  find-recover_interrupted j db = find-map key (recovered error) (id-recovered error) j db

  recovered_status :
      (t : Task) → ((recover error t).status ≡ pending) ⊎ ((recover error t).status ≡ failed)
  unfolding recover
  recovered_status t = ground arith

  -- `r` stands in the table that recovery leaves, PENDING or FAILED.
  abbrev pub Returned : Db → Task → Type 0
  Returned db r =
      (find key r.id (recover_interrupted error db).0 ≡ some r)
      × ((r.status ≡ pending) ⊎ (r.status ≡ failed))

  recover-Returned :
      (db : Db) (t : Task)
      → find key t.id db ≡ some t
      → (t.status == working) ≡ true
      → Returned db (recover error t)
  recover-Returned db t row w = (
    rw (find-recover_interrupted (recover error t).id db)
        (unfold recover recovered in ground (arith, row)),
    recovered_status t,
  )

  All-Returned : (db : Db) → IsKeyed key db → All (Returned db) (recover_interrupted error db).1
  unfolding recover_interrupted
  All-Returned db keyed =
      All-map (Returned db) (recover error) (keep (λ t. t.status == working) db) (
        All_of_In _ _ λ t m.
          let (row, w) = keep-In (λ u. u.status == working) t db m in
          recover-Returned db t (find-In key t db keyed row) w)

-- Recovery of a table with different ids leaves no row WORKING; every row that it returns stands
-- in the table as returned, PENDING again or FAILED; and a second recovery changes nothing and
-- returns nothing.
pub recover_interrupted-settles :
    (error again : String) (db : Db)
    → IsKeyed key db
    → All (λ t. t.status ≢ working) (recover_interrupted error db).0
      × All (Returned error db) (recover_interrupted error db).1
      × (recover_interrupted again (recover_interrupted error db).0
          ≡ ((recover_interrupted error db).0, []))
recover_interrupted-settles error again db keyed = (
  none_working error db,
  All-Returned error db keyed,
  settled_self again _ (none_working error db),
)
