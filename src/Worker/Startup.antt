-- ===== src/Worker/Startup.antt =====
-- `recover_interrupted` of chronicler/core/workers.py, the worker's first step.
use mathlib.Core.List.{append-nil, append_assoc}
use chronicler.Base.{
  ◌≡◌, ◌≢◌, refl, sym, ap, ◌∙◌, inl, inr, true, false, Bool, Bool-cases, Option, some, List, [],
  ◌∷◌, ◌++◌, map, arith, if◌then◌else◌, ◌==◌, keep, All, All-mono, ℕ_eq,
}
use chronicler.Base.Table.{find, IsKeyed}
use chronicler.Models.{Task, TaskType, pending, working, failed, TaskStatus_eq, status_beq_iff}
use chronicler.Queue.{key, get_by_id, recover_interrupted}
use chronicler.Queue.Recovery.{recover_interrupted-settles}
use chronicler.Worker.{
  Manager, TaskCompletedEvent, event_of, completion, publish_completion, announce, recover_at_start,
  interrupted,
}

abbrev pub failures : List Task → List Task
failures ts = keep (λ t. t.status == failed) ts

-- What of the events is published: without a bus none
abbrev pub heard : Manager → List TaskCompletedEvent → List TaskCompletedEvent
heard m es = if m.has_bus then es else []

published :
    (t : Task) (m : Manager)
    → find key t.id m.db ≡ some t
    → (t.status == failed) ≡ true
    → completion (get_by_id t.id m.db) ≡ event_of t ∷ []
unfolding get_by_id completion
published t m row f =
    let is_failed : t.status ≡ failed = (status_beq_iff t.status failed).0 f in
    let waits : (t.status == pending) ≡ false = ground (arith, is_failed) in
    ap (λ (o : Option Task). completion o) row ∙ rw (waits, completion) refl

appended :
    (m : Manager) (bus : Bool) (es : List TaskCompletedEvent)
    → (if bus then record m { events = m.events ++ es } else m)
      ≡ record m { events = m.events ++ (if bus then es else []) }
appended m true es = refl
appended m false es =
    ap (λ (xs : List TaskCompletedEvent). record m { events = xs }) (sym (append-nil m.events))

publish_failed :
    (t : Task) (m : Manager)
    → find key t.id m.db ≡ some t
    → (t.status == failed) ≡ true
    → publish_completion t.id m ≡ record m { events = m.events ++ heard m (event_of t ∷ []) }
unfolding publish_completion
publish_failed t m row f =
    appended m m.has_bus (completion (get_by_id t.id m.db))
    ∙ ap (λ (es : List TaskCompletedEvent). record m { events = m.events ++ heard m es })
        (published t m row f)

-- The cleanups that ran, and the events published
abbrev pub Announced : (TaskType → Bool) → List Task → Manager → List Task × Manager → Type 0
Announced has_cleanup ts m r =
    (r.0 ≡ keep (λ t. has_cleanup t.type) (failures ts))
    × (r.1.db ≡ m.db)
    × (r.1.events ≡ m.events ++ heard m (map event_of (failures ts)))

heard-nil : (m : Manager) → m.events ++ heard m [] ≡ m.events
heard-nil m = elim (Bool-cases m.has_bus) [
  | inl e ↦ simp (e, append-nil m.events)
  | inr e ↦ simp (e, append-nil m.events)
]

heard-cons :
    (m : Manager) (e : TaskCompletedEvent) (es : List TaskCompletedEvent)
    → (m.events ++ heard m (e ∷ [])) ++ heard m es ≡ m.events ++ heard m (e ∷ es)
heard-cons m e es = elim (Bool-cases m.has_bus) [
  | inl b ↦ simp (b, append_assoc m.events (e ∷ []) es)
  | inr b ↦ simp (b, append-nil m.events)
]

announce-Announced :
    (has_cleanup : TaskType → Bool) (ts : List Task) (m : Manager)
    → All (λ t. find key t.id m.db ≡ some t) ts
    → Announced has_cleanup ts m (announce has_cleanup ts m)
unfolding announce
announce-Announced has_cleanup [] m h = (refl, refl, sym (heard-nil m))
announce-Announced has_cleanup (t ∷ ts) m h = elim (Bool-cases (t.status == failed)) [
  | inl f ↦
      let m' : Manager = record m { events = m.events ++ heard m (event_of t ∷ []) } in
      let (cleaned, same, events) = announce-Announced has_cleanup ts m' h.1 in
      rw (f, publish_failed t m h.0 f)
        (
          elim (has_cleanup t.type)
              as (λ b.
                (if b then t ∷ (announce has_cleanup ts m').0 else (announce has_cleanup ts m').0)
                ≡ (if b
                    then t ∷ keep (λ u. has_cleanup u.type) (failures ts)
                    else keep (λ u. has_cleanup u.type) (failures ts))) [
                      | true ↦ ap (λ (us : List Task). t ∷ us) cleaned
                      | false ↦ cleaned
                    ],
          same,
          events ∙ heard-cons m (event_of t) (map event_of (failures ts)),
        )
  | inr f ↦ rw f (announce-Announced has_cleanup ts m h.1)
]

-- When the worker starts on a table with different ids, no row stays WORKING, the cleanups of exactly
-- the tasks that recovery failed are run, where their type has one, and for each of these tasks, in
-- order, its failure is published, and nothing else; without an event bus nothing is published.
pub recover_at_start-Announced :
    (has_cleanup : TaskType → Bool) (m : Manager)
    → IsKeyed key m.db
    → All (λ t. t.status ≢ working) (recover_at_start has_cleanup m).1.db
      × Announced has_cleanup
          (recover_interrupted interrupted m.db).1
          (record m { db = (recover_interrupted interrupted m.db).0 })
          (recover_at_start has_cleanup m)
unfolding recover_at_start
recover_at_start-Announced has_cleanup m keyed =
    let (settled, found, _) = recover_interrupted-settles interrupted interrupted m.db keyed in
    let all =
      announce-Announced has_cleanup (recover_interrupted interrupted m.db).1
        (record m { db = (recover_interrupted interrupted m.db).0 })
        (All-mono _ _ _ (λ t r. r.0) found) in
    (rw all.1 settled, all)
