-- ===== src/Queue/Claim.antt =====
-- `claim_next` of chronicler/core/sqlite/task_repository.py with no other writer between its
-- statements: which task it claims, and what it changes.
use chronicler.Base.{
  ℕ, String, ◌≡◌, refl, sym, ◌⊎◌, inl, inr, true, false, Option, none, some, List, [], ◌∷◌, map,
  arith, Bool-cases, ◌==◌, take, keep, In, here, Pairwise, All, All_of_In, In-cases, All-In,
  In-keep, keep-In, ℕ_eq,
}
use chronicler.Base.Table.{find, modify, IsKeyed, find-In, find-modify}
use chronicler.Models.{Task, pending, TaskStatus_eq, status_beq_iff}
use chronicler.Queue.{
  Db, key, Precedes, TaskOrder, max_claim_candidates, is_claimable, candidates, claimed, claim_from,
  claim_next,
}

-- `t` is a claimable row and none that is claimable has to stand before it.
pub record IsNext (now : ℕ) (db : Db) (t : Task) : Type 0 where
  pub row : In t db
  pub due : is_claimable now t ≡ true
  pub first : All (λ u. (is_claimable now u ≡ false) ⊎ (u ≡ t) ⊎ Precedes t u) db

-- What `claim_next` returns for a table.
abbrev pub Claims : String → ℕ → Db → Option Task × Db → Type 0
Claims worker now db (none, db') = All (λ u. is_claimable now u ≡ false) db × (db' ≡ db)
Claims worker now db (some c, db') =
    (t : Task) × IsNext now db t
    × (c ≡ claimed worker now t)
    × (db' ≡ modify key t.id (claimed worker now) db)

is_claimable-pending :
    (now : ℕ) (t : Task) → is_claimable now t ≡ true → (t.status == pending) ≡ true
unfolding is_claimable
is_claimable-pending now t h = ground arith

pub IsNext-pending : {now : ℕ} {db : Db} {t : Task} → IsNext now db t → t.status ≡ pending
IsNext-pending {now} {db} {t} next =
    (status_beq_iff t.status pending).0 (is_claimable-pending now t next.due)

find-claimed :
    (worker : String) (now : ℕ) (t : Task) (db : Db)
    → find key t.id db ≡ some t
    → find key t.id (modify key t.id (claimed worker now) db) ≡ some (claimed worker now t)
unfolding claimed
find-claimed worker now t db h =
    rw (find-modify key (claimed worker now) (λ r. refl) t.id t.id db) (ground (arith, h))

-- The first candidate is claimed: nothing has written to its row since it was selected.
claim_from-first :
    (worker : String) (now : ℕ) (t : Task) (ids : List ℕ) (db : Db)
    → find key t.id db ≡ some t
    → (t.status == pending) ≡ true
    → claim_from (t.id ∷ ids) worker now db
      ≡ (some (claimed worker now t), modify key t.id (claimed worker now) db)
unfolding claim_from
claim_from-first worker now t ids db found p = ground (arith, find-claimed worker now t db found)

module _ (order : TaskOrder) (worker : String) (now : ℕ) (db : Db) (keyed : IsKeyed key db) where
  sorted-In :
      (sorted : List Task)
      → order.sort (keep (is_claimable now) db) ≡ sorted
      → (u : Task) → In u db
      → (is_claimable now u ≡ false) ⊎ In u sorted
  sorted-In sorted e u m = elim (Bool-cases (is_claimable now u)) [
    | inl due ↦ inr (rw e at (order.In-sort u _ (In-keep (is_claimable now) u db m due)))
    | inr waits ↦ inl waits
  ]

  nothing_due :
      [] ≡ order.sort (keep (is_claimable now) db) → All (λ u. is_claimable now u ≡ false) db
  nothing_due e =
      All_of_In (λ u. is_claimable now u ≡ false) db
        λ u m. elim (sorted-In [] (sym e) u m) [ inl waits ↦ waits | inr never ↦ elim never [ ] ]

  IsNext-head :
      (t : Task) (ts : List Task)
      → (t ∷ ts) ≡ order.sort (keep (is_claimable now) db)
      → Pairwise Precedes (t ∷ ts)
      → IsNext now db t
  IsNext-head t ts e p =
      let listed : In t (t ∷ ts) = here in
      let (row, due) = keep-In (is_claimable now) t db (order.sort-In t _ (rw e at listed)) in
      record {
        row = row;
        due = due;
        first =
            All_of_In (λ u. (is_claimable now u ≡ false) ⊎ (u ≡ t) ⊎ Precedes t u) db
              λ u m. elim (sorted-In (t ∷ ts) (sym e) u m) [
                | inl waits ↦ inl waits
                | inr among ↦ elim (In-cases among) [
                  | inl same ↦ inr (inl same)
                  | inr later ↦ inr (inr (All-In (Precedes t) later p.0))
                ]
              ];
      }

  first_of_sorted :
      (sorted : List Task)
      → sorted ≡ order.sort (keep (is_claimable now) db)
      → Pairwise Precedes sorted
      → Claims worker now db (claim_from (map key (take max_claim_candidates sorted)) worker now db)
  unfolding claim_from
  first_of_sorted [] e p = (nothing_due e, refl)
  first_of_sorted (t ∷ ts) e p =
      let next = IsNext-head t ts e p in
      rw
        (claim_from-first worker now t (map key (take 4 ts)) db (find-In key t db keyed next.row)
          (is_claimable-pending now t next.due))
        (t, next, refl, refl)

  -- Over a table with different ids, and with no writer in between, `claim_next` claims a row that
  -- is PENDING and due, before which no other such row has to stand by priority and age. It stamps
  -- that row alone, and returns it as stamped. It returns none exactly if no row is PENDING and
  -- due, and then changes nothing.
  pub claim_next-Claims : Claims worker now db (claim_next order worker now db)
  unfolding claim_next candidates
  claim_next-Claims = first_of_sorted _ refl (order.sort-IsSorted _)
