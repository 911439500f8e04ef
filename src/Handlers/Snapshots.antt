-- ===== src/Handlers/Snapshots.antt =====
-- `snapshot_before_clean` of chronicler/core/processing/handlers/cleaning.py. A chronicle's snapshots are
-- the times in their names, in the order of the names, which is that of the times.
pub mod Kept
mod Examples
use chronicler.Base.{
  ℕ, ◌+◌, ◌-◌, Bool, true, false, Option, none, some, List, [], ◌∷◌, ◌++◌, take, drop, length, any,
  ltb, if◌then◌else◌, ◌==◌, ℕ_eq,
}

abbrev pub snapshots_kept : ℕ
snapshots_kept = 3

-- `sorted(directory.glob(...))` with one more file
unfoldable pub insert_stamp : ℕ → List ℕ → List ℕ
insert_stamp t [] = t ∷ []
insert_stamp t (s ∷ ss) = let rest = insert_stamp t ss in if ltb t s then t ∷ s ∷ ss else s ∷ rest

-- What is left of the snapshots when the loop has unlinked the old ones
unfoldable pub prune : List ℕ → List ℕ
prune snapshots =
    let oldest = take 1 snapshots in
    let rest = drop 1 snapshots in
    oldest ++ drop (length rest - (snapshots_kept - length oldest)) rest

-- `none` is the `FileExistsError` of `snapshot_project`.
unfoldable pub snapshot_before_clean : ℕ → List ℕ → Option (List ℕ)
unfolding insert_stamp prune
snapshot_before_clean t snapshots =
    if any (λ s. s == t) snapshots then none else some (prune (insert_stamp t snapshots))

-- A clean that raises leaves the snapshots.
unfoldable pub clean_at : ℕ → List ℕ → List ℕ
unfolding snapshot_before_clean
clean_at t snapshots = elim (snapshot_before_clean t snapshots) [
  | none ↦ snapshots
  | some kept ↦ kept
]

-- The snapshots after cleans at these times, the latest first
unfoldable pub after_cleans : List ℕ → List ℕ
unfolding clean_at
after_cleans [] = []
after_cleans (t ∷ ts) = clean_at t (after_cleans ts)
