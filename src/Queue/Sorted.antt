-- ===== src/Queue/Sorted.antt =====
-- An order of rows that keeps `ORDER BY priority DESC, created_at ASC`: it shows that what
-- `TaskOrder` asks of SQLite can be had.
use chronicler.Base.{
  ◌≡◌, ◌⊎◌, inl, inr, Bool, true, false, ◌&&◌, ◌||◌, List, [], ◌∷◌, arith, ltb, leb, if◌then◌else◌,
  ◌==◌, ℕ_eq, In, here, there, All, Pairwise, In-cases, Bool-cases,
}
use chronicler.Models.{Task}
use chronicler.Queue.{Precedes, TaskOrder}

stands_before : Task → Task → Bool
stands_before a b =
    ltb b.priority a.priority || (a.priority == b.priority && leb a.created_at b.created_at)

insert : Task → List Task → List Task
unfolding stands_before
insert t [] = t ∷ []
insert t (u ∷ us) = if stands_before t u then t ∷ u ∷ us else u ∷ insert t us

insertion_sort : List Task → List Task
unfolding insert
insertion_sort [] = []
insertion_sort (t ∷ ts) = insert t (insertion_sort ts)

In-insert : (t u : Task) (us : List Task) → (t ≡ u) ⊎ In t us → In t (insert u us)
unfolding insert
In-insert t u [] (inl e) = rw e here
In-insert t u [] (inr m) = elim m [ ]
In-insert t u (v ∷ vs) h = elim (Bool-cases (stands_before u v)) [
  | inl b ↦ rw b (elim h [ inl e ↦ rw e here | inr m ↦ there m ])
  | inr b ↦ rw b (elim h [
    | inl e ↦ there (In-insert t u vs (inl e))
    | inr m ↦ elim (In-cases m) [ inl e ↦ rw e here | inr m' ↦ there (In-insert t u vs (inr m')) ]
  ])
]

insert-In : (t u : Task) (us : List Task) → In t (insert u us) → (t ≡ u) ⊎ In t us
unfolding insert
insert-In t u [] m = In-cases m
insert-In t u (v ∷ vs) m = elim (Bool-cases (stands_before u v)) [
  | inl b ↦ In-cases (rw b at m)
  | inr b ↦ elim (In-cases (rw b at m)) [
    | inl e ↦ inr (rw e here)
    | inr m' ↦ elim (insert-In t u vs m') [ inl e ↦ inl e | inr m'' ↦ inr (there m'') ]
  ]
]

In-insertion_sort : (t : Task) (ts : List Task) → In t ts → In t (insertion_sort ts)
unfolding insertion_sort
In-insertion_sort t [] m = elim m [ ]
In-insertion_sort t (u ∷ us) m = elim (In-cases m) [
  | inl e ↦ In-insert t u _ (inl e)
  | inr m' ↦ In-insert t u _ (inr (In-insertion_sort t us m'))
]

insertion_sort-In : (t : Task) (ts : List Task) → In t (insertion_sort ts) → In t ts
unfolding insertion_sort
insertion_sort-In t [] m = m
insertion_sort-In t (u ∷ us) m = elim (insert-In t u _ m) [
  | inl e ↦ rw e here
  | inr m' ↦ there (insertion_sort-In t us m')
]

Precedes-stands_before : (a b : Task) → stands_before a b ≡ true → Precedes a b
unfolding stands_before
Precedes-stands_before a b h = ground arith

Precedes_flip : (a b : Task) → stands_before a b ≡ false → Precedes b a
unfolding stands_before
Precedes_flip a b h = ground arith

Precedes-trans : (a b c : Task) → Precedes a b → Precedes b c → Precedes a c
Precedes-trans a b c h k = ground arith

All-Precedes-trans :
    (a b : Task) (cs : List Task) → Precedes a b → All (Precedes b) cs → All (Precedes a) cs
All-Precedes-trans a b [] h k = tt
All-Precedes-trans a b (c ∷ cs) h k = (Precedes-trans a b c h k.0, All-Precedes-trans a b cs h k.1)

All-insert :
    (a u : Task) (us : List Task)
    → Precedes a u
    → All (Precedes a) us
    → All (Precedes a) (insert u us)
unfolding insert
All-insert a u [] h k = (h, tt)
All-insert a u (v ∷ vs) h k = elim (Bool-cases (stands_before u v)) [
  | inl b ↦ rw b (h, k)
  | inr b ↦ rw b (k.0, All-insert a u vs h k.1)
]

insert-IsSorted :
    (u : Task) (us : List Task) → Pairwise Precedes us → Pairwise Precedes (insert u us)
unfolding insert
insert-IsSorted u [] h = (tt, tt)
insert-IsSorted u (v ∷ vs) h = elim (Bool-cases (stands_before u v)) [
  | inl b ↦ let p = Precedes-stands_before u v b in rw b ((p, All-Precedes-trans u v vs p h.0), h)
  | inr b ↦ rw b (All-insert v u vs (Precedes_flip u v b) h.0, insert-IsSorted u vs h.1)
]

insertion_sort-IsSorted : (ts : List Task) → Pairwise Precedes (insertion_sort ts)
unfolding insertion_sort
insertion_sort-IsSorted [] = tt
insertion_sort-IsSorted (t ∷ ts) = insert-IsSorted t _ (insertion_sort-IsSorted ts)

pub insertion_order : TaskOrder
insertion_order = record {
  sort = insertion_sort;
  In-sort = In-insertion_sort;
  sort-In = insertion_sort-In;
  sort-IsSorted = insertion_sort-IsSorted;
}
