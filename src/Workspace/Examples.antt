-- ===== src/Workspace/Examples.antt =====
-- Two processes and a system that numbers its open files.
use chronicler.Base.{
  ℕ, suc, ◌+◌, max, ◌≡◌, ◌≢◌, refl, sym, inl, inr, Bool, Bool-cases, true, false, Option, none,
  some, ltb, ◌==◌, ℕ_eq, nat_eq_iff, if◌then◌else◌, arith,
}
use chronicler.Workspace.{
  Os, World, acquire, release, end_process, Reach, started, later, acquires, initial,
}
use chronicler.Workspace.Exclusive.{Reach-Exclusive, Reach-Released}

record Files : Type 0 where
  next : ℕ
  held : Option ℕ

abbrev above : Option ℕ → ℕ
above none = 0
above (some f) = f + 1

abbrev unused : Files → ℕ
unused s = max s.next (above s.held)

abbrev try_lock : Option ℕ → ℕ → ℕ → Option Files
try_lock none f next = some (record { next = next; held = some f })
try_lock (some g) f next = if g == f then some (record { next = next; held = some g }) else none

abbrev let_go : Option ℕ → ℕ → Option ℕ
let_go none f = none
let_go (some g) f = if g == f then none else some g

let_go-own : (o : Option ℕ) (f : ℕ) → o ≡ some f → let_go o f ≡ none
let_go-own none f e = refl
let_go-own (some g) f e = ground (arith, e, nat_eq_iff g f)

let_go-other : (o : Option ℕ) (f : ℕ) → o ≢ some f → let_go o f ≡ o
let_go-other none f h = refl
let_go-other (some g) f h = elim (Bool-cases (g == f)) [
  | inl e ↦ absurd (h (chronicler.Base.ap some ((nat_eq_iff g f).0 e)))
  | inr e ↦ rw e refl
]

unused-held : (next : ℕ) (o : Option ℕ) (f : ℕ) → o ≡ some f → ltb f (max next (above o)) ≡ true
unused-held next none f e = ground (arith, e)
unused-held next (some g) f e = ground (arith, e)

try_lock-free :
    (o : Option ℕ) (next f : ℕ)
    → o ≡ none
    → (t : Files) × (try_lock o f next ≡ some t) × (t.held ≡ some f)
try_lock-free none next f e = (record { next = next; held = some f }, refl, refl)
try_lock-free (some g) next f e = ground (arith, e)

try_lock-held : (o : Option ℕ) (next f g : ℕ) → o ≡ some g → g ≢ f → try_lock o f next ≡ none
try_lock-held none next f g e h = ground (arith, e)
try_lock-held (some k) next f g e h = ground (arith, e, h, nat_eq_iff k f)

abbrev files : Os
files = record {
  State = Files;
  start = record { next = 0; held = none };
  holder = λ s. s.held;
  is_open = λ s f. ltb f (unused s);
  open_file = λ s. (unused s, record { next = suc (unused s); held = s.held });
  lock = λ f s. try_lock s.held f s.next;
  unlock = λ f s. record s { held = let_go s.held f };
  close = λ f s. record s { held = let_go s.held f };
  start-free = refl;
  holder-open = λ s f e. unused-held s.next s.held f e;
  open-new = λ s. ground arith;
  open-holder = λ s. refl;
  lock-free = λ s f e. try_lock-free s.held s.next f e;
  lock-held = λ s f g e h. try_lock-held s.held s.next f g e h;
  unlock-holder = λ s f e. let_go-own s.held f e;
  close-holder = λ s f e. let_go-own s.held f e;
  close-other = λ s f e. let_go-other s.held f e;
}

abbrev first : World files
first = (acquire files 1 (initial files)).1

first-Reach : Reach files first
first-Reach = later started (acquires 1)

first_has : first.locks 1 ≡ some 0
unfolding acquire
first_has = refl

Reach-Exclusive_example :
    ((i j f g : ℕ) → first.locks i ≡ some f → first.locks j ≡ some g → i ≡ j)
    × ((i j f : ℕ)
        → first.locks i ≡ some f
        → i ≢ j
        → ((acquire files j first).0 ≡ false) × ((acquire files j first).1.locks ≡ first.locks))
Reach-Exclusive_example = Reach-Exclusive files first first-Reach

Reach-Released_example :
    (((acquire files 2 (release files 1 first)).0 ≡ true)
      × ((g : ℕ) × ((acquire files 2 (release files 1 first)).1.locks 2 ≡ some g)))
    × (((acquire files 2 (end_process files 1 first)).0 ≡ true)
        × ((g : ℕ) × ((acquire files 2 (end_process files 1 first)).1.locks 2 ≡ some g)))
Reach-Released_example = Reach-Released files first 1 2 0 first-Reach first_has

second_is_refused : (acquire files 2 first).0 ≡ false
unfolding acquire
second_is_refused = refl
