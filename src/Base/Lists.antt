-- ===== src/Base/Lists.antt =====
-- Lists measured by native numbers, predicates over lists and filters by a Boolean test.
use Prim.Native.Nat.{ℕ, zero, suc, ◌+◌}
use mathlib.Core.Path.{◌≡◌, refl, ap}
use mathlib.Core.Bool.{Bool, true, false, ◌&&◌, ◌||◌}
use mathlib.Core.List.{List, [], ◌∷◌, ◌++◌, map}
use mathlib.Core.Option.{Option, none, some}
use native.Mathlib.Omega.{arith}
use chronicler.Base.Tests.{if◌then◌else◌}
use mathlib.Core.Logic.{◌⊎◌, inl, inr}

module _ {ℓ} {A : Type ℓ} where
  abbrev pub length : List A → ℕ
  length [] = 0
  length (x ∷ xs) = suc (length xs)

  pub length-append : (xs ys : List A) → length (xs ++ ys) ≡ length xs + length ys
  length-append [] ys = omega arith
  length-append (x ∷ xs) ys = omega (arith, length-append xs ys)

  abbrev pub take : ℕ → List A → List A
  take zero xs = []
  take (suc n) [] = []
  take (suc n) (x ∷ xs) = x ∷ take n xs

  abbrev pub drop : ℕ → List A → List A
  drop zero xs = xs
  drop (suc n) [] = []
  drop (suc n) (x ∷ xs) = drop n xs

  abbrev pub get_elem? : List A → ℕ → Option A
  get_elem? [] i = none
  get_elem? (x ∷ xs) zero = some x
  get_elem? (x ∷ xs) (suc i) = get_elem? xs i

  abbrev pub or_else : Option A → Option A → Option A
  or_else none o = o
  or_else (some a) o = some a

  -- `[x for x in xs if test x]`
  abbrev pub keep : (A → Bool) → List A → List A
  keep test [] = []
  keep test (x ∷ xs) = if test x then x ∷ keep test xs else keep test xs

  -- `all(...)` and `any(...)`
  abbrev pub all : (A → Bool) → List A → Bool
  all test [] = true
  all test (x ∷ xs) = test x && all test xs

  abbrev pub any : (A → Bool) → List A → Bool
  any test [] = false
  any test (x ∷ xs) = test x || any test xs

  abbrev pub All {κ} : (A → Type κ) → List A → Type κ
  All P [] = Unit
  All P (x ∷ xs) = P x × All P xs

  abbrev pub Pairwise {κ} : (A → A → Type κ) → List A → Type κ
  Pairwise R [] = Unit
  Pairwise R (x ∷ xs) = All (R x) xs × Pairwise R xs

  pub All-append {κ} : (P : A → Type κ) (l m : List A) → All P l → All P m → All P (l ++ m)
  All-append P [] m _ right = right
  All-append P (a ∷ l) m left right = (left.0, All-append P l m left.1 right)

  pub All-mono {κ μ} :
      (P : A → Type κ) (Q : A → Type μ) (xs : List A) → ((x : A) → P x → Q x) → All P xs → All Q xs
  All-mono P Q [] f h = tt
  All-mono P Q (x ∷ xs) f h = (f x h.0, All-mono P Q xs f h.1)

  -- Membership that can be taken apart by cases.
  pub data In (a : A) : List A → Type ℓ where
    here : {xs : List A} → In a (a ∷ xs)
    there : {x : A} {xs : List A} → In a xs → In a (x ∷ xs)

  pub All-In {κ} : (P : A → Type κ) {a : A} {xs : List A} → In a xs → All P xs → P a
  All-In P here h = h.0
  All-In P (there m) h = All-In P m h.1

  pub All_of_In {κ} : (P : A → Type κ) (xs : List A) → ((x : A) → In x xs → P x) → All P xs
  All_of_In P [] h = tt
  All_of_In P (x ∷ xs) h = (h x here, All_of_In P xs (λ y m. h y (there m)))

  pub In-cases : {a x : A} {xs : List A} → In a (x ∷ xs) → (a ≡ x) ⊎ In a xs
  In-cases here = inl refl
  In-cases (there m) = inr m

  pub Pairwise-snoc {κ} :
      (R : A → A → Type κ) (xs : List A) (y : A)
      → Pairwise R xs
      → All (λ x. R x y) xs
      → Pairwise R (xs ++ (y ∷ []))
  Pairwise-snoc R [] y h k = (tt, tt)
  Pairwise-snoc R (x ∷ xs) y h k =
      (All-append (R x) xs (y ∷ []) h.0 (k.0, tt), Pairwise-snoc R xs y h.1 k.1)

  pub In-append_right : (a : A) (xs ys : List A) → In a ys → In a (xs ++ ys)
  In-append_right a [] ys m = m
  In-append_right a (x ∷ xs) ys m = there (In-append_right a xs ys m)

  pub In-append_left : (a : A) (xs ys : List A) → In a xs → In a (xs ++ ys)
  In-append_left a [] ys m = elim m [ ]
  In-append_left a (x ∷ xs) ys here = here
  In-append_left a (x ∷ xs) ys (there m) = there (In-append_left a xs ys m)

module _ {ℓ κ} {A : Type ℓ} {B : Type κ} where
  pub length-map : (xs : List A) (f : A → B) → length (map f xs) ≡ length xs
  length-map [] f = refl
  length-map (x ∷ xs) f = ap suc (length-map xs f)

  pub All-map {μ} :
      (P : B → Type μ) (f : A → B) (xs : List A) → All (λ x. P (f x)) xs → All P (map f xs)
  All-map P f [] h = tt
  All-map P f (x ∷ xs) h = (h.0, All-map P f xs h.1)

  pub Pairwise-map {μ} :
      (R : B → B → Type μ) (f : A → B) (xs : List A)
      → Pairwise (λ x y. R (f x) (f y)) xs
      → Pairwise R (map f xs)
  Pairwise-map R f [] h = tt
  Pairwise-map R f (x ∷ xs) h = (All-map (R (f x)) f xs h.0, Pairwise-map R f xs h.1)

  pub All_of_map {μ} :
      (P : B → Type μ) (f : A → B) (xs : List A) → All P (map f xs) → All (λ x. P (f x)) xs
  All_of_map P f [] h = tt
  All_of_map P f (x ∷ xs) h = (h.0, All_of_map P f xs h.1)

  pub Pairwise-of_map {μ} :
      (R : B → B → Type μ) (f : A → B) (xs : List A)
      → Pairwise R (map f xs)
      → Pairwise (λ x y. R (f x) (f y)) xs
  Pairwise-of_map R f [] h = tt
  Pairwise-of_map R f (x ∷ xs) h = (All_of_map (R (f x)) f xs h.0, Pairwise-of_map R f xs h.1)

  pub map-append_lists : (f : A → B) (xs ys : List A) → map f (xs ++ ys) ≡ map f xs ++ map f ys
  map-append_lists f [] ys = refl
  map-append_lists f (x ∷ xs) ys = ap (λ (zs : List B). f x ∷ zs) (map-append_lists f xs ys)

  pub In-map : (f : A → B) (a : A) (xs : List A) → In a xs → In (f a) (map f xs)
  In-map f a [] m = elim m [ ]
  In-map f a (x ∷ xs) here = here
  In-map f a (x ∷ xs) (there m) = there (In-map f a xs m)

  pub map-In : (f : A → B) (b : B) (xs : List A) → In b (map f xs) → (a : A) × In a xs × (b ≡ f a)
  map-In f b [] m = elim m [ ]
  map-In f b (x ∷ xs) m = elim (In-cases m) [
    | inl e ↦ (x, here, e)
    | inr m' ↦ let (a, found, e) = map-In f b xs m' in (a, there found, e)
  ]
