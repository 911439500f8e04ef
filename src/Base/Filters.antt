-- ===== src/Base/Filters.antt =====
-- Filters and searches of a list by a Boolean test: what they keep and what they find.
use Prim.Native.Nat.{◌≤◌}
use mathlib.Core.Path.{◌≡◌, refl, ap}
use mathlib.Core.Bool.{Bool, true, false}
use mathlib.Core.List.{List, [], ◌∷◌, ◌++◌}
use mathlib.Core.Logic.{inl, inr}
use native.Mathlib.Omega.{arith}
use chronicler.Base.Tests.{if◌then◌else◌, Bool-cases}
use chronicler.Base.Lists.{length, keep, any, All, All_of_In, Pairwise, In, here, there, In-cases}

module _ {ℓ} {A : Type ℓ} where
  pub All-keep {κ} :
      (P : A → Type κ) (test : A → Bool) (xs : List A) → All P xs → All P (keep test xs)
  All-keep P test [] h = tt
  All-keep P test (x ∷ xs) h =
      elim (test x) as (λ b. All P (if b then x ∷ keep test xs else keep test xs)) [
        | true ↦ (h.0, All-keep P test xs h.1)
        | false ↦ All-keep P test xs h.1
      ]

  pub length-keep-le : (test : A → Bool) (xs : List A) → length (keep test xs) ≤ length xs
  length-keep-le test [] = omega arith
  length-keep-le test (x ∷ xs) = ground (arith, length-keep-le test xs)

  pub In-keep :
      (test : A → Bool) (a : A) (xs : List A) → In a xs → test a ≡ true → In a (keep test xs)
  In-keep test a [] m t = elim m [ ]
  In-keep test a (x ∷ xs) here t = rw t here
  In-keep test a (x ∷ xs) (there m) t =
      elim (test x) as (λ b. In a (if b then x ∷ keep test xs else keep test xs)) [
        | true ↦ there (In-keep test a xs m t)
        | false ↦ In-keep test a xs m t
      ]

  pub keep-In :
      (test : A → Bool) (a : A) (xs : List A) → In a (keep test xs) → In a xs × (test a ≡ true)
  keep-In test a [] m = elim m [ ]
  keep-In test a (x ∷ xs) m = elim (Bool-cases (test x)) [
    | inl ok ↦ elim (In-cases (rw ok at m)) [
      | inl e ↦ (rw e here, rw e ok)
      | inr m' ↦ let (found, passed) = keep-In test a xs m' in (there found, passed)
    ]
    | inr fails ↦ let (found, passed) = keep-In test a xs (rw fails at m) in (there found, passed)
  ]

  pub any-In :
      (test : A → Bool) (xs : List A) → any test xs ≡ true → (x : A) × In x xs × (test x ≡ true)
  any-In test [] h = ground arith
  any-In test (x ∷ xs) h = elim (Bool-cases (test x)) [
    | inl e ↦ (x, here, e)
    | inr e ↦ let (y, found, passes) = any-In test xs (rw e at h) in (y, there found, passes)
  ]

  pub In-any :
      (test : A → Bool) (a : A) (xs : List A) → In a xs → test a ≡ true → any test xs ≡ true
  In-any test a [] m t = elim m [ ]
  In-any test a (x ∷ xs) here t = rw t refl
  In-any test a (x ∷ xs) (there m) t = ground (arith, In-any test a xs m t)

  pub any-false :
      (test : A → Bool) (xs : List A) → any test xs ≡ false → All (λ x. test x ≡ false) xs
  any-false test [] h = tt
  any-false test (x ∷ xs) h = elim (Bool-cases (test x)) [
    | inl e ↦ let bad : true ≡ false = rw e at h in ground arith
    | inr e ↦ (e, any-false test xs (rw e at h))
  ]

  pub keep-nil-All :
      (test : A → Bool) (xs : List A) → keep test xs ≡ [] → All (λ x. test x ≡ false) xs
  keep-nil-All test [] h = tt
  keep-nil-All test (x ∷ xs) h = elim (Bool-cases (test x)) [
    | inl e ↦ let bad : x ∷ keep test xs ≡ [] = rw e at h in ground (arith, bad)
    | inr e ↦ (e, keep-nil-All test xs (rw e at h))
  ]

  pub All-keep-nil :
      (test : A → Bool) (xs : List A) → All (λ x. test x ≡ false) xs → keep test xs ≡ []
  All-keep-nil test [] h = refl
  All-keep-nil test (x ∷ xs) h = rw h.0 (All-keep-nil test xs h.1)

  pub keep-append :
      (test : A → Bool) (xs ys : List A) → keep test (xs ++ ys) ≡ keep test xs ++ keep test ys
  keep-append test [] ys = refl
  keep-append test (x ∷ xs) ys = elim (Bool-cases (test x)) [
    | inl e ↦ rw e (ap (λ (zs : List A). x ∷ zs) (keep-append test xs ys))
    | inr e ↦ rw e (keep-append test xs ys)
  ]

  pub Pairwise-keep {κ} :
      (R : A → A → Type κ) (test : A → Bool) (xs : List A)
      → Pairwise R xs
      → Pairwise R (keep test xs)
  Pairwise-keep R test [] h = tt
  Pairwise-keep R test (x ∷ xs) h = elim (Bool-cases (test x)) [
    | inl e ↦ rw e (All-keep (R x) test xs h.0, Pairwise-keep R test xs h.1)
    | inr e ↦ rw e (Pairwise-keep R test xs h.1)
  ]

  pub All-keep_append {κ} :
      (P : A → Type κ) (test : A → Bool) (xs ys : List A)
      → All P (xs ++ ys)
      → All P (keep test xs ++ ys)
  All-keep_append P test [] ys h = h
  All-keep_append P test (x ∷ xs) ys h = elim (Bool-cases (test x)) [
    | inl e ↦ rw e (h.0, All-keep_append P test xs ys h.1)
    | inr e ↦ rw e (All-keep_append P test xs ys h.1)
  ]

  pub Pairwise-keep_append {κ} :
      (R : A → A → Type κ) (test : A → Bool) (xs ys : List A)
      → Pairwise R (xs ++ ys)
      → Pairwise R (keep test xs ++ ys)
  Pairwise-keep_append R test [] ys h = h
  Pairwise-keep_append R test (x ∷ xs) ys h = elim (Bool-cases (test x)) [
    | inl e ↦ rw e (All-keep_append (R x) test xs ys h.0, Pairwise-keep_append R test xs ys h.1)
    | inr e ↦ rw e (Pairwise-keep_append R test xs ys h.1)
  ]

  pub keep-All : (test : A → Bool) (xs : List A) → All (λ x. test x ≡ true) xs → keep test xs ≡ xs
  keep-All test [] h = refl
  keep-All test (x ∷ xs) h = rw h.0 (ap (λ (zs : List A). x ∷ zs) (keep-All test xs h.1))

  pub All_kept : (test : A → Bool) (xs : List A) → All (λ x. test x ≡ true) (keep test xs)
  All_kept test xs = All_of_In _ (keep test xs) (λ x m. (keep-In test x xs m).1)
