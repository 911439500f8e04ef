-- ===== src/Intake/Free.antt =====
-- The loop of `add_audio_source` (chronicler/core/services/chronicle_service.py) ends at a name that is
-- free.
use chronicler.Base.{
  ℕ, zero, suc, ◌+◌, ◌≤◌, ◌<◌, ◌≡◌, refl, sym, ap, ◌∙◌, inl, inr, ◌⊎◌, Bool, Bool-cases, true,
  false, not, some, List, [], ◌∷◌, ◌++◌, keep, any-In, length, length-append, In, In-cases, In-keep,
  In-map, map, length-keep-le, length-map, subst, ◌==◌, ℕ_eq, List_eq, list_beq_iff, arith,
}
use chronicler.Text.{Text, codes, decimal, to_int}
use chronicler.Text.Decimal.{to_int-decimal}
use chronicler.Intake.{Stored, file_name, exists, numbered, free_from, free_name, stem_suffix}

append_left : (xs ys zs : Text) → xs ++ ys ≡ xs ++ zs → ys ≡ zs
append_left [] ys zs h = h
append_left (x ∷ xs) ys zs h = append_left xs ys zs (ground (arith, h))

append_right : (xs ys zs : Text) → xs ++ zs ≡ ys ++ zs → xs ≡ ys
append_right [] [] zs h = refl
append_right [] (y ∷ ys) zs h =
    let longer : length zs ≡ suc (length (ys ++ zs)) = ap length h in
    absurd (omega (arith, longer, length-append ys zs))
append_right (x ∷ xs) [] zs h =
    let longer : suc (length (xs ++ zs)) ≡ length zs = ap length h in
    absurd (omega (arith, longer, length-append xs zs))
append_right (x ∷ xs) (y ∷ ys) zs h =
    let first : x ≡ y = ground (arith, h) in
    let rest : xs ++ zs ≡ ys ++ zs = ground (arith, h) in
    rw (first, append_right xs ys zs rest) refl

-- Two counters give two names.
numbered-injective : (parts : Text × Text) (i j : ℕ) → numbered parts i ≡ numbered parts j → i ≡ j
unfolding numbered
numbered-injective parts i j h =
    let tail =
      append_left (codes " (") (decimal i ++ (codes ")" ++ parts.1))
        (decimal j ++ (codes ")" ++ parts.1)) (append_left parts.0 _ _ h) in
    let digits = append_right (decimal i) (decimal j) (codes ")" ++ parts.1) tail in
    sym (to_int-decimal i) ∙ ap to_int digits ∙ to_int-decimal j

abbrev differs_from : Text → Text → Bool
differs_from x y = not (y == x)

-- Without one of its names, a list is shorter.
shorter : (x : Text) (xs : List Text) → In x xs → length (keep (differs_from x) xs) < length xs
shorter x [] m = elim m [ ]
shorter x (y ∷ ys) m = elim (Bool-cases (y == x)) [
  | inl e ↦ rw e (let le = length-keep-le (differs_from x) ys in omega (arith, le))
  | inr e ↦ rw e (elim (In-cases m) [
    | inl same ↦ absurd (ground (arith, e, list_beq_iff y x, same))
    | inr m' ↦ let less = shorter x ys m' in omega (arith, less)
  ])
]

other_name :
    (parts : Text × Text) (i k : ℕ)
    → i + 1 ≤ k
    → differs_from (numbered parts i) (numbered parts k) ≡ true
other_name parts i k later = elim (Bool-cases (numbered parts k == numbered parts i)) [
  | inr e ↦ ap not e
  | inl e ↦
      let same =
        numbered-injective parts k i ((list_beq_iff (numbered parts k) (numbered parts i)).0 e) in
      absurd (omega (arith, same, later))
]

exists-In :
    (name : Text) (files : List Stored) → exists name files ≡ true → In name (map file_name files)
exists-In name files h =
    let (f, m, e) = any-In (λ (f : Stored). f.name == name) files h in
    subst (λ (n : Text). In n (map file_name files)) ((list_beq_iff f.name name).0 e)
      (In-map file_name f files m)

-- A name is free, and it is one of the numbered ones.
abbrev pub IsFree : Text × Text → List Stored → Text → Type 0
IsFree parts files dest = (exists dest files ≡ false) × ((k : ℕ) × (dest ≡ numbered parts k))

free_from-ends :
    (fuel counter : ℕ) (parts : Text × Text) (files : List Stored) (left : List Text)
    → ((k : ℕ) → counter ≤ k → exists (numbered parts k) files ≡ true → In (numbered parts k) left)
    → length left < fuel
    → (dest : Text) × (free_from fuel counter parts files ≡ some dest) × IsFree parts files dest
unfolding free_from
free_from-ends zero counter parts files left there_ less = absurd (omega (arith, less))
free_from-ends (suc fuel) counter parts files left there_ less =
    elim (Bool-cases (exists (numbered parts counter) files)) [
      | inr e ↦ (numbered parts counter, rw e refl, (e, (counter, refl)))
      | inl e ↦
          let taken = there_ counter (omega arith) e in
          let fewer = shorter (numbered parts counter) left taken in
          let (dest, done, free) =
            free_from-ends fuel (counter + 1) parts files
              (keep (differs_from (numbered parts counter)) left)
              (λ k later used.
                In-keep (differs_from (numbered parts counter)) (numbered parts k) left
                  (there_ k (omega (arith, later)) used) (other_name parts counter k later))
              (omega (arith, fewer, less)) in
          (dest, rw e done, free)
    ]

-- With one more than the files there are as fuel, the loop finds a name: the one that was asked for if
-- no file has it, or a numbered one that no file has.
pub free_name-ends :
    (name : Text) (files : List Stored)
    → (dest : Text) × (free_name (length files + 1) name files ≡ some dest)
      × (exists dest files ≡ false)
      × ((dest ≡ name) ⊎ ((k : ℕ) × (dest ≡ numbered (stem_suffix name) k)))
unfolding free_name
free_name-ends name files = elim (Bool-cases (exists name files)) [
  | inr e ↦ (name, rw e refl, e, inl refl)
  | inl e ↦
      let (dest, done, (free, made)) =
        free_from-ends (length files + 1) 1 (stem_suffix name) files (map file_name files)
          (λ k _ used. exists-In (numbered (stem_suffix name) k) files used)
          (let same = length-map files file_name in omega (arith, same)) in
      (dest, rw e done, free, inr made)
]
