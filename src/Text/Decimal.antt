-- ===== src/Text/Decimal.antt =====
-- Decimal numerals are read back as they are written.
use chronicler.Base.{
  ℕ, zero, suc, ◌+◌, ◌-◌, ◌*◌, ◌/◌, ◌%◌, ◌<◌, ◌≤◌, ◌≡◌, ◌≢◌, refl, inl, inr, true, [], ◌∷◌, ◌++◌,
  All, All-append, arith, ltb, Bool-cases, ltb→lt, all,
}
use chronicler.Text.{
  Text, is_digit, all_digits, to_int_from, to_int, decimal_within, decimal, pad2, pad3,
}

pub to_int_from-append :
    (n c : ℕ) (cs : Text) → to_int_from n (cs ++ c ∷ []) ≡ to_int_from n cs * 10 + (c - 48)
unfolding to_int_from
to_int_from-append n c [] = refl
to_int_from-append n c (d ∷ cs) = to_int_from-append (n * 10 + (d - 48)) c cs

to_int-decimal_within : (fuel n : ℕ) → n < fuel → to_int_from 0 (decimal_within fuel n) ≡ n
unfolding to_int_from decimal_within
to_int-decimal_within zero n h = elim h [ ]
to_int-decimal_within (suc fuel) n h = elim (Bool-cases (ltb n 10)) [
  | inl e ↦ rw e (omega arith)
  | inr e ↦
      let big : 10 ≤ n = ground arith in
      rw e (
        rw to_int_from-append
          (rw (to_int-decimal_within fuel (n / 10) (omega arith)) (omega arith)))
]

abbrev pub Digits : Text → Type 0
Digits cs = All (λ c. (48 ≤ c) × (c ≤ 57)) cs

decimal_within-Digits : (fuel n : ℕ) → Digits (decimal_within fuel n)
unfolding decimal_within
decimal_within-Digits zero n = tt
decimal_within-Digits (suc fuel) n = elim (Bool-cases (ltb n 10)) [
  | inl e ↦ let small : n < 10 = ltb→lt n 10 e in rw e ((omega arith, omega arith), tt)
  | inr e ↦ rw e (
      All-append _ (decimal_within fuel (n / 10)) _ (decimal_within-Digits fuel (n / 10))
        ((omega arith, omega arith), tt))
]

pub to_int-decimal : (n : ℕ) → to_int (decimal n) ≡ n
unfolding to_int decimal
to_int-decimal n = to_int-decimal_within (suc n) n (omega arith)

pub decimal-Digits : (n : ℕ) → Digits (decimal n)
unfolding decimal
decimal-Digits n = decimal_within-Digits (suc n) n

to_int-zero : (cs : Text) → to_int (48 ∷ cs) ≡ to_int cs
unfolding to_int to_int_from
to_int-zero cs = refl

pub to_int-pad2 : (n : ℕ) → to_int (pad2 n) ≡ n
unfolding pad2
to_int-pad2 n = elim (Bool-cases (ltb n 10)) [
  | inl e ↦ rw e (rw to_int-zero (to_int-decimal n))
  | inr e ↦ rw e (to_int-decimal n)
]

pub pad2-Digits : (n : ℕ) → Digits (pad2 n)
unfolding pad2
pad2-Digits n = elim (Bool-cases (ltb n 10)) [
  | inl e ↦ rw e ((omega arith, omega arith), decimal-Digits n)
  | inr e ↦ rw e (decimal-Digits n)
]

pub pad3-Digits : (n : ℕ) → Digits (pad3 n)
unfolding pad3
pad3-Digits n = elim (Bool-cases (ltb n 100)) [
  | inl e ↦ rw e ((omega arith, omega arith), pad2-Digits n)
  | inr e ↦ rw e (decimal-Digits n)
]

snoc_ne : (cs : Text) (c : ℕ) → cs ++ c ∷ [] ≢ []
snoc_ne [] c h = cc
snoc_ne (d ∷ cs) c h = cc

decimal_ne : (n : ℕ) → decimal n ≢ []
unfolding decimal decimal_within
decimal_ne n h = elim (Bool-cases (ltb n 10)) [
  | inl e ↦ ground (arith, e)
  | inr e ↦ snoc_ne (decimal_within n (n / 10)) (48 + n % 10) (rw e at h)
]

pub pad2_ne : (n : ℕ) → pad2 n ≢ []
unfolding pad2
pad2_ne n h = ground (arith, decimal_ne n)

all-is_digit : (cs : Text) → Digits cs → all is_digit cs ≡ true
all-is_digit [] h = refl
all-is_digit (c ∷ cs) h = ground (arith, all-is_digit cs h.1)

-- A part of only digits passes `isdigit` if it is not empty.
pub all_digits_lem : (cs : Text) → cs ≢ [] → Digits cs → all_digits cs ≡ true
all_digits_lem [] e h = absurd (e refl)
all_digits_lem (c ∷ cs) e h = all-is_digit (c ∷ cs) h
