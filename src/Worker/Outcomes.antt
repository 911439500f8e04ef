-- ===== src/Worker/Outcomes.antt =====
-- `_record_outcome` of chronicler/core/workers.py: a status is written again and again while the
-- database is locked, and the loop ends.
use chronicler.Base.{
  ℕ, zero, suc, ◌+◌, ◌*◌, ◌≤◌, ◌<◌, ◌≡◌, refl, inl, inr, true, false, Bool, Bool-cases, some, arith,
  ltb,
}
use chronicler.Worker.{Recorded, written, given_up, next_delay, write_from, write_outcome}

-- Each attempt before this one found the database locked.
abbrev pub BusyBefore : (ℕ → Bool) → ℕ → ℕ → Type 0
BusyBefore busy i n = (k : ℕ) → i ≤ k → k < n → busy k ≡ true

abbrev pub Right : (ℕ → Bool) → (ℕ → ℕ) → ℕ → ℕ → Recorded → Type 0
Right busy clock deadline i (written n) = (busy n ≡ false) × BusyBefore busy i n
Right busy clock deadline i (given_up n) = (deadline < clock n + 2000) × BusyBefore busy i (suc n)

module _ (busy : ℕ → Bool) (clock : ℕ → ℕ) (deadline : ℕ)
    (later : (i : ℕ) → clock i + 100 ≤ clock (suc i)) where
  extended : (i n : ℕ) → busy i ≡ true → BusyBefore busy (suc i) n → BusyBefore busy i n
  extended i n b rest k from to = elim (Bool-cases (ltb i k)) [
    | inl after ↦ rest k (ground (arith, after)) to
    | inr same ↦ let it : i ≡ k = ground (arith, same, from) in rw (← it) b
  ]

  Right-extended :
      (i : ℕ) (r : Recorded)
      → busy i ≡ true
      → Right busy clock deadline (suc i) r
      → Right busy clock deadline i r
  Right-extended i (written n) b (free, rest) = (free, extended i n b rest)
  Right-extended i (given_up n) b (late, rest) = (late, extended i (suc n) b rest)

  write_from-Right :
      (fuel delay i : ℕ)
      → delay ≤ 2000
      → 100 ≤ delay
      → 1 ≤ fuel
      → deadline < fuel * 100 + clock i
      → (r : Recorded) × (write_from fuel busy clock deadline delay i ≡ some r)
        × Right busy clock deadline i r
  unfolding write_from
  write_from-Right zero delay i small large some_left enough = absurd (omega (arith, some_left))
  write_from-Right (suc fuel) delay i small large some_left enough = elim (Bool-cases (busy i)) [
    | inr free ↦ (written i, rw free refl, (free, λ k from to. ground (arith, from, to)))
    | inl b ↦ elim (Bool-cases (ltb deadline (clock i + delay))) [
      | inl late ↦ (
        given_up i,
        rw (b, late) refl,
        (
          ground (arith, late, small),
          λ k from to. let it : i ≡ k = omega (arith, from, to) in rw (← it) b,
        ),
      )
      | inr early ↦
          let (r, done, right) =
            write_from-Right fuel (next_delay delay) (suc i) (omega arith) (omega (arith, large))
              (ground (arith, early, enough, large)) (omega (arith, enough, later i)) in
          (r, rw (b, early) done, Right-extended i r b right)
    ]
  ]

-- A status write ends within 302 attempts, if a failed attempt, with the sleep behind it, takes 100 ms
-- at least. Either an attempt finds the database free, and all before it found it locked, or all
-- found it locked and the last failed less than 2 s before the 30 s were over, or later.
pub write_outcome_ends :
    (busy : ℕ → Bool) (clock : ℕ → ℕ) (begun : ℕ)
    → ((i : ℕ) → clock i + 100 ≤ clock (suc i))
    → begun ≤ clock 0
    → (r : Recorded) × (write_outcome 302 busy clock begun ≡ some r)
      × Right busy clock (begun + 30000) 0 r
unfolding write_outcome
write_outcome_ends busy clock begun later since =
    write_from-Right busy clock (begun + 30000) later 302 100 0 (omega arith) (omega arith)
      (omega arith) (omega (arith, since))
