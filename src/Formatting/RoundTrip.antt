-- ===== src/Formatting/RoundTrip.antt =====
-- `parse_timestamp` after `format_timestamp` (chronicler/core/formatting.py).
use chronicler.Base.{
  ℕ, ◌+◌, ◌*◌, ◌/◌, ◌%◌, ◌≤◌, ◌≡◌, ◌≢◌, refl, true, false, none, some, List, [], ◌∷◌, ◌++◌, all,
  All, All-append, arith, ap, ◌∙◌, inl, inr, Bool-cases, ◌==◌, ℕ_eq,
}
use chronicler.Text.{Text, is_space, split_on, all_digits, is_digit, cons_first, pad2, pad3}
use chronicler.Text.Strip.{Solid, strip-Solid}
use chronicler.Text.Split.{Without, split_on-Without, split_on-append}
use chronicler.Text.Decimal.{Digits, to_int-pad2, pad2-Digits, pad3-Digits, pad2_ne, all_digits_lem}
use chronicler.Formatting.{colon, format_timestamp, split_once, parse_clock, parse_timestamp}

digit-solid : (c : ℕ) → (48 ≤ c) × (c ≤ 58) → is_space c ≡ false
unfolding is_space
digit-solid c h = ground arith

comma-solid : (c : ℕ) → (44 ≤ c) × (c ≤ 58) × (c ≢ 46) → is_space c ≡ false
unfolding is_space
comma-solid c h = ground arith

-- Digits and colons.
abbrev ClockText : Text → Type 0
ClockText cs = All (λ c. (48 ≤ c) × (c ≤ 58)) cs

All-imp {ℓ κ} :
    {A : Type ℓ} (P Q : A → Type κ) (xs : List A) → ((a : A) → P a → Q a) → All P xs → All Q xs
All-imp P Q [] f h = tt
All-imp P Q (x ∷ xs) f h = (f x h.0, All-imp P Q xs f h.1)

Digits-ClockText : (cs : Text) → Digits cs → ClockText cs
Digits-ClockText cs = All-imp _ _ cs (λ c h. (h.0, omega arith))

Digits-Without : (cs : Text) → Digits cs → Without colon cs
Digits-Without cs = All-imp _ _ cs (λ c h e. omega arith)

-- Every other character fails `isdigit`.
module _ (h m s : ℕ) where
  abbrev clock_text : Text
  clock_text = pad2 h ++ (colon ∷ (pad2 m ++ (colon ∷ pad2 s)))

  clock_text-ClockText : ClockText clock_text
  clock_text-ClockText = All-append _ (pad2 h) _ (Digits-ClockText _ (pad2-Digits h)) (
    (omega arith, omega arith),
    All-append _ (pad2 m) _ (Digits-ClockText _ (pad2-Digits m))
        ((omega arith, omega arith), Digits-ClockText _ (pad2-Digits s)),
  )

  split_on-clock_text : split_on colon clock_text ≡ pad2 h ∷ pad2 m ∷ pad2 s ∷ []
  split_on-clock_text =
      rw
        (split_on-append colon (pad2 h) (pad2 m ++ (colon ∷ pad2 s))
          (Digits-Without _ (pad2-Digits h)))
        (rw (split_on-append colon (pad2 m) (pad2 s) (Digits-Without _ (pad2-Digits m)))
          (rw (split_on-Without colon (pad2 s) (Digits-Without _ (pad2-Digits s)))))

  pad2-all_digits : (n : ℕ) → all_digits (pad2 n) ≡ true
  pad2-all_digits n = all_digits_lem (pad2 n) (pad2_ne n) (pad2-Digits n)

  parse_clock_text : parse_clock clock_text 0 ≡ some ((h * 3600 + m * 60 + s) * 1000)
  unfolding parse_clock
  parse_clock_text = rw split_on-clock_text (
      rw (pad2-all_digits h) (
        rw (pad2-all_digits m) (
          rw (pad2-all_digits s)
            (rw (to_int-pad2 h) (rw (to_int-pad2 m) (rw (to_int-pad2 s) (ground arith)))))))

split_once-none : (sep : ℕ) (cs : Text) → Without sep cs → split_once sep cs ≡ none
unfolding split_once
split_once-none sep [] h = refl
split_once-none sep (c ∷ cs) h = ground (arith, split_once-none sep cs h.1)

parse_timestamp-whole :
    (cs : Text) → Solid cs → Without b'.' cs → parse_timestamp cs ≡ parse_clock cs 0
unfolding parse_timestamp
parse_timestamp-whole cs solid whole =
    let same = strip-Solid cs solid in
    rw (same, parse_timestamp) (rw (split_once-none b'.' cs whole) (rw same))

parse-clock_text :
    (h m s : ℕ) → parse_timestamp (clock_text h m s) ≡ some ((h * 3600 + m * 60 + s) * 1000)
parse-clock_text h m s =
    let plain = clock_text-ClockText h m s in
    parse_timestamp-whole (clock_text h m s) (All-imp _ _ _ digit-solid plain)
      (All-imp _ _ _ (λ c k e. omega arith) plain)
    ∙ parse_clock_text h m s

-- Reading back a timestamp written without milliseconds gives the time at its last full second.
pub parse_timestamp-format_timestamp :
    (ms : ℕ) → parse_timestamp (format_timestamp ms false) ≡ some (ms / 1000 * 1000)
unfolding format_timestamp
parse_timestamp-format_timestamp ms =
    parse-clock_text (ms / 3600000) (ms % 3600000 / 60000) (ms % 3600000 % 60000 / 1000)
    ∙ ap some (omega arith)

all_digits-weaken :
    (parts : List Text) → all all_digits parts ≡ true → all (λ w. all is_digit w) parts ≡ true
all_digits-weaken [] h = refl
all_digits-weaken ([] ∷ parts) h = cc
all_digits-weaken ((c ∷ cs) ∷ parts) h = ground (arith, all_digits-weaken parts)

cons_first-digits :
    (c : ℕ) (parts : List Text)
    → all (λ w. all is_digit w) (cons_first c parts) ≡ true
    → ((48 ≤ c) × (c ≤ 58)) × (all (λ w. all is_digit w) parts ≡ true)
cons_first-digits c [] h = ground arith
cons_first-digits c (w ∷ ws) h = ground arith

digits-ClockText : (cs : Text) → all (λ w. all is_digit w) (split_on colon cs) ≡ true → ClockText cs
unfolding split_on
digits-ClockText [] h = tt
digits-ClockText (c ∷ cs) h = elim (Bool-cases (c == colon)) [
  | inl e ↦
      let same : c ≡ colon = ground arith in
      ((omega (arith, same), omega (arith, same)), digits-ClockText cs (rw e at h))
  | inr e ↦
      let (k, h') = cons_first-digits c (split_on colon cs) (rw e at h) in
      (k, digits-ClockText cs h')
]

parse_clock-ClockText : (cs : Text) (frac : ℕ) → (¬ ClockText cs) → parse_clock cs frac ≡ none
unfolding parse_clock
parse_clock-ClockText cs frac h = elim (Bool-cases (all all_digits (split_on colon cs))) [
  | inl e ↦ absurd (h (digits-ClockText cs (all_digits-weaken (split_on colon cs) e)))
  | inr e ↦ ground (arith, e)
]

All-middle {ℓ κ} :
    {A : Type ℓ} (P : A → Type κ) (xs : List A) (a : A) (ys : List A) → All P (xs ++ (a ∷ ys)) → P a
All-middle P [] a ys h = h.0
All-middle P (x ∷ xs) a ys h = All-middle P xs a ys h.1

-- Text with a comma, of digits and colons otherwise.
parse-comma : (cs ds : Text) → ClockText cs → Digits ds → parse_timestamp (cs ++ (b',' ∷ ds)) ≡ none
unfolding parse_timestamp
parse-comma cs ds h k =
    let shape : All (λ c. (44 ≤ c) × (c ≤ 58) × (c ≢ 46)) (cs ++ (b',' ∷ ds)) =
      All-append _ cs _ (All-imp _ _ cs (λ c p. (omega arith, omega arith, omega arith)) h) (
        (omega arith, omega arith, omega arith),
        All-imp _ _ ds (λ c p. (omega arith, omega arith, omega arith)) k,
      ) in
    parse_timestamp-whole (cs ++ (b',' ∷ ds)) (All-imp _ _ _ comma-solid shape)
      (All-imp _ _ _ (λ c p. p.2) shape)
    ∙ parse_clock-ClockText (cs ++ (b',' ∷ ds)) 0
        (λ clock. omega (arith, All-middle _ cs b',' ds clock))

-- A timestamp written with milliseconds is refused, at every time.
pub parse_timestamp_millis : (ms : ℕ) → parse_timestamp (format_timestamp ms true) ≡ none
unfolding format_timestamp
parse_timestamp_millis ms =
    parse-comma _ (pad3 (ms % 3600000 % 60000 % 1000))
      (clock_text-ClockText (ms / 3600000) (ms % 3600000 / 60000) (ms % 3600000 % 60000 / 1000))
      (pad3-Digits _)
