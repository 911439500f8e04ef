-- ===== src/Summary/Chunks.antt =====
-- `chunk_transcript` of chronicler/core/processing/summarizer.py.
use mathlib.Core.List.{append-nil, append_assoc}
use chronicler.Base.{
  ℕ, ◌+◌, ◌≤◌, ◌<◌, ◌≡◌, ◌≢◌, refl, sym, ap, ◌∙◌, ◌⊎◌, inl, inr, true, false, Bool-cases, List, [],
  ◌∷◌, ◌++◌, length, length-append, All, All_of_In, In, arith,
}
use chronicler.Text.{Text, join, strip}
use chronicler.Models.{TranscriptLine}
use chronicler.Summary.{
  nl, turn, turns, transcript_text, chunk_from, chunk_transcript, is_empty, is_full,
}

join-cons : (t : Text) (ts : List Text) → ts ≢ [] → join nl (t ∷ ts) ≡ t ++ (nl ++ join nl ts)
unfolding join
join-cons t [] h = absurd (h refl)
join-cons t (u ∷ ts) h = append_assoc t nl (join nl (u ∷ ts))

join_one : (t : Text) → join nl (t ∷ []) ≡ t
unfolding join
join_one t = refl

append_ne : (ts us : List Text) → us ≢ [] → ts ++ us ≢ []
append_ne [] us h e = h e
append_ne (t ∷ ts) us h e = ground (arith, e)

-- Joining in two steps is joining at once.
join-append :
    (ts us : List Text) → ts ≢ [] → us ≢ [] → join nl (ts ++ us) ≡ join nl ts ++ (nl ++ join nl us)
join-append [] us h k = absurd (h refl)
join-append (t ∷ []) us h k =
    join-cons t us k ∙ ap (λ (x : Text). x ++ (nl ++ join nl us)) (sym (join_one t))
join-append (t ∷ u ∷ ts) us h k =
    join-cons t ((u ∷ ts) ++ us) (λ e. ground (arith, e))
    ∙ ap (λ (x : Text). t ++ (nl ++ x)) (join-append (u ∷ ts) us (λ e. ground (arith, e)) k)
    ∙ sym (append_assoc t (nl ++ join nl (u ∷ ts)) (nl ++ join nl us))
    ∙ ap (λ (x : Text). x ++ (nl ++ join nl us))
        (sym (join-cons t (u ∷ ts) (λ e. ground (arith, e))))

-- What a chunk may be: below the limit, or one turn.
abbrev pub Fits : ℕ → List Text → Text → Type 0
Fits limit all c = (length c < limit) ⊎ In c all

total : List Text → ℕ
total [] = 0
total (t ∷ ts) = length t + 1 + total ts

total-append : (ts us : List Text) → total (ts ++ us) ≡ total ts + total us
unfolding total
total-append [] us = omega arith
total-append (t ∷ ts) us = omega (arith, total-append ts us)

length-join : (ts : List Text) → ts ≢ [] → length (join nl ts) + 1 ≡ total ts
unfolding total
length-join [] h = absurd (h refl)
length-join (t ∷ []) h = rw (join_one t) (omega arith)
length-join (t ∷ u ∷ ts) h = rw (join-cons t (u ∷ ts) (λ e. ground (arith, e))) (
    omega (
      arith,
      length-append t (nl ++ join nl (u ∷ ts)),
      length-append nl (join nl (u ∷ ts)),
      length-join (u ∷ ts) (λ e. ground (arith, e)),
    ))

is_full_ne :
    (limit : ℕ) (current : List Text) (size : ℕ) → is_full limit current size ≡ true → current ≢ []
unfolding is_full
is_full_ne limit [] size h e = ground (arith, h)
is_full_ne limit (t ∷ ts) size h e = ground (arith, e)

-- The chunks from here on, and what they are when joined.
chunk_from-join :
    (limit : ℕ) (current : List Text) (size : ℕ) (ls : List TranscriptLine)
    → (join nl (chunk_from limit current size ls) ≡ join nl (current ++ turns ls))
      × (current ≢ [] → chunk_from limit current size ls ≢ [])
unfolding chunk_from turns
chunk_from-join limit [] size [] = (refl, λ h e. h e)
chunk_from-join limit (t ∷ ts) size [] = (
  join_one (join nl (t ∷ ts)) ∙ ap (λ (x : List Text). join nl x) (sym (append-nil (t ∷ ts))),
  λ h e. ground (arith, e),
)
chunk_from-join limit current size (l ∷ ls) =
    let t = turn l in
    let again = chunk_from-join limit (t ∷ []) (length t + 1) ls in
    let longer = chunk_from-join limit (current ++ (t ∷ [])) (size + (length t + 1)) ls in
    elim (Bool-cases (is_empty (strip l.text))) [
      | inl e ↦ rw e (chunk_from-join limit current size ls)
      | inr e ↦ elim (Bool-cases (is_full limit current (size + (length t + 1)))) [
        | inl f ↦
            rw (e, f)
              (
                join-cons (join nl current) _ (again.1 (λ h. ground (arith, h)))
                    ∙ ap (λ (x : Text). join nl current ++ (nl ++ x)) again.0
                    ∙ sym (
                        join-append current (t ∷ turns ls) (is_full_ne limit current _ f)
                          (λ h. ground (arith, h))),
                λ _ h. ground (arith, h),
              )
        | inr f ↦
            rw (e, f)
              (
                longer.0
                    ∙ ap (λ (x : List Text). join nl x) (append_assoc current (t ∷ []) (turns ls)),
                λ _. longer.1 (append_ne current (t ∷ []) (λ h. ground (arith, h))),
              )
      ]
    ]

no_total : 0 ≡ total []
unfolding total
no_total = refl

one_total : (t : Text) → length t + 1 ≡ total (t ∷ [])
unfolding total
one_total t = omega arith

-- While the loop runs, `current` is one turn or has room below the limit.
abbrev Open : ℕ → List Text → List Text → ℕ → Type 0
Open limit all current size =
    (size ≡ total current)
    × ((current ≡ []) ⊎ (((t : Text) × (current ≡ t ∷ []) × In t all) ⊎ (size ≤ limit)))

Open-Fits :
    (limit : ℕ) (all current : List Text) (size : ℕ)
    → Open limit all current size
    → current ≢ []
    → Fits limit all (join nl current)
Open-Fits limit all current size (e, inl nothing) h = absurd (h nothing)
Open-Fits limit all current size (e, inr (inl (t, one, found))) h =
    inr (rw one (rw (join_one t) found))
Open-Fits limit all current size (e, inr (inr room)) h =
    inl (omega (arith, e, room, length-join current h))

Open-extended :
    (limit : ℕ) (all current : List Text) (size : ℕ) (t : Text)
    → Open limit all current size
    → In t all
    → is_full limit current (size + (length t + 1)) ≡ false
    → Open limit all (current ++ (t ∷ [])) (size + (length t + 1))
unfolding is_full total
Open-extended limit all [] size t (e, _) found h = (omega (arith, e), inr (inl (t, refl, found)))
Open-extended limit all (c ∷ cs) size t (e, _) found h =
    (omega (arith, e, total-append (c ∷ cs) (t ∷ [])), inr (inr (ground (arith, h))))

chunk_from-Fits :
    (limit : ℕ) (all current : List Text) (size : ℕ) (ls : List TranscriptLine)
    → Open limit all current size
    → All (λ t. In t all) (turns ls)
    → All (Fits limit all) (chunk_from limit current size ls)
unfolding chunk_from turns
chunk_from-Fits limit all [] size [] ready found = tt
chunk_from-Fits limit all (t ∷ ts) size [] ready found =
    (Open-Fits limit all (t ∷ ts) size ready (λ h. ground (arith, h)), tt)
chunk_from-Fits limit all current size (l ∷ ls) ready found =
    let t = turn l in
    elim (Bool-cases (is_empty (strip l.text))) [
      | inl e ↦ rw e (chunk_from-Fits limit all current size ls ready (rw e at found))
      | inr e ↦
          let (now, later) : All (λ t. In t all) (t ∷ turns ls) = rw e at found in
          elim (Bool-cases (is_full limit current (size + (length t + 1)))) [
            | inl f ↦
                rw (e, f)
                  (
                    Open-Fits limit all current size ready (is_full_ne limit current _ f),
                    chunk_from-Fits limit all (t ∷ []) (length t + 1) ls
                        (one_total t, inr (inl (t, refl, now))) later,
                  )
            | inr f ↦
                rw (e, f)
                  (chunk_from-Fits limit all (current ++ (t ∷ [])) (size + (length t + 1)) ls
                    (Open-extended limit all current size t ready now f) later)
          ]
    ]

-- Joined by line ends the chunks are the whole transcript, so no turn is lost, cut or moved, and each
-- chunk is shorter than the limit unless it is a single turn.
pub chunk_transcript-lossless :
    (lines : List TranscriptLine) (max_characters : ℕ)
    → (join nl (chunk_transcript lines max_characters) ≡ transcript_text lines)
      × All (Fits max_characters (turns lines)) (chunk_transcript lines max_characters)
unfolding chunk_transcript transcript_text
chunk_transcript-lossless lines max_characters = (
  (chunk_from-join max_characters [] 0 lines).0,
  chunk_from-Fits max_characters (turns lines) [] 0 lines (no_total, inl refl)
      (All_of_In _ (turns lines) (λ t m. m)),
)
