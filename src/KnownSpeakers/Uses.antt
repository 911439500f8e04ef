-- ===== src/KnownSpeakers/Uses.antt =====
-- What the registry of chronicler/core/sqlite/known_speaker_repository.py holds after any calls of
-- `register`.
use chronicler.Base.{
  ℕ, suc, ◌+◌, ◌≡◌, refl, sym, ap, ◌∙◌, inl, inr, true, false, not, ◌&&◌, Bool, Bool-cases, Option,
  none, some, List, [], ◌∷◌, ℕ_eq, List_eq, ◌==◌, list_beq_iff, if◌then◌else◌, keep, length, arith,
}
use chronicler.Base.Table.{find, find-modify, find-append, IsKeyed, IsKeyed-snoc, IsKeyed-modify}
use chronicler.Text.{Text}
use chronicler.KnownSpeakers.{
  KnownSpeaker, Registry, key, cleaned, normalize_speaker_name, new_row, used, register_row,
  register_cleaned, register,
}

-- A call of `register`: when, and the name
abbrev pub Use : Type 0
Use = ℕ × Text

abbrev pub is_blank : Text → Bool
is_blank [] = true
is_blank (c ∷ cs) = false

abbrev pub oldest : Use → List Use → Use
oldest u [] = u
oldest u (v ∷ vs) = oldest v vs

module _ (casefold : Text → Text) where
  -- The registry after the calls, the newest first
  unfoldable pub after : List Use → Registry
  after [] = []
  after (u ∷ us) = (register casefold u.0 u.1 (after us)).1

  abbrev pub is_use : Text → Use → Bool
  is_use k u = not (is_blank (cleaned u.1)) && normalize_speaker_name casefold (cleaned u.1) == k

  -- What the calls for a key, the newest first, say of its row.
  abbrev pub told_by : Text → List Use → Option KnownSpeaker
  told_by k [] = none
  told_by k (u ∷ us) = some (record {
    name = cleaned (oldest u us).1;
    normalized_name = k;
    uses = length (u ∷ us);
    first_seen = (oldest u us).0;
    last_used = u.0;
  })

  abbrev used_or_new : ℕ → Text → Option KnownSpeaker → KnownSpeaker
  used_or_new now n none = new_row casefold now n
  used_or_new now n (some s) = used casefold now s

  register_row-find :
      (now : ℕ) (n k : Text) (o : Option KnownSpeaker) (rows : Registry)
      → find key (normalize_speaker_name casefold n) rows ≡ o
      → find key k (register_row casefold o now n rows).1 ≡ (
          if normalize_speaker_name casefold n == k
          then some (used_or_new now n o)
          else find key k rows)
  unfolding register_row find
  register_row-find now n k none rows h =
      find-append key k rows (new_row casefold now n ∷ [])
      ∙ ground (arith, list_beq_iff (normalize_speaker_name casefold n) k, h)
  register_row-find now n k (some s) rows h =
      find-modify key (used casefold now) (λ _. refl) k (normalize_speaker_name casefold n) rows
      ∙ rw h refl

  used_or_new-told_by :
      (k n : Text) (now : ℕ) (us : List Use)
      → normalize_speaker_name casefold (cleaned n) ≡ k
      → some (used_or_new now (cleaned n) (told_by k us)) ≡ told_by k ((now, n) ∷ us)
  used_or_new-told_by k n now [] e =
      ap (λ (j : Text). some (record (new_row casefold now (cleaned n)) { normalized_name = j })) e
  used_or_new-told_by k n now (u ∷ us) e =
      let more : length (u ∷ us) + 1 ≡ suc (length (u ∷ us)) = omega arith in
      ap
        (λ (i : ℕ). some (record {
          name = cleaned (oldest u us).1;
          normalized_name = k;
          uses = i;
          first_seen = (oldest u us).0;
          last_used = now;
        }))
        more

  register_cleaned-find :
      (now : ℕ) (n c k : Text) (us : List Use) (rows : Registry)
      → ((j : Text) → find key j rows ≡ told_by j (keep (is_use j) us))
      → cleaned n ≡ c
      → find key k (register_cleaned casefold now c rows).1
        ≡ told_by k (keep (is_use k) ((now, n) ∷ us))
  unfolding register_cleaned
  register_cleaned-find now n [] k us rows known e = rw e (known k)
  register_cleaned-find now n (c ∷ cs) k us rows known e =
      register_row-find now (c ∷ cs) k (find key (normalize_speaker_name casefold (c ∷ cs)) rows)
        rows refl
      ∙ elim (Bool-cases (normalize_speaker_name casefold (c ∷ cs) == k)) [
        | inl y ↦
            let same : normalize_speaker_name casefold (c ∷ cs) ≡ k =
              (list_beq_iff (normalize_speaker_name casefold (c ∷ cs)) k).0 y in
            let before = keep (is_use k) us in
            rw (e, y)
              (ap (λ (j : Text). some (used_or_new now (c ∷ cs) (find key j rows))) same
                ∙ ap (λ (o : Option KnownSpeaker). some (used_or_new now (c ∷ cs) o)) (known k)
                ∙ ap (λ (d : Text). some (used_or_new now d (told_by k before))) (sym e)
                ∙ used_or_new-told_by k n now before
                    (ap (normalize_speaker_name casefold) e ∙ same))
        | inr y ↦ rw (e, y) (known k)
      ]

  register_row-IsKeyed :
      (now : ℕ) (n : Text) (o : Option KnownSpeaker) (rows : Registry)
      → find key (normalize_speaker_name casefold n) rows ≡ o
      → IsKeyed key rows
      → IsKeyed key (register_row casefold o now n rows).1
  unfolding register_row
  register_row-IsKeyed now n none rows h keyed =
      IsKeyed-snoc key (new_row casefold now n) rows h keyed
  register_row-IsKeyed now n (some s) rows h keyed =
      IsKeyed-modify key (used casefold now) (λ _. refl) (normalize_speaker_name casefold n) rows
        keyed

  register_cleaned-IsKeyed :
      (now : ℕ) (c : Text) (rows : Registry)
      → IsKeyed key rows
      → IsKeyed key (register_cleaned casefold now c rows).1
  unfolding register_cleaned
  register_cleaned-IsKeyed now [] rows keyed = keyed
  register_cleaned-IsKeyed now (c ∷ cs) rows keyed =
      register_row-IsKeyed now (c ∷ cs) (find key (normalize_speaker_name casefold (c ∷ cs)) rows)
        rows refl keyed

  after-find :
      (calls : List Use) (k : Text) → find key k (after calls) ≡ told_by k (keep (is_use k) calls)
  unfolding after register find
  after-find [] k = refl
  after-find ((now, n) ∷ us) k =
      register_cleaned-find now n (cleaned n) k us (after us) (after-find us) refl

  after-IsKeyed : (calls : List Use) → IsKeyed key (after calls)
  unfolding after register
  after-IsKeyed [] = tt
  after-IsKeyed ((now, n) ∷ us) =
      register_cleaned-IsKeyed now (cleaned n) (after us) (after-IsKeyed us)

  -- After any calls no two rows of the registry have one normalized name. For each normalized name
  -- there is a row just when some call had it, and the row says how often the name was used, when
  -- first and when last, and how it was written at first.
  pub after-told_by :
      (calls : List Use)
      → IsKeyed key (after calls)
        × ((k : Text) → find key k (after calls) ≡ told_by k (keep (is_use k) calls))
  after-told_by calls = (after-IsKeyed calls, after-find calls)
