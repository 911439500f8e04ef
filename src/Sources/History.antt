-- ===== src/Sources/History.antt =====
-- The rows of chronicler/core/sqlite/audio_source_repository.py told by their history: what a file's
-- row holds depends on the calls for that file only.
use mathlib.Core.Option
use chronicler.Base.{
  ℕ, ◌≡◌, refl, sym, subst, ap, ◌∙◌, inl, inr, Bool-cases, Option-cases, Option, none, some, List,
  [], ◌∷◌, if◌then◌else◌, String, String_eq, ◌==◌, arith,
}
use chronicler.Base.Table.{find, modify, find-modify, find-append, find-keep}
use chronicler.Sources.{
  AudioSource, Fresh, Sources, name, new_source, with_content, register, assign_row, update,
  update_row, delete, assign, Write, set_speaker, set_start_offset, mark_transcribing,
  mark_transcribed, mark_transcription_failed, mark_normalizing, mark_normalized,
  mark_normalization_failed, Call, registers, writes, deletes, perform, after,
}

abbrev pub target : Call → String
target (registers _ f _ _ _) = f
target (writes _ f _) = f
target (deletes f) = f

-- The row that there is, or a new one
abbrev pub row_or_new : Option AudioSource → AudioSource → AudioSource
row_or_new none s = s
row_or_new (some s) _ = s

-- What a call for a file makes of its row.
abbrev pub effect : Call → Option AudioSource → Option AudioSource
effect (registers now f hash size duration) o =
    some (with_content hash size duration (row_or_new o (new_source now f)))
effect (writes now f w) o = Option.map (assign now w) o
effect (deletes f) o = none

-- A file's row after the calls, the newest first.
unfoldable pub latest : String → List Call → Option AudioSource
latest f [] = none
latest f (c ∷ calls) = if target c == f then effect c (latest f calls) else latest f calls

pub name-assign : (now : ℕ) (w : Write) (s : AudioSource) → name (assign now w s) ≡ name s
unfolding assign
name-assign now (set_speaker _) s = refl
name-assign now (set_start_offset _) s = refl
name-assign now mark_transcribing s = refl
name-assign now (mark_transcribed _ _ _) s = refl
name-assign now (mark_transcription_failed _) s = refl
name-assign now mark_normalizing s = refl
name-assign now (mark_normalized _ _ _ _) s = refl
name-assign now (mark_normalization_failed _) s = refl

module _ (f g : String) (db : Sources) where
  pub assign_row-find :
      (o : Option AudioSource) (now : Fresh) (change : AudioSource → AudioSource)
      → ((s : AudioSource) → name (change s) ≡ name s)
      → find name f db ≡ o
      → find name g (assign_row o now f change db)
        ≡ (if f == g then some (change (row_or_new o (new_source now f))) else find name g db)
  unfolding assign_row find
  assign_row-find none now change same h =
      find-append name g db (change (new_source now f) ∷ [])
      ∙ ground (arith, same (new_source now f), String_eq.test_iff f g, h)
  assign_row-find (some s) now change same h = find-modify name change same g f db ∙ rw h refl

  update_row-find :
      (o : Option AudioSource) (change : AudioSource → AudioSource) (db' : Sources)
      → ((s : AudioSource) → name (change s) ≡ name s)
      → find name f db ≡ o
      → update_row o f change db ≡ some db'
      → find name g db' ≡ (if f == g then Option.map change o else find name g db)
  unfolding update_row
  update_row-find none change db' same h done = ground (arith, done)
  update_row-find (some s) change db' same h done =
      let it : modify name f change db ≡ db' = ground (arith, done) in
      rw (← it) (find-modify name change same g f db ∙ rw h refl)

  perform-find :
      (c : Call) (db' : Sources)
      → target c ≡ f
      → perform c db ≡ some db'
      → find name g db' ≡ (if f == g then effect c (find name f db) else find name g db)
  unfolding perform register update delete
  perform-find (registers now j hash size duration) db' same done =
      let it : register now j hash size duration db ≡ db' = ground (arith, done) in
      rw (← it) (
        subst
          (λ (k : String). find name g (register now k hash size duration db) ≡ (
            if f == g
            then effect (registers now k hash size duration) (find name f db)
            else find name g db))
          (sym same)
          (assign_row-find (find name f db) now (with_content hash size duration) (λ _. refl) refl))
  perform-find (writes now j w) db' same done =
      update_row-find (find name f db) (assign now w) db' (name-assign now w) refl (rw same at done)
  perform-find (deletes j) db' same done =
      let it : delete j db ≡ db' = ground (arith, done) in
      rw (← it) (rw same (find-keep name f g db))

-- The row of each file after a run of calls that raised nothing is what that file's own calls make of
-- it, one after the other, whatever the calls for other files were.
pub after-latest :
    (calls : List Call) (db : Sources) (f : String)
    → after calls ≡ some db
    → find name f db ≡ latest f calls
unfolding after latest find
after-latest [] db f h = let nothing : [] ≡ db = ground (arith, h) in rw (← nothing) refl
after-latest (c ∷ calls) db f h = elim (Option-cases (after calls)) [
  | inl e ↦ let bad : none ≡ some db = rw e at h in ground (arith, bad)
  | inr (before, e) ↦
      let done : perform c before ≡ some db = rw e at h in
      perform-find (target c) f before c db refl done ∙ elim (Bool-cases (target c == f)) [
        | inl is_f ↦
            let same : target c ≡ f = (String_eq.test_iff (target c) f).0 is_f in
            rw is_f (
              ap (λ (o : Option AudioSource). effect c o) (rw same (after-latest calls before f e)))
        | inr other ↦ rw other (after-latest calls before f e)
      ]
]
