-- ===== src/Sources/Status.antt =====
-- What the columns of chronicler/core/sqlite/audio_source_repository.py and the properties of
-- `AudioSource` (chronicler/core/models.py) say of the calls made.
use chronicler.Base.{
  ℕ, ◌≡◌, refl, sym, ◌∙◌, true, false, Option, none, some, List, [], ◌∷◌, if◌then◌else◌, String,
  String_eq, Option_eq, ◌==◌, arith, subst,
}
use chronicler.Base.Table.{find}
use chronicler.Models.{source_done, source_failed, SourceState_eq}
use chronicler.Sources.{
  AudioSource, Sources, name, assign, Write, set_speaker, set_start_offset, mark_transcribing,
  mark_transcribed, mark_transcription_failed, mark_normalizing, mark_normalized,
  mark_normalization_failed, Call, registers, writes, deletes, after, has,
}
use chronicler.Sources.History.{target, effect, latest, after-latest}

abbrev pub Holds : (AudioSource → Type 0) → Option AudioSource → Type 0
Holds P none = Unit
Holds P (some s) = P s

-- An error is recorded exactly while the state is FAILED, and DONE comes with what it produced.
abbrev pub Consistent : AudioSource → Type 0
Consistent s =
    (has s.transcription_error ≡ (s.transcription_state == source_failed))
    × (s.transcription_state ≡ source_done → has s.transcribed_at ≡ true)
    × (has s.normalization_error ≡ (s.normalization_state == source_failed))
    × (s.normalization_state ≡ source_done → has s.normalized_filename ≡ true)

assign-Consistent :
    (now : ℕ) (w : Write) (s : AudioSource) → Consistent s → Consistent (assign now w s)
unfolding assign
assign-Consistent now (set_speaker _) s h = h
assign-Consistent now (set_start_offset _) s h = h
assign-Consistent now mark_transcribing s (_, _, c, d) = (refl, λ e. ground (arith, e), c, d)
assign-Consistent now (mark_transcribed _ _ _) s (_, _, c, d) = (refl, λ _. refl, c, d)
assign-Consistent now (mark_transcription_failed _) s (_, _, c, d) =
    (refl, λ e. ground (arith, e), c, d)
assign-Consistent now mark_normalizing s (a, b, _, _) = (a, b, refl, λ e. ground (arith, e))
assign-Consistent now (mark_normalized _ _ _ _) s (a, b, _, _) = (a, b, refl, λ _. refl)
assign-Consistent now (mark_normalization_failed _) s (a, b, _, _) =
    (a, b, refl, λ e. ground (arith, e))

effect-Consistent :
    (c : Call) (o : Option AudioSource) → Holds Consistent o → Holds Consistent (effect c o)
effect-Consistent (registers now f hash size duration) none h =
    (refl, λ e. ground (arith, e), refl, λ e. ground (arith, e))
effect-Consistent (registers now f hash size duration) (some s) h = h
effect-Consistent (writes now f w) none h = tt
effect-Consistent (writes now f w) (some s) h = assign-Consistent now w s h
effect-Consistent (deletes f) o h = tt

latest-Consistent : (f : String) (calls : List Call) → Holds Consistent (latest f calls)
unfolding latest
latest-Consistent f [] = tt
latest-Consistent f (c ∷ calls) =
    elim (target c == f)
      as (λ b. Holds Consistent (if b then effect c (latest f calls) else latest f calls)) [
        | true ↦ effect-Consistent c (latest f calls) (latest-Consistent f calls)
        | false ↦ latest-Consistent f calls
      ]

-- Whatever calls were made on a new project's table without an error, each row records an error of a
-- step exactly while that step's state is FAILED, has a time of transcription if its transcription is
-- DONE, and names a normalized file if its normalization is DONE.
pub after-Consistent :
    (calls : List Call) (db : Sources) (f : String) (s : AudioSource)
    → after calls ≡ some db
    → find name f db ≡ some s
    → Consistent s
after-Consistent calls db f s h found =
    subst (λ (o : Option AudioSource). Holds Consistent o) (sym (after-latest calls db f h) ∙ found)
      (latest-Consistent f calls)
