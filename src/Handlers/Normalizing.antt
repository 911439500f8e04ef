-- ===== src/Handlers/Normalizing.antt =====
-- chronicler/core/processing/handlers/normalizing.py, with `normalized_path_for` of
-- chronicler/core/processing/normalizer.py. Hashing, levelling and `Path.suffix` are parameters; a
-- recording is a number. `_source_record` and the state writes commit one by one.
pub mod Made
pub mod Copies
pub mod Files
mod Examples
use Prim.Native.String
use chronicler.Base.{
  ℕ, ◌+◌, ◌≡◌, Bool, true, false, not, ◌&&◌, Option, none, some, List, [], ◌∷◌, ◌++◌, if◌then◌else◌,
  String, String_eq, ◌==◌,
}
use chronicler.Base.Table.{find, modify}
use chronicler.Models.{source_running, SourceState_eq}
use chronicler.Sources.{
  Sources, AudioSource, name, register, update, assign, has, is_normalized, Write, mark_normalizing,
  mark_normalized, mark_normalization_failed, mark_transcription_failed,
}

pub record Audio : Type 0 where
  pub filename : String
  pub content : ℕ

abbrev pub file : Audio → String
file a = a.filename

-- The tracks' table, and the sources directory
pub record Studio : Type 0 where
  pub sources : Sources
  pub next : ℕ
  pub disk : List Audio

-- `NormalizationResult`, with what the output file holds in place of its path
pub record Levelled : Type 0 where
  pub content : ℕ
  pub loudness_before : Option ℕ
  pub loudness_after : Option ℕ

pub record Engine : Type 0 where
  pub fingerprint : ℕ → String
  pub size : ℕ → ℕ
  pub level : ℕ → Option Levelled
  pub stem : String → String
  pub failure : String

-- Writing a file that there is or is not
unfoldable pub put_from : Option Audio → String → ℕ → List Audio → List Audio
put_from none f content disk = disk ++ (record { filename = f; content = content } ∷ [])
put_from (some _) f content disk = modify file f (λ a. record a { content = content }) disk

unfoldable pub put : String → ℕ → List Audio → List Audio
unfolding put_from
put f content disk = put_from (find file f disk) f content disk

abbrev pub content_of : Option Audio → Option ℕ
content_of none = none
content_of (some a) = some a.content

abbrev pub apply_to : {A : Type 0} → (ℕ → A) → Option Audio → Option A
apply_to h none = none
apply_to h (some a) = some (h a.content)

module _ (engine : Engine) (now : ℕ) where
  abbrev pub normalized_path_for : String → String
  normalized_path_for f = Prim.Native.String.◌++◌ (engine.stem f) ".normalized.wav"

  unfoldable pub source_record : String → Studio → Studio
  source_record f w = record w {
    sources =
        register (record { time = now; uuid = w.next }) f
          (apply_to engine.fingerprint (find file f w.disk))
          (apply_to engine.size (find file f w.disk)) none w.sources;
    next = w.next + 1;
  }

  -- `none` is the `KeyError` of a file without a row.
  unfoldable pub write_row : String → Write → Studio → Option Studio
  write_row f write w = elim (update f (assign now write) w.sources) [
    | none ↦ none
    | some sources ↦ some (record w { sources = sources })
  ]

  -- `except KeyError: rollback`
  unfoldable pub mark_failed : String → Studio → Studio
  unfolding write_row
  mark_failed f w = elim (write_row f (mark_normalization_failed engine.failure) w) [
    | none ↦ w
    | some w' ↦ w'
  ]

  abbrev pub has_copy : Option AudioSource → List Audio → Bool
  has_copy none disk = false
  has_copy (some s) disk =
      is_normalized s
      && elim s.normalized_filename [ none ↦ false | some f ↦ has (find file f disk) ]

  abbrev pub level_at : Option Audio → Option Levelled
  level_at none = none
  level_at (some a) = engine.level a.content

  -- What `ensure_normalized` returns, and what it leaves: an outer `none` is an exception, an inner one
  -- a copy that there is already.
  abbrev pub Normalized : Type 0
  Normalized = Option (Option String) × Studio

  abbrev pub or_failed : Option Studio → String → Studio → Normalized
  or_failed none f w = (none, w)
  or_failed (some w') f w = (some (some (normalized_path_for f)), w')

  unfoldable pub finish : Option Levelled → String → Studio → Normalized
  unfolding mark_failed write_row put
  finish none f w = (none, mark_failed f w)
  finish (some l) f w =
      let written = record w { disk = put (normalized_path_for f) l.content w.disk } in
      or_failed
        (write_row f
          (mark_normalized (apply_to engine.fingerprint (find file f written.disk))
            (normalized_path_for f) l.loudness_before l.loudness_after)
          written)
        f written

  unfoldable pub run_normalizer : Option Studio → String → Studio → Normalized
  unfolding finish
  run_normalizer none f w = (none, w)
  run_normalizer (some w') f w = finish (level_at (find file f w'.disk)) f w'

  unfoldable pub ensure_normalized : Bool → String → Studio → Normalized
  unfolding source_record write_row run_normalizer
  ensure_normalized force f w =
      let seen = source_record f w in
      if not force && has_copy (find name f seen.sources) seen.disk
      then (some none, seen)
      else run_normalizer (write_row f mark_normalizing seen) f seen

  abbrev pub copy_or : String → Option AudioSource → List Audio → String
  copy_or f none disk = f
  copy_or f (some s) disk =
      if is_normalized s
      then elim s.normalized_filename [
        | none ↦ f
        | some g ↦ if has (find file g disk) then g else f
      ]
      else f

  unfoldable pub transcription_source : String → Studio → String × Studio
  unfolding source_record
  transcription_source f w =
      let seen = source_record f w in (copy_or f (find name f seen.sources) seen.disk, seen)

  abbrev pub if_running : Bool → Option Studio → Studio → Option Studio
  if_running true written w = written
  if_running false written w = some w

  -- The track of a task that recovery failed, and what it said it was doing.
  unfoldable pub release_from : Option AudioSource → String → String → Bool → Studio → Option Studio
  unfolding write_row
  release_from none f error transcription w = some w
  release_from (some s) f error transcription w =
      elim (if_running (transcription && s.transcription_state == source_running)
        (write_row f (mark_transcription_failed error) w) w) [
          | none ↦ none
          | some w' ↦
              if_running (s.normalization_state == source_running)
                (write_row f (mark_normalization_failed error) w') w'
        ]

  unfoldable pub release_source : String → String → Bool → Studio → Option Studio
  unfolding release_from
  release_source f error transcription w =
      release_from (find name f w.sources) f error transcription w
