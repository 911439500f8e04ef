-- ===== src/Chronicles/Service.antt =====
-- What chronicler/core/services/chronicle_service.py and the handlers fill in of a chronicle from its
-- project, and `refresh_speaker_count` of chronicler/core/services/transcript_service.py.
pub mod Hydration
use chronicler.Base.{
  ℕ, ◌+◌, ◌≡◌, refl, Bool, true, false, not, ◌&&◌, ◌||◌, Option, none, some, List, [], ◌∷◌, map,
  length, if◌then◌else◌, ◌==◌, ℕ_eq, List_eq, Option_eq,
}
use chronicler.Base.Table.{find}
use chronicler.Text.{Text, codes}
use chronicler.Models.{TranscriptLine}
use chronicler.Formatting.{format_duration, looks_synthetic}
use chronicler.Project.{Project, Speaker, LineOrder, get_lines}
use chronicler.KnownSpeakers.{Registry, register}
use chronicler.Handlers.{last_end}
use chronicler.Chronicles.{Archive, Chronicle, chronicle_key, create, update, add_tag}

-- A workspace, and the project database of one of its chronicles
pub record Workspace : Type 0 where
  pub archive : Archive
  pub project : Project
  pub known_speakers : Option Registry

abbrev pub get_by_id : ℕ → Archive → Option Chronicle
get_by_id id a = find chronicle_key id a.chronicles

unfoldable pub set_count : Option Chronicle → ℕ → Archive → Option Archive
set_count none count a = some a
set_count (some c) count a =
    if c.speakers_count == count then some a else update (record c { speakers_count = count }) a

-- `backfill_speakers_count`; `none` is an exception.
unfoldable pub backfill_speakers_count : ℕ → ℕ → Archive → Option Archive
unfolding set_count
backfill_speakers_count id count a = set_count (get_by_id id a) count a

-- The three tests of `_backfill_metadata`, and the chronicle behind them
abbrev pub with_metadata : ℕ → ℕ → Chronicle → Chronicle
with_metadata count duration_seconds c = record c {
  speakers_count = count;
  duration = some (format_duration duration_seconds);
  status = if c.status == codes "Imported" then codes "Transcribed" else c.status;
}

abbrev pub is_changed : ℕ → ℕ → Chronicle → Bool
is_changed count duration_seconds c =
    not (c.speakers_count == count)
    || not (c.duration == some (format_duration duration_seconds))
    || c.status == codes "Imported"

unfoldable pub write_metadata : Option Chronicle → ℕ → ℕ → Archive → Option Archive
write_metadata none count duration_seconds a = some a
write_metadata (some c) count duration_seconds a =
    if is_changed count duration_seconds c
    then update (with_metadata count duration_seconds c) a
    else some a

unfoldable pub backfill_metadata : ℕ → ℕ → ℕ → Archive → Option Archive
unfolding write_metadata
backfill_metadata id count duration_seconds a =
    write_metadata (get_by_id id a) count duration_seconds a

module _ (casefold : Text → Text) (order : LineOrder) (now : ℕ) where
  unfoldable pub remember_all : List Speaker → Registry → Registry
  remember_all [] rows = rows
  remember_all (s ∷ ss) rows = remember_all ss (register casefold now s.name rows).1

  abbrev pub remember_in : List Speaker → Option Registry → Option Registry
  remember_in speakers none = none
  remember_in speakers (some rows) = some (remember_all speakers rows)

  -- The count that it returns is that of the speakers.
  unfoldable pub refresh_speaker_count : ℕ → Workspace → Option Workspace
  unfolding backfill_speakers_count remember_all
  refresh_speaker_count id w =
      elim (backfill_speakers_count id (length w.project.speakers) w.archive) [
        | none ↦ none
        | some archive ↦ some (record w {
          archive = archive;
          known_speakers = remember_in w.project.speakers w.known_speakers;
        })
      ]

  abbrev pub some_lines : {A : Type 0} → List TranscriptLine → A → A → A
  some_lines [] filled empty = empty
  some_lines (l ∷ ls) filled empty = filled

  abbrev pub hydrated : ℕ → List TranscriptLine → Chronicle → Chronicle
  hydrated speakers lines c = record c {
    speakers_count = speakers;
    duration =
        some_lines lines
          (if looks_synthetic lines then c.duration else some (format_duration (last_end lines)))
          c.duration;
    status = some_lines lines (codes "Transcribed") c.status;
  }

  -- `get_by_id(chronicle_id) or chronicle`, and the update
  unfoldable pub write_hydrated :
      Option Chronicle → Chronicle → List TranscriptLine → Workspace → Option Workspace
  write_hydrated read before lines w =
      elim (update
        (hydrated (length w.project.speakers) lines (elim read [ none ↦ before | some c ↦ c ]))
        w.archive) [ none ↦ none | some archive ↦ some (record w { archive = archive }) ]

  unfoldable pub tag_transcript : ℕ → List TranscriptLine → Workspace → Option Workspace
  tag_transcript id lines w =
      elim (some_lines lines (add_tag id (codes "Transcript") w.archive) (some w.archive)) [
        | none ↦ none
        | some archive ↦ some (record w { archive = archive })
      ]

  abbrev pub then_write : Option Workspace → ℕ → Chronicle → List TranscriptLine → Option Workspace
  then_write none id before lines = none
  then_write (some w) id before lines = write_hydrated (get_by_id id w.archive) before lines w

  abbrev pub then_tag : Option Workspace → ℕ → Chronicle → List TranscriptLine → Option Workspace
  then_tag none id before lines = none
  then_tag (some w) id before lines = then_write (tag_transcript id lines w) id before lines

  unfoldable pub hydrate_from_project : ℕ → Workspace → Option Workspace
  unfolding refresh_speaker_count write_hydrated tag_transcript
  hydrate_from_project id w = elim (get_by_id id w.archive) [
    | none ↦ none
    | some before ↦ then_tag (refresh_speaker_count id w) id before (get_lines order w.project)
  ]
