-- ===== src/Sources.antt =====
-- chronicler/core/sqlite/audio_source_repository.py: a project's tracks, one row for each file name.
-- `none` is the `KeyError` of `_require`. The speaker's name, which a join reads, is left out. A
-- loudness, which is only stored, is a number of hundredths below zero.
pub mod History
pub mod Status
pub mod Current
mod Examples
use chronicler.Base.{
  ℕ, ◌≡◌, Bool, true, false, not, ◌&&◌, Option, none, some, List, [], ◌∷◌, ◌++◌, String, keep,
  Equality, ◌==◌, String_eq, Option_eq, or_else, ◌↔◌,
}
use chronicler.Base.Table.{find, modify}
use chronicler.Models.{
  SourceState, source_pending, source_running, source_done, source_failed, SourceState_eq,
}

-- What `datetime.now()` and `uuid4()` give to a new row
pub record Fresh : Type 0 where
  pub time : ℕ
  pub uuid : ℕ

pub record AudioSource : Type 0 where
  pub id : ℕ
  pub filename : String
  pub content_hash : Option String
  pub size_bytes : Option ℕ
  pub duration_seconds : Option ℕ
  pub added_at : ℕ
  pub start_offset : ℕ
  pub speaker_id : Option ℕ
  pub transcription_state : SourceState
  pub transcription_error : Option String
  pub transcribed_at : Option ℕ
  pub transcribed_hash : Option String
  pub transcription_language : Option String
  pub transcription_model : Option String
  pub normalization_state : SourceState
  pub normalization_error : Option String
  pub normalized_at : Option ℕ
  pub normalized_hash : Option String
  pub normalized_filename : Option String
  pub loudness_before : Option ℕ
  pub loudness_after : Option ℕ

abbrev pub has {ℓ} : {A : Type ℓ} → Option A → Bool
has none = false
has (some a) = true

unfoldable pub is_transcribed : AudioSource → Bool
is_transcribed s =
    s.transcription_state == source_done
    && has s.transcribed_hash
    && s.transcribed_hash == s.content_hash

unfoldable pub is_normalized : AudioSource → Bool
is_normalized s =
    s.normalization_state == source_done
    && has s.normalized_hash
    && s.normalized_hash == s.content_hash
    && has s.normalized_filename

abbrev pub Sources : Type 0
Sources = List AudioSource

abbrev pub name : AudioSource → String
name s = s.filename

abbrev pub new_source : Fresh → String → AudioSource
new_source now f = record {
  id = now.uuid;
  filename = f;
  content_hash = none;
  size_bytes = none;
  duration_seconds = none;
  added_at = now.time;
  start_offset = 0;
  speaker_id = none;
  transcription_state = source_pending;
  transcription_error = none;
  transcribed_at = none;
  transcribed_hash = none;
  transcription_language = none;
  transcription_model = none;
  normalization_state = source_pending;
  normalization_error = none;
  normalized_at = none;
  normalized_hash = none;
  normalized_filename = none;
  loudness_before = none;
  loudness_after = none;
}

abbrev pub with_content : Option String → Option ℕ → Option ℕ → AudioSource → AudioSource
with_content hash size duration s = record s {
  content_hash = hash;
  size_bytes = or_else size s.size_bytes;
  duration_seconds = or_else duration s.duration_seconds;
}

-- The row of the file as it is found, or a new one
unfoldable pub assign_row :
    Option AudioSource → Fresh → String → (AudioSource → AudioSource) → Sources → Sources
assign_row none now f change db = db ++ (change (new_source now f) ∷ [])
assign_row (some _) now f change db = modify name f change db

unfoldable pub register : Fresh → String → Option String → Option ℕ → Option ℕ → Sources → Sources
unfolding assign_row
register now f hash size duration db =
    assign_row (find name f db) now f (with_content hash size duration) db

-- A method that requires the row and assigns to it.
unfoldable pub update_row :
    Option AudioSource → String → (AudioSource → AudioSource) → Sources → Option Sources
update_row none f change db = none
update_row (some _) f change db = some (modify name f change db)

unfoldable pub update : String → (AudioSource → AudioSource) → Sources → Option Sources
unfolding update_row
update f change db = update_row (find name f db) f change db

-- The methods of the repository that write, with their arguments but the file's name.
pub data Write : Type 0 where
  set_speaker : Option ℕ → Write
  set_start_offset : ℕ → Write
  mark_transcribing : Write
  mark_transcribed : Option String → Option String → Option String → Write
  mark_transcription_failed : String → Write
  mark_normalizing : Write
  mark_normalized : Option String → String → Option ℕ → Option ℕ → Write
  mark_normalization_failed : String → Write

-- What each assigns.
unfoldable pub assign : ℕ → Write → AudioSource → AudioSource
assign now (set_speaker speaker) s = record s { speaker_id = speaker }
assign now (set_start_offset offset) s = record s { start_offset = offset }
assign now mark_transcribing s = record s {
  transcription_state = source_running;
  transcription_error = none;
}
assign now (mark_transcribed hash language model) s = record s {
  transcription_state = source_done;
  transcription_error = none;
  transcribed_at = some now;
  transcribed_hash = hash;
  transcription_language = language;
  transcription_model = model;
}
assign now (mark_transcription_failed error) s = record s {
  transcription_state = source_failed;
  transcription_error = some error;
}
assign now mark_normalizing s = record s {
  normalization_state = source_running;
  normalization_error = none;
}
assign now (mark_normalized hash filename before after) s = record s {
  normalization_state = source_done;
  normalization_error = none;
  normalized_at = some now;
  normalized_hash = hash;
  normalized_filename = some filename;
  loudness_before = before;
  loudness_after = after;
}
assign now (mark_normalization_failed error) s = record s {
  normalization_state = source_failed;
  normalization_error = some error;
}

unfoldable pub delete : String → Sources → Sources
delete f db = keep (λ s. not (name s == f)) db

pub data Call : Type 0 where
  registers : Fresh → String → Option String → Option ℕ → Option ℕ → Call
  writes : ℕ → String → Write → Call
  deletes : String → Call

unfoldable pub perform : Call → Sources → Option Sources
unfolding register update assign delete
perform (registers now f hash size duration) db = some (register now f hash size duration db)
perform (writes now f w) db = update f (assign now w) db
perform (deletes f) db = some (delete f db)

-- The calls made on a new project's table, the newest first.
unfoldable pub after : List Call → Option Sources
unfolding perform
after [] = some []
after (c ∷ calls) = elim (after calls) [ none ↦ none | some db ↦ perform c db ]
