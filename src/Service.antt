-- ===== src/Service.antt =====
-- chronicler/core/services/task_service.py: the tasks that the user queues, with their payloads, and
-- `transcription_parameters` of chronicler/core/processing/handlers/transcribing.py, which reads one of
-- them back. Python's pattern parser is the parameter of the guard.
pub mod Payloads
pub mod Queued
mod Examples
use Prim.Native.String
use chronicler.Base.{
  ℕ, ◌≡◌, Bool, true, false, not, Option, none, some, List, [], ◌∷◌, ◌++◌, String, String_eq, ◌==◌,
  Equality, if◌then◌else◌,
}
use chronicler.Text.{codes, Text}
use chronicler.Models.{
  Task, TaskType, import_, transcribe, normalize, summarize, clean, pending, Json, text, int, real,
  flag, object, Payload, new_task,
}
use chronicler.Queue.{Db, create, update_status}
use chronicler.Regex.{Pattern, Checked, safe, unsafe, assert_safe_pattern}

unfoldable pub max_attempts_for : TaskType → ℕ → ℕ
max_attempts_for transcribe default = 1
max_attempts_for _ default = default

-- `none` is an exception: of the guard, or of a second row with one id.
unfoldable pub create_task : Task → Db → Option (Db × Task)
unfolding max_attempts_for
create_task t db = create (record t { max_attempts = max_attempts_for t.type t.max_attempts }) db

abbrev pub nonempty : Option String → Bool
nonempty none = false
nonempty (some s) = not (s == "")

-- A payload with one field, if it is given
abbrev pub field : String → Option Json → Payload
field name none = []
field name (some v) = (name, v) ∷ []

abbrev pub as_text : Option String → Option Json
as_text none = none
as_text (some s) = some (text s)

abbrev pub as_int : Option ℕ → Option Json
as_int none = none
as_int (some n) = some (int n)

abbrev pub as_real : Option ℕ → Option Json
as_real none = none
as_real (some n) = some (real n)

abbrev pub as_flag : Option Bool → Option Json
as_flag none = none
as_flag (some b) = some (flag b)

-- `if value: data[name] = value`
abbrev pub if_text : Option String → Option Json
if_text s = if nonempty s then as_text s else none

abbrev pub if_true : Bool → Option Json
if_true true = some (flag true)
if_true false = none

-- `data.get(name)`
unfoldable pub get : String → Payload → Option Json
get name [] = none
get name ((k, v) ∷ payload) = if k == name then some v else get name payload

abbrev pub import_data : String → Payload → Bool → Payload
import_data file_path regex_data append =
    ("file_path", text file_path) ∷ (regex_data ++ field "append" (if_true append))

abbrev pub regex_fields : String → ℕ → ℕ → Option ℕ → Payload
regex_fields regex speaker_group text_group timestamp_group =
    ("regex", text regex)
    ∷ ("speaker_group", int speaker_group)
    ∷ ("text_group", int text_group)
    ∷ field "timestamp_group" (as_int timestamp_group)

abbrev pub transcribe_data :
    String → String → Option String → Option ℕ → Option String → Option Bool → Option ℕ → Payload
transcribe_data file_path speaker_name language no_speech_threshold model_size normalize_first
      start_offset =
    ("file_path", text file_path)
    ∷ ("speaker_name", text speaker_name)
    ∷ (field "language" (as_text language)
        ++ (field "no_speech_threshold" (as_real no_speech_threshold)
            ++ (field "model_size" (as_text model_size)
                ++ (field "normalize_first" (as_flag normalize_first)
                    ++ field "start_offset" (as_real start_offset)))))

module _ (id now : ℕ) (chronicle_id : ℕ) where
  abbrev pub queue : TaskType → Option Payload → Db → Option (Db × Task)
  queue type payload db = create_task (new_task id type (some chronicle_id) payload now) db

  unfoldable pub queue_import :
      (List ℕ → Option Pattern)
      → String
      → Option String
      → ℕ
      → ℕ
      → Option ℕ
      → Bool
      → Db
      → Option (Db × Task)
  unfolding create_task
  queue_import parse file_path none speaker_group text_group timestamp_group append db =
      queue import_ (some (import_data file_path [] append)) db
  queue_import parse file_path (some regex) speaker_group text_group timestamp_group append db =
      if regex == ""
      then queue import_ (some (import_data file_path [] append)) db
      else elim (assert_safe_pattern parse (codes regex)) [
        | safe ↦
            queue import_
              (some (
                import_data file_path (regex_fields regex speaker_group text_group timestamp_group)
                  append))
              db
        | unsafe _ ↦ none
      ]

  unfoldable pub queue_clean : Db → Option (Db × Task)
  unfolding create_task
  queue_clean db = queue clean none db

  unfoldable pub queue_transcribe :
      String
      → String
      → Option String
      → Option ℕ
      → Option String
      → Option Bool
      → Option ℕ
      → Db
      → Option (Db × Task)
  unfolding create_task
  queue_transcribe file_path speaker_name language no_speech_threshold model_size normalize_first
        start_offset db =
      queue transcribe
        (some (
          transcribe_data file_path speaker_name language no_speech_threshold model_size
            normalize_first start_offset))
        db

  unfoldable pub queue_normalize : String → Bool → Db → Option (Db × Task)
  unfolding create_task
  queue_normalize file_path force db =
      queue normalize (some (("file_path", text file_path) ∷ field "force" (if_true force))) db

abbrev pub retry_task : ℕ → Db → Db
retry_task id db = update_status id pending none db

abbrev pub auto_language : String
auto_language = "auto"

pub record TranscriptionDefaults : Type 0 where
  pub language : Option Json
  pub no_speech_threshold : Json
  pub model_size : Json
  pub device : String
  pub compute_type : String

pub record TranscriptionParameters : Type 0 where
  pub language : Option Json
  pub no_speech_threshold : Json
  pub model_size : Json
  pub device : String
  pub compute_type : String

abbrev pub given_or {ℓ} : {A : Type ℓ} → Option A → A → A
given_or none a = a
given_or (some a) _ = a

abbrev pub data_of : Task → Payload
data_of t = given_or t.payload []

-- `None` for the automatic choice
abbrev pub not_auto : Option Json → Option Json
not_auto (some (text l)) = if l == auto_language then none else some (text l)
not_auto other = other

abbrev pub or_default : Option Json → Option Json → Option Json
or_default none d = d
or_default (some v) _ = some v

unfoldable pub transcription_parameters : TranscriptionDefaults → Task → TranscriptionParameters
unfolding get
transcription_parameters defaults t = record {
  language = not_auto (or_default (get "language" (data_of t)) defaults.language);
  no_speech_threshold =
      given_or (get "no_speech_threshold" (data_of t)) defaults.no_speech_threshold;
  model_size = given_or (get "model_size" (data_of t)) defaults.model_size;
  device = defaults.device;
  compute_type = defaults.compute_type;
}
