-- ===== src/Service/Queued.antt =====
-- What chronicler/core/services/task_service.py stores, and what the workers make of it.
use chronicler.Base.{
  ℕ, ◌≡◌, refl, ◌∙◌, inl, inr, true, false, Bool, ◌⊎◌, Option, none, some, List, [], ◌∷◌, ◌++◌,
  String, String_eq, ◌==◌, ℕ_eq, arith,
}
use chronicler.Base.Table.{find, find-append}
use chronicler.Models.{
  Task, TaskType, import_, transcribe, TaskType_eq, failed, text, int, Payload, new_task,
}
use chronicler.Queue.{Db, key, create, new_row, get_by_id, fail_or_retry}
use chronicler.Regex.{Pattern, Checked, PatternError, safe, unsafe, assert_safe_pattern}
use chronicler.Text.{codes}
use chronicler.Service.{
  create_task, max_attempts_for, import_data, regex_fields, as_int, if_true, queue_transcribe,
  queue_import, transcribe_data, get, field, TranscriptionDefaults, TranscriptionParameters,
  transcription_parameters, not_auto, or_default, given_or, as_text, as_real, data_of,
}
use chronicler.Service.Payloads.{get-append, get-field, or_default-none}

-- The row that the table keeps under its id
abbrev pub Stored : ℕ → Option (Db × Task) → Task → Type 0
Stored id result t = (db : Db) × (result ≡ some (db, t)) × (get_by_id id db ≡ some t)

abbrev row_for : ℕ → ℕ → ℕ → TaskType → Option Payload → Task
row_for id now chronicle_id type payload =
    record (new_task id type (some chronicle_id) payload now) {
      max_attempts = max_attempts_for type 3;
    }

create_at-Stored :
    (t : Task) (db : Db) → find key t.id db ≡ none → Stored t.id (create t db) (new_row t)
unfolding create get_by_id new_row find
create_at-Stored t db h = (
  db ++ (new_row t ∷ []),
  rw (h, create) refl,
  find-append key t.id db (new_row t ∷ []) ∙ ground (arith, h),
)

create_task-Stored :
    (t : Task) (db : Db)
    → find key t.id db ≡ none
    → Stored t.id
        (create_task t db)
        (new_row (record t { max_attempts = max_attempts_for t.type t.max_attempts }))
unfolding create_task
create_task-Stored t db h =
    create_at-Stored (record t { max_attempts = max_attempts_for t.type t.max_attempts }) db h

-- What a transcription is to use: what was asked for where it was given, and the default elsewhere;
-- "auto" is no language.
abbrev pub asked :
    TranscriptionDefaults → Option String → Option ℕ → Option String → TranscriptionParameters
asked defaults language no_speech_threshold model_size = record {
  language = not_auto (or_default (as_text language) defaults.language);
  no_speech_threshold = given_or (as_real no_speech_threshold) defaults.no_speech_threshold;
  model_size = given_or (as_text model_size) defaults.model_size;
  device = defaults.device;
  compute_type = defaults.compute_type;
}

parameters-transcribe_data :
    (defaults : TranscriptionDefaults) (t : Task) (file_path speaker_name : String)
    (language : Option String) (no_speech_threshold : Option ℕ) (model_size : Option String)
    (normalize_first : Option Bool) (start_offset : Option ℕ)
    → t.payload
      ≡ some (
          transcribe_data file_path speaker_name language no_speech_threshold model_size
            normalize_first start_offset)
    → transcription_parameters defaults t ≡ asked defaults language no_speech_threshold model_size
unfolding transcription_parameters get
parameters-transcribe_data defaults t file_path speaker_name language no_speech_threshold model_size
      normalize_first start_offset h =
    rw h (simp (get-append, get-field, or_default-none))

-- A transcription that is queued under a new id is stored, and the handler that reads the row back
-- uses what was asked for, or the default where nothing was, and no language for "auto". Its first
-- failure is its last: it is FAILED and not tried again.
pub queue_transcribe-Stored :
    (id now chronicle_id : ℕ) (defaults : TranscriptionDefaults) (file_path speaker_name : String)
    (language : Option String) (no_speech_threshold : Option ℕ) (model_size : Option String)
    (normalize_first : Option Bool) (start_offset : Option ℕ) (db : Db)
    → find key id db ≡ none
    → (t : Task) × Stored id
        (queue_transcribe id now chronicle_id file_path speaker_name language no_speech_threshold
          model_size normalize_first start_offset db)
        t
      × (transcription_parameters defaults t
          ≡ asked defaults language no_speech_threshold model_size)
      × ((later : ℕ) (error : String) → (fail_or_retry later error t).status ≡ failed)
unfolding queue_transcribe fail_or_retry new_row max_attempts_for
queue_transcribe-Stored id now chronicle_id defaults file_path speaker_name language
      no_speech_threshold model_size normalize_first start_offset db h =
    (
      _,
      create_task-Stored
          (new_task id transcribe (some chronicle_id)
            (some (
              transcribe_data file_path speaker_name language no_speech_threshold model_size
                normalize_first start_offset))
            now)
          db h,
      parameters-transcribe_data defaults _ file_path speaker_name language no_speech_threshold
          model_size normalize_first start_offset refl,
      λ later error. refl,
    )

-- The pattern and the groups that the import handler is to read
abbrev pub Patterned : Payload → String → ℕ → ℕ → Option ℕ → Type 0
Patterned p regex speaker_group text_group timestamp_group =
    (get "regex" p ≡ some (text regex))
    × (get "speaker_group" p ≡ some (int speaker_group))
    × (get "text_group" p ≡ some (int text_group))
    × (get "timestamp_group" p ≡ as_int timestamp_group)

import_data-Patterned :
    (file_path regex : String) (speaker_group text_group : ℕ) (timestamp_group : Option ℕ)
    (append : Bool)
    → Patterned
        (import_data file_path (regex_fields regex speaker_group text_group timestamp_group) append)
        regex
        speaker_group
        text_group
        timestamp_group
unfolding get
import_data-Patterned file_path regex speaker_group text_group timestamp_group append = (
  refl,
  refl,
  refl,
  elim append
      as (λ b.
        get "timestamp_group"
          (field "timestamp_group" (as_int timestamp_group) ++ field "append" (if_true b))
        ≡ as_int timestamp_group) [
          | true ↦ simp (get-append, get-field, or_default-none)
          | false ↦ simp (get-append, get-field, or_default-none)
        ],
)

safe_cases : (c : Checked) → (c ≡ safe) ⊎ ((e : PatternError) × (c ≡ unsafe e))
safe_cases safe = inl refl
safe_cases (unsafe e) = inr (e, refl)

-- An import that is queued with a pattern, under a new id: if the guard accepts the pattern, the task
-- is stored with the pattern and its groups, and if it refuses the pattern, nothing is stored.
pub queue_import-Stored :
    (id now chronicle_id : ℕ) (parse : List ℕ → Option Pattern) (file_path regex : String)
    (speaker_group text_group : ℕ) (timestamp_group : Option ℕ) (append : Bool) (db : Db)
    → find key id db ≡ none
    → (regex == "") ≡ false
    → ((assert_safe_pattern parse (codes regex) ≡ safe)
        × ((t : Task) × Stored id
              (queue_import id now chronicle_id parse file_path
                (some regex)
                speaker_group
                text_group
                timestamp_group
                append
                db)
              t
            × Patterned (data_of t) regex speaker_group text_group timestamp_group))
      ⊎ (((e : PatternError) × (assert_safe_pattern parse (codes regex) ≡ unsafe e))
          × (queue_import id now chronicle_id parse file_path
                (some regex)
                speaker_group
                text_group
                timestamp_group
                append
                db
              ≡ none))
unfolding queue_import new_row
queue_import-Stored id now chronicle_id parse file_path regex speaker_group text_group
      timestamp_group append db h given =
    elim (safe_cases (assert_safe_pattern parse (codes regex))) [
      | inl accepted ↦ inl (
        accepted,
        (
          new_row (
              row_for id now chronicle_id import_ (
                some (
                  import_data file_path
                    (regex_fields regex speaker_group text_group timestamp_group) append))),
          rw (given, accepted, queue_import)
              (create_task-Stored
                (new_task id import_ (some chronicle_id)
                  (some (
                    import_data file_path
                      (regex_fields regex speaker_group text_group timestamp_group) append))
                  now)
                db h),
          import_data-Patterned file_path regex speaker_group text_group timestamp_group append,
        ),
      )
      | inr (e, refused) ↦ inr ((e, refused), rw (given, refused, queue_import) refl)
    ]
