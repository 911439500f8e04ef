-- ===== src/Service/Examples.antt =====
-- Tasks queued in an empty table.
use chronicler.Base.{ℕ, ◌≡◌, ◌⊎◌, refl, true, Option, none, some, List, [], String, String_eq, ℕ_eq}
use chronicler.Base.Table.{find}
use chronicler.Models.{Task, text, real, failed}
use chronicler.Queue.{fail_or_retry}
use chronicler.Regex.{
  Pattern, char, repeat, ◌▸◌, empty, safe, unsafe, assert_safe_pattern, PatternError,
}
use chronicler.Text.{codes}
use chronicler.Service.{
  queue_transcribe, queue_import, TranscriptionDefaults, transcription_parameters, data_of,
}
use chronicler.Service.Queued.{
  Stored, asked, Patterned, queue_transcribe-Stored, queue_import-Stored,
}

abbrev defaults : TranscriptionDefaults
defaults = record {
  language = some (text "nl");
  no_speech_threshold = real 600;
  model_size = text "base";
  device = "cpu";
  compute_type = "int8";
}

-- Every pattern is one repeated letter.
abbrev letters : List ℕ → Option Pattern
letters p = some (repeat (char 97 ▸ empty) ▸ empty)

no_row : find (λ (t : Task). t.id) 5 [] ≡ none
unfolding find
no_row = refl

queue_transcribe-Stored_example :
    (t : Task) × Stored 5
      (queue_transcribe 5 100 9 "a.wav" "Ada" (some "auto") none (some "large") none (some 0) [])
      t
    × (transcription_parameters defaults t ≡ asked defaults (some "auto") none (some "large"))
    × ((later : ℕ) (error : String) → (fail_or_retry later error t).status ≡ failed)
queue_transcribe-Stored_example =
    queue_transcribe-Stored 5 100 9 defaults "a.wav" "Ada" (some "auto") none (some "large") none
      (some 0) [] no_row

queue_import-Stored_example :
    ((assert_safe_pattern letters (codes "a*") ≡ safe)
      × ((t : Task) × Stored 5
            (queue_import 5 100 9 letters "t.txt" (some "a*") 1 2 (some 3) true [])
            t
          × Patterned (data_of t) "a*" 1 2 (some 3)))
    ⊎ (((e : PatternError) × (assert_safe_pattern letters (codes "a*") ≡ unsafe e))
        × (queue_import 5 100 9 letters "t.txt" (some "a*") 1 2 (some 3) true [] ≡ none))
queue_import-Stored_example =
    queue_import-Stored 5 100 9 letters "t.txt" "a*" 1 2 (some 3) true [] no_row refl
