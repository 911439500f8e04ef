-- ===== src/Handlers/Examples.antt =====
-- A project with a transcribed track, a new run of the track and an import behind it.
use chronicler.Base.{
  ℕ, ◌+◌, ◌≡◌, refl, true, false, Option, none, some, List, [], ◌∷◌, map, ℕ_eq, arith,
  if◌then◌else◌, ◌==◌, ◌++◌,
}
use chronicler.Base.Table.{IsKeyed}
use chronicler.Text.{Text, codes}
use chronicler.Models.{TranscriptLine}
use chronicler.Sources.{new_source, with_content}
use chronicler.Import.{Importer, Groups, parse}
use chronicler.Project.{Project, Line, LineOrder, line_key, row_of}
use chronicler.Project.Rows.{SpeakersOk}
use chronicler.Handlers.{Run, store_transcription, import_lines}
use chronicler.Handlers.Speakers.{HaveNames}
use chronicler.Handlers.Tracks.{Stored, store_transcription-Stored}
use chronicler.Handlers.Append.{Imported, offset_after, kept, import_lines-Imported}

abbrev as_stored : LineOrder
as_stored = record { sort = λ ls. ls; In-sort = λ l ls m. m; sort-In = λ l ls m. m }

abbrev spoken : ℕ → Text → ℕ → TranscriptLine
spoken n who start = record {
  id = n;
  speaker_id = none;
  speaker_name = some who;
  source_id = none;
  synthetic_timing = none;
  chronicle_id = none;
  start_time = start;
  end_time = start + 900;
  text = codes "well";
}

abbrev old_line : Line
old_line = record {
  id = 40;
  speaker_id = some 1;
  source_id = some 7;
  start_time = 0;
  end_time = 900;
  text = codes "hm";
  synthetic_timing = none;
}

abbrev imported_line : Line
imported_line = record old_line { id = 41; source_id = none }

abbrev project : Project
project = record {
  speakers = record { id = 1; name = codes "Ann" } ∷ [];
  lines = old_line ∷ imported_line ∷ [];
  sources =
      with_content (some "h1") (some 10) none (new_source (record { time = 1; uuid = 7 }) "a.wav")
      ∷ [];
  next = 50;
}

abbrev run : Run
run = record {
  filename = "a.wav";
  speaker_name = codes "Bob";
  content_hash = "h2";
  hash_after = "h2";
  size_bytes = 12;
  language = none;
  model_size = some "small";
  start_offset = some 500;
  now = 9;
}

abbrev lines : List TranscriptLine
lines = spoken 30 (codes "Bob") 0 ∷ spoken 31 (codes "Bob") 1000 ∷ []

project-SpeakersOk : SpeakersOk project
project-SpeakersOk = record { ids = (tt, tt); names = (tt, tt); below = (omega arith, tt) }

lines-HaveNames : HaveNames lines
lines-HaveNames = ((codes "Bob", refl), ((codes "Bob", refl), tt))

new_lines : IsKeyed line_key (project.lines ++ map row_of lines)
new_lines = (
  (λ e. ground (arith, e), (λ e. ground (arith, e), (λ e. ground (arith, e), tt))),
  (
    (λ e. ground (arith, e), (λ e. ground (arith, e), tt)),
    ((λ e. ground (arith, e), tt), (tt, tt)),
  ),
)

store_transcription-Stored_example :
    (r : ℕ × ℕ) × (p' : Project) × (store_transcription as_stored run lines project ≡ some (r, p'))
    × Stored run lines project p'
store_transcription-Stored_example =
    store_transcription-Stored as_stored run lines project project-SpeakersOk lines-HaveNames
      new_lines

abbrev by_letter : Text → Option Groups
by_letter [] = none
by_letter (c ∷ cs) =
    if c == b'A'
    then some (record { speaker = some (codes "A"); text = some cs; timestamp = none })
    else none

abbrev importer : Importer
importer = record { match_line = by_letter; has_timestamps = false; uuid4 = λ n. 100 + n }

abbrev content : Text
content = codes "A hello" ++ (10 ∷ codes "A bye")

import_lines-Imported_example :
    (parse importer content (offset_after as_stored true project) ≡ none
      → import_lines as_stored importer content true project ≡ none)
    × ((lines : List TranscriptLine)
        → parse importer content (offset_after as_stored true project) ≡ some lines
        → IsKeyed line_key (kept true project ++ map row_of lines)
        → (count : ℕ) × (p' : Project) × (import_lines as_stored importer content true project
            ≡ some (count, p'))
          × Imported true lines project p')
import_lines-Imported_example =
    import_lines-Imported as_stored importer content true project project-SpeakersOk
