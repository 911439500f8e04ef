-- ===== src/Handlers.antt =====
-- The transactions on a project's tables of the handlers in chronicler/core/processing/handlers
-- (importing.py, cleaning.py, transcribing.py, and `attach_speakers` of base.py).
pub mod Speakers
pub mod Rows
pub mod Tracks
pub mod Append
pub mod Normalizing
pub mod Snapshots
mod Examples
use chronicler.Base.{
  ℕ, ◌+◌, max, Bool, true, false, not, Option, none, some, List, [], ◌∷◌, ◌++◌, map, any,
  if◌then◌else◌, String, String_eq, ◌==◌, List_eq, Option_eq, ℕ_eq, length,
}
use chronicler.Base.Table.{find}
use chronicler.Text.{Text}
use chronicler.Models.{TranscriptLine}
use chronicler.Sources.{
  Sources, AudioSource, Fresh, name, register, update, assign, Write, set_speaker, set_start_offset,
  mark_transcribed,
}
use chronicler.Session.{Session, ◌>>=◌, ◌>>◌, pure, gets, modify_all, or_raise}
use chronicler.Project.{
  Project, Line, LineOrder, get_lines, get_or_create_speaker, add_lines, delete_all_lines,
  delete_track_lines, or_keep,
}
use chronicler.Import.{Importer, parse}
use chronicler.Cleaning.{TextEngine, CleaningSettings, clean}

abbrev pub SpeakerMap : Type 0
SpeakerMap = List (Text × ℕ)

unfoldable pub known : Option Text → SpeakerMap → Option ℕ
known none ids = none
known (some n) [] = none
known (some n) ((m, id) ∷ ids) = if m == n then some id else known (some n) ids

abbrev pub with_key : Option Text → ℕ → SpeakerMap → SpeakerMap
with_key none id ids = ids
with_key (some n) id ids = (n, id) ∷ ids

-- The speaker's id, from the map or from the table
unfoldable pub speaker_from_map :
    Option ℕ → Option Text → SpeakerMap → Session Project (ℕ × SpeakerMap)
speaker_from_map (some id) n ids = pure (id, ids)
speaker_from_map none n ids = get_or_create_speaker n >>= λ s. pure (s.id, with_key n s.id ids)

unfoldable pub attach_from :
    SpeakerMap → List TranscriptLine → Session Project (List TranscriptLine × SpeakerMap)
unfolding speaker_from_map known
attach_from ids [] = pure ([], ids)
attach_from ids (l ∷ ls) = speaker_from_map (known l.speaker_name ids) l.speaker_name ids >>= λ got.
    attach_from got.1 ls >>= λ rest. pure (record l { speaker_id = some got.0 } ∷ rest.0, rest.1)

abbrev pub attach_speakers :
    List TranscriptLine → Session Project (List TranscriptLine × SpeakerMap)
attach_speakers lines = attach_from [] lines

-- `max((line.end_time for line in lines), default=0.0)`
unfoldable pub last_end : List TranscriptLine → ℕ
last_end [] = 0
last_end (l ∷ ls) = max l.end_time (last_end ls)

-- `len({line.speaker_name for line in lines})`
abbrev pub names_of : List TranscriptLine → List (Option Text)
names_of lines = map (λ (l : TranscriptLine). l.speaker_name) lines

unfoldable pub distinct_count : List (Option Text) → ℕ
distinct_count [] = 0
distinct_count (n ∷ ns) =
    let rest = distinct_count ns in if any (λ m. n == m) ns then rest else 1 + rest

abbrev pub keys_of : SpeakerMap → List (Option Text)
keys_of ids = map (λ (e : Text × ℕ). some e.0) ids

-- What `append` keeps, and where the new lines start.
unfoldable pub existing_lines : LineOrder → Bool → Session Project (List TranscriptLine)
existing_lines order true p = some (get_lines order p, p)
existing_lines order false p = (delete_all_lines >> pure []) p

unfoldable pub import_lines : LineOrder → Importer → Text → Bool → Session Project ℕ
unfolding existing_lines attach_from last_end distinct_count
import_lines order importer content append = existing_lines order append >>= λ existing.
    or_raise (parse importer content (last_end existing)) >>= λ lines.
    attach_speakers lines >>= λ attached.
    add_lines attached.0 >> pure (distinct_count (names_of existing ++ keys_of attached.1))

unfoldable pub clean_lines : LineOrder → TextEngine → CleaningSettings → Session Project ℕ
unfolding distinct_count
clean_lines order engine settings = gets (get_lines order) >>= λ lines.
    delete_all_lines
    >> (add_lines (clean engine settings lines)
        >> pure (distinct_count (names_of (clean engine settings lines))))

-- What the handler knows of the run when it stores the lines: `content_hash` and `hash_after` are the
-- fingerprints that the file has at `register` and at `mark_transcribed`.
pub record Run : Type 0 where
  pub filename : String
  pub speaker_name : Text
  pub content_hash : String
  pub hash_after : String
  pub size_bytes : ℕ
  pub language : Option String
  pub model_size : Option String
  pub start_offset : Option ℕ
  pub now : ℕ

-- `register` in the session, and the row that it returns
unfoldable pub register_track : Run → Session Project AudioSource
register_track run p =
    let sources =
      register (record { time = run.now; uuid = p.next }) run.filename (some run.content_hash)
        (some run.size_bytes) none p.sources in
    elim (find name run.filename sources) [
      | none ↦ none
      | some s ↦ some (s, record p { sources = sources; next = p.next + 1 })
    ]

unfoldable pub write_track : String → ℕ → Write → Session Project (Unit {0})
write_track f now w p = elim (update f (assign now w) p.sources) [
  | none ↦ none
  | some sources ↦ some (tt, record p { sources = sources })
]

abbrev pub offset_for : Run → AudioSource → ℕ
offset_for run s = or_keep run.start_offset s.start_offset

unfoldable pub store_given : Option ℕ → Run → Session Project (Unit {0})
unfolding write_track
store_given none run = pure tt
store_given (some offset) run = write_track run.filename run.now (set_start_offset offset)

unfoldable pub store_offset : Run → Session Project (Unit {0})
unfolding store_given
store_offset run = store_given run.start_offset run

abbrev pub placed : ℕ → ℕ → TranscriptLine → TranscriptLine
placed id offset l = record l {
  source_id = some id;
  start_time = l.start_time + offset;
  end_time = l.end_time + offset;
}

-- The transaction of `handle_transcribe`, with the speakers and the duration read behind the commit
unfoldable pub store_transcription : LineOrder → Run → List TranscriptLine → Session Project (ℕ × ℕ)
unfolding register_track store_offset write_track attach_from distinct_count last_end
store_transcription order run lines = get_or_create_speaker (some run.speaker_name) >>= λ speaker.
    register_track run >>= λ source.
    store_offset run
    >> (delete_track_lines source.id
        >> (attach_speakers lines >>= λ attached.
            add_lines (map (placed source.id (offset_for run source)) attached.0)
            >> (write_track run.filename run.now (set_speaker (some speaker.id))
                >> (write_track run.filename run.now
                      (mark_transcribed (some run.hash_after) run.language run.model_size)
                    >> gets (λ p. (
                      distinct_count (names_of (get_lines order p)),
                      last_end (get_lines order p),
                    ))))))
