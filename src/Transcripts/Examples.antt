-- ===== src/Transcripts/Examples.antt =====
-- A line that is corrected, and a directory with a normalized copy.
use chronicler.Base.{
  ◌≡◌, ◌≢◌, refl, true, false, none, some, List, [], ◌∷◌, In, ℕ_eq, String, String_eq, ◌==◌, arith,
  All,
}
use chronicler.Base.Table.{find}
use chronicler.Text.{Text, codes}
use chronicler.Sources.{AudioSource, new_source, with_content, name, is_transcribed}
use chronicler.Project.{Project, Line, line_key, to_model}
use chronicler.Project.Rows.{SpeakersOk}
use chronicler.Transcripts.{
  Store, File, on_disk, SourceOrder, Listed, list_audio_sources, remember_if, update_line,
}
use chronicler.Transcripts.Editing.{Corrected, update_line-Corrected}
use chronicler.Transcripts.Listing.{Different, list_audio_sources-Present}

abbrev stored : Line
stored = record {
  id = 40;
  speaker_id = some 1;
  source_id = none;
  start_time = 0;
  end_time = 900;
  text = codes "hm";
  synthetic_timing = none;
}

abbrev store : Store
store = record {
  project = record {
    speakers = record { id = 1; name = codes "Ann" } ∷ [];
    lines = stored ∷ [];
    sources =
        with_content (some "h1") (some 10) none (new_source (record { time = 1; uuid = 7 }) "a.wav")
        ∷ [];
    next = 50;
  };
  known_speakers = some [];
}

store-SpeakersOk : SpeakersOk store.project
store-SpeakersOk = record { ids = (tt, tt); names = (tt, tt); below = (omega arith, tt) }

abbrev as_typed : Text → Text
as_typed t = t

update_line-Corrected_example :
    (find line_key 40 store.project.lines ≡ none
      → update_line as_typed 5 40 (some (codes "aha")) (some (codes "Bob")) store ≡ (none, store))
    × ((l : Line)
        → find line_key 40 store.project.lines ≡ some l
        → (r : Line) × (p' : Project) × (update_line as_typed 5 40
              (some (codes "aha"))
              (some (codes "Bob"))
              store
            ≡ (
              some (to_model p'.speakers r),
              record {
                project = p';
                known_speakers = remember_if as_typed 5 (some (codes "Bob")) store.known_speakers;
              },
            ))
          × Corrected 40 (some (codes "aha")) (some (codes "Bob")) l r store.project p')
update_line-Corrected_example =
    update_line-Corrected as_typed 5 40 (some (codes "aha")) (some (codes "Bob")) store
      store-SpeakersOk

abbrev as_stored : SourceOrder
as_stored = record { sort = λ db. db; In-sort = λ s db m. m }

abbrev file : String → String → File
file filename content_hash = record {
  filename = filename;
  is_file = true;
  content_hash = content_hash;
  size_bytes = 3;
}

abbrev files : List File
files = file "b.wav" "h2" ∷ file "b.normalized.wav" "h3" ∷ []

files-Different : Different files
files-Different = (
  (
    λ e.
        let same : (◌==◌ {A = String} "b.wav" "b.normalized.wav") ≡ true =
          (String_eq.test_iff "b.wav" "b.normalized.wav").1 e in
        ground (arith, same),
    tt,
  ),
  (tt, tt),
)

list_audio_sources-Present_example :
    ((f : File)
      → In f (on_disk files)
      → (s : AudioSource) × (s.filename ≡ f.filename)
        × (s.content_hash ≡ some f.content_hash)
        × In
            (record { source = s; missing = false })
            (list_audio_sources as_stored 9 files store.project).0
        × (is_transcribed s ≡ true → s.transcribed_hash ≡ some f.content_hash))
    × (((l : Listed)
          → In l (list_audio_sources as_stored 9 files store.project).0
          → l.missing ≡ true
          → All (λ (f : File). f.filename ≢ l.source.filename) (on_disk files))
        × ((g : String)
            → All (λ (f : File). f.filename ≢ g) (on_disk files)
            → find name g (list_audio_sources as_stored 9 files store.project).1.sources
              ≡ find name g store.project.sources))
list_audio_sources-Present_example =
    list_audio_sources-Present as_stored 9 files store.project files-Different

copies_hidden : on_disk files ≡ file "b.wav" "h2" ∷ []
unfolding chronicler.Transcripts.is_source
copies_hidden = refl
