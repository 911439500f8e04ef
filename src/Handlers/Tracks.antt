-- ===== src/Handlers/Tracks.antt =====
-- The transaction of `handle_transcribe` (chronicler/core/processing/handlers/transcribing.py).
use mathlib.Core.Path.{ap₂}
use chronicler.Base.{
  ℕ, ◌+◌, ℕ_eq, ◌≡◌, refl, sym, ap, ◌∙◌, not, some, List, [], ◌∷◌, ◌++◌, map, arith, String_eq,
  Option_eq, ◌==◌, keep, All-mono, Pairwise-keep_append,
}
use chronicler.Base.Table.{find, IsKeyed}
use chronicler.Models.{TranscriptLine, SourceState_eq}
use chronicler.Sources.{
  Sources, AudioSource, name, assign, set_speaker, mark_transcribed, is_transcribed,
}
use chronicler.Project.{
  Project, Speaker, LineOrder, line_key, get_lines, or_keep, row_of, of_source,
  get_or_create_speaker, add_lines, delete_track_lines,
}
use chronicler.Project.Rows.{SpeakersOk, get_or_create_speaker-Got, add_lines-append, IsKeyed-ids}
use chronicler.Handlers.{
  Run, SpeakerMap, register_track, write_track, store_offset, offset_for, placed, distinct_count,
  last_end, names_of, attach_from, store_transcription,
}
use chronicler.Handlers.Speakers.{Names, Stamped, Stamped-mono, HaveNames, attach_speakers-Stamped}
use chronicler.Handlers.Rows.{
  Row, write_track-Row, registered, register_track-Row, store_given-Row, offset_before,
  offset-row_or_new, row_at, rows_at, placed-of_source, own_lines, other_lines,
}

-- What the transaction of a run leaves in `p'` where it found `p`.
pub record Stored (run : Run) (lines : List TranscriptLine) (p p' : Project) : Type 0 where
  pub source : AudioSource
  pub speaker : ℕ
  pub attached : List TranscriptLine
  pub row : Row run.filename source p'
  pub marked : is_transcribed source ≡ (run.hash_after == run.content_hash)
  pub given :
      source.start_offset
      ≡ or_keep run.start_offset (offset_before (find name run.filename p.sources))
  pub spoken_by : (source.speaker_id ≡ some speaker) × Names p' speaker run.speaker_name
  pub stamped : Stamped p' lines attached
  pub own :
      keep (of_source source.id) p'.lines ≡ map (row_at source.id source.start_offset) attached
  pub others :
      keep (λ l. not (of_source source.id l)) p'.lines
      ≡ keep (λ l. not (of_source source.id l)) p.lines

placed-ids :
    (p : Project) (id offset : ℕ) (ls ms : List TranscriptLine)
    → Stamped p ls ms
    → map line_key (map row_of ls) ≡ map line_key (map row_of (map (placed id offset) ms))
placed-ids p id offset [] [] h = refl
placed-ids p id offset [] (m ∷ ms) h = absurd h
placed-ids p id offset (l ∷ ls) [] h = absurd h
placed-ids p id offset (l ∷ ls) (m ∷ ms) ((i, n, same, said, found), h) =
    ap₂ (λ (i : ℕ) (is : List ℕ). i ∷ is) (ap (λ (t : TranscriptLine). t.id) (sym same))
      (placed-ids p id offset ls ms h)

-- The steps of the transaction, one after the other
store_transcription-steps :
    (order : LineOrder) (run : Run) (lines ms : List TranscriptLine)
    (p p1 p2 p3 p5 p6 p7 p8 : Project) (speaker : Speaker) (source : AudioSource) (ids : SpeakerMap)
    → get_or_create_speaker (some run.speaker_name) p ≡ some (speaker, p1)
    → register_track run p1 ≡ some (source, p2)
    → store_offset run p2 ≡ some (tt, p3)
    → attach_from [] lines (record p3 { lines = keep (λ l. not (of_source source.id l)) p3.lines })
      ≡ some ((ms, ids), p5)
    → add_lines (map (placed source.id (offset_for run source)) ms) p5 ≡ some (tt, p6)
    → write_track run.filename run.now (set_speaker (some speaker.id)) p6 ≡ some (tt, p7)
    → write_track run.filename run.now
        (mark_transcribed (some run.hash_after) run.language run.model_size)
        p7
      ≡ some (tt, p8)
    → store_transcription order run lines p
      ≡ some ((distinct_count (names_of (get_lines order p8)), last_end (get_lines order p8)), p8)
unfolding store_transcription delete_track_lines
store_transcription-steps order run lines ms p p1 p2 p3 p5 p6 p7 p8 speaker source ids e1 e2 e3 e5
      e6 e7 e8 =
    simp (e1, e2, e3, e5, e6, e7, e8)

-- While ids and names are distinct, the lines have names and their ids are new, storing a run's lines
-- raises nothing: the lines of the track are those of the run, each with the track's id, the id of a
-- speaker with its name and its times moved by the offset, the one of the task or else the one the
-- track had; the other lines stay as they were, the track has the speaker of the task, and it counts
-- as transcribed just when the file's fingerprint at the end is the one it was registered with.
pub store_transcription-Stored :
    (order : LineOrder) (run : Run) (lines : List TranscriptLine) (p : Project)
    → SpeakersOk p
    → HaveNames lines
    → IsKeyed line_key (p.lines ++ map row_of lines)
    → (r : ℕ × ℕ) × (p' : Project) × (store_transcription order run lines p ≡ some (r, p'))
      × Stored run lines p p'
unfolding is_transcribed assign store_offset
store_transcription-Stored order run lines p ok named new =
    let (speaker, p1, e1, got) = get_or_create_speaker-Got run.speaker_name p ok in
    let (sources2, e2, row2) = register_track-Row run p1 in
    let source = registered run p1 in
    let p2 = record p1 { sources = sources2; next = p1.next + 1 } in
    let (sources3, e3, row3) = store_given-Row run.start_offset run source p2 row2 in
    let id = source.id in
    let offset = offset_for run source in
    let p3 = record p2 { sources = sources3 } in
    let p4 = record p3 { lines = keep (λ l. not (of_source id l)) p1.lines } in
    let ok4 : SpeakersOk p4 = record {
      ids = got.ok.ids;
      names = got.ok.names;
      below = All-mono _ _ p1.speakers (λ s less. omega (arith, less)) got.ok.below;
    } in
    let (ms, ids, p5, e5, g, stamped) = attach_speakers-Stamped p4 lines ok4 named in
    let rows = map row_of (map (placed id offset) ms) in
    let was : p5.lines ≡ keep (λ l. not (of_source id l)) p.lines =
      g.lines ∙ ap (keep (λ l. not (of_source id l))) got.lines in
    let distinct : IsKeyed line_key (p5.lines ++ rows) = rw was (
      IsKeyed-ids (keep (λ l. not (of_source id l)) p.lines) (map row_of lines) rows
        (placed-ids p5 id offset lines ms stamped)
        (Pairwise-keep_append _ (λ l. not (of_source id l)) p.lines (map row_of lines) new)) in
    let row5 : Row run.filename (record source { start_offset = offset }) p5 = rw g.sources row3 in
    let p6 = record p5 { lines = p5.lines ++ rows } in
    let e6 = add_lines-append (map (placed id offset) ms) p5 distinct in
    let (sources7, e7, row7) =
      write_track-Row run.filename run.now (set_speaker (some speaker.id))
        (record source { start_offset = offset }) p6 row5 in
    let p7 = record p6 { sources = sources7 } in
    let (sources8, e8, row8) =
      write_track-Row run.filename run.now
        (mark_transcribed (some run.hash_after) run.language run.model_size)
        (record source { start_offset = offset; speaker_id = some speaker.id }) p7 row7 in
    let p8 = record p7 { sources = sources8 } in
    (
      (distinct_count (names_of (get_lines order p8)), last_end (get_lines order p8)),
      p8,
      store_transcription-steps order run lines ms p p1 p2 p3 p5 p6 p7 p8 speaker source ids e1 e2
          e3 e5 e6 e7 e8,
      record {
        source =
            assign run.now (mark_transcribed (some run.hash_after) run.language run.model_size)
              (record source { start_offset = offset; speaker_id = some speaker.id });
        speaker = speaker.id;
        attached = ms;
        row = row8;
        marked = refl;
        given = ap (or_keep run.start_offset) (
            offset-row_or_new (find name run.filename p1.sources)
              (record { time = run.now; uuid = p1.next }) run.filename
            ∙ ap (λ (db : Sources). offset_before (find name run.filename db)) got.sources);
        spoken_by = (refl, (speaker, g.kept speaker.id speaker got.found, got.named));
        stamped = Stamped-mono p5 p8 lines ms (λ i t e. e) stamped;
        own =
            rw was (own_lines id p.lines rows (placed-of_source id offset ms))
            ∙ rows_at id offset ms;
        others = rw was (other_lines id p.lines rows (placed-of_source id offset ms));
      },
    )
