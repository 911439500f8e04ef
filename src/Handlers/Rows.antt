-- ===== src/Handlers/Rows.antt =====
-- What the steps of a transcription's transaction do to the rows of a project
-- (chronicler/core/processing/handlers/transcribing.py).
use mathlib.Core.List.{append-nil}
use chronicler.Base.{
  ℕ, ◌+◌, ℕ_eq, ◌≡◌, refl, ap, ◌∙◌, true, not, Option, none, some, List, [], ◌∷◌, ◌++◌, map, All,
  arith, String, String_eq, Option_eq, ◌==◌, keep, keep-append, keep-All, All-keep-nil, All_kept,
  All-mono,
}
use chronicler.Base.Table.{find, modify, find-modify}
use chronicler.Models.{TranscriptLine, SourceState_eq}
use chronicler.Sources.{
  Sources, AudioSource, Fresh, name, new_source, with_content, register, update, assign, Write,
  set_start_offset,
}
use chronicler.Sources.History.{assign_row-find, name-assign, row_or_new}
use chronicler.Project.{Project, Line, or_keep, row_of, of_source}
use chronicler.Handlers.{Run, register_track, write_track, store_given, placed}

-- The row of a track is found, and these tables hold it.
abbrev pub Row : String → AudioSource → Project → Type 0
Row f s p = find name f p.sources ≡ some s

pub write_track-Row :
    (f : String) (now : ℕ) (w : Write) (s : AudioSource) (p : Project)
    → Row f s p
    → (sources : Sources) × (write_track f now w p ≡ some (tt, record p { sources = sources }))
      × (find name f sources ≡ some (assign now w s))
unfolding write_track update
write_track-Row f now w s p row = (
  modify name f (assign now w) p.sources,
  rw (row, write_track, update) refl,
  find-modify name (assign now w) (name-assign now w) f f p.sources
      ∙ ground (arith, row, String_eq.test_iff f f),
)

-- The track's row before the run, or a new one
abbrev former : Run → Project → AudioSource
former run p =
    row_or_new (find name run.filename p.sources)
      (new_source (record { time = run.now; uuid = p.next }) run.filename)

abbrev pub registered : Run → Project → AudioSource
registered run p = with_content (some run.content_hash) (some run.size_bytes) none (former run p)

pub register_track-Row :
    (run : Run) (p : Project)
    → (sources : Sources) × (register_track run p
        ≡ some (registered run p, record p { sources = sources; next = p.next + 1 }))
      × (find name run.filename sources ≡ some (registered run p))
unfolding register_track register
register_track-Row run p =
    let change = with_content (some run.content_hash) (some run.size_bytes) none in
    let now : Fresh = record { time = run.now; uuid = p.next } in
    let found =
      assign_row-find run.filename run.filename p.sources (find name run.filename p.sources) now
        change (λ _. refl) refl in
    let same : (run.filename == run.filename) ≡ true =
      (String_eq.test_iff run.filename run.filename).1 refl in
    let after =
      register now run.filename (some run.content_hash) (some run.size_bytes) none p.sources in
    let it : find name run.filename after ≡ some (registered run p) = rw same at found in
    (after, rw (it, register_track) refl, it)

pub store_given-Row :
    (o : Option ℕ) (run : Run) (s : AudioSource) (p : Project)
    → Row run.filename s p
    → (sources : Sources) × (store_given o run p ≡ some (tt, record p { sources = sources }))
      × (find name run.filename sources
          ≡ some (record s { start_offset = or_keep o s.start_offset }))
unfolding store_given assign
store_given-Row none run s p row = (p.sources, refl, row)
store_given-Row (some offset) run s p row =
    write_track-Row run.filename run.now (set_start_offset offset) s p row

abbrev pub offset_before : Option AudioSource → ℕ
offset_before none = 0
offset_before (some s) = s.start_offset

pub offset-row_or_new :
    (o : Option AudioSource) (now : Fresh) (f : String)
    → (row_or_new o (new_source now f)).start_offset ≡ offset_before o
offset-row_or_new none now f = refl
offset-row_or_new (some s) now f = refl

-- The row of a run's line, moved by the offset
abbrev pub row_at : ℕ → ℕ → TranscriptLine → Line
row_at id offset l = record {
  id = l.id;
  speaker_id = l.speaker_id;
  source_id = some id;
  start_time = l.start_time + offset;
  end_time = l.end_time + offset;
  text = l.text;
  synthetic_timing = l.synthetic_timing;
}

pub rows_at :
    (id offset : ℕ) (ms : List TranscriptLine)
    → map row_of (map (placed id offset) ms) ≡ map (row_at id offset) ms
rows_at id offset [] = refl
rows_at id offset (m ∷ ms) =
    ap (λ (rows : List Line). row_at id offset m ∷ rows) (rows_at id offset ms)

-- The rows that a run stores belong to its track.
pub placed-of_source :
    (id offset : ℕ) (ms : List TranscriptLine)
    → All (λ l. of_source id l ≡ true) (map row_of (map (placed id offset) ms))
placed-of_source id offset [] = tt
placed-of_source id offset (m ∷ ms) = (ground arith, placed-of_source id offset ms)

pub own_lines :
    (id : ℕ) (rows new : List Line)
    → All (λ l. of_source id l ≡ true) new
    → keep (of_source id) (keep (λ l. not (of_source id l)) rows ++ new) ≡ new
own_lines id rows new h =
    keep-append (of_source id) (keep (λ l. not (of_source id l)) rows) new
    ∙ rw
        (All-keep-nil (of_source id) (keep (λ l. not (of_source id l)) rows)
          (All-mono _ _ _ (λ l e. ground (arith, e)) (All_kept (λ l. not (of_source id l)) rows)))
        (keep-All (of_source id) new h)

pub other_lines :
    (id : ℕ) (rows new : List Line)
    → All (λ l. of_source id l ≡ true) new
    → keep (λ l. not (of_source id l)) (keep (λ l. not (of_source id l)) rows ++ new)
      ≡ keep (λ l. not (of_source id l)) rows
other_lines id rows new h =
    let test = λ (l : Line). not (of_source id l) in
    keep-append test (keep test rows) new
    ∙ rw
        (
          All-keep-nil test new (All-mono _ _ new (λ l e. ground (arith, e)) h),
          keep-All test (keep test rows) (All_kept test rows),
        )
        (append-nil (keep test rows))
