-- ===== src/Project.antt =====
-- chronicler/core/sqlite/transcript_repository.py over a project's tables (`DBSpeaker` and
-- `DBTranscriptLine` of chronicler/core/project_database.py, with the tracks of `Sources`). `none` is an
-- exception. The order of SQLite's rows is a parameter; `uuid4` is the next number.
pub mod Rows
use chronicler.Base.{
  ℕ, ◌+◌, ◌≤◌, ◌≡◌, Bool, true, false, not, Option, none, some, List, [], ◌∷◌, ◌++◌, map, keep, any,
  if◌then◌else◌, ◌==◌, ℕ_eq, List_eq, Option_eq, Equality, In, Pairwise, or_else,
}
use chronicler.Base.Table.{find, modify}
use chronicler.Text.{Text}
use chronicler.Models.{TranscriptLine}
use chronicler.Sources.{Sources}
use chronicler.Session.{Session, ◌>>=◌, ◌>>◌, pure, gets, modify_all, or_raise}

pub record Speaker : Type 0 where
  pub id : ℕ
  pub name : Text

pub record Line : Type 0 where
  pub id : ℕ
  pub speaker_id : Option ℕ
  pub source_id : Option ℕ
  pub start_time : ℕ
  pub end_time : ℕ
  pub text : Text
  pub synthetic_timing : Option Bool

-- `next` is the number that `uuid4` draws.
pub record Project : Type 0 where
  pub speakers : List Speaker
  pub lines : List Line
  pub sources : Sources
  pub next : ℕ

-- What the code relies on of `ORDER BY start_time`: it returns the rows that there are.
pub record LineOrder : Type 0 where
  pub sort : List Line → List Line
  pub In-sort : (l : Line) (ls : List Line) → In l ls → In l (sort ls)
  pub sort-In : (l : Line) (ls : List Line) → In l (sort ls) → In l ls

abbrev pub speaker_key : Speaker → ℕ
speaker_key s = s.id

abbrev pub line_key : Line → ℕ
line_key l = l.id

-- The name of the speaker that a line refers to
unfoldable pub name_at : List Speaker → Option ℕ → Option Text
name_at speakers none = none
name_at speakers (some id) = elim (find speaker_key id speakers) [
  | none ↦ none
  | some s ↦ some s.name
]

unfoldable pub to_model : List Speaker → Line → TranscriptLine
unfolding name_at
to_model speakers l = record {
  id = l.id;
  speaker_id = l.speaker_id;
  speaker_name = name_at speakers l.speaker_id;
  source_id = l.source_id;
  synthetic_timing = l.synthetic_timing;
  chronicle_id = none;
  start_time = l.start_time;
  end_time = l.end_time;
  text = l.text;
}

unfoldable pub get_lines : LineOrder → Project → List TranscriptLine
unfolding to_model
get_lines order p = map (to_model p.speakers) (order.sort p.lines)

abbrev pub is_named : Text → Speaker → Bool
is_named n s = s.name == n

abbrev pub new_speaker : Text → Project → Speaker
new_speaker n p = record { id = p.next; name = n }

-- `scalar_one_or_none` of the rows with the name: a second one is an exception.
unfoldable pub speaker_from : List Speaker → Text → Session Project Speaker
speaker_from [] n p = some (
  new_speaker n p,
  record p { speakers = p.speakers ++ (new_speaker n p ∷ []); next = p.next + 1 },
)
speaker_from (s ∷ []) n p = some (s, p)
speaker_from (s ∷ t ∷ ts) n p = none

-- A name of `None` is not found, and a row with it is refused.
unfoldable pub get_or_create_speaker : Option Text → Session Project Speaker
unfolding speaker_from
get_or_create_speaker none p = none
get_or_create_speaker (some n) p = speaker_from (keep (is_named n) p.speakers) n p

abbrev pub row_of : TranscriptLine → Line
row_of l = record {
  id = l.id;
  speaker_id = l.speaker_id;
  source_id = l.source_id;
  start_time = l.start_time;
  end_time = l.end_time;
  text = l.text;
  synthetic_timing = l.synthetic_timing;
}

abbrev pub has_line : ℕ → List Line → Bool
has_line id ls = any (λ (l : Line). l.id == id) ls

-- A second row with one id is refused.
unfoldable pub insert_rows : List TranscriptLine → List Line → Option (List Line)
insert_rows [] rows = some rows
insert_rows (l ∷ ls) rows =
    let rest = insert_rows ls (rows ++ (row_of l ∷ [])) in if has_line l.id rows then none else rest

unfoldable pub add_lines : List TranscriptLine → Session Project (Unit {0})
unfolding insert_rows
add_lines ls p = elim (insert_rows ls p.lines) [
  | none ↦ none
  | some rows ↦ some (tt, record p { lines = rows })
]

unfoldable pub add_line : TranscriptLine → Session Project TranscriptLine
add_line l p =
    if has_line l.id p.lines
    then none
    else some (
      record l { speaker_name = none; chronicle_id = none },
      record p { lines = p.lines ++ (row_of l ∷ []) },
    )

abbrev pub or_keep {ℓ} : {A : Type ℓ} → Option A → A → A
or_keep none a = a
or_keep (some b) a = b

abbrev pub edited : Option Text → Option ℕ → Line → Line
edited text' speaker l = record l {
  text = or_keep text' l.text;
  speaker_id = or_else speaker l.speaker_id;
}

unfoldable pub update_found :
    Option Line → ℕ → Option Text → Option ℕ → Session Project TranscriptLine
unfolding to_model
update_found none id text' speaker p = none
update_found (some l) id text' speaker p = some (
  to_model p.speakers (edited text' speaker l),
  record p { lines = modify line_key id (edited text' speaker) p.lines },
)

unfoldable pub update_line : ℕ → Option Text → Option ℕ → Session Project TranscriptLine
unfolding update_found
update_line id text' speaker p = update_found (find line_key id p.lines) id text' speaker p

unfoldable pub delete_found : Option Line → ℕ → Session Project (Unit {0})
delete_found none id p = none
delete_found (some l) id p = some (tt, record p { lines = keep (λ r. not (r.id == id)) p.lines })

unfoldable pub delete_line : ℕ → Session Project (Unit {0})
unfolding delete_found
delete_line id p = delete_found (find line_key id p.lines) id p

unfoldable pub delete_all_lines : Session Project (Unit {0})
delete_all_lines p = some (tt, record p { lines = [] })

abbrev pub of_source : ℕ → Line → Bool
of_source id l = l.source_id == some id

unfoldable pub delete_track_lines : ℕ → Session Project (Unit {0})
delete_track_lines id p = some (tt, record p { lines = keep (λ l. not (of_source id l)) p.lines })
