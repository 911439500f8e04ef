-- ===== src/Handlers/Append.antt =====
-- The transaction of `handle_import` (chronicler/core/processing/handlers/importing.py).
use mathlib.Core.Path.{ap₂}
use chronicler.Base.{
  ℕ, ◌+◌, ◌≤◌, ◌≡◌, refl, sym, ap, ◌∙◌, inl, inr, true, false, Bool, Bool-cases, max, Option, none,
  some, List, [], ◌∷◌, ◌++◌, map, All, All-mono, All-map, All_of_In, All-In, In, In-map, ℕ_eq,
  if◌then◌else◌, arith,
}
use chronicler.Base.Table.{IsKeyed}
use chronicler.Text.{Text}
use chronicler.Models.{TranscriptLine}
use chronicler.Import.{Importer, parse}
use chronicler.Import.Starts.{Placed, parse-Placed}
use chronicler.Project.{Project, Line, LineOrder, line_key, row_of, to_model, get_lines, add_lines}
use chronicler.Project.Rows.{SpeakersOk, add_lines-append, IsKeyed-ids}
use chronicler.Handlers.{last_end, existing_lines, distinct_count, names_of, keys_of, import_lines}
use chronicler.Handlers.Speakers.{Stamped, Stamped-mono, attach_speakers-Stamped}

-- What stays of the old lines, and where the new ones begin.
abbrev pub kept : Bool → Project → List Line
kept append p = if append then p.lines else []

abbrev pub offset_after : LineOrder → Bool → Project → ℕ
offset_after order append p = if append then last_end (get_lines order p) else 0

-- What an import leaves in `p'` where it found `p`.
pub record Imported (append : Bool) (lines : List TranscriptLine) (p p' : Project) : Type 0 where
  pub attached : List TranscriptLine
  pub stamped : Stamped p' lines attached
  pub rows : p'.lines ≡ kept append p ++ map row_of attached
  pub behind :
      append ≡ true
      → All
          (λ (old : Line).
            All (λ (new : Line). old.end_time ≤ new.start_time) (map row_of attached))
          p.lines
  pub sources : p'.sources ≡ p.sources

last_end-le : (ls : List TranscriptLine) (l : TranscriptLine) → In l ls → l.end_time ≤ last_end ls
unfolding last_end
last_end-le [] l m = elim m [ ]
last_end-le (k ∷ ls) l m = elim (chronicler.Base.In-cases m) [
  | inl e ↦ rw e (omega arith)
  | inr m' ↦ let more = last_end-le ls l m' in omega (arith, more)
]

-- No old line ends behind the place where the new ones begin.
old_ends :
    (order : LineOrder) (p : Project)
    → All (λ (old : Line). old.end_time ≤ last_end (get_lines order p)) p.lines
unfolding get_lines to_model
old_ends order p = All_of_In _ p.lines (λ l m.
    last_end-le (get_lines order p) (to_model p.speakers l)
      (In-map (to_model p.speakers) l (order.sort p.lines) (order.In-sort l p.lines m)))

ids-Stamped :
    (p : Project) (ls ms : List TranscriptLine)
    → Stamped p ls ms
    → map line_key (map row_of ls) ≡ map line_key (map row_of ms)
ids-Stamped p [] [] h = refl
ids-Stamped p [] (m ∷ ms) h = absurd h
ids-Stamped p (l ∷ ls) [] h = absurd h
ids-Stamped p (l ∷ ls) (m ∷ ms) ((i, n, same, said, found), h) =
    ap₂ (λ (j : ℕ) (js : List ℕ). j ∷ js) (ap (λ (t : TranscriptLine). t.id) (sym same))
      (ids-Stamped p ls ms h)

starts-Stamped :
    (p : Project) (at : ℕ) (ls ms : List TranscriptLine)
    → Stamped p ls ms
    → All (Placed at) ls
    → All (λ (new : Line). at ≤ new.start_time) (map row_of ms)
starts-Stamped p at [] [] h k = tt
starts-Stamped p at [] (m ∷ ms) h k = absurd h
starts-Stamped p at (l ∷ ls) [] h k = absurd h
starts-Stamped p at (l ∷ ls) (m ∷ ms) ((i, n, same, said, found), h) ((later, named), k) =
    (rw (ap (λ (t : TranscriptLine). t.start_time) same) later, starts-Stamped p at ls ms h k)

behind_old :
    (order : LineOrder) (append : Bool) (p : Project) (rows : List Line)
    → All (λ (new : Line). offset_after order append p ≤ new.start_time) rows
    → append ≡ true
    → All (λ (old : Line). All (λ (new : Line). old.end_time ≤ new.start_time) rows) p.lines
behind_old order true p rows h e =
    All-mono _ _ p.lines (λ old ends. All-mono _ _ rows (λ new later. omega (arith, ends, later)) h)
      (old_ends order p)
behind_old order false p rows h e = ground (arith, e)

existing : LineOrder → Bool → Project → List TranscriptLine
existing order append p = if append then get_lines order p else []

existing_lines-kept :
    (order : LineOrder) (append : Bool) (p : Project)
    → existing_lines order append p
      ≡ some (existing order append p, record p { lines = kept append p })
unfolding existing_lines existing chronicler.Project.delete_all_lines
existing_lines-kept order true p = refl
existing_lines-kept order false p = refl

last_end-existing :
    (order : LineOrder) (append : Bool) (p : Project)
    → last_end (existing order append p) ≡ offset_after order append p
unfolding existing last_end
last_end-existing order true p = refl
last_end-existing order false p = refl

-- While ids and names of the speakers are distinct: an import of a text that cannot be parsed raises.
-- Otherwise, if the ids of its lines are new, it stores the parsed lines, each with the id of a speaker
-- with its name, behind the lines that there were with `append` and in their place without. With
-- `append`, no new line starts before an old one ends.
pub import_lines-Imported :
    (order : LineOrder) (importer : Importer) (content : Text) (append : Bool) (p : Project)
    → SpeakersOk p
    → (parse importer content (offset_after order append p) ≡ none
        → import_lines order importer content append p ≡ none)
      × ((lines : List TranscriptLine)
          → parse importer content (offset_after order append p) ≡ some lines
          → IsKeyed line_key (kept append p ++ map row_of lines)
          → (count : ℕ) × (p' : Project) × (import_lines order importer content append p
              ≡ some (count, p'))
            × Imported append lines p p')
unfolding import_lines
import_lines-Imported order importer content append p ok =
    let first = existing_lines-kept order append p in
    let offset = last_end-existing order append p in
    (
      λ h. simp (first, offset, h),
      λ lines h new.
          let placed = parse-Placed importer content (offset_after order append p) lines h in
          let p0 = record p { lines = kept append p } in
          let ok0 : SpeakersOk p0 = record { ids = ok.ids; names = ok.names; below = ok.below } in
          let (ms, ids, p1, attached, g, stamped) =
            attach_speakers-Stamped p0 lines ok0 (All-mono _ _ lines (λ l k. k.1) placed) in
          let keyed : IsKeyed line_key (p1.lines ++ map row_of ms) = rw g.lines (
            IsKeyed-ids (kept append p) (map row_of lines) (map row_of ms)
              (ids-Stamped p1 lines ms stamped) new) in
          let stored = add_lines-append ms p1 keyed in
          let p2 = record p1 { lines = p1.lines ++ map row_of ms } in
          (
            distinct_count (names_of (existing order append p) ++ keys_of ids),
            p2,
            simp (first, offset, h, attached, stored),
            record {
              attached = ms;
              stamped = Stamped-mono p1 p2 lines ms (λ i t e. e) stamped;
              rows = rw g.lines refl;
              behind = λ appends.
                  behind_old order append p (map row_of ms)
                    (starts-Stamped p1 (offset_after order append p) lines ms stamped placed)
                    appends;
              sources = g.sources;
            },
          ),
    )
