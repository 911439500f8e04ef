-- ===== src/Intake.antt =====
-- Files on their way in: chronicler/core/file_staging.py and `add_audio_source` of
-- chronicler/core/services/chronicle_service.py. A path's name is read as on a POSIX system; a directory
-- is the list of its files, each with a number for its content.
pub mod Names
pub mod Free
mod Examples
use chronicler.Base.{
  ℕ, zero, suc, ◌+◌, ◌*◌, ◌≡◌, Bool, true, false, not, ◌&&◌, ◌||◌, Option, none, some, List, [],
  ◌∷◌, ◌++◌, keep, any, take, length, if◌then◌else◌, ◌==◌, ℕ_eq, List_eq, Equality,
}
use chronicler.Base.Table.{find}
use chronicler.Text.{Text, codes, strip, split_on, decimal}
use chronicler.Search.{replace_char, is_empty}

abbrev pub is_part : Text → Bool
is_part p = not (is_empty p) && not (p == codes ".")

abbrev pub last_of : List Text → Text
last_of [] = []
last_of (p ∷ []) = p
last_of (p ∷ q ∷ ps) = last_of (q ∷ ps)

-- `PurePosixPath(path).name`, where empty parts and single dots are no parts
unfoldable pub path_name : Text → Text
unfolding split_on
path_name path = last_of (keep is_part (split_on b'/' path))

-- `(original_filename or "")`
abbrev pub or_empty : Option Text → Text
or_empty none = []
or_empty (some t) = t

abbrev pub is_special : Text → Bool
is_special name = is_empty name || name == codes "." || name == codes ".."

unfoldable pub display_name : Option Text → Text
unfolding path_name replace_char
display_name original_filename = strip (
    replace_char b':' (codes "_")
      (path_name (replace_char b'\\' (codes "/") (or_empty original_filename))))

unfoldable pub safe_display_name : Option Text → Text → Text
unfolding display_name
safe_display_name original_filename fallback =
    if is_special (display_name original_filename) then fallback else display_name original_filename

-- What stands before the last dot, and the rest from it on
unfoldable pub last_dot : Text → Option (Text × Text)
last_dot [] = none
last_dot (c ∷ cs) =
    let rest = last_dot cs in
    elim rest [
      | some (before, from) ↦ some (c ∷ before, from)
      | none ↦ if c == b'.' then some ([], c ∷ cs) else none
    ]

abbrev pub is_single : Text → Bool
is_single [] = false
is_single (c ∷ cs) = is_empty cs

-- `Path(name).stem` and `Path(name).suffix`
unfoldable pub stem_suffix : Text → Text × Text
unfolding last_dot
stem_suffix name = elim (last_dot name) [
  | none ↦ (name, [])
  | some (before, from) ↦ if is_empty before || is_single from then (name, []) else (before, from)
]

-- `uuid4().hex` and `str.isalnum` are parameters.
unfoldable pub sanitize_stage_name : (ℕ → Bool) → Text → Option Text → Text
unfolding stem_suffix path_name
sanitize_stage_name isalnum hex original_filename =
    hex
    ++ take 16 (
        keep (λ c. isalnum c || c == b'.') (stem_suffix (path_name (or_empty original_filename))).1)

pub record Stored : Type 0 where
  pub name : Text
  pub content : ℕ

abbrev pub file_name : Stored → Text
file_name f = f.name

-- The staged files, and the chronicle's sources
pub record Disk : Type 0 where
  pub imports : List Stored
  pub sources : List Stored

abbrev pub exists : Text → List Stored → Bool
exists name files = any (λ (f : Stored). f.name == name) files

unfoldable pub numbered : Text × Text → ℕ → Text
unfolding decimal
numbered parts counter = parts.0 ++ (codes " (" ++ (decimal counter ++ (codes ")" ++ parts.1)))

-- `while dest.exists()`, on fuel
unfoldable pub free_from : ℕ → ℕ → Text × Text → List Stored → Option Text
unfolding numbered
free_from zero counter parts files = none
free_from (suc fuel) counter parts files =
    let rest = free_from fuel (counter + 1) parts files in
    if exists (numbered parts counter) files then rest else some (numbered parts counter)

unfoldable pub free_name : ℕ → Text → List Stored → Option Text
unfolding free_from stem_suffix
free_name fuel name files =
    if exists name files then free_from fuel 1 (stem_suffix name) files else some name

-- `original_name or resolved_source.name`
abbrev pub given_name : Option Text → Text → Text
given_name none staged = staged
given_name (some []) staged = staged
given_name (some (c ∷ cs)) staged = c ∷ cs

unfoldable pub move_to : Option Text → Stored → Disk → Option (Text × Disk)
move_to none f d = none
move_to (some dest) f d = some (
  dest,
  record {
    imports = keep (λ (g : Stored). not (g.name == f.name)) d.imports;
    sources = d.sources ++ (record { name = dest; content = f.content } ∷ []);
  },
)

-- A staged path is its name: `confine_to_directory` refuses what is not in the imports directory.
unfoldable pub add_audio_source : ℕ → Text → Option Text → Disk → Option (Text × Disk)
unfolding safe_display_name free_name move_to
add_audio_source fuel staged original_name d = elim (find file_name staged d.imports) [
  | none ↦ none
  | some f ↦
      move_to
        (free_name fuel (safe_display_name (some (given_name original_name staged)) staged)
          d.sources)
        f d
]

-- `shutil.rmtree` at each attempt, and how long the loop sleeps in milliseconds; `none` is its error.
unfoldable pub remove_from : ℕ → ℕ → (ℕ → Bool) → Option ℕ
remove_from zero attempt rmtree = none
remove_from (suc left) attempt rmtree =
    let rest = remove_from left (attempt + 1) rmtree in
    if rmtree attempt
    then some 0
    else elim rest [ none ↦ none | some slept ↦ some (100 * (attempt + 1) + slept) ]

abbrev pub removal_attempts : ℕ
removal_attempts = 5

abbrev pub remove_directory : (ℕ → Bool) → Option ℕ
remove_directory rmtree = remove_from removal_attempts 0 rmtree
