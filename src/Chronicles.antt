-- ===== src/Chronicles.antt =====
-- chronicler/core/sqlite/chronicle_repository.py and tag_repository.py over the archive's tables. `none`
-- is an exception; `uuid4` is the next number. The columns `created_at` and `updated_at` are left out.
pub mod Links
pub mod Deletion
pub mod Service
pub mod Rows
pub mod Tags
mod Examples
use chronicler.Base.{
  ℕ, ◌+◌, ◌≡◌, Bool, true, false, not, ◌&&◌, ◌||◌, Option, none, some, List, [], ◌∷◌, ◌++◌, map,
  keep, any, if◌then◌else◌, ◌==◌, ℕ_eq, List_eq, Option_eq, Equality,
}
use chronicler.Base.Table.{find, modify}
use chronicler.Text.{Text}
use chronicler.Models.{Task}
use chronicler.Search.{Like, contains_pattern}

pub record Chronicle : Type 0 where
  pub id : ℕ
  pub title : Text
  pub description : Option Text
  pub kind : Text
  pub status : Text
  pub source_file : Option Text
  pub project_path : Option Text
  pub duration : Option Text
  pub speakers_count : ℕ

pub record Tag : Type 0 where
  pub id : ℕ
  pub name : Text
  pub color : Option Text

-- A row of `chronicle_tags`
pub record Link : Type 0 where
  pub chronicle_id : ℕ
  pub tag_id : ℕ

pub record Archive : Type 0 where
  pub chronicles : List Chronicle
  pub tags : List Tag
  pub chronicle_tags : List Link
  pub tasks : List Task
  pub next : ℕ

abbrev pub chronicle_key : Chronicle → ℕ
chronicle_key c = c.id

abbrev pub tag_key : Tag → ℕ
tag_key t = t.id

abbrev pub tag_name : Tag → Text
tag_name t = t.name

unfoldable pub create : Chronicle → Archive → Option Archive
create c a = elim (find chronicle_key c.id a.chronicles) [
  | none ↦ some (record a { chronicles = a.chronicles ++ (c ∷ []) })
  | some _ ↦ none
]

-- Every column but the id is assigned.
abbrev pub assigned : Chronicle → Chronicle → Chronicle
assigned c row = record c { id = row.id }

unfoldable pub update : Chronicle → Archive → Option Archive
update c a = elim (find chronicle_key c.id a.chronicles) [
  | none ↦ none
  | some _ ↦ some (record a { chronicles = modify chronicle_key c.id (assigned c) a.chronicles })
]

abbrev pub is_of : ℕ → Link → Bool
is_of id l = l.chronicle_id == id

abbrev pub has_chronicle : ℕ → Task → Bool
has_chronicle id t = t.chronicle_id == some id

unfoldable pub delete : ℕ → Archive → Archive
delete id a = record a {
  chronicle_tags = keep (λ l. not (is_of id l)) a.chronicle_tags;
  tasks = keep (λ t. not (has_chronicle id t)) a.tasks;
  chronicles = keep (λ c. not (chronicle_key c == id)) a.chronicles;
}

abbrev pub new_tag : Text → Archive → Tag
new_tag n a = record { id = a.next; name = n; color = none }

-- The tag with the name, flushed into the table where there was none
unfoldable pub tag_for : Option Tag → Text → Archive → Tag × Archive
tag_for none n a =
    (new_tag n a, record a { tags = a.tags ++ (new_tag n a ∷ []); next = a.next + 1 })
tag_for (some t) n a = (t, a)

abbrev pub has_link : ℕ → ℕ → List Link → Bool
has_link id tag ls = any (λ (l : Link). l.chronicle_id == id && l.tag_id == tag) ls

-- `if db_tag not in db_chronicle.tags`
unfoldable pub link : ℕ → ℕ → Archive → Archive
link id tag a = if has_link id tag a.chronicle_tags then a else record a {
  chronicle_tags = a.chronicle_tags ++ (record { chronicle_id = id; tag_id = tag } ∷ []);
}

unfoldable pub add_tag : ℕ → Text → Archive → Option Archive
unfolding tag_for link
add_tag id n a = elim (find chronicle_key id a.chronicles) [
  | none ↦ none
  | some _ ↦
      let tagged = tag_for (find tag_name n a.tags) n a in some (link id tagged.0.id tagged.1)
]

-- `relationship(secondary=chronicle_tags)`
unfoldable pub tags_of : ℕ → Archive → List Tag
tags_of id a = keep (λ t. has_link id t.id a.chronicle_tags) a.tags

unfoldable pub create_tag : Tag → Archive → Option Archive
create_tag t a =
    if any (λ (s : Tag). s.id == t.id || s.name == t.name) a.tags
    then none
    else some (record a { tags = a.tags ++ (t ∷ []) })

unfoldable pub delete_tag : ℕ → Archive → Archive
delete_tag id a = record a { tags = keep (λ t. not (tag_key t == id)) a.tags }

module _ (l : Like) where
  abbrev pub matches_optional : Text → Option Text → Bool
  matches_optional pattern none = false
  matches_optional pattern (some t) = l.matches pattern t

  -- Newest first, which is an order of SQLite's, is left out.
  unfoldable pub search : Text → Archive → List Chronicle
  unfolding tags_of contains_pattern
  search query a =
      keep
        (λ c.
          l.matches (contains_pattern query) c.title
          || matches_optional (contains_pattern query) c.description
          || any (λ t. l.matches (contains_pattern query) (tag_name t)) (tags_of c.id a))
        a.chronicles
