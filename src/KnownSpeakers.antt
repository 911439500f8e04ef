-- ===== src/KnownSpeakers.antt =====
-- chronicler/core/sqlite/known_speaker_repository.py: the workspace's registry of speakers, one row for
-- each normalized name. `str.casefold` is a parameter.
pub mod Uses
mod Examples
use chronicler.Base.{
  ℕ, ◌+◌, Bool, true, false, Option, none, some, List, [], ◌∷◌, ◌++◌, ℕ_eq, List_eq, ◌==◌,
  if◌then◌else◌,
}
use chronicler.Base.Table.{find, modify}
use chronicler.Text.{Text, codes, words, join}

pub record KnownSpeaker : Type 0 where
  pub name : Text
  pub normalized_name : Text
  pub uses : ℕ
  pub first_seen : ℕ
  pub last_used : ℕ

abbrev pub Registry : Type 0
Registry = List KnownSpeaker

abbrev pub key : KnownSpeaker → Text
key s = s.normalized_name

-- `" ".join(name.split())`
unfoldable pub cleaned : Text → Text
unfolding words join
cleaned name = join (codes " ") (words name)

module _ (casefold : Text → Text) where
  unfoldable pub normalize_speaker_name : Text → Text
  unfolding cleaned
  normalize_speaker_name name = casefold (cleaned name)

  abbrev pub new_row : ℕ → Text → KnownSpeaker
  new_row now name = record {
    name = name;
    normalized_name = normalize_speaker_name name;
    uses = 1;
    first_seen = now;
    last_used = now;
  }

  abbrev pub used : ℕ → KnownSpeaker → KnownSpeaker
  used now s = record s { uses = s.uses + 1; last_used = now }

  unfoldable pub register_row : Option KnownSpeaker → ℕ → Text → Registry → KnownSpeaker × Registry
  register_row none now name rows = (new_row now name, rows ++ (new_row now name ∷ []))
  register_row (some s) now name rows =
      (used now s, modify key (normalize_speaker_name name) (used now) rows)

  -- `if not cleaned: return None`
  unfoldable pub register_cleaned : ℕ → Text → Registry → Option KnownSpeaker × Registry
  unfolding register_row normalize_speaker_name
  register_cleaned now [] rows = (none, rows)
  register_cleaned now (c ∷ cs) rows =
      let done = register_row (find key (normalize_speaker_name (c ∷ cs)) rows) now (c ∷ cs) rows in
      (some done.0, done.1)

  unfoldable pub register : ℕ → Text → Registry → Option KnownSpeaker × Registry
  unfolding register_cleaned cleaned
  register now name rows = register_cleaned now (cleaned name) rows
