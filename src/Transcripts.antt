-- ===== src/Transcripts.antt =====
-- chronicler/core/services/transcript_service.py: what the service changes in a project's tables and in
-- the workspace's registry of speakers, and its listing of the tracks.
pub mod Editing
pub mod Listing
mod Examples
use Prim.Native.Char.{code}
use chronicler.Base.{
  ℕ, ◌+◌, Bool, true, false, not, ◌&&◌, ◌||◌, Option, none, some, List, [], ◌∷◌, map, keep, any, In,
  if◌then◌else◌, String, String_eq, ◌==◌, ℕ_eq, List_eq,
}
use chronicler.Base.Table.{find}
use chronicler.Text.{Text, codes}
use chronicler.Models.{TranscriptLine}
use chronicler.Sources.{Sources, AudioSource, update, assign, set_speaker}
use chronicler.Session.{Session, ◌>>=◌, ◌>>◌, pure, transact}
use chronicler.Project.{Project, get_or_create_speaker}
use chronicler.KnownSpeakers.{Registry, register}

-- The project's tables, and the registry where one is wired
pub record Store : Type 0 where
  pub project : Project
  pub known_speakers : Option Registry

-- `if speaker_name:`
unfoldable pub speaker_for : Option Text → Session Project (Option ℕ)
speaker_for none = pure none
speaker_for (some []) = pure none
speaker_for (some (c ∷ cs)) = get_or_create_speaker (some (c ∷ cs)) >>= λ s. pure (some s.id)

unfoldable pub edit_line : ℕ → Option Text → Option Text → Session Project TranscriptLine
unfolding speaker_for
edit_line id text' speaker_name =
    speaker_for speaker_name >>= λ s. chronicler.Project.update_line id text' s

module _ (casefold : Text → Text) where
  unfoldable pub remember_speaker : ℕ → Text → Option Registry → Option Registry
  remember_speaker now name none = none
  remember_speaker now name (some rows) = some (register casefold now name rows).1

  -- `if speaker_name: await self._remember_speaker(speaker_name)`
  abbrev pub remember_if : ℕ → Option Text → Option Registry → Option Registry
  remember_if now none known = known
  remember_if now (some []) known = known
  remember_if now (some (c ∷ cs)) known = remember_speaker now (c ∷ cs) known

  -- Behind the transaction: nothing is remembered where it raised.
  abbrev pub remembering :
      {A : Type 0} → ℕ → Option Text → Option A × Project → Option Registry → Option A × Store
  remembering now speaker_name (none, p) known =
      (none, record { project = p; known_speakers = known })
  remembering now speaker_name (some a, p) known =
      (some a, record { project = p; known_speakers = remember_if now speaker_name known })

  unfoldable pub update_line :
      ℕ → ℕ → Option Text → Option Text → Store → Option TranscriptLine × Store
  unfolding edit_line transact
  update_line now id text' speaker_name s =
      remembering now speaker_name (transact (edit_line id text' speaker_name) s.project)
        s.known_speakers

  unfoldable pub speak_track : ℕ → String → Option Text → Session Project (Unit {0})
  unfolding speaker_for
  speak_track now filename speaker_name = speaker_for speaker_name >>= λ id p.
      elim (update filename (assign now (set_speaker id)) p.sources) [
        | none ↦ none
        | some sources ↦ some (tt, record p { sources = sources })
      ]

  -- The row that is read back is left out.
  unfoldable pub assign_speaker : ℕ → String → Option Text → Store → Option (Unit {0}) × Store
  unfolding speak_track transact
  assign_speaker now filename speaker_name s =
      remembering now speaker_name (transact (speak_track now filename speaker_name) s.project)
        s.known_speakers

unfoldable pub delete_line : ℕ → Store → Option (Unit {0}) × Store
unfolding transact
delete_line id s =
    let done = transact (chronicler.Project.delete_line id) s.project in
    (done.0, record s { project = done.1 })

-- An entry of the sources directory: its name, whether it is a file, its fingerprint and its size. A
-- directory is the list of its entries in the order of `sorted`.
pub record File : Type 0 where
  pub filename : String
  pub is_file : Bool
  pub content_hash : String
  pub size_bytes : ℕ

unfoldable pub ends_with : Text → Text → Bool
ends_with suffix [] = suffix == []
ends_with suffix (c ∷ cs) = (suffix == (c ∷ cs)) || ends_with suffix cs

unfoldable pub is_source : File → Bool
unfolding ends_with
is_source f = f.is_file && not (ends_with (codes ".normalized.wav") (codes f.filename))

abbrev pub on_disk : List File → List File
on_disk files = keep is_source files

-- The `register` calls of the listing, one at each `now`
unfoldable pub register_files : ℕ → List File → Project → Project
register_files now [] p = p
register_files now (f ∷ fs) p = register_files now fs (record p {
  sources =
      chronicler.Sources.register (record { time = now; uuid = p.next }) f.filename
        (some f.content_hash) (some f.size_bytes) none p.sources;
  next = p.next + 1;
})

pub record Listed : Type 0 where
  pub source : AudioSource
  pub missing : Bool

-- What the code relies on of `ORDER BY filename`.
pub record SourceOrder : Type 0 where
  pub sort : Sources → Sources
  pub In-sort : (s : AudioSource) (db : Sources) → In s db → In s (sort db)

-- `missing` is set behind the session; the path is left out.
abbrev pub listed : List File → AudioSource → Listed
listed files s = record {
  source = s;
  missing = not (any (λ (f : File). f.filename == s.filename) (on_disk files));
}

unfoldable pub list_audio_sources : SourceOrder → ℕ → List File → Project → List Listed × Project
unfolding register_files is_source
list_audio_sources order now files p =
    let done = register_files now (on_disk files) p in
    (map (listed files) (order.sort done.sources), done)
