-- ===== src/Transcripts/Listing.antt =====
-- `list_audio_sources` of chronicler/core/services/transcript_service.py: the tracks as they are on disk.
use chronicler.Base.{
  ℕ, ◌+◌, ◌≡◌, ◌≢◌, refl, sym, ap, subst, ◌∙◌, true, false, not, Bool, none, some, List, [], ◌∷◌,
  In-any, In-map, map-In, any-false, All, Pairwise, Pairwise-keep, In, here, there, All-mono,
  String, String_eq, Option_eq, option_beq_iff, ◌==◌, if◌then◌else◌, arith,
}
use chronicler.Base.Table.{find, In-find, key-find}
use chronicler.Models.{SourceState_eq}
use chronicler.Sources.{AudioSource, name, register, with_content, new_source, is_transcribed}
use chronicler.Sources.History.{assign_row-find, row_or_new}
use chronicler.Project.{Project}
use chronicler.Transcripts.{
  File, on_disk, is_source, register_files, SourceOrder, Listed, listed, list_audio_sources,
}

-- The tables behind the registration of one file
abbrev registered : ℕ → File → Project → Project
registered now f p = record p {
  sources =
      register (record { time = now; uuid = p.next }) f.filename (some f.content_hash)
        (some f.size_bytes) none p.sources;
  next = p.next + 1;
}

registered-find :
    (now : ℕ) (f : File) (g : String) (p : Project)
    → find name g (registered now f p).sources ≡ (
        if f.filename == g
        then some (
            with_content (some f.content_hash) (some f.size_bytes) none (
              row_or_new
                (find name f.filename p.sources)
                (new_source (record { time = now; uuid = p.next }) f.filename)))
        else find name g p.sources)
unfolding register
registered-find now f g p =
    assign_row-find f.filename g p.sources (find name f.filename p.sources)
      (record { time = now; uuid = p.next })
      (with_content (some f.content_hash) (some f.size_bytes) none) (λ _. refl) refl

register_files-others :
    (now : ℕ) (g : String) (fs : List File) (p : Project)
    → All (λ (f : File). f.filename ≢ g) fs
    → find name g (register_files now fs p).sources ≡ find name g p.sources
unfolding register_files
register_files-others now g [] p h = refl
register_files-others now g (f ∷ fs) p h =
    register_files-others now g fs (registered now f p) h.1
    ∙ registered-find now f g p
    ∙ ground (arith, String_eq.test_iff f.filename g, h.0)

-- Files with different names, as a directory has them
abbrev pub Different : List File → Type 0
Different fs = Pairwise (λ (f g : File). f.filename ≢ g.filename) fs

register_files-row :
    (now : ℕ) (f : File) (fs : List File) (p : Project)
    → Different fs
    → In f fs
    → (s : AudioSource) × (find name f.filename (register_files now fs p).sources ≡ some s)
      × (s.content_hash ≡ some f.content_hash)
unfolding register_files
register_files-row now f [] p h m = elim m [ ]
register_files-row now f (g ∷ fs) p h here =
    let same : (f.filename == f.filename) ≡ true =
      (String_eq.test_iff f.filename f.filename).1 refl in
    let row = with_content (some f.content_hash) (some f.size_bytes) none (
      row_or_new (find name f.filename p.sources)
        (new_source (record { time = now; uuid = p.next }) f.filename)) in
    (
      row,
      register_files-others now f.filename fs (registered now f p)
            (All-mono _ _ fs (λ g differs e. differs (sym e)) h.0)
          ∙ registered-find now f f.filename p
          ∙ rw same refl,
      refl,
    )
register_files-row now f (g ∷ fs) p h (there m) =
    register_files-row now f fs (registered now g p) h.1 m

transcribed-hash :
    (s : AudioSource) (h : String)
    → s.content_hash ≡ some h
    → is_transcribed s ≡ true
    → s.transcribed_hash ≡ some h
unfolding is_transcribed
transcribed-hash s h e t =
    let same : (s.transcribed_hash == s.content_hash) ≡ true = ground (arith, t) in
    (option_beq_iff s.transcribed_hash s.content_hash).0 same ∙ e

-- While a directory's files have different names: each source file there has a row with its
-- fingerprint, which is listed and not missing, and counts as transcribed only if what was transcribed
-- has that fingerprint; a row that is listed as missing has no source file; and the rows of other files
-- stay as they were.
pub list_audio_sources-Present :
    (order : SourceOrder) (now : ℕ) (files : List File) (p : Project)
    → Different files
    → ((f : File)
        → In f (on_disk files)
        → (s : AudioSource) × (s.filename ≡ f.filename)
          × (s.content_hash ≡ some f.content_hash)
          × In (record { source = s; missing = false }) (list_audio_sources order now files p).0
          × (is_transcribed s ≡ true → s.transcribed_hash ≡ some f.content_hash))
      × (((l : Listed)
            → In l (list_audio_sources order now files p).0
            → l.missing ≡ true
            → All (λ (f : File). f.filename ≢ l.source.filename) (on_disk files))
          × ((g : String)
              → All (λ (f : File). f.filename ≢ g) (on_disk files)
              → find name g (list_audio_sources order now files p).1.sources
                ≡ find name g p.sources))
unfolding list_audio_sources
list_audio_sources-Present order now files p h = (
  λ f m.
      let (s, found, hash) =
        register_files-row now f (on_disk files) p (Pairwise-keep _ is_source files h) m in
      (
        s,
        key-find name f.filename _ s found,
        hash,
        subst
            (λ (b : Bool).
              In (record { source = s; missing = b }) (list_audio_sources order now files p).0)
            (ap not (
              In-any (λ (g : File). g.filename == s.filename) f (on_disk files) m
                ((String_eq.test_iff f.filename s.filename).1
                  (sym (key-find name f.filename _ s found)))))
            (In-map (λ (r : AudioSource). listed files r) s _
              (order.In-sort s _ (In-find name f.filename _ s found))),
        transcribed-hash s f.content_hash hash,
      ),
  (gone_from_disk, λ g others. register_files-others now g (on_disk files) p others),
)
  where
    gone_from_disk :
        (l : Listed)
        → In l (list_audio_sources order now files p).0
        → l.missing ≡ true
        → All (λ (f : File). f.filename ≢ l.source.filename) (on_disk files)
    gone_from_disk l m gone =
        let (s, found, e) = map-In (listed files) l _ m in
        rw e (
          All-mono _ _ (on_disk files)
            (λ f other same. ground (arith, other, String_eq.test_iff f.filename s.filename, same))
            (any-false (λ (f : File). f.filename == s.filename) (on_disk files)
              (ground (arith, (rw e at gone)))))
