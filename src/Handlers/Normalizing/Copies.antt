-- ===== src/Handlers/Normalizing/Copies.antt =====
-- Which recording the transcriber is given after `ensure_normalized`
-- (chronicler/core/processing/handlers/normalizing.py).
use chronicler.Base.{
  ℕ, ◌≡◌, ◌≢◌, refl, sym, ap, ◌∙◌, Bool, true, false, Option, none, some, List, String, String_eq,
  Option_eq,
}
use chronicler.Base.Table.{find}
use chronicler.Models.{SourceState_eq}
use chronicler.Sources.{AudioSource, name, is_normalized, with_content}
use chronicler.Handlers.Normalizing.{
  Audio, file, Studio, Levelled, Engine, put, normalized_path_for, source_record, ensure_normalized,
  copy_or, transcription_source,
}
use chronicler.Handlers.Normalizing.Files.{audio, put-own, put-other, is_normalized_lem}
use chronicler.Handlers.Normalizing.Made.{
  Current, wants_none, source_record-own, ensure_normalized-Made,
}

module _ (engine : Engine) (now : ℕ) where
  copy_or-some :
      (f g : String) (s : AudioSource) (a : Audio) (disk : List Audio)
      → is_normalized s ≡ true
      → s.normalized_filename ≡ some g
      → find file g disk ≡ some a
      → copy_or engine now f (some s) disk ≡ g
  copy_or-some f g s a disk ok named there = simp (ok, named, there)

  -- What the transcriber is given for a track
  abbrev pub given : String → Studio → Option Audio
  given f w =
      find file (transcription_source engine now f w).0 (transcription_source engine now f w).1.disk

  given-Current :
      (f : String) (content : ℕ) (a : Audio) (w : Studio)
      → Current engine now f content w
      → find file f w.disk ≡ some (audio f content)
      → find file (normalized_path_for engine now f) w.disk ≡ some a
      → given f w ≡ some a
  unfolding transcription_source source_record
  given-Current f content a w ok there copy =
      let row : find name f (source_record engine now f w).sources
          ≡ some (
              with_content (some (engine.fingerprint content)) (some (engine.size content)) none
                ok.source) =
        source_record-own engine now f w ∙ rw (there, ok.row) refl in
      ap (λ (o : Option AudioSource). find file (copy_or engine now f o w.disk) w.disk) row
      ∙ ap (λ (g : String). find file g w.disk)
          (copy_or-some f (normalized_path_for engine now f)
            (with_content (some (engine.fingerprint content)) (some (engine.size content)) none
              ok.source)
            a w.disk
            (is_normalized_lem
              (with_content (some (engine.fingerprint content)) (some (engine.size content)) none
                ok.source)
              (engine.fingerprint content) (normalized_path_for engine now f) ok.state ok.hash refl
              ok.copy)
            ok.copy copy)
      ∙ copy

  -- When the file of a track is there under another name than its copy's, its recording can be
  -- levelled, and the run is forced or the track has no current copy, then `ensure_normalized` returns
  -- the copy's name, and afterwards the transcriber is given the levelled recording for the track.
  pub ensure_normalized-levelled :
      (force : Bool) (f : String) (content : ℕ) (l : Levelled) (w : Studio)
      → wants_none engine now force f w ≡ false
      → normalized_path_for engine now f ≢ f
      → find file f w.disk ≡ some (audio f content)
      → engine.level content ≡ some l
      → ((ensure_normalized engine now force f w).0
          ≡ some (some (normalized_path_for engine now f)))
        × (given f (ensure_normalized engine now force f w).1
            ≡ some (audio (normalized_path_for engine now f) l.content))
  ensure_normalized-levelled force f content l w wants apart there levels =
      let path = normalized_path_for engine now f in
      let (w1, e1, a) =
        ensure_normalized-Made engine now force f content l w wants apart there levels in
      let f1 : find file f w1.disk ≡ some (audio f content) =
        ap (find file f) a.disk ∙ put-other path f l.content w.disk apart ∙ there in
      (
        ap (λ (r : Option (Option String) × Studio). r.0) e1,
        ap (λ (r : Option (Option String) × Studio). given f r.1) e1
            ∙ given-Current f content _ w1 a.current f1
                (ap (find file path) a.disk ∙ put-own path l.content w.disk),
      )

  -- When two tracks have one name for their copies, both files are there under other names and both
  -- can be levelled, then after both are normalized by force the transcriber is given, for the first
  -- track, the copy of the second, and was given its own before the second was normalized.
  pub ensure_normalized-given :
      (f g : String) (content other : ℕ) (l m : Levelled) (w : Studio)
      → f ≢ g
      → normalized_path_for engine now f ≡ normalized_path_for engine now g
      → normalized_path_for engine now f ≢ f
      → normalized_path_for engine now g ≢ g
      → find file f w.disk ≡ some (audio f content)
      → find file g w.disk ≡ some (audio g other)
      → engine.level content ≡ some l
      → engine.level other ≡ some m
      → (given f (ensure_normalized engine now true f w).1
          ≡ some (audio (normalized_path_for engine now f) l.content))
        × (given f (ensure_normalized engine now true g (ensure_normalized engine now true f w).1).1
            ≡ some (audio (normalized_path_for engine now f) m.content))
  ensure_normalized-given f g content other l m w differ shared apart_f apart_g there_f there_g
        levels_f levels_g =
      let path = normalized_path_for engine now f in
      let (w1, e1, a) =
        ensure_normalized-Made engine now true f content l w refl apart_f there_f levels_f in
      let f1 : find file f w1.disk ≡ some (audio f content) =
        ap (find file f) a.disk ∙ put-other path f l.content w.disk apart_f ∙ there_f in
      let g1 : find file g w1.disk ≡ some (audio g other) =
        ap (find file g) a.disk
        ∙ put-other path g l.content w.disk (λ e. apart_g (sym shared ∙ e))
        ∙ there_g in
      let (w2, e2, b) =
        ensure_normalized-Made engine now true g other m w1 refl apart_g g1 levels_g in
      let disk2 : w2.disk ≡ put path m.content w1.disk =
        b.disk ∙ ap (λ (n : String). put n m.content w1.disk) (sym shared) in
      let kept : Current engine now f content w2 = record {
        source = a.current.source;
        row = b.others f (λ e. differ (sym e)) ∙ a.current.row;
        state = a.current.state;
        hash = a.current.hash;
        copy = a.current.copy;
      } in
      (
        ap (λ (r : Option (Option String) × Studio). given f r.1) e1
            ∙ given-Current f content _ w1 a.current f1
                (ap (find file path) a.disk ∙ put-own path l.content w.disk),
        ap
              (λ (r : Option (Option String) × Studio).
                given f (ensure_normalized engine now true g r.1).1)
              e1
            ∙ ap (λ (r : Option (Option String) × Studio). given f r.1) e2
            ∙ given-Current f content _ w2 kept
                (ap (find file f) disk2 ∙ put-other path f m.content w1.disk apart_f ∙ f1)
                (ap (find file path) disk2 ∙ put-own path m.content w1.disk),
      )
