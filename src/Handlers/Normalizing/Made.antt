-- ===== src/Handlers/Normalizing/Made.antt =====
-- What `ensure_normalized` (chronicler/core/processing/handlers/normalizing.py) leaves when it makes a
-- levelled copy.
use chronicler.Base.{
  ℕ, ◌≡◌, ◌≢◌, refl, ap, ◌∙◌, Bool, false, not, ◌&&◌, none, some, if◌then◌else◌, String, String_eq,
  Option_eq, ◌==◌,
}
use chronicler.Base.Table.{find, modify, find-modify}
use chronicler.Models.{source_done, SourceState_eq}
use chronicler.Sources.{
  AudioSource, name, register, update, assign, Write, mark_normalizing, mark_normalized,
  with_content, new_source,
}
use chronicler.Sources.History.{assign_row-find, name-assign, row_or_new}
use chronicler.Handlers.Normalizing.{
  file, Studio, Levelled, Engine, put, apply_to, normalized_path_for, source_record, write_row,
  level_at, finish, run_normalizer, has_copy, ensure_normalized,
}
use chronicler.Handlers.Normalizing.Files.{same_name, other_name, audio, put-other}

module _ (engine : Engine) (now : ℕ) where
  source_record-find :
      (f g : String) (w : Studio)
      → find name g (source_record engine now f w).sources ≡ (
          if f == g
          then some (
              with_content
                (apply_to engine.fingerprint (find file f w.disk))
                (apply_to engine.size (find file f w.disk))
                none
                (row_or_new
                  (find name f w.sources)
                  (new_source (record { time = now; uuid = w.next }) f)))
          else find name g w.sources)
  unfolding source_record register
  source_record-find f g w =
      assign_row-find f g w.sources (find name f w.sources) (record { time = now; uuid = w.next })
        (with_content (apply_to engine.fingerprint (find file f w.disk))
          (apply_to engine.size (find file f w.disk)) none)
        (λ _. refl) refl

  abbrev pub registered : String → Studio → AudioSource
  registered f w =
      with_content (apply_to engine.fingerprint (find file f w.disk))
        (apply_to engine.size (find file f w.disk)) none
        (row_or_new (find name f w.sources) (new_source (record { time = now; uuid = w.next }) f))

  pub source_record-own :
      (f : String) (w : Studio)
      → find name f (source_record engine now f w).sources ≡ some (registered f w)
  source_record-own f w = source_record-find f f w ∙ rw (same_name f) refl

  pub source_record-other :
      (f g : String) (w : Studio)
      → f ≢ g
      → find name g (source_record engine now f w).sources ≡ find name g w.sources
  source_record-other f g w h = source_record-find f g w ∙ rw (other_name f g h) refl

  -- A write to a row that is there
  record Wrote (f : String) (write : Write) (s : AudioSource) (w w' : Studio) : Type 0 where
    row : find name f w'.sources ≡ some (assign now write s)
    disk : w'.disk ≡ w.disk
    others : (g : String) → f ≢ g → find name g w'.sources ≡ find name g w.sources

  write_row-Wrote :
      (f : String) (write : Write) (s : AudioSource) (w : Studio)
      → find name f w.sources ≡ some s
      → (w' : Studio) × (write_row engine now f write w ≡ some w') × Wrote f write s w w'
  unfolding write_row update
  write_row-Wrote f write s w row =
      let found =
        λ (g : String). find-modify name (assign now write) (name-assign now write) g f w.sources in
      (
        record w { sources = modify name f (assign now write) w.sources },
        rw (row, write_row) refl,
        record {
          row = found f ∙ rw (same_name f, row) refl;
          disk = refl;
          others = λ g h. found g ∙ rw (other_name f g h) refl;
        },
      )

  -- The row says that there is a copy of this content.
  pub record Current (f : String) (content : ℕ) (w : Studio) : Type 0 where
    pub source : AudioSource
    pub row : find name f w.sources ≡ some source
    pub state : source.normalization_state ≡ source_done
    pub hash : source.normalized_hash ≡ some (engine.fingerprint content)
    pub copy : source.normalized_filename ≡ some (normalized_path_for engine now f)

  -- What `ensure_normalized` did.
  pub record Made (f : String) (content : ℕ) (l : Levelled) (w w' : Studio) : Type 0 where
    pub disk : w'.disk ≡ put (normalized_path_for engine now f) l.content w.disk
    pub current : Current f content w'
    pub others : (g : String) → f ≢ g → find name g w'.sources ≡ find name g w.sources

  abbrev copied : String → Levelled → Studio → Studio
  copied f l w = record w { disk = put (normalized_path_for engine now f) l.content w.disk }

  abbrev marked : String → Levelled → Studio → Write
  marked f l w =
      mark_normalized (apply_to engine.fingerprint (find file f (copied f l w).disk))
        (normalized_path_for engine now f) l.loudness_before l.loudness_after

  -- Nothing is forced and the row says that there is a copy.
  abbrev pub wants_none : Bool → String → Studio → Bool
  wants_none force f w =
      not force
      && has_copy engine now (find name f (source_record engine now f w).sources)
          (source_record engine now f w).disk

  -- The steps of a run that succeeds, one after the other
  ensure_normalized-steps :
      (force : Bool) (f : String) (l : Levelled) (w w1 w2 : Studio)
      → wants_none force f w ≡ false
      → write_row engine now f mark_normalizing (source_record engine now f w) ≡ some w1
      → level_at engine now (find file f w1.disk) ≡ some l
      → write_row engine now f (marked f l w1) (copied f l w1) ≡ some w2
      → ensure_normalized engine now force f w
        ≡ (some (some (normalized_path_for engine now f)), w2)
  unfolding ensure_normalized run_normalizer finish
  ensure_normalized-steps force f l w w1 w2 wants e1 levels e2 = simp (wants, e1, levels, e2)

  pub ensure_normalized-Made :
      (force : Bool) (f : String) (content : ℕ) (l : Levelled) (w : Studio)
      → wants_none force f w ≡ false
      → normalized_path_for engine now f ≢ f
      → find file f w.disk ≡ some (audio f content)
      → engine.level content ≡ some l
      → (w' : Studio) × (ensure_normalized engine now force f w
          ≡ (some (some (normalized_path_for engine now f)), w'))
        × Made f content l w w'
  unfolding assign source_record
  ensure_normalized-Made force f content l w wants apart there levels =
      let path = normalized_path_for engine now f in
      let seen = source_record engine now f w in
      let (w1, e1, a) =
        write_row-Wrote f mark_normalizing (registered f w) seen (source_record-own f w) in
      let still : find file f w1.disk ≡ some (audio f content) = ap (find file f) a.disk ∙ there in
      let (w2, e2, b) =
        write_row-Wrote f (marked f l w1) (assign now mark_normalizing (registered f w))
          (copied f l w1) a.row in
      (
        w2,
        ensure_normalized-steps force f l w w1 w2 wants e1 (ap (level_at engine now) still ∙ levels)
            e2,
        record {
          disk = b.disk ∙ ap (put path l.content) a.disk;
          current = record {
            source = assign now (marked f l w1) (assign now mark_normalizing (registered f w));
            row = b.row;
            state = refl;
            hash =
                ap (apply_to engine.fingerprint) (put-other path f l.content w1.disk apart ∙ still);
            copy = refl;
          };
          others = λ g h. b.others g h ∙ a.others g h ∙ source_record-other f g w h;
        },
      )
