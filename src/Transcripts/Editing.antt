-- ===== src/Transcripts/Editing.antt =====
-- The corrections of chronicler/core/services/transcript_service.py as transactions.
use chronicler.Base.{
  ℕ, ◌≡◌, ◌≢◌, refl, ap, ◌∙◌, Option, none, some, [], ◌∷◌, ℕ_eq, nat_eq_iff, arith,
}
use chronicler.Base.Table.{find, modify, find-modify}
use chronicler.Text.{Text}
use chronicler.Models.{TranscriptLine}
use chronicler.Session.{transact-none, transact-some}
use chronicler.Project.{Project, Line, line_key, to_model, or_keep, edited, get_or_create_speaker}
use chronicler.Project.Rows.{SpeakersOk, get_or_create_speaker-Got}
use chronicler.Handlers.Speakers.{Names}
use chronicler.Transcripts.{Store, speaker_for, edit_line, remember_if, remembering, update_line}

-- The speaker of a line before and after, for the name that was typed.
abbrev pub Spoken : Project → Option Text → Option ℕ → Option ℕ → Type 0
Spoken p none before after = after ≡ before
Spoken p (some []) before after = after ≡ before
Spoken p (some (c ∷ cs)) before after = (id : ℕ) × (after ≡ some id) × Names p id (c ∷ cs)

-- The line that is found, and nothing else, gets the text and the speaker.
pub record Corrected (id : ℕ) (text' speaker_name : Option Text) (l r : Line) (p p' : Project)
    : Type 0 where
  pub row : find line_key id p'.lines ≡ some r
  pub same : r ≡ record l { text = or_keep text' l.text; speaker_id = r.speaker_id }
  pub spoken : Spoken p' speaker_name l.speaker_id r.speaker_id
  pub others : (j : ℕ) → id ≢ j → find line_key j p'.lines ≡ find line_key j p.lines
  pub sources : p'.sources ≡ p.sources

-- The tables with the speaker of a correction
record Ready (speaker_name : Option Text) (p : Project) (sid : Option ℕ) (p' : Project)
    : Type 0 where
  lines : p'.lines ≡ p.lines
  sources : p'.sources ≡ p.sources
  given : (l : Line) → Spoken p' speaker_name l.speaker_id (edited none sid l).speaker_id

speaker_for-Ready :
    (n : Option Text) (p : Project)
    → SpeakersOk p
    → (sid : Option ℕ) × (p' : Project) × (speaker_for n p ≡ some (sid, p')) × Ready n p sid p'
unfolding speaker_for
speaker_for-Ready none p ok =
    (none, p, refl, record { lines = refl; sources = refl; given = λ l. refl })
speaker_for-Ready (some []) p ok =
    (none, p, refl, record { lines = refl; sources = refl; given = λ l. refl })
speaker_for-Ready (some (c ∷ cs)) p ok =
    let (s, p', done, got) = get_or_create_speaker-Got (c ∷ cs) p ok in
    (
      some s.id,
      p',
      rw done refl,
      record {
        lines = got.lines;
        sources = got.sources;
        given = λ l. (s.id, refl, (s, got.found, got.named));
      },
    )

edit_line-none :
    (id : ℕ) (text' n : Option Text) (p : Project)
    → SpeakersOk p
    → find line_key id p.lines ≡ none
    → edit_line id text' n p ≡ none
unfolding edit_line chronicler.Project.update_line
edit_line-none id text' n p ok h =
    let (sid, p1, done, ready) = speaker_for-Ready n p ok in
    let missing : find line_key id p1.lines ≡ none = rw ready.lines h in simp (done, missing)

edit_line-Corrected :
    (id : ℕ) (text' n : Option Text) (l : Line) (p : Project)
    → SpeakersOk p
    → find line_key id p.lines ≡ some l
    → (r : Line) × (p' : Project) × (edit_line id text' n p ≡ some (to_model p'.speakers r, p'))
      × Corrected id text' n l r p p'
unfolding edit_line chronicler.Project.update_line
edit_line-Corrected id text' n l p ok h =
    let (sid, p1, done, ready) = speaker_for-Ready n p ok in
    let there : find line_key id p1.lines ≡ some l = rw ready.lines h in
    let p' = record p1 { lines = modify line_key id (edited text' sid) p1.lines } in
    let at = λ (j : ℕ). find-modify line_key (edited text' sid) (λ _. refl) j id p1.lines in
    (
      edited text' sid l,
      p',
      simp (done, there),
      record {
        row = at id ∙ ground (arith, nat_eq_iff id id, there);
        same = refl;
        spoken = ready.given l;
        others = λ j differs.
            at j ∙ ground (arith, nat_eq_iff id j, differs, ap (find line_key j) ready.lines);
        sources = ready.sources;
      },
    )

-- While ids and names are distinct: correcting a line that is not there raises and changes nothing, the
-- speakers and the registry included. Correcting a line that is there returns it as it is stored: with
-- the text that was given and the id of a speaker with the name that was given, its times and its track
-- as before. No other line and no track changes, and the registry learns the name.
pub update_line-Corrected :
    (casefold : Text → Text) (now id : ℕ) (text' n : Option Text) (s : Store)
    → SpeakersOk s.project
    → (find line_key id s.project.lines ≡ none → update_line casefold now id text' n s ≡ (none, s))
      × ((l : Line)
          → find line_key id s.project.lines ≡ some l
          → (r : Line) × (p' : Project) × (update_line casefold now id text' n s ≡ (
            some (to_model p'.speakers r),
            record { project = p'; known_speakers = remember_if casefold now n s.known_speakers },
          ))
            × Corrected id text' n l r s.project p')
unfolding update_line
update_line-Corrected casefold now id text' n s ok =
    let after =
      λ (o : Option TranscriptLine × Project). remembering casefold now n o s.known_speakers in
    (
      λ h. ap after (
          transact-none (edit_line id text' n) s.project
            (edit_line-none id text' n s.project ok h)),
      λ l h.
          let (r, p', done, corrected) = edit_line-Corrected id text' n l s.project ok h in
          (
            r,
            p',
            ap after
                (transact-some (edit_line id text' n) s.project (to_model p'.speakers r) p' done),
            corrected,
          ),
    )
