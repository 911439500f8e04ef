-- ===== src/Chronicles/Service/Hydration.antt =====
-- `hydrate_from_project` of chronicler/core/services/chronicle_service.py.
use chronicler.Base.{
  ℕ, ◌≡◌, refl, sym, ap, ◌∙◌, inl, inr, Bool-cases, Option, none, some, List, [], ◌∷◌, length, ◌==◌,
  ℕ_eq, nat_eq_iff, List_eq,
}
use chronicler.Base.Table.{find, modify, find-modify, key-find}
use chronicler.Text.{Text, codes}
use chronicler.Models.{TranscriptLine}
use chronicler.Project.{Project, LineOrder, get_lines}
use chronicler.Chronicles.{
  Archive, Chronicle, Tag, chronicle_key, assigned, update, tag_for, link, has_link, add_tag,
  tag_name,
}
use chronicler.Chronicles.Service.{
  Workspace, get_by_id, set_count, backfill_speakers_count, refresh_speaker_count, remember_in,
  hydrated, write_hydrated, tag_transcript, then_write, then_tag, hydrate_from_project,
}

-- An update of a row that there is
update-row :
    (c old : Chronicle) (a : Archive)
    → get_by_id c.id a ≡ some old
    → (b : Archive) × (update c a ≡ some b) × (get_by_id c.id b ≡ some (assigned c old))
unfolding update
update-row c old a h = (
  record a { chronicles = modify chronicle_key c.id (assigned c) a.chronicles },
  rw (h, update) refl,
  find-modify chronicle_key (assigned c) (λ _. refl) c.id c.id a.chronicles
      ∙ rw ((nat_eq_iff c.id c.id).1 refl, h) refl,
)

tag_for-chronicles :
    (o : Option Tag) (n : Text) (a : Archive) → (tag_for o n a).1.chronicles ≡ a.chronicles
unfolding tag_for
tag_for-chronicles none n a = refl
tag_for-chronicles (some t) n a = refl

link-chronicles : (id tag : ℕ) (a : Archive) → (link id tag a).chronicles ≡ a.chronicles
unfolding link
link-chronicles id tag a = elim (Bool-cases (has_link id tag a.chronicle_tags)) [
  | inl e ↦ rw e refl
  | inr e ↦ rw e refl
]

add_tag-chronicles :
    (id : ℕ) (n : Text) (c : Chronicle) (a : Archive)
    → get_by_id id a ≡ some c
    → (b : Archive) × (add_tag id n a ≡ some b) × (b.chronicles ≡ a.chronicles)
unfolding add_tag
add_tag-chronicles id n c a h =
    let tagged = tag_for (find tag_name n a.tags) n a in
    (
      link id tagged.0.id tagged.1,
      rw (h, add_tag) refl,
      link-chronicles id tagged.0.id tagged.1 ∙ tag_for-chronicles (find tag_name n a.tags) n a,
    )

set_count-row :
    (id count : ℕ) (c : Chronicle) (a : Archive)
    → c.id ≡ id
    → get_by_id id a ≡ some c
    → (b : Archive) × (set_count (some c) count a ≡ some b)
      × (get_by_id id b ≡ some (record c { speakers_count = count }))
unfolding set_count
set_count-row id count c a same h = elim (Bool-cases (c.speakers_count == count)) [
  | inl e ↦
      let it : c.speakers_count ≡ count = (nat_eq_iff c.speakers_count count).0 e in
      (a, rw e refl, h ∙ ap (λ (n : ℕ). some (record c { speakers_count = n })) it)
  | inr e ↦
      let row : get_by_id c.id a ≡ some c = ap (λ (k : ℕ). get_by_id k a) same ∙ h in
      let (b, done, now) = update-row (record c { speakers_count = count }) c a row in
      (b, rw e done, ap (λ (k : ℕ). get_by_id k b) (sym same) ∙ now)
]

module _ (casefold : Text → Text) (order : LineOrder) (now : ℕ) where
  refresh-row :
      (id : ℕ) (c : Chronicle) (w : Workspace)
      → c.id ≡ id
      → get_by_id id w.archive ≡ some c
      → (v : Workspace) × (refresh_speaker_count casefold order now id w ≡ some v)
        × (v.project ≡ w.project)
        × (get_by_id id v.archive ≡ some (record c { speakers_count = length w.project.speakers }))
  unfolding refresh_speaker_count backfill_speakers_count
  refresh-row id c w same h =
      let (b, done, row) = set_count-row id (length w.project.speakers) c w.archive same h in
      (
        record w {
          archive = b;
          known_speakers = remember_in casefold order now w.project.speakers w.known_speakers;
        },
        rw (h, refresh_speaker_count, backfill_speakers_count, done) refl,
        refl,
        row,
      )

  tag-row :
      (id : ℕ) (c : Chronicle) (lines : List TranscriptLine) (w : Workspace)
      → get_by_id id w.archive ≡ some c
      → (v : Workspace) × (tag_transcript casefold order now id lines w ≡ some v)
        × (v.project ≡ w.project)
        × (get_by_id id v.archive ≡ some c)
  unfolding tag_transcript
  tag-row id c [] w h = (w, refl, refl, h)
  tag-row id c (l ∷ ls) w h =
      let (b, done, same) = add_tag-chronicles id (codes "Transcript") c w.archive h in
      (
        record w { archive = b },
        rw (done, tag_transcript) refl,
        refl,
        ap (λ (rows : List Chronicle). find chronicle_key id rows) same ∙ h,
      )

  write-row :
      (id : ℕ) (c before : Chronicle) (lines : List TranscriptLine) (w : Workspace)
      → c.id ≡ id
      → get_by_id id w.archive ≡ some c
      → (v : Workspace) × (then_write casefold order now (some w) id before lines ≡ some v)
        × (get_by_id id v.archive
            ≡ some (hydrated casefold order now (length w.project.speakers) lines c))
  unfolding write_hydrated
  write-row id c before lines w same h =
      let filled = hydrated casefold order now (length w.project.speakers) lines c in
      let row : get_by_id c.id w.archive ≡ some c =
        ap (λ (k : ℕ). get_by_id k w.archive) same ∙ h in
      let (b, done, after) = update-row filled c w.archive row in
      (
        record w { archive = b },
        rw (h, write_hydrated, done) refl,
        ap (λ (k : ℕ). get_by_id k b) (sym same) ∙ after,
      )

  -- A chronicle that is in the archive is filled in without an exception: it gets the number of the
  -- project's speakers, and where the project has lines, the state "Transcribed" and, unless the lines
  -- have no real times, their duration. Everything else of it stays as it was.
  hydrate_from_project-row :
      (id : ℕ) (c : Chronicle) (w : Workspace)
      → get_by_id id w.archive ≡ some c
      → (v : Workspace) × (hydrate_from_project casefold order now id w ≡ some v)
        × (get_by_id id v.archive
            ≡ some (
                hydrated casefold order now
                  (length w.project.speakers)
                  (get_lines order w.project)
                  c))
  unfolding hydrate_from_project
  hydrate_from_project-row id c w h =
      let lines = get_lines order w.project in
      let same = key-find chronicle_key id w.archive.chronicles c h in
      let (w1, e1, kept1, row1) = refresh-row id c w same h in
      let (w2, e2, kept2, row2) =
        tag-row id (record c { speakers_count = length w.project.speakers }) lines w1 row1 in
      let (w3, e3, row3) =
        write-row id (record c { speakers_count = length w.project.speakers }) c lines w2 same
          row2 in
      (
        w3,
        rw (h, hydrate_from_project)
            (ap (λ (o : Option Workspace). then_tag casefold order now o id c lines) e1
              ∙ ap (λ (o : Option Workspace). then_write casefold order now o id c lines) e2
              ∙ e3),
        row3
            ∙ ap (λ (p : Project). some (hydrated casefold order now (length p.speakers) lines c))
                (kept2 ∙ kept1),
      )
