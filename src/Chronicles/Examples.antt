-- ===== src/Chronicles/Examples.antt =====
-- A chronicle that is tagged twice, and one that is deleted.
use chronicler.Base.{ℕ, ◌≡◌, ◌≢◌, refl, none, some, List, [], ◌∷◌, keep, ℕ_eq, List_eq}
use chronicler.Base.Table.{find}
use chronicler.Text.{codes}
use chronicler.Chronicles.{
  Archive, Chronicle, Tag, Link, chronicle_key, has_chronicle, delete, tags_of,
}
use chronicler.Chronicles.Rows.{Linked}
use chronicler.Chronicles.Links.{
  Call, creates, updates, deletes, tags, deletes_tag, after, after-Linked,
}
use chronicler.Chronicles.Deletion.{delete-Gone}

abbrev chronicle : ℕ → Chronicle
chronicle n = record {
  id = n;
  title = codes "Talk";
  description = none;
  kind = codes "Unknown";
  status = codes "Imported";
  source_file = none;
  project_path = none;
  duration = none;
  speakers_count = 0;
}

-- The newest first
abbrev calls : List Call
calls =
    deletes_tag 1
    ∷ deletes 8
    ∷ tags 7 (codes "U")
    ∷ tags 7 (codes "T")
    ∷ tags 7 (codes "T")
    ∷ tags 8 (codes "T")
    ∷ creates (chronicle 8)
    ∷ creates (chronicle 7)
    ∷ []

abbrev archive : Archive
archive = record {
  chronicles = chronicle 7 ∷ [];
  tags = record { id = 0; name = codes "T"; color = none } ∷ [];
  chronicle_tags =
      record { chronicle_id = 7; tag_id = 0 } ∷ record { chronicle_id = 7; tag_id = 1 } ∷ [];
  tasks = [];
  next = 2;
}

ran : after calls ≡ some archive
unfolding after find chronicler.Chronicles.Links.perform chronicler.Chronicles.create
    chronicler.Chronicles.add_tag delete chronicler.Chronicles.delete_tag
ran = refl

after-Linked_example : Linked (1 ∷ []) archive
after-Linked_example = after-Linked calls archive ran

delete-Gone_example :
    (find chronicle_key 7 (delete 7 archive).chronicles ≡ none)
    × (tags_of 7 (delete 7 archive) ≡ [])
    × (keep (has_chronicle 7) (delete 7 archive).tasks ≡ [])
    × ((j : ℕ)
        → 7 ≢ j
        → (find chronicle_key j (delete 7 archive).chronicles
            ≡ find chronicle_key j archive.chronicles)
          × (tags_of j (delete 7 archive) ≡ tags_of j archive)
          × (keep (has_chronicle j) (delete 7 archive).tasks
              ≡ keep (has_chronicle j) archive.tasks))
delete-Gone_example = delete-Gone 7 archive
