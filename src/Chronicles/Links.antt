-- ===== src/Chronicles/Links.antt =====
-- The archive's tables after any calls on the repository of
-- chronicler/core/sqlite/chronicle_repository.py and of tag_repository.py beside it.
use chronicler.Base.{
  ℕ, ◌≡◌, inl, inr, Option-cases, Option, none, some, List, [], ◌∷◌, subst, ℕ_eq, List_eq,
  Option_eq, arith,
}
use chronicler.Text.{Text}
use chronicler.Chronicles.{
  Archive, Chronicle, create, update, delete, add_tag, create_tag, delete_tag,
}
use chronicler.Chronicles.Rows.{Linked, create-Linked, update-Linked, delete-Linked}
use chronicler.Chronicles.Tags.{
  made_tag, drawn, add_tag-Linked, create_tag-Linked, delete_tag-Linked,
}

-- The methods that write, with their arguments
pub data Call : Type 0 where
  creates : Chronicle → Call
  updates : Chronicle → Call
  deletes : ℕ → Call
  tags : ℕ → Text → Call
  creates_tag : Text → Option Text → Call
  deletes_tag : ℕ → Call

unfoldable pub perform : Call → Archive → Option Archive
perform (creates c) a = create c a
perform (updates c) a = update c a
perform (deletes id) a = some (delete id a)
perform (tags id n) a = add_tag id n a
perform (creates_tag n color) a = create_tag (made_tag n color a) (drawn a)
perform (deletes_tag id) a = some (delete_tag id a)

abbrev new_archive : Archive
new_archive = record { chronicles = []; tags = []; chronicle_tags = []; tasks = []; next = 0 }

-- The calls on a new archive, the newest first
unfoldable pub after : List Call → Option Archive
after [] = some new_archive
after (c ∷ calls) = elim (after calls) [ none ↦ none | some a ↦ perform c a ]

-- The tags that calls deleted
abbrev pub deleted : List Call → List ℕ
deleted [] = []
deleted (deletes_tag id ∷ calls) = id ∷ deleted calls
deleted (creates c ∷ calls) = deleted calls
deleted (updates c ∷ calls) = deleted calls
deleted (deletes id ∷ calls) = deleted calls
deleted (tags id n ∷ calls) = deleted calls
deleted (creates_tag n color ∷ calls) = deleted calls

perform-Linked :
    (call : Call) (calls : List Call) (a a' : Archive)
    → Linked (deleted calls) a
    → perform call a ≡ some a'
    → Linked (deleted (call ∷ calls)) a'
unfolding perform
perform-Linked (creates c) calls a a' ok h = create-Linked (deleted calls) c a a' ok h
perform-Linked (updates c) calls a a' ok h = update-Linked (deleted calls) c a a' ok h
perform-Linked (deletes id) calls a a' ok h =
    let same : delete id a ≡ a' = ground (arith, h) in
    subst (Linked (deleted calls)) same (delete-Linked (deleted calls) id a ok)
perform-Linked (tags id n) calls a a' ok h = add_tag-Linked (deleted calls) id n a a' ok h
perform-Linked (creates_tag n color) calls a a' ok h =
    create_tag-Linked (deleted calls) n color a a' ok h
perform-Linked (deletes_tag id) calls a a' ok h =
    let same : delete_tag id a ≡ a' = ground (arith, h) in
    subst (Linked (id ∷ deleted calls)) same (delete_tag-Linked (deleted calls) id a ok)

-- After any calls of both repositories on a new archive that raised nothing: ids are distinct, no two
-- tags have one name, and every link is there once, from a chronicle that is in the tables to a tag
-- that is there too, unless a call of the tag repository's `delete` was given its id.
pub after-Linked :
    (calls : List Call) (a : Archive) → after calls ≡ some a → Linked (deleted calls) a
unfolding after
after-Linked [] a h =
    let same : new_archive ≡ a = ground (arith, h) in
    subst (Linked []) same
      (record { ids = tt; tag_ids = tt; names = tt; below = tt; links = tt; once = tt })
after-Linked (c ∷ calls) a h = elim (Option-cases (after calls)) [
  | inl e ↦ let bad : none ≡ some a = rw (e, after) at h in ground (arith, bad)
  | inr (b, e) ↦ perform-Linked c calls b a (after-Linked calls b e) (rw (e, after) at h)
]
