-- ===== src/Chronicles/Rows.antt =====
-- Creating, updating and deleting chronicles (chronicler/core/sqlite/chronicle_repository.py) keeps the
-- links between the archive's rows.
use mathlib.Core.Option
use chronicler.Base.{
  ℕ, ◌<◌, ◌≡◌, ◌≢◌, refl, ap, ◌∙◌, inl, inr, false, not, ◌&&◌, Bool-cases, Option-cases, none, some,
  List, [], ◌∷◌, ◌++◌, keep, All, All-mono, All_of_In, All-In, In, ◌⊎◌, Pairwise, Pairwise-keep,
  keep-In, subst, ◌==◌, ℕ_eq, List_eq, Option_eq, nat_eq_iff, arith,
}
use chronicler.Base.Table.{
  find, modify, find-keep, find-more, IsKeyed-snoc, find-modify, IsKeyed, IsKeyed-modify,
}
use chronicler.Chronicles.{
  Archive, Chronicle, Tag, Link, chronicle_key, tag_key, is_of, create, assigned, update, delete,
}

-- The row is there.
abbrev pub Stored : Archive → ℕ → Type 0
Stored a id = (c : Chronicle) × (find chronicle_key id a.chronicles ≡ some c)

abbrev pub Differ : Link → Link → Type 0
Differ l m = (l.chronicle_id == m.chronicle_id && l.tag_id == m.tag_id) ≡ false

-- The tag that a link names
abbrev pub Named : Archive → ℕ → Type 0
Named a id = (t : Tag) × (find tag_key id a.tags ≡ some t)

-- The links of chronicles stay in step; `gone` lists the tags that were deleted, whose links stay.
pub record Linked (gone : List ℕ) (a : Archive) : Type 0 where
  pub ids : IsKeyed chronicle_key a.chronicles
  pub tag_ids : IsKeyed tag_key a.tags
  pub names : Pairwise (λ (s t : Tag). s.name ≢ t.name) a.tags
  pub below : All (λ (t : Tag). t.id < a.next) a.tags
  pub links :
      All
        (λ (l : Link). Stored a l.chronicle_id × (Named a l.tag_id ⊎ In l.tag_id gone))
        a.chronicle_tags
  pub once : Pairwise Differ a.chronicle_tags

pub create-Linked :
    (gone : List ℕ) (c : Chronicle) (a a' : Archive)
    → Linked gone a
    → create c a ≡ some a'
    → Linked gone a'
unfolding create
create-Linked gone c a a' ok h = elim (Option-cases (find chronicle_key c.id a.chronicles)) [
  | inl new ↦
      let it : some (record a { chronicles = a.chronicles ++ (c ∷ []) }) ≡ some a' =
        rw (new, create) at h in
      let same : record a { chronicles = a.chronicles ++ (c ∷ []) } ≡ a' = ground (arith, it) in
      subst (Linked gone) same (record {
        ids = IsKeyed-snoc chronicle_key c a.chronicles new ok.ids;
        tag_ids = ok.tag_ids;
        names = ok.names;
        below = ok.below;
        links =
            All-mono _ _ a.chronicle_tags
              (λ (l : Link) at. (
                (
                  at.0.0,
                  find-more chronicle_key l.chronicle_id a.chronicles (c ∷ []) at.0.0 at.0.1,
                ),
                at.1,
              ))
              ok.links;
        once = ok.once;
      })
  | inr (old, found) ↦ let bad : none ≡ some a' = rw (found, create) at h in ground (arith, bad)
]

still_there :
    (c : Chronicle) (id : ℕ) (rows : List Chronicle) (r : Chronicle)
    → find chronicle_key id rows ≡ some r
    → (s : Chronicle) × (find chronicle_key id (modify chronicle_key c.id (assigned c) rows)
        ≡ some s)
still_there c id rows r h = elim (Bool-cases (c.id == id)) [
  | inl e ↦
      let same : c.id ≡ id = (nat_eq_iff c.id id).0 e in
      (
        assigned c r,
        find-modify chronicle_key (assigned c) (λ _. refl) id c.id rows
            ∙ rw e (
                ap (λ (k : ℕ). Option.map (assigned c) (find chronicle_key k rows)) same
                ∙ ap (Option.map (assigned c)) h),
      )
  | inr e ↦ (r, find-modify chronicle_key (assigned c) (λ _. refl) id c.id rows ∙ rw e h)
]

pub update-Linked :
    (gone : List ℕ) (c : Chronicle) (a a' : Archive)
    → Linked gone a
    → update c a ≡ some a'
    → Linked gone a'
unfolding update
update-Linked gone c a a' ok h = elim (Option-cases (find chronicle_key c.id a.chronicles)) [
  | inl e ↦ let bad : none ≡ some a' = rw (e, update) at h in ground (arith, bad)
  | inr (old, found) ↦
      let rows = modify chronicle_key c.id (assigned c) a.chronicles in
      let it : some (record a { chronicles = rows }) ≡ some a' = rw (found, update) at h in
      let same : record a { chronicles = rows } ≡ a' = ground (arith, it) in
      subst (Linked gone) same (record {
        ids = IsKeyed-modify chronicle_key (assigned c) (λ _. refl) c.id a.chronicles ok.ids;
        tag_ids = ok.tag_ids;
        names = ok.names;
        below = ok.below;
        links =
            All-mono _ _ a.chronicle_tags
              (λ (l : Link) at. (still_there c l.chronicle_id a.chronicles at.0.0 at.0.1, at.1))
              ok.links;
        once = ok.once;
      })
]

pub delete-Linked :
    (gone : List ℕ) (id : ℕ) (a : Archive) → Linked gone a → Linked gone (delete id a)
unfolding delete
delete-Linked gone id a ok = record {
  ids = Pairwise-keep _ (λ c. not (chronicle_key c == id)) a.chronicles ok.ids;
  tag_ids = ok.tag_ids;
  names = ok.names;
  below = ok.below;
  links = All_of_In _ (keep (λ l. not (is_of id l)) a.chronicle_tags) (λ l m.
      let (was, other) = keep-In (λ l. not (is_of id l)) l a.chronicle_tags m in
      let (stored, named) = All-In _ was ok.links in
      (
        (
          stored.0,
          find-keep chronicle_key id l.chronicle_id a.chronicles
              ∙ ground (
                arith,
                other,
                stored.1,
                nat_eq_iff id l.chronicle_id,
                nat_eq_iff l.chronicle_id id,
              ),
        ),
        named,
      ));
  once = Pairwise-keep _ (λ l. not (is_of id l)) a.chronicle_tags ok.once;
}
