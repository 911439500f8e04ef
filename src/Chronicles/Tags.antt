-- ===== src/Chronicles/Tags.antt =====
-- Tagging a chronicle, and making and deleting tags (chronicler/core/sqlite/tag_repository.py), keeps the
-- links between the archive's rows.
use chronicler.Base.{
  ℕ, ◌+◌, ◌<◌, ◌≡◌, ◌⊎◌, refl, ◌∙◌, inl, inr, ◌&&◌, Bool-cases, Option-cases, Option, none, some,
  List, [], ◌∷◌, ◌++◌, any, any-false, ◌||◌, not, keep, In, there, All-keep, Pairwise-keep,
  nat_eq_iff, list_beq_iff, All-append, All-mono, All-In, Pairwise-snoc, here, In-append_right,
  subst, ◌==◌, ℕ_eq, List_eq, Option_eq, arith,
}
use chronicler.Base.Table.{find, find-keep, find-more, IsKeyed-snoc, find-In, In-find, key-find}
use chronicler.Text.{Text}
use chronicler.Chronicles.{
  Archive, Tag, Link, chronicle_key, tag_key, tag_name, has_link, new_tag, tag_for, link, add_tag,
  create_tag, delete_tag,
}
use chronicler.Chronicles.Rows.{Stored, Named, Linked}

-- A tag is made with a new id, the default of the model.
abbrev pub made_tag : Text → Option Text → Archive → Tag
made_tag n color a = record { id = a.next; name = n; color = color }

abbrev pub drawn : Archive → Archive
drawn a = record a { next = a.next + 1 }

-- What `add_tag` has of a tag before it links it.
record Tagged (gone : List ℕ) (a : Archive) (n : Text) (t : Tag) (b : Archive) : Type 0 where
  linked : Linked gone b
  named : Named b t.id
  chronicles : b.chronicles ≡ a.chronicles

new_tag_id : (gone : List ℕ) (a : Archive) → Linked gone a → find tag_key a.next a.tags ≡ none
new_tag_id gone a ok = elim (Option-cases (find tag_key a.next a.tags)) [
  | inl e ↦ e
  | inr (t, e) ↦
      let less : t.id < a.next =
        All-In (λ (s : Tag). s.id < a.next) (In-find tag_key a.next a.tags t e) ok.below in
      let same : tag_key t ≡ a.next = key-find tag_key a.next a.tags t e in
      absurd (omega (arith, less, same))
]

still_named :
    (gone : List ℕ) (id : ℕ) (rows : List Tag) (t : Tag)
    → ((s : Tag) × (find tag_key id rows ≡ some s)) ⊎ In id gone
    → ((s : Tag) × (find tag_key id (rows ++ (t ∷ [])) ≡ some s)) ⊎ In id gone
still_named gone id rows t (inl (s, e)) = inl (s, find-more tag_key id rows (t ∷ []) s e)
still_named gone id rows t (inr m) = inr m

tag_for-Tagged :
    (gone : List ℕ) (n : Text) (a : Archive) (o : Option Tag)
    → Linked gone a
    → find tag_name n a.tags ≡ o
    → Tagged gone a n (tag_for o n a).0 (tag_for o n a).1
unfolding tag_for
tag_for-Tagged gone n a (some t) ok h = record {
  linked = ok;
  named = (t, find-In tag_key t a.tags ok.tag_ids (In-find tag_name n a.tags t h));
  chronicles = refl;
}
tag_for-Tagged gone n a none ok h = record {
  linked = record {
    ids = ok.ids;
    tag_ids = IsKeyed-snoc tag_key (new_tag n a) a.tags (new_tag_id gone a ok) ok.tag_ids;
    names = IsKeyed-snoc tag_name (new_tag n a) a.tags h ok.names;
    below =
        All-append _ a.tags (new_tag n a ∷ [])
          (All-mono _ _ a.tags (λ t less. omega (arith, less)) ok.below) (omega arith, tt);
    links =
        All-mono _ _ a.chronicle_tags
          (λ (l : Link) at. (at.0, still_named gone l.tag_id a.tags (new_tag n a) at.1)) ok.links;
    once = ok.once;
  };
  named = (
    new_tag n a,
    find-In tag_key (new_tag n a) (a.tags ++ (new_tag n a ∷ []))
        (IsKeyed-snoc tag_key (new_tag n a) a.tags (new_tag_id gone a ok) ok.tag_ids)
        (In-append_right (new_tag n a) a.tags (new_tag n a ∷ []) here),
  );
  chronicles = refl;
}

link-Linked :
    (gone : List ℕ) (id tag : ℕ) (a : Archive)
    → Linked gone a
    → Stored a id
    → Named a tag
    → Linked gone (link id tag a)
unfolding link
link-Linked gone id tag a ok stored named = elim (Bool-cases (has_link id tag a.chronicle_tags)) [
  | inl e ↦ rw (e, link) ok
  | inr e ↦
      rw (e, link)
        (record {
          ids = ok.ids;
          tag_ids = ok.tag_ids;
          names = ok.names;
          below = ok.below;
          links =
              All-append _ a.chronicle_tags (record { chronicle_id = id; tag_id = tag } ∷ [])
                ok.links ((stored, inl named), tt);
          once =
              Pairwise-snoc _ a.chronicle_tags (record { chronicle_id = id; tag_id = tag }) ok.once
                (any-false (λ (l : Link). l.chronicle_id == id && l.tag_id == tag) a.chronicle_tags
                  e);
        })
]

pub add_tag-Linked :
    (gone : List ℕ) (id : ℕ) (n : Text) (a a' : Archive)
    → Linked gone a
    → add_tag id n a ≡ some a'
    → Linked gone a'
unfolding add_tag
add_tag-Linked gone id n a a' ok h = elim (Option-cases (find chronicle_key id a.chronicles)) [
  | inl e ↦ let bad : none ≡ some a' = rw (e, add_tag) at h in ground (arith, bad)
  | inr (c, found) ↦
      let o = find tag_name n a.tags in
      let got = tag_for-Tagged gone n a o ok refl in
      let it : some (link id (tag_for o n a).0.id (tag_for o n a).1) ≡ some a' =
        rw (found, add_tag) at h in
      let same : link id (tag_for o n a).0.id (tag_for o n a).1 ≡ a' = ground (arith, it) in
      subst (Linked gone) same (
        link-Linked gone id (tag_for o n a).0.id (tag_for o n a).1 got.linked
          (c, rw got.chronicles found) got.named)
]

pub create_tag-Linked :
    (gone : List ℕ) (n : Text) (color : Option Text) (a a' : Archive)
    → Linked gone a
    → create_tag (made_tag n color a) (drawn a) ≡ some a'
    → Linked gone a'
unfolding create_tag
create_tag-Linked gone n color a a' ok h =
    let t = made_tag n color a in
    let clash = any (λ (s : Tag). s.id == t.id || s.name == t.name) a.tags in
    elim (Bool-cases clash) [
      | inl e ↦ let bad : none ≡ some a' = rw (e, create_tag) at h in ground (arith, bad)
      | inr e ↦
          let next = record (drawn a) { tags = a.tags ++ (t ∷ []) } in
          let it : some next ≡ some a' = rw (e, create_tag) at h in
          let same : next ≡ a' = ground (arith, it) in
          subst (Linked gone) same (record {
            ids = ok.ids;
            tag_ids = IsKeyed-snoc tag_key t a.tags (new_tag_id gone a ok) ok.tag_ids;
            names = Pairwise-snoc _ a.tags t ok.names (
                All-mono _ _ a.tags
                  (λ s differs. ground (arith, differs, list_beq_iff s.name t.name))
                  (any-false (λ (s : Tag). s.id == t.id || s.name == t.name) a.tags e));
            below =
                All-append _ a.tags (t ∷ [])
                  (All-mono _ _ a.tags (λ s less. omega (arith, less)) ok.below) (omega arith, tt);
            links =
                All-mono _ _ a.chronicle_tags
                  (λ (l : Link) at. (at.0, still_named gone l.tag_id a.tags t at.1)) ok.links;
            once = ok.once;
          })
    ]

left_named :
    (gone : List ℕ) (id k : ℕ) (rows : List Tag)
    → ((s : Tag) × (find tag_key k rows ≡ some s)) ⊎ In k gone
    → ((s : Tag) × (find tag_key k (keep (λ t. not (tag_key t == id)) rows) ≡ some s))
      ⊎ In k (id ∷ gone)
left_named gone id k rows (inr m) = inr (there m)
left_named gone id k rows (inl (s, e)) = elim (Bool-cases (id == k)) [
  | inl same ↦ let it : id ≡ k = (nat_eq_iff id k).0 same in rw it (inr here)
  | inr other ↦ inl (s, find-keep tag_key id k rows ∙ rw other e)
]

pub delete_tag-Linked :
    (gone : List ℕ) (id : ℕ) (a : Archive) → Linked gone a → Linked (id ∷ gone) (delete_tag id a)
unfolding delete_tag
delete_tag-Linked gone id a ok = record {
  ids = ok.ids;
  tag_ids = Pairwise-keep _ (λ (t : Tag). not (tag_key t == id)) a.tags ok.tag_ids;
  names = Pairwise-keep _ (λ (t : Tag). not (tag_key t == id)) a.tags ok.names;
  below = All-keep _ (λ (t : Tag). not (tag_key t == id)) a.tags ok.below;
  links =
      All-mono _ _ a.chronicle_tags
        (λ (l : Link) at. (at.0, left_named gone id l.tag_id a.tags at.1)) ok.links;
  once = ok.once;
}
