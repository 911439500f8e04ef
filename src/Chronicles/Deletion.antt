-- ===== src/Chronicles/Deletion.antt =====
-- `delete` of chronicler/core/sqlite/chronicle_repository.py.
use chronicler.Base.{
  ℕ, ◌≡◌, ◌≢◌, refl, ap, ◌∙◌, inl, inr, false, not, Bool, Bool-cases, none, some, List, [], ◌∷◌,
  keep, All_kept, All-mono, All-keep-nil, All_of_In, ℕ_eq, Option_eq, nat_eq_iff, option_beq_iff,
  arith,
}
use chronicler.Base.Table.{find, find-keep}
use chronicler.Models.{Task}
use chronicler.Chronicles.{
  Archive, Link, Tag, chronicle_key, is_of, has_link, has_chronicle, delete, tags_of,
}

has_link-deleted :
    (id tag : ℕ) (ls : List Link) → has_link id tag (keep (λ l. not (is_of id l)) ls) ≡ false
has_link-deleted id tag [] = refl
has_link-deleted id tag (l ∷ ls) = ground (arith, has_link-deleted id tag ls)

has_link-kept :
    (id j tag : ℕ) (ls : List Link)
    → id ≢ j
    → has_link j tag (keep (λ l. not (is_of id l)) ls) ≡ has_link j tag ls
has_link-kept id j tag [] h = refl
has_link-kept id j tag (l ∷ ls) h = ground (
  arith,
  h,
  has_link-kept id j tag ls h,
  nat_eq_iff l.chronicle_id id,
  nat_eq_iff l.chronicle_id j,
)

keep-ext : (p q : Tag → Bool) (ts : List Tag) → ((t : Tag) → p t ≡ q t) → keep p ts ≡ keep q ts
keep-ext p q [] h = refl
keep-ext p q (t ∷ ts) h = rw (h t, keep-ext p q ts h) refl

kept_tasks :
    (id j : ℕ) (ts : List Task)
    → id ≢ j
    → keep (has_chronicle j) (keep (λ t. not (has_chronicle id t)) ts) ≡ keep (has_chronicle j) ts
kept_tasks id j [] h = refl
kept_tasks id j (t ∷ ts) h = elim (Bool-cases (has_chronicle id t)) [
  | inl e ↦
      let it : t.chronicle_id ≡ some id = (option_beq_iff t.chronicle_id (some id)).0 e in
      rw (e, it) (ground (arith, h, nat_eq_iff id j, kept_tasks id j ts h))
  | inr e ↦ elim (Bool-cases (has_chronicle j t)) [
    | inl f ↦ rw (e, f) (ap (λ (us : List Task). t ∷ us) (kept_tasks id j ts h))
    | inr f ↦ rw (e, f) (kept_tasks id j ts h)
  ]
]

-- Deleting a chronicle leaves no row, no tag and no task of it, and of every other chronicle the row,
-- the tags and the tasks as they were.
pub delete-Gone :
    (id : ℕ) (a : Archive)
    → (find chronicle_key id (delete id a).chronicles ≡ none)
      × (tags_of id (delete id a) ≡ [])
      × (keep (has_chronicle id) (delete id a).tasks ≡ [])
      × ((j : ℕ)
          → id ≢ j
          → (find chronicle_key j (delete id a).chronicles ≡ find chronicle_key j a.chronicles)
            × (tags_of j (delete id a) ≡ tags_of j a)
            × (keep (has_chronicle j) (delete id a).tasks ≡ keep (has_chronicle j) a.tasks))
unfolding delete tags_of
delete-Gone id a = (
  find-keep chronicle_key id id a.chronicles ∙ ground (arith, nat_eq_iff id id),
  All-keep-nil _ a.tags (All_of_In _ a.tags (λ t _. has_link-deleted id t.id a.chronicle_tags)),
  All-keep-nil (has_chronicle id) _ (
      All-mono _ _ _ (λ t e. ground (arith, e)) (All_kept (λ t. not (has_chronicle id t)) a.tasks)),
  λ j other. (
    find-keep chronicle_key id j a.chronicles ∙ ground (arith, nat_eq_iff id j, other),
    keep-ext _ _ a.tags (λ t. has_link-kept id j t.id a.chronicle_tags other),
    kept_tasks id j a.tasks other,
  ),
)
