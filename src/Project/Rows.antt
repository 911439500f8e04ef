-- ===== src/Project/Rows.antt =====
-- The speakers of chronicler/core/sqlite/transcript_repository.py: ids and names stay distinct, so
-- `get_or_create_speaker` never meets two rows with one name.
use chronicler.Base.{
  ℕ, ◌+◌, ◌<◌, ◌≡◌, ◌≢◌, refl, sym, ap, ◌∙◌, ◌⊎◌, inl, inr, false, Bool-cases, Option, some, List,
  [], ◌∷◌, ◌++◌, ℕ_eq, List_eq, arith, keep, All, All-append, All-mono, All-In, Pairwise,
  Pairwise-snoc, In, keep-In, keep-nil-All, All-keep-nil, here, In-append_right, or_else,
  list_beq_iff, map, subst, Pairwise-map, Pairwise-of_map, map-append_lists,
}
use chronicler.Base.Table.{find, find-append, find-In, IsKeyed}
use chronicler.Text.{Text}
use chronicler.Models.{TranscriptLine}
use mathlib.Core.List.{append-nil, append_assoc}
use chronicler.Project.{
  Project, Speaker, Line, speaker_key, line_key, row_of, has_line, insert_rows, add_lines, is_named,
  new_speaker, get_or_create_speaker,
}

pub record SpeakersOk (p : Project) : Type 0 where
  pub ids : Pairwise (λ a b. speaker_key a ≢ speaker_key b) p.speakers
  pub names : Pairwise (λ (a b : Speaker). a.name ≢ b.name) p.speakers
  pub below : All (λ (s : Speaker). s.id < p.next) p.speakers

-- What a speaker that was got or created is.
pub record Got (n : Text) (p : Project) (s : Speaker) (p' : Project) : Type 0 where
  pub found : find speaker_key s.id p'.speakers ≡ some s
  pub named : s.name ≡ n
  pub kept :
      (i : ℕ) (t : Speaker)
      → find speaker_key i p.speakers ≡ some t
      → find speaker_key i p'.speakers ≡ some t
  pub lines : p'.lines ≡ p.lines
  pub sources : p'.sources ≡ p.sources
  pub ok : SpeakersOk p'

keep-named :
    (n : Text) (ss : List Speaker)
    → Pairwise (λ (a b : Speaker). a.name ≢ b.name) ss
    → (keep (is_named n) ss ≡ []) ⊎ ((s : Speaker) × (keep (is_named n) ss ≡ s ∷ []))
keep-named n [] h = inl refl
keep-named n (s ∷ ss) h = elim (Bool-cases (is_named n s)) [
  | inl e ↦
      let same : s.name ≡ n = (list_beq_iff s.name n).0 e in
      let others = All-keep-nil (is_named n) ss (
        All-mono _ _ ss
          (λ t differs. elim (Bool-cases (is_named n t)) [
            | inl named ↦ absurd (differs (same ∙ sym ((list_beq_iff t.name n).0 named)))
            | inr other ↦ other
          ])
          h.0) in
      inr (s, rw (e, others) refl)
  | inr e ↦ rw e (keep-named n ss h.1)
]

created-IsKeyed :
    (n : Text) (p : Project)
    → SpeakersOk p
    → IsKeyed speaker_key (p.speakers ++ (new_speaker n p ∷ []))
created-IsKeyed n p ok =
    Pairwise-snoc _ p.speakers (new_speaker n p) ok.ids
      (All-mono _ _ p.speakers (λ s less e. omega (arith, less, e)) ok.below)

created-Got :
    (n : Text) (p : Project)
    → SpeakersOk p
    → keep (is_named n) p.speakers ≡ []
    → Got n p
        (new_speaker n p)
        (record p { speakers = p.speakers ++ (new_speaker n p ∷ []); next = p.next + 1 })
created-Got n p ok h = record {
  found =
      find-In speaker_key (new_speaker n p) (p.speakers ++ (new_speaker n p ∷ []))
        (created-IsKeyed n p ok)
        (In-append_right (new_speaker n p) p.speakers (new_speaker n p ∷ []) here);
  named = refl;
  kept = λ i t e.
      find-append speaker_key i p.speakers (new_speaker n p ∷ [])
      ∙ ap (λ (o : Option Speaker). or_else o (find speaker_key i (new_speaker n p ∷ []))) e;
  lines = refl;
  sources = refl;
  ok = record {
    ids = created-IsKeyed n p ok;
    names = Pairwise-snoc _ p.speakers (new_speaker n p) ok.names (
        All-mono _ _ p.speakers (λ s other e. ground (arith, other, (list_beq_iff s.name n).1 e))
          (keep-nil-All (is_named n) p.speakers h));
    below =
        All-append _ p.speakers (new_speaker n p ∷ [])
          (All-mono _ _ p.speakers (λ s less. omega (arith, less)) ok.below) (omega arith, tt);
  };
}

found-Got :
    (n : Text) (p : Project) (s : Speaker)
    → SpeakersOk p
    → keep (is_named n) p.speakers ≡ s ∷ []
    → Got n p s p
found-Got n p s ok h =
    let listed : In s (s ∷ []) = here in
    let (row, named) = keep-In (is_named n) s p.speakers (rw (← h) at listed) in
    record {
      found = find-In speaker_key s p.speakers ok.ids row;
      named = (list_beq_iff s.name n).0 named;
      kept = λ i t e. e;
      lines = refl;
      sources = refl;
      ok = ok;
    }

-- While ids and names are distinct, getting or creating a speaker raises nothing.
pub get_or_create_speaker-Got :
    (n : Text) (p : Project)
    → SpeakersOk p
    → (s : Speaker) × (p' : Project) × (get_or_create_speaker (some n) p ≡ some (s, p'))
      × Got n p s p'
unfolding get_or_create_speaker
get_or_create_speaker-Got n p ok = elim (keep-named n p.speakers ok.names) [
  | inl e ↦ (
    new_speaker n p,
    record p { speakers = p.speakers ++ (new_speaker n p ∷ []); next = p.next + 1 },
    rw (e, get_or_create_speaker) refl,
    created-Got n p ok e,
  )
  | inr (s, e) ↦ (s, p, rw (e, get_or_create_speaker) refl, found-Got n p s ok e)
]

new_id :
    (row : Line) (more rows : List Line)
    → IsKeyed line_key (rows ++ (row ∷ more))
    → has_line row.id rows ≡ false
new_id row more [] h = refl
new_id row more (r ∷ rows) h =
    let differs : line_key r ≢ line_key row =
      All-In _ (In-append_right row rows (row ∷ more) here) h.0 in
    ground (arith, new_id row more rows h.1, differs)

-- Lines with new ids are stored, behind the rows that there are.
insert_rows-append :
    (ls : List TranscriptLine) (rows : List Line)
    → IsKeyed line_key (rows ++ map row_of ls)
    → insert_rows ls rows ≡ some (rows ++ map row_of ls)
unfolding insert_rows
insert_rows-append [] rows h = ap some (sym (append-nil rows))
insert_rows-append (l ∷ ls) rows h =
    let same : (rows ++ (row_of l ∷ [])) ++ map row_of ls ≡ rows ++ (row_of l ∷ map row_of ls) =
      append_assoc rows (row_of l ∷ []) (map row_of ls) in
    rw (new_id (row_of l) (map row_of ls) rows h)
      (insert_rows-append ls (rows ++ (row_of l ∷ [])) (rw (← same) at h) ∙ ap some same)

pub add_lines-append :
    (ls : List TranscriptLine) (p : Project)
    → IsKeyed line_key (p.lines ++ map row_of ls)
    → add_lines ls p ≡ some (tt, record p { lines = p.lines ++ map row_of ls })
unfolding add_lines
add_lines-append ls p h = rw (insert_rows-append ls p.lines h, add_lines) refl

-- Whether ids are distinct is a matter of the ids.
pub IsKeyed-ids :
    (rows xs ys : List Line)
    → map line_key xs ≡ map line_key ys
    → IsKeyed line_key (rows ++ xs)
    → IsKeyed line_key (rows ++ ys)
IsKeyed-ids rows xs ys same h =
    let ids : map line_key (rows ++ xs) ≡ map line_key (rows ++ ys) =
      map-append_lists line_key rows xs
      ∙ ap (λ (zs : List ℕ). map line_key rows ++ zs) same
      ∙ sym (map-append_lists line_key rows ys) in
    Pairwise-of_map (λ (a b : ℕ). a ≢ b) line_key (rows ++ ys)
      (subst (λ (zs : List ℕ). Pairwise (λ (a b : ℕ). a ≢ b) zs) ids
        (Pairwise-map (λ (a b : ℕ). a ≢ b) line_key (rows ++ xs) h))
