-- ===== src/Handlers/Speakers.antt =====
-- `attach_speakers` of chronicler/core/processing/handlers/base.py.
use chronicler.Base.{
  ℕ, ℕ_eq, ◌≡◌, refl, subst, ◌∙◌, inl, inr, Bool-cases, Option-cases, some, List, [], ◌∷◌, All,
  All-mono, arith, List_eq, ◌==◌, list_beq_iff,
}
use chronicler.Base.Table.{find}
use chronicler.Text.{Text}
use chronicler.Models.{TranscriptLine}
use chronicler.Project.{Project, Speaker, speaker_key}
use chronicler.Project.Rows.{SpeakersOk, get_or_create_speaker-Got}
use chronicler.Handlers.{SpeakerMap, known, speaker_from_map, attach_from}

-- The id is that of a speaker with the name.
abbrev pub Names : Project → ℕ → Text → Type 0
Names p id n = (s : Speaker) × (find speaker_key id p.speakers ≡ some s) × (s.name ≡ n)

-- From `p` to `p'` only speakers were added.
pub record Grown (p p' : Project) : Type 0 where
  pub kept :
      (i : ℕ) (t : Speaker)
      → find speaker_key i p.speakers ≡ some t
      → find speaker_key i p'.speakers ≡ some t
  pub lines : p'.lines ≡ p.lines
  pub sources : p'.sources ≡ p.sources
  pub ok : SpeakersOk p'

pub Grown-trans : (p q r : Project) → Grown p q → Grown q r → Grown p r
Grown-trans p q r a b = record {
  kept = λ i t e. b.kept i t (a.kept i t e);
  lines = b.lines ∙ a.lines;
  sources = b.sources ∙ a.sources;
  ok = b.ok;
}

Names-Grown : (p p' : Project) (id : ℕ) (n : Text) → Grown p p' → Names p id n → Names p' id n
Names-Grown p p' id n g (s, found, named) = (s, g.kept id s found, named)

MapOk : Project → SpeakerMap → Type 0
MapOk p ids = All (λ (e : Text × ℕ). Names p e.1 e.0) ids

known-Names :
    (p : Project) (n : Text) (ids : SpeakerMap) (id : ℕ)
    → MapOk p ids
    → known (some n) ids ≡ some id
    → Names p id n
unfolding known MapOk
known-Names p n [] id h e = ground (arith, e)
known-Names p n ((m, i) ∷ ids) id h e = elim (Bool-cases (m == n)) [
  | inl same ↦
      let it : some i ≡ some id = rw same at e in
      let is_id : i ≡ id = ground (arith, it) in
      subst (λ (k : ℕ). Names p k n) is_id
        (subst (λ (k : Text). Names p i k) ((list_beq_iff m n).0 same) h.0)
  | inr other ↦ known-Names p n ids id h.1 (rw other at e)
]

-- A line with the id of a speaker with its name
abbrev pub Stamped : Project → List TranscriptLine → List TranscriptLine → Type 0
Stamped p [] [] = Unit
Stamped p [] (m ∷ ms) = ⊥
Stamped p (l ∷ ls) [] = ⊥
Stamped p (l ∷ ls) (m ∷ ms) =
    ((id : ℕ) × (n : Text) × (m ≡ record l { speaker_id = some id })
      × (l.speaker_name ≡ some n)
      × Names p id n)
    × Stamped p ls ms

-- Every speaker of `p` is one of `p'`.
abbrev pub KeepsSpeakers : Project → Project → Type 0
KeepsSpeakers p p' =
    (i : ℕ) (t : Speaker)
    → find speaker_key i p.speakers ≡ some t
    → find speaker_key i p'.speakers ≡ some t

pub Stamped-mono :
    (p p' : Project) (ls ms : List TranscriptLine)
    → KeepsSpeakers p p'
    → Stamped p ls ms
    → Stamped p' ls ms
Stamped-mono p p' [] [] g h = tt
Stamped-mono p p' [] (m ∷ ms) g h = h
Stamped-mono p p' (l ∷ ls) [] g h = h
Stamped-mono p p' (l ∷ ls) (m ∷ ms) g ((id, n, same, named, (s, found, is_n)), rest) =
    ((id, n, same, named, (s, g id s found, is_n)), Stamped-mono p p' ls ms g rest)

MapOk-Grown : (p p' : Project) (ids : SpeakerMap) → Grown p p' → MapOk p ids → MapOk p' ids
unfolding MapOk
MapOk-Grown p p' ids g h =
    All-mono _ _ ids (λ (e : Text × ℕ) named. Names-Grown p p' e.1 e.0 g named) h

-- What one line gets: an id, a map and tables.
Spoken : Project → Text → ℕ → SpeakerMap → Project → Type 0
Spoken p n id ids' p' = Grown p p' × (Names p' id n × MapOk p' ids')

speaker_from_map-Spoken :
    (p : Project) (n : Text) (ids : SpeakerMap)
    → SpeakersOk p
    → MapOk p ids
    → (id : ℕ) × (ids' : SpeakerMap) × (p' : Project) × (speaker_from_map
          (known (some n) ids)
          (some n)
          ids
          p
        ≡ some ((id, ids'), p'))
      × Spoken p n id ids' p'
unfolding speaker_from_map Spoken MapOk
speaker_from_map-Spoken p n ids ok h = elim (Option-cases (known (some n) ids)) [
  | inl e ↦
      let (s, p', done, got) = get_or_create_speaker-Got n p ok in
      let g : Grown p p' = record {
        kept = got.kept;
        lines = got.lines;
        sources = got.sources;
        ok = got.ok;
      } in
      (
        s.id,
        (n, s.id) ∷ ids,
        p',
        rw (e, speaker_from_map, done) refl,
        (g, ((s, got.found, got.named), ((s, got.found, got.named), MapOk-Grown p p' ids g h))),
      )
  | inr (id, e) ↦
      let g : Grown p p = record { kept = λ i t f. f; lines = refl; sources = refl; ok = ok } in
      (id, ids, p, rw (e, speaker_from_map) refl, (g, (known-Names p n ids id h e, h)))
]

-- Each line says who speaks.
abbrev pub HaveNames : List TranscriptLine → Type 0
HaveNames ls = All (λ (l : TranscriptLine). (n : Text) × (l.speaker_name ≡ some n)) ls

attach_from-Stamped :
    (p : Project) (ids : SpeakerMap) (ls : List TranscriptLine)
    → SpeakersOk p
    → MapOk p ids
    → HaveNames ls
    → (ms : List TranscriptLine) × (ids' : SpeakerMap) × (p' : Project) × (attach_from ids ls p
        ≡ some ((ms, ids'), p'))
      × Grown p p'
      × Stamped p' ls ms
unfolding attach_from Spoken
attach_from-Stamped p ids [] ok h named =
    ([], ids, p, refl, record { kept = λ i t f. f; lines = refl; sources = refl; ok = ok }, tt)
attach_from-Stamped p ids (l ∷ ls) ok h ((n, is_n), named) =
    let (id, ids', p', done, (g, (found, h'))) = speaker_from_map-Spoken p n ids ok h in
    let (ms, ids'', p'', rest, g', stamped) = attach_from-Stamped p' ids' ls g.ok h' named in
    (
      record l { speaker_id = some id } ∷ ms,
      ids'',
      p'',
      simp (is_n, done, rest),
      Grown-trans p p' p'' g g',
      ((id, n, refl, is_n, Names-Grown p' p'' id n g' found), stamped),
    )

-- While ids and names are distinct, every line gets the id of a speaker with its name, a name that
-- the table lacks is added to it, and no speaker that the table has is lost.
pub attach_speakers-Stamped :
    (p : Project) (ls : List TranscriptLine)
    → SpeakersOk p
    → HaveNames ls
    → (ms : List TranscriptLine) × (ids : SpeakerMap) × (p' : Project) × (attach_from [] ls p
        ≡ some ((ms, ids), p'))
      × Grown p p'
      × Stamped p' ls ms
unfolding MapOk
attach_speakers-Stamped p ls ok named = attach_from-Stamped p [] ls ok tt named
