-- ===== src/Sources/Current.antt =====
-- `AudioSource.is_transcribed` (chronicler/core/models.py) against the calls on the repository of
-- chronicler/core/sqlite/audio_source_repository.py.
use chronicler.Base.{
  ℕ, ◌≡◌, ◌≢◌, ◌↔◌, refl, sym, ap, ◌∙◌, inl, inr, true, Bool-cases, Option-cases, Option, none,
  some, List, [], ◌∷◌, ◌&&◌, if◌then◌else◌, String, String_eq, Option_eq, ◌==◌, arith, subst,
}
use chronicler.Base.Table.{find}
use chronicler.Models.{SourceState, source_done, SourceState_eq}
use chronicler.Sources.{
  AudioSource, Sources, name, assign, Write, set_speaker, set_start_offset, mark_transcribing,
  mark_transcribed, mark_transcription_failed, mark_normalizing, mark_normalized,
  mark_normalization_failed, Call, registers, writes, deletes, perform, update, update_row, after,
  is_transcribed, has,
}
use chronicler.Sources.History.{target, effect, latest, after-latest}

-- The hash of the content that the last transcription read, unless a later call took it back.
abbrev transcribed_by : Call → Option String → Option String
transcribed_by (writes _ _ (mark_transcribed hash _ _)) _ = hash
transcribed_by (writes _ _ mark_transcribing) _ = none
transcribed_by (writes _ _ (mark_transcription_failed _)) _ = none
transcribed_by (deletes _) _ = none
transcribed_by _ before = before

-- The hash of the content registered last
abbrev content_by : Call → Option String → Option String
content_by (registers _ _ hash _ _) _ = hash
content_by (deletes _) _ = none
content_by _ before = before

abbrev pub of_calls : (Call → Option String → Option String) → String → List Call → Option String
of_calls by f [] = none
of_calls by f (c ∷ calls) =
    if target c == f then by c (of_calls by f calls) else of_calls by f calls

abbrev pub transcribed_content : String → List Call → Option String
transcribed_content f calls = of_calls transcribed_by f calls

abbrev pub content : String → List Call → Option String
content f calls = of_calls content_by f calls

-- A row agrees with what the calls say: `done_hash` is the hash that counts.
abbrev done_hash : AudioSource → Option String
done_hash s = if s.transcription_state == source_done then s.transcribed_hash else none

abbrev Follows : Option String → Option String → Option AudioSource → Type 0
Follows t k none = t ≡ none
Follows t k (some s) = (t ≡ done_hash s) × (k ≡ s.content_hash)

effect-Follows :
    (c : Call) (t k : Option String) (o : Option AudioSource)
    → ((now : ℕ) (f : String) (w : Write) → c ≡ writes now f w → o ≢ none)
    → Follows t k o
    → Follows (transcribed_by c t) (content_by c k) (effect c o)
unfolding assign
effect-Follows (registers now f hash size duration) t k none ok h = (h, refl)
effect-Follows (registers now f hash size duration) t k (some s) ok h = (h.0, refl)
effect-Follows (deletes f) t k o ok h = refl
effect-Follows (writes now f w) t k none ok h = absurd (ok now f w refl refl)
effect-Follows (writes now f (set_speaker _)) t k (some s) ok h = h
effect-Follows (writes now f (set_start_offset _)) t k (some s) ok h = h
effect-Follows (writes now f mark_transcribing) t k (some s) ok h = (refl, h.1)
effect-Follows (writes now f (mark_transcribed _ _ _)) t k (some s) ok h = (refl, h.1)
effect-Follows (writes now f (mark_transcription_failed _)) t k (some s) ok h = (refl, h.1)
effect-Follows (writes now f mark_normalizing) t k (some s) ok h = h
effect-Follows (writes now f (mark_normalized _ _ _ _)) t k (some s) ok h = h
effect-Follows (writes now f (mark_normalization_failed _)) t k (some s) ok h = h

update_row_ne :
    (o : Option AudioSource) (f : String) (change : AudioSource → AudioSource) (db db' : Sources)
    → update_row o f change db ≡ some db'
    → o ≢ none
unfolding update_row
update_row_ne none f change db db' h e = ground (arith, h)
update_row_ne (some s) f change db db' h e = ground (arith, e)

-- A call that writes found a row.
perform_ne :
    (c : Call) (db db' : Sources) (now : ℕ) (f : String) (w : Write)
    → perform c db ≡ some db'
    → c ≡ writes now f w
    → find name (target c) db ≢ none
unfolding perform update
perform_ne (writes now f w) db db' _ _ _ h same =
    update_row_ne (find name f db) f (assign now w) db db' h
perform_ne (registers _ _ _ _ _) db db' now f w h same = absurd (ground (arith, same))
perform_ne (deletes _) db db' now f w h same = absurd (ground (arith, same))

latest-Follows :
    (calls : List Call) (db : Sources) (f : String)
    → after calls ≡ some db
    → Follows (transcribed_content f calls) (content f calls) (latest f calls)
unfolding after latest
latest-Follows [] db f h = refl
latest-Follows (c ∷ calls) db f h = elim (Option-cases (after calls)) [
  | inl e ↦ let bad : none ≡ some db = rw e at h in ground (arith, bad)
  | inr (before, e) ↦
      let done : perform c before ≡ some db = rw e at h in
      elim (Bool-cases (target c == f)) [
        | inl is_f ↦
            let same : target c ≡ f = (String_eq.test_iff (target c) f).0 is_f in
            let row : find name (target c) before ≡ latest f calls =
              ap (λ (g : String). find name g before) same ∙ after-latest calls before f e in
            rw is_f (
              effect-Follows c _ _ _
                (λ now g w eq none_there. perform_ne c before db now g w done eq (row ∙ none_there))
                (latest-Follows calls before f e))
        | inr other ↦ rw other (latest-Follows calls before f e)
      ]
]

-- The test of `is_transcribed` on the three columns it reads.
current_iff :
    (state : SourceState) (done now : Option String)
    → (state == source_done && has done && done == now ≡ true) ↔ (
        (hash : String) × ((if state == source_done then done else none) ≡ some hash)
        × (now ≡ some hash))
current_iff state none now = (
  λ e. ground (arith, e),
  λ (hash, e, _). elim (Bool-cases (state == source_done)) [
    | inl d ↦ let bad : none ≡ some hash = rw d at e in ground (arith, bad)
    | inr d ↦ let bad : none ≡ some hash = rw d at e in ground (arith, bad)
  ],
)
current_iff state (some hash) now = (
  λ e.
      let both : (state == source_done ≡ true) × (some hash == now ≡ true) = ground (arith, e) in
      (hash, rw both.0 refl, sym ((Option_eq.test_iff (some hash) now).0 both.1)),
  λ (other, e, at_now). elim (Bool-cases (state == source_done)) [
    | inl d ↦
        let same : some hash ≡ some other = rw d at e in
        rw d ((Option_eq.test_iff (some hash) now).1 (same ∙ sym at_now))
    | inr d ↦ let bad : none ≡ some other = rw d at e in ground (arith, bad)
  ],
)

transcribed_cases :
    (t k : Option String) (s : AudioSource)
    → Follows t k (some s)
    → (is_transcribed s ≡ true) ↔ ((hash : String) × (t ≡ some hash) × (k ≡ some hash))
unfolding is_transcribed
transcribed_cases t k s (at_t, at_k) =
    rw (at_t, at_k) (current_iff s.transcription_state s.transcribed_hash s.content_hash)

-- After calls that raised nothing, `is_transcribed` holds of a row exactly when some content was
-- transcribed to the end, no later call for the file started a transcription, recorded a failure or
-- deleted the row, and the content registered last has the same hash.
pub is_transcribed_iff :
    (calls : List Call) (db : Sources) (f : String) (s : AudioSource)
    → after calls ≡ some db
    → find name f db ≡ some s
    → (is_transcribed s ≡ true) ↔ (
        (hash : String) × (transcribed_content f calls ≡ some hash) × (content f calls ≡ some hash))
is_transcribed_iff calls db f s h found =
    transcribed_cases (transcribed_content f calls) (content f calls) s (
      subst (λ (o : Option AudioSource). Follows (transcribed_content f calls) (content f calls) o)
        (sym (after-latest calls db f h) ∙ found) (latest-Follows calls db f h))
