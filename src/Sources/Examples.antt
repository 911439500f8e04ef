-- ===== src/Sources/Examples.antt =====
-- A track that is transcribed and then replaced on disk.
use chronicler.Base.{
  ℕ, ◌≡◌, ◌≢◌, ◌↔◌, refl, true, false, none, some, List, [], ◌∷◌, String, String_eq, Option,
}
use chronicler.Base.Table.{find}
use chronicler.Sources.{
  AudioSource, Fresh, Sources, name, Call, registers, writes, mark_transcribing, mark_transcribed,
  new_source, with_content, assign, after, is_transcribed,
}
use chronicler.Sources.History.{latest, after-latest}
use chronicler.Sources.Status.{Consistent, after-Consistent}
use chronicler.Sources.Current.{transcribed_content, content, is_transcribed_iff}

abbrev at : ℕ → Fresh
at n = record { time = n; uuid = n }

abbrev fresh : AudioSource
fresh = with_content (some "h1") (some 10) none (new_source (at 1) "a.wav")

abbrev transcribed : AudioSource
transcribed =
    assign 4 (mark_transcribed (some "h1") (some "en") none) (assign 3 mark_transcribing fresh)

-- The newest call first
abbrev calls : List Call
calls =
    registers (at 5) "b.wav" (some "h9") none none
    ∷ writes 4 "a.wav" (mark_transcribed (some "h1") (some "en") none)
    ∷ writes 3 "a.wav" mark_transcribing
    ∷ registers (at 1) "a.wav" (some "h1") (some 10) none
    ∷ []

abbrev table : Sources
table = transcribed ∷ with_content (some "h9") none none (new_source (at 5) "b.wav") ∷ []

ran : after calls ≡ some table
unfolding after find chronicler.Base.Table.modify
ran = refl

found : find name "a.wav" table ≡ some transcribed
unfolding find assign
found = refl

after-latest_example : find name "a.wav" table ≡ latest "a.wav" calls
after-latest_example = after-latest calls table "a.wav" ran

after-Consistent_example : Consistent transcribed
after-Consistent_example = after-Consistent calls table "a.wav" transcribed ran found

is_transcribed_iff_example : (is_transcribed transcribed ≡ true) ↔ (
    (hash : String) × (transcribed_content "a.wav" calls ≡ some hash)
    × (content "a.wav" calls ≡ some hash))
is_transcribed_iff_example = is_transcribed_iff calls table "a.wav" transcribed ran found
