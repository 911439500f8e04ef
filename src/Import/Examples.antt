-- ===== src/Import/Examples.antt =====
-- An importer that takes a line "A ..." for a turn of "A", on a text of three lines.
use chronicler.Base.{
  ℕ, ◌+◌, ◌++◌, Bool-cases, inl, inr, ◌≡◌, ◌≢◌, refl, sym, ap, ◌∙◌, true, false, Option, none, some,
  List, [], ◌∷◌, ◌==◌, ℕ_eq, if◌then◌else◌, arith,
}
use chronicler.Text.{Text, codes, strip}
use chronicler.Models.{TranscriptLine}
use chronicler.Cleaning.Merge.{all_words}
use chronicler.Import.{Importer, Groups, parse, splitlines}
use chronicler.Import.Times.{Timed, Grouped, parse-Timed}
use chronicler.Import.Words.{Named, spoken, parse-words}

abbrev by_letter : Text → Option Groups
by_letter [] = none
by_letter (c ∷ cs) =
    if c == b'A'
    then some (record { speaker = some (codes "A"); text = some cs; timestamp = none })
    else none

abbrev plain : Importer
plain = record { match_line = by_letter; has_timestamps = false; uuid4 = λ n. n }

abbrev content : Text
content = codes "A hello" ++ (10 ∷ (codes "there" ++ (10 ∷ codes "A bye")))

abbrev imported : ℕ → ℕ → Text → TranscriptLine
imported n start text = record {
  id = n;
  speaker_id = none;
  speaker_name = some (codes "A");
  source_id = none;
  synthetic_timing = some true;
  chronicle_id = none;
  start_time = start;
  end_time = start + 1000;
  text = text;
}

abbrev lines : List TranscriptLine
lines = imported 1 0 (codes "hello" ++ (10 ∷ codes "there")) ∷ imported 2 1000 (codes "bye") ∷ []

parsed : parse plain content 0 ≡ some lines
unfolding parse strip chronicler.Text.join
parsed = refl

letter_stays : strip (codes "A") ≢ []
unfolding strip
letter_stays e = ground (arith, e)

by_letter-groups :
    (line : Text) (g : Groups)
    → by_letter line ≡ some g
    → (g.speaker ≡ some (codes "A")) × ((t : Text) × (g.text ≡ some t))
by_letter-groups [] g e = ground (arith, e)
by_letter-groups (c ∷ cs) g e = elim (Bool-cases (c == b'A')) [
  | inl y ↦
      let it : record { speaker = some (codes "A"); text = some cs; timestamp = none } ≡ g =
        ground (arith, (rw y at e)) in
      (ap (λ (n : Groups). n.speaker) (sym it), (cs, ap (λ (n : Groups). n.text) (sym it)))
  | inr y ↦ let bad : none ≡ some g = rw y at e in ground (arith, bad)
]

by_letter-Named : Named plain
by_letter-Named line g s e speaker =
    let groups = by_letter-groups line g e in
    let it : some (codes "A") ≡ some s = sym groups.0 ∙ speaker in
    let same : codes "A" ≡ s = ground (arith, it) in
    λ k. letter_stays (ap (λ (n : Text). strip n) same ∙ k)

by_letter-Grouped : Grouped plain
by_letter-Grouped line g e =
    let groups = by_letter-groups line g e in ((codes "A", groups.0), groups.1)

parse-Timed_example :
    (false ≡ false → Grouped plain → (ls : List TranscriptLine) × (parse plain content 0 ≡ some ls))
    × ((ls : List TranscriptLine) → parse plain content 0 ≡ some ls → Timed plain 0 ls)
parse-Timed_example = parse-Timed plain content 0

parse-words_example : all_words lines ≡ spoken plain false (splitlines content)
parse-words_example = parse-words plain content 0 lines by_letter-Named parsed
