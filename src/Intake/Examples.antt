-- ===== src/Intake/Examples.antt =====
-- A second "talk.wav" with a path in its name.
use chronicler.Base.{
  ℕ, ◌+◌, ◌≡◌, ◌≢◌, refl, none, some, true, false, Option, List, [], ◌∷◌, ◌++◌, length, List_eq,
  ℕ_eq, arith,
}
use chronicler.Base.Table.{find}
use chronicler.Text.{Text, codes}
use chronicler.Intake.{
  Stored, Disk, file_name, exists, add_audio_source, remove_directory, sanitize_stage_name,
}
use chronicler.Intake.Names.{IsSafe, add_audio_source-Added}

abbrev staged : Text
staged = codes "a1"

abbrev disk : Disk
disk = record {
  imports = record { name = codes "a1"; content = 5 } ∷ [];
  sources = record { name = codes "t.wav"; content = 4 } ∷ [];
}

abbrev typed : Option Text
typed = some (codes "../t.wav")

staged-IsSafe : IsSafe staged
staged-IsSafe = (((λ e. ground (arith, e)), ((λ e. ground (arith, e)), tt)), refl)

add_audio_source-Added_example :
    (find file_name staged disk.imports ≡ none
      → add_audio_source (length disk.sources + 1) staged typed disk ≡ none)
    × ((f : Stored)
        → find file_name staged disk.imports ≡ some f
        → (dest : Text) × (d' : Disk) × (add_audio_source
              (length disk.sources + 1)
              staged
              typed
              disk
            ≡ some (dest, d'))
          × (exists dest disk.sources ≡ false)
          × IsSafe dest
          × (d'.sources ≡ disk.sources ++ (record { name = dest; content = f.content } ∷ []))
          × (exists f.name d'.imports ≡ false))
add_audio_source-Added_example = add_audio_source-Added staged typed disk staged-IsSafe

moved :
    add_audio_source 2 staged typed disk
    ≡ some (
      codes "t (1).wav",
      record {
        imports = [];
        sources = disk.sources ++ (record { name = codes "t (1).wav"; content = 5 } ∷ []);
      },
    )
unfolding add_audio_source find chronicler.Text.is_space chronicler.Text.strip
moved = refl

third_attempt : remove_directory (λ n. chronicler.Base.ltb 1 n) ≡ some 300
unfolding chronicler.Intake.remove_from
third_attempt = refl
