-- ===== src/Handlers/Normalizing/Examples.antt =====
-- "talk.wav" and "talk.mp3", which share the name of their copies.
use chronicler.Base.{
  ℕ, ◌+◌, ◌≡◌, ◌≢◌, refl, true, false, none, some, [], ◌∷◌, String, String_eq, ◌==◌, ℕ_eq,
  if◌then◌else◌, arith,
}
use chronicler.Base.Table.{find}
use chronicler.Handlers.Normalizing.{
  Audio, file, Studio, Levelled, Engine, normalized_path_for, ensure_normalized,
}
use chronicler.Handlers.Normalizing.Made.{wants_none}
use chronicler.Handlers.Normalizing.Copies.{
  given, ensure_normalized-given, ensure_normalized-levelled,
}

abbrev louder : ℕ → Levelled
louder n = record { content = n + 100; loudness_before = none; loudness_after = none }

abbrev engine : Engine
engine = record {
  fingerprint = λ n. if n == 1 then "h1" else "h2";
  size = λ n. 10;
  level = λ n. some (louder n);
  stem = λ f. if f == "talk.mp3" then "talk" else if f == "talk.wav" then "talk" else f;
  failure = "no audio";
}

abbrev recording : String → ℕ → Audio
recording filename content = record { filename = filename; content = content }

abbrev studio : Studio
studio = record {
  sources = [];
  next = 0;
  disk = recording "talk.wav" 1 ∷ recording "talk.mp3" 2 ∷ [];
}

differ : (f g : String) → (f == g) ≡ false → f ≢ g
differ f g h e =
    let same : (f == g) ≡ true = (String_eq.test_iff f g).1 e in ground (arith, same, h)

copy_shared : normalized_path_for engine 5 "talk.wav" ≡ normalized_path_for engine 5 "talk.mp3"
copy_shared = refl

there :
    (find file "talk.wav" studio.disk ≡ some (recording "talk.wav" 1))
    × (find file "talk.mp3" studio.disk ≡ some (recording "talk.mp3" 2))
unfolding find
there = (refl, refl)

ensure_normalized-given_example :
    (given engine 5 "talk.wav" (ensure_normalized engine 5 true "talk.wav" studio).1
      ≡ some (recording "talk.normalized.wav" 101))
    × (given engine 5 "talk.wav"
          (ensure_normalized engine 5 true "talk.mp3"
            (ensure_normalized engine 5 true "talk.wav" studio).1).1
        ≡ some (recording "talk.normalized.wav" 102))
ensure_normalized-given_example =
    ensure_normalized-given engine 5 "talk.wav" "talk.mp3" 1 2 (louder 1) (louder 2) studio
      (differ "talk.wav" "talk.mp3" refl) copy_shared
      (differ (normalized_path_for engine 5 "talk.wav") "talk.wav" refl)
      (differ (normalized_path_for engine 5 "talk.mp3") "talk.mp3" refl) there.0 there.1 refl refl

no_copy : wants_none engine 5 false "talk.wav" studio ≡ false
unfolding find chronicler.Handlers.Normalizing.source_record chronicler.Sources.register
    chronicler.Sources.is_normalized
no_copy = refl

ensure_normalized-levelled_example :
    ((ensure_normalized engine 5 false "talk.wav" studio).0
      ≡ some (some (normalized_path_for engine 5 "talk.wav")))
    × (given engine 5 "talk.wav" (ensure_normalized engine 5 false "talk.wav" studio).1
        ≡ some (recording "talk.normalized.wav" 101))
ensure_normalized-levelled_example =
    ensure_normalized-levelled engine 5 false "talk.wav" 1 (louder 1) studio no_copy
      (differ (normalized_path_for engine 5 "talk.wav") "talk.wav" refl) there.0 refl
