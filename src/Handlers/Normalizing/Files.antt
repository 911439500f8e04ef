-- ===== src/Handlers/Normalizing/Files.antt =====
-- Files that are written, and rows that say so (chronicler/core/processing/handlers/normalizing.py).
use chronicler.Base.{
  ℕ, ◌≡◌, ◌≢◌, refl, ap, ◌∙◌, true, false, Option, none, some, List, [], ◌∷◌, if◌then◌else◌, String,
  String_eq, Option_eq, ◌==◌, arith,
}
use chronicler.Base.Table.{find, find-modify, find-append, key-find}
use chronicler.Models.{source_done, SourceState_eq}
use chronicler.Sources.{AudioSource, is_normalized}
use chronicler.Handlers.Normalizing.{Audio, file, put, put_from}

pub same_name : (f : String) → (f == f) ≡ true
same_name f = (String_eq.test_iff f f).1 refl

pub other_name : (f g : String) → f ≢ g → (f == g) ≡ false
other_name f g h = ground (arith, h, String_eq.test_iff f g)

abbrev pub audio : String → ℕ → Audio
audio f content = record { filename = f; content = content }

put_from-find :
    (o : Option Audio) (f g : String) (content : ℕ) (disk : List Audio)
    → find file f disk ≡ o
    → find file g (put_from o f content disk)
      ≡ (if f == g then some (audio f content) else find file g disk)
unfolding put_from find
put_from-find none f g content disk h =
    find-append file g disk (audio f content ∷ []) ∙ ground (arith, h, String_eq.test_iff f g)
put_from-find (some a) f g content disk h =
    let named : a.filename ≡ f = key-find file f disk a h in
    find-modify file (λ a. record a { content = content }) (λ _. refl) g f disk
    ∙ rw h (ap (λ (n : String). if f == g then some (audio n content) else find file g disk) named)

pub put-own :
    (f : String) (content : ℕ) (disk : List Audio)
    → find file f (put f content disk) ≡ some (audio f content)
unfolding put
put-own f content disk =
    put_from-find (find file f disk) f f content disk refl ∙ rw (same_name f) refl

pub put-other :
    (f g : String) (content : ℕ) (disk : List Audio)
    → f ≢ g
    → find file g (put f content disk) ≡ find file g disk
unfolding put
put-other f g content disk h =
    put_from-find (find file f disk) f g content disk refl ∙ rw (other_name f g h) refl

pub is_normalized_lem :
    (s : AudioSource) (h n : String)
    → s.normalization_state ≡ source_done
    → s.normalized_hash ≡ some h
    → s.content_hash ≡ some h
    → s.normalized_filename ≡ some n
    → is_normalized s ≡ true
unfolding is_normalized
is_normalized_lem s h n a b c d = simp (a, b, c, d, same_name h)
