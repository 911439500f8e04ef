-- ===== src/KnownSpeakers/Examples.antt =====
-- A name that is typed twice, once in lower case.
use chronicler.Base.{
  ℕ, ◌≡◌, refl, some, List, [], ◌∷◌, ℕ_eq, List_eq, map, leb, ◌+◌, ◌&&◌, if◌then◌else◌, keep,
}
use chronicler.Base.Table.{find, IsKeyed}
use chronicler.Text.{Text, codes}
use chronicler.KnownSpeakers.{key}
use chronicler.KnownSpeakers.Uses.{Use, after, told_by, is_use, after-told_by}

abbrev lower : Text → Text
lower t = map (λ c. if leb 65 c && leb c 90 then c + 32 else c) t

abbrev calls : List Use
calls = (3, codes "ann  lee") ∷ (2, codes "Bob") ∷ (1, codes " Ann Lee") ∷ []

after-told_by_example :
    IsKeyed key (after lower calls)
    × ((k : Text) → find key k (after lower calls) ≡ told_by lower k (keep (is_use lower k) calls))
after-told_by_example = after-told_by lower calls

seen :
    find key (codes "ann lee") (after lower calls)
    ≡ some (record {
      name = codes "Ann Lee";
      normalized_name = codes "ann lee";
      uses = 2;
      first_seen = 1;
      last_used = 3;
    })
unfolding after find chronicler.KnownSpeakers.register chronicler.Base.Table.modify
    chronicler.Text.is_space
seen = refl
