-- ===== src/Service/Payloads.antt =====
-- Reading a payload that chronicler/core/services/task_service.py puts together field by field.
use chronicler.Base.{
  ◌≡◌, refl, inl, inr, Bool-cases, Option, none, some, [], ◌∷◌, ◌++◌, String, String_eq, ◌==◌,
  if◌then◌else◌,
}
use chronicler.Models.{Json, Payload}
use chronicler.Service.{get, field, or_default}

pub get-append :
    (name : String) (a b : Payload) → get name (a ++ b) ≡ or_default (get name a) (get name b)
unfolding get
get-append name [] b = refl
get-append name ((k, v) ∷ a) b = elim (Bool-cases (k == name)) [
  | inl e ↦ rw e refl
  | inr e ↦ rw e (get-append name a b)
]

pub get-field :
    (name k : String) (v : Option Json) → get name (field k v) ≡ (if k == name then v else none)
unfolding get
get-field name k none = elim (Bool-cases (k == name)) [ inl e ↦ rw e refl | inr e ↦ rw e refl ]
get-field name k (some v) = refl

pub or_default-none : (a : Option Json) → or_default a none ≡ a
or_default-none none = refl
or_default-none (some v) = refl
