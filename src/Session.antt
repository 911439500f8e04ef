-- ===== src/Session.antt =====
-- A database session: a computation over the tables that raises (`none`) or ends in a result and new
-- tables. `transact` is the frame `try: ...; commit / except: rollback; raise` of the services and the
-- handlers.
use chronicler.Base.{◌≡◌, refl, ap, Option, none, some, arith}

abbrev pub Session : Type 0 → Type 0 → Type 0
Session S A = S → Option (A × S)

-- What follows a session that has ended so
abbrev pub go_on : {S A B : Type 0} → Option (A × S) → (A → Session S B) → Option (B × S)
go_on none f = none
go_on (some (a, s)) f = f a s

infixl 5 ◌>>=◌ ◌>>◌
abbrev pub ◌>>=◌ : {S A B : Type 0} → Session S A → (A → Session S B) → Session S B
◌>>=◌ m f s = go_on (m s) f

abbrev pub ◌>>◌ : {S B : Type 0} → Session S (Unit {0}) → Session S B → Session S B
◌>>◌ m k s = go_on (m s) (λ _. k)

abbrev pub pure : {S A : Type 0} → A → Session S A
pure a s = some (a, s)

abbrev pub gets : {S A : Type 0} → (S → A) → Session S A
gets f s = some (f s, s)

abbrev pub modify_all : {S : Type 0} → (S → S) → Session S (Unit {0})
modify_all f s = some (tt, f s)

abbrev pub or_raise : {S A : Type 0} → Option A → Session S A
or_raise none s = none
or_raise (some a) s = some (a, s)

-- What the caller gets, and the tables behind it.
unfoldable pub transact : {S A : Type 0} → Session S A → S → Option A × S
transact m s = elim (m s) [ none ↦ (none, s) | some (a, s') ↦ (some a, s') ]

-- A session that ends keeps `P`.
abbrev pub Keeps : {S A : Type 0} → (S → Type 0) → Session S A → Type 0
Keeps {S} {A} P m = (s s' : S) (a : A) → P s → m s ≡ some (a, s') → P s'

module _ {S A B : Type 0} where
  pub >>=-eq-some :
      (m : Session S A) (f : A → Session S B) (s s' : S) (b : B)
      → (m >>= f) s ≡ some (b, s')
      → (a : A) × (t : S) × (m s ≡ some (a, t)) × (f a t ≡ some (b, s'))
  >>=-eq-some m f s s' b h = went_on (m s) refl h
    where
      went_on :
          (o : Option (A × S))
          → m s ≡ o
          → go_on o f ≡ some (b, s')
          → (a : A) × (t : S) × (m s ≡ some (a, t)) × (f a t ≡ some (b, s'))
      went_on none e h = ground (arith, h)
      went_on (some (a, t)) e h = (a, t, e, h)

  pub >>=-some :
      (m : Session S A) (f : A → Session S B) (s t : S) (a : A)
      → m s ≡ some (a, t)
      → (m >>= f) s ≡ f a t
  >>=-some m f s t a e = ap (λ (o : Option (A × S)). go_on o f) e

  pub Keeps->>= :
      (P : S → Type 0) (m : Session S A) (f : A → Session S B)
      → Keeps P m
      → ((a : A) → Keeps P (f a))
      → Keeps P (m >>= f)
  Keeps->>= P m f first next s s' b p h =
      let (a, t, e, k) = >>=-eq-some m f s s' b h in next a t s' b (first s t a p e) k

module _ {S A : Type 0} (m : Session S A) (s : S) where
  pub transact-none : m s ≡ none → transact m s ≡ (none, s)
  unfolding transact
  transact-none e = rw (e, transact) refl

  pub transact-some : (a : A) (t : S) → m s ≡ some (a, t) → transact m s ≡ (some a, t)
  unfolding transact
  transact-some a t e = rw (e, transact) refl
