-- ===== src/Base/Table.antt =====
-- A database table as the list of its rows, each found by its key. What the repositories ask of
-- SQLAlchemy: `select ... where key = k`, assignments to a row, `insert` and `delete ... where`.
use mathlib.Core.Option
use mathlib.Core.Path.{◌≡◌, refl, ap, ◌∙◌}
use mathlib.Core.Option.{Option, none, some}
use mathlib.Core.Logic.{◌≢◌, inl, inr}
use mathlib.Core.Bool.{true, false, not}
use mathlib.Core.List.{List, [], ◌∷◌, ◌++◌, map}
use native.Mathlib.Omega.{arith}
use chronicler.Base.Tests.{Bool-cases, if◌then◌else◌, Equality, ◌==◌}
use chronicler.Base.Lists.{or_else, keep, All, Pairwise, Pairwise-snoc, In, here, there, All-In}

module _ {ℓ κ} {Row : Type ℓ} {Key : Type κ} ⦃e : Equality Key⦄ (key : Row → Key) where
  unfoldable pub find : Key → List Row → Option Row
  find k [] = none
  find k (r ∷ rs) = if key r == k then some r else find k rs

  unfoldable pub modify : Key → (Row → Row) → List Row → List Row
  modify k f [] = []
  modify k f (r ∷ rs) = (if key r == k then f r else r) ∷ modify k f rs

  pub key-find : (k : Key) (rs : List Row) (r : Row) → find k rs ≡ some r → key r ≡ k
  unfolding find
  key-find k [] s h = ground arith
  key-find k (r ∷ rs) s h = ground (arith, e.test_iff (key r) k, key-find k rs s)

  pub find-modify :
      (f : Row → Row)
      → ((r : Row) → key (f r) ≡ key r)
      → (j k : Key) (rs : List Row)
      → find j (modify k f rs) ≡ (if k == j then Option.map f (find k rs) else find j rs)
  unfolding find modify
  find-modify f same j k [] = ground arith
  find-modify f same j k (r ∷ rs) = ground (
    arith,
    same r,
    find-modify f same j k rs,
    e.test_iff (key r) k,
    e.test_iff (key r) j,
    e.test_iff k j,
    e.test_iff (key (f r)) j,
  )

  pub find-append :
      (k : Key) (rs ss : List Row) → find k (rs ++ ss) ≡ or_else (find k rs) (find k ss)
  unfolding find
  find-append k [] ss = ground arith
  find-append k (r ∷ rs) ss = ground (arith, find-append k rs ss)

  pub find-map :
      (f : Row → Row)
      → ((r : Row) → key (f r) ≡ key r)
      → (k : Key) (rs : List Row) → find k (map f rs) ≡ Option.map f (find k rs)
  unfolding find
  find-map f same k [] = ground arith
  find-map f same k (r ∷ rs) = ground (arith, same r, find-map f same k rs)

  -- What `delete ... where key = j` leaves
  pub find-keep :
      (j k : Key) (rs : List Row)
      → find k (keep (λ r. not (key r == j)) rs) ≡ (if j == k then none else find k rs)
  unfolding find
  find-keep j k [] = ground arith
  find-keep j k (r ∷ rs) =
      ground (arith, find-keep j k rs, e.test_iff (key r) k, e.test_iff (key r) j, e.test_iff j k)

  -- The rows of a table have different keys.
  abbrev pub IsKeyed : List Row → Type κ
  IsKeyed rs = Pairwise (λ a b. key a ≢ key b) rs

  pub find-In : (r : Row) (rs : List Row) → IsKeyed rs → In r rs → find (key r) rs ≡ some r
  unfolding find
  find-In r [] h m = elim m [ ]
  find-In r (r' ∷ rs) h here = rw ((e.test_iff (key r) (key r)).1 refl)
  find-In r (r' ∷ rs) h (there m) =
      ground
        (arith, find-In r rs h.1 m, All-In (λ b. key r' ≢ key b) m h.0, e.test_iff (key r') (key r))

  pub find-none-All : (k : Key) (rs : List Row) → find k rs ≡ none → All (λ r. key r ≢ k) rs
  unfolding find
  find-none-All k [] h = tt
  find-none-All k (r ∷ rs) h = elim (Bool-cases (key r == k)) [
    | inl same ↦ let bad : some r ≡ none = rw same at h in ground (arith, bad)
    | inr other ↦ (ground (arith, other, e.test_iff (key r) k), find-none-All k rs (rw other at h))
  ]

  pub IsKeyed-snoc :
      (r : Row) (rs : List Row) → find (key r) rs ≡ none → IsKeyed rs → IsKeyed (rs ++ (r ∷ []))
  IsKeyed-snoc r rs h keyed = Pairwise-snoc _ rs r keyed (find-none-All (key r) rs h)

  -- A row that is found stays when others come.
  pub find-more :
      (k : Key) (rs ss : List Row) (r : Row) → find k rs ≡ some r → find k (rs ++ ss) ≡ some r
  find-more k rs ss r h = find-append k rs ss ∙ ap (λ (o : Option Row). or_else o (find k ss)) h

  pub In-find : (k : Key) (rs : List Row) (r : Row) → find k rs ≡ some r → In r rs
  unfolding find
  In-find k [] r h = absurd (cc)
  In-find k (r' ∷ rs) r h = elim (Bool-cases (key r' == k)) [
    | inl e ↦ let same : r' ≡ r = ground (arith, e) in rw (← same) here
    | inr e ↦ there (In-find k rs r (rw e at h))
  ]

  pub All-modify {μ} :
      (P : Row → Type μ) (f : Row → Row) (k : Key) (rs : List Row)
      → ((r : Row) → P r → P (f r))
      → All P rs
      → All P (modify k f rs)
  unfolding modify
  All-modify P f k [] step h = tt
  All-modify P f k (r ∷ rs) step h = (
    elim (key r == k) as (λ b. P (if b then f r else r)) [ true ↦ step r h.0 | false ↦ h.0 ],
    All-modify P f k rs step h.1,
  )

  module _ (f : Row → Row) (same : (r : Row) → key (f r) ≡ key r) where
    pub IsKeyed-modify : (k : Key) (rs : List Row) → IsKeyed rs → IsKeyed (modify k f rs)
    unfolding modify
    IsKeyed-modify k [] h = tt
    IsKeyed-modify k (r ∷ rs) h = (
      All-modify (λ b. key (if key r == k then f r else r) ≢ key b) f k rs
          (λ b differs. rw same differs)
          (elim (key r == k) as (λ t. All (λ b. key (if t then f r else r) ≢ key b) rs) [
            | true ↦ rw same h.0
            | false ↦ h.0
          ]),
      IsKeyed-modify k rs h.1,
    )
