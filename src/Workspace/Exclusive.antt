-- ===== src/Workspace/Exclusive.antt =====
-- One process at a time has a workspace (chronicler/core/workspace_lock.py).
use chronicler.Base.{
  ℕ, ◌≡◌, ◌≢◌, refl, sym, ap, ◌∙◌, inl, inr, Bool, Bool-cases, Option-cases, true, false, Option,
  none, some, ◌==◌, ℕ_eq, nat_eq_iff, subst, arith,
}
use chronicler.Workspace.{
  Os, World, set, acquire, release, end_process, Step, acquires, releases, ends, initial, Reach,
  started, later,
}

module _ (os : Os) where
  -- The system's holder is the one process that thinks so.
  pub record Held (w : World os) : Type 0 where
    pub holds : (i f : ℕ) → w.locks i ≡ some f → os.holder w.state ≡ some f
    pub one : (i j f g : ℕ) → w.locks i ≡ some f → w.locks j ≡ some g → i ≡ j
    pub back : (f : ℕ) → os.holder w.state ≡ some f → (i : ℕ) × (w.locks i ≡ some f)

  set-own : (i : ℕ) (v : Option ℕ) (locks : ℕ → Option ℕ) → set os i v locks i ≡ v
  set-own i v locks = rw ((nat_eq_iff i i).1 refl) refl

  set-some :
      (i j f : ℕ) (v : Option ℕ) (locks : ℕ → Option ℕ)
      → ((k : ℕ) → locks k ≡ none)
      → set os i v locks j ≡ some f
      → (i ≡ j) × (v ≡ some f)
  set-some i j f v locks free h = elim (Bool-cases (i == j)) [
    | inl e ↦ ((nat_eq_iff i j).0 e, rw e at h)
    | inr e ↦ let bad : none ≡ some f = sym (free j) ∙ (rw e at h) in ground (arith, bad)
  ]

  -- Where nobody has the lock, it is there for the first who asks.
  free-acquire :
      (i : ℕ) (w : World os)
      → os.holder w.state ≡ none
      → w.locks i ≡ none
      → (fd : ℕ) × (t : os.State) × (acquire os i w
          ≡ (true, record { state = t; locks = set os i (some fd) w.locks }))
        × (os.holder t ≡ some fd)
  unfolding acquire
  free-acquire i w free idle =
      let opened = os.open_file w.state in
      let (t, taken, now) = os.lock-free opened.1 opened.0 (os.open-holder w.state ∙ free) in
      (opened.0, t, rw (idle, acquire, taken) refl, now)

  -- Where it is taken, it is refused, and stays where it is.
  held-acquire :
      (i g : ℕ) (w : World os)
      → os.holder w.state ≡ some g
      → w.locks i ≡ none
      → (t : os.State) × (acquire os i w ≡ (false, record { state = t; locks = w.locks }))
        × (os.holder t ≡ some g)
  unfolding acquire
  held-acquire i g w held idle =
      let opened = os.open_file w.state in
      let same : os.holder opened.1 ≡ some g = os.open-holder w.state ∙ held in
      let differs : g ≢ opened.0 = λ e.
        let used : os.is_open w.state opened.0 ≡ true =
          subst (λ (f : ℕ). os.is_open w.state f ≡ true) e (os.holder-open w.state g held) in
        let bad : true ≡ false = sym used ∙ os.open-new w.state in ground (arith, bad) in
      (
        os.close opened.0 opened.1,
        rw (idle, acquire, os.lock-held opened.1 opened.0 g same differs) refl,
        os.close-other opened.1 opened.0
              (λ e. let it : some g ≡ some opened.0 = sym same ∙ e in differs (ground (arith, it)))
            ∙ same,
      )

  -- What has no holder has nobody who thinks so.
  idle-Held : (w : World os) → os.holder w.state ≡ none → ((j : ℕ) → w.locks j ≡ none) → Held w
  idle-Held w free idle = record {
    holds = λ i f h. let bad : none ≡ some f = sym (idle i) ∙ h in ground (arith, bad);
    one = λ i j f g h k. let bad : none ≡ some f = sym (idle i) ∙ h in ground (arith, bad);
    back = λ f h. let bad : none ≡ some f = sym free ∙ h in ground (arith, bad);
  }

  nobody : (w : World os) → Held w → os.holder w.state ≡ none → (j : ℕ) → w.locks j ≡ none
  nobody w ok free j = elim (Option-cases (w.locks j)) [
    | inl e ↦ e
    | inr (f, e) ↦ let bad : none ≡ some f = sym free ∙ ok.holds j f e in ground (arith, bad)
  ]

  taken-Held :
      (i fd : ℕ) (t : os.State) (locks : ℕ → Option ℕ)
      → ((j : ℕ) → locks j ≡ none)
      → os.holder t ≡ some fd
      → Held (record { state = t; locks = set os i (some fd) locks })
  taken-Held i fd t locks free now = record {
    holds = λ j f h. now ∙ (set-some i j f (some fd) locks free h).1;
    one = λ j k f g h m.
        sym (set-some i j f (some fd) locks free h).0 ∙ (set-some i k g (some fd) locks free m).0;
    back = λ f h. (i, set-own i (some fd) locks ∙ sym now ∙ h);
  }

  again : (i fd : ℕ) (w : World os) → w.locks i ≡ some fd → acquire os i w ≡ (true, w)
  unfolding acquire
  again i fd w e = rw (e, acquire) refl

  acquire-Held : (i : ℕ) (w : World os) → Held w → Held (acquire os i w).1
  acquire-Held i w ok = elim (Option-cases (w.locks i)) [
    | inr (fd, e) ↦ subst Held (sym (ap (λ (r : Bool × World os). r.1) (again i fd w e))) ok
    | inl idle ↦ elim (Option-cases (os.holder w.state)) [
      | inl free ↦
          let (fd, t, done, now) = free-acquire i w free idle in
          subst Held (sym (ap (λ (r : Bool × World os). r.1) done))
            (taken-Held i fd t w.locks (nobody w ok free) now)
      | inr (g, held) ↦
          let (t, done, now) = held-acquire i g w held idle in
          subst Held (sym (ap (λ (r : Bool × World os). r.1) done)) (record {
            holds = λ j f h. now ∙ sym held ∙ ok.holds j f h;
            one = ok.one;
            back = λ f h. ok.back f (held ∙ sym now ∙ h);
          })
    ]
  ]

  -- When the one that has it lets it go, nobody has it.
  freed :
      (i fd : ℕ) (w : World os)
      → Held w
      → w.locks i ≡ some fd
      → (j : ℕ) → set os i none w.locks j ≡ none
  freed i fd w ok mine j = elim (Bool-cases (i == j)) [
    | inl e ↦ rw e refl
    | inr e ↦ rw e (elim (Option-cases (w.locks j)) [
      | inl idle ↦ idle
      | inr (g, theirs) ↦ absurd (ground (arith, e, nat_eq_iff i j, ok.one i j fd g mine theirs))
    ])
  ]

  release-free :
      (i fd : ℕ) (w : World os)
      → Held w
      → w.locks i ≡ some fd
      → (os.holder (release os i w).state ≡ none) × ((j : ℕ) → (release os i w).locks j ≡ none)
  unfolding release
  release-free i fd w ok mine =
      rw (mine, release)
        (
          os.close-other (os.unlock fd w.state) fd (λ e.
                let bad : none ≡ some fd =
                  sym (os.unlock-holder w.state fd (ok.holds i fd mine)) ∙ e in
                ground (arith, bad))
              ∙ os.unlock-holder w.state fd (ok.holds i fd mine),
          freed i fd w ok mine,
        )

  end_process-free :
      (i fd : ℕ) (w : World os)
      → Held w
      → w.locks i ≡ some fd
      → (os.holder (end_process os i w).state ≡ none)
        × ((j : ℕ) → (end_process os i w).locks j ≡ none)
  unfolding end_process
  end_process-free i fd w ok mine =
      rw (mine, end_process) (os.close-holder w.state fd (ok.holds i fd mine), freed i fd w ok mine)

  Step-Held : (w x : World os) → Held w → Step os w x → Held x
  unfolding release end_process
  Step-Held w _ ok (acquires i) = acquire-Held i w ok
  Step-Held w _ ok (releases i) = elim (Option-cases (w.locks i)) [
    | inl e ↦ rw (e, release) ok
    | inr (fd, e) ↦
        let (free, idle) = release-free i fd w ok e in idle-Held (release os i w) free idle
  ]
  Step-Held w _ ok (ends i) = elim (Option-cases (w.locks i)) [
    | inl e ↦ rw (e, end_process) ok
    | inr (fd, e) ↦
        let (free, idle) = end_process-free i fd w ok e in idle-Held (end_process os i w) free idle
  ]

  Reach-Held : (w : World os) → Reach os w → Held w
  Reach-Held _ started = idle-Held (initial os) os.start-free (λ j. refl)
  Reach-Held x (later {w} r s) = Step-Held w x (Reach-Held w r) s

  -- Whatever steps the processes took: no two have the lock. While one has it, every other one's
  -- `acquire` is refused and changes no process's lock.
  pub Reach-Exclusive :
      (w : World os)
      → Reach os w
      → ((i j f g : ℕ) → w.locks i ≡ some f → w.locks j ≡ some g → i ≡ j)
        × ((i j f : ℕ)
            → w.locks i ≡ some f
            → i ≢ j
            → ((acquire os j w).0 ≡ false) × ((acquire os j w).1.locks ≡ w.locks))
  Reach-Exclusive w r =
      let ok = Reach-Held w r in
      (
        ok.one,
        λ i j f mine other.
            let idle : w.locks j ≡ none = elim (Option-cases (w.locks j)) [
              | inl e ↦ e
              | inr (g, theirs) ↦ absurd (other (ok.one i j f g mine theirs))
            ] in
            let (t, done, now) = held-acquire j f w (ok.holds i f mine) idle in
            (ap (λ (o : Bool × World os). o.0) done, ap (λ (o : Bool × World os). o.1.locks) done),
      )

  asks :
      (j : ℕ) (w : World os)
      → os.holder w.state ≡ none
      → w.locks j ≡ none
      → ((acquire os j w).0 ≡ true) × ((f : ℕ) × ((acquire os j w).1.locks j ≡ some f))
  asks j w free idle =
      let (fd, t, done, now) = free-acquire j w free idle in
      (
        ap (λ (o : Bool × World os). o.0) done,
        (fd, ap (λ (o : Bool × World os). o.1.locks j) done ∙ set-own j (some fd) w.locks),
      )

  -- Whatever steps the processes took: once the one that has the lock releases it or ends, however it
  -- ends, the next `acquire` of any process, itself or another, gets it.
  pub Reach-Released :
      (w : World os) (i j f : ℕ)
      → Reach os w
      → w.locks i ≡ some f
      → (((acquire os j (release os i w)).0 ≡ true)
          × ((g : ℕ) × ((acquire os j (release os i w)).1.locks j ≡ some g)))
        × (((acquire os j (end_process os i w)).0 ≡ true)
            × ((g : ℕ) × ((acquire os j (end_process os i w)).1.locks j ≡ some g)))
  Reach-Released w i j f r mine =
      let ok = Reach-Held w r in
      let (free, idle) = release-free i f w ok mine in
      let (free', idle') = end_process-free i f w ok mine in
      (asks j (release os i w) free (idle j), asks j (end_process os i w) free' (idle' j))
