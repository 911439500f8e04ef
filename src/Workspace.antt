-- ===== src/Workspace.antt =====
-- chronicler/core/workspace_lock.py: processes that open one workspace, interleaved in any order. A
-- process has one `WorkspaceLock`, and `locks` gives its `_fd`. The system's locks on files are a
-- parameter.
pub mod Exclusive
mod Examples
use chronicler.Base.{ℕ, ◌≡◌, ◌≢◌, Bool, true, false, Option, none, some, ◌==◌, ℕ_eq, if◌then◌else◌}

-- What the code relies on of `os.open`, `flock` with `LOCK_NB` and `os.close`, over one lock file. A
-- number stands for an open file, and `holder` is the one that has the lock.
pub record Os : Type 1 where
  pub State : Type 0
  pub start : State
  pub holder : State → Option ℕ
  pub is_open : State → ℕ → Bool
  pub open_file : State → ℕ × State
  pub lock : ℕ → State → Option State
  pub unlock : ℕ → State → State
  pub close : ℕ → State → State
  pub start-free : holder start ≡ none
  pub holder-open : (s : State) (f : ℕ) → holder s ≡ some f → is_open s f ≡ true
  pub open-new : (s : State) → is_open s (open_file s).0 ≡ false
  pub open-holder : (s : State) → holder (open_file s).1 ≡ holder s
  pub lock-free :
      (s : State) (f : ℕ)
      → holder s ≡ none
      → (t : State) × (lock f s ≡ some t) × (holder t ≡ some f)
  pub lock-held : (s : State) (f g : ℕ) → holder s ≡ some g → g ≢ f → lock f s ≡ none
  pub unlock-holder : (s : State) (f : ℕ) → holder s ≡ some f → holder (unlock f s) ≡ none
  pub close-holder : (s : State) (f : ℕ) → holder s ≡ some f → holder (close f s) ≡ none
  pub close-other : (s : State) (f : ℕ) → holder s ≢ some f → holder (close f s) ≡ holder s

module _ (os : Os) where
  pub record World : Type 0 where
    pub state : os.State
    pub locks : ℕ → Option ℕ

  abbrev pub set : ℕ → Option ℕ → (ℕ → Option ℕ) → ℕ → Option ℕ
  set i fd locks j = if i == j then fd else locks j

  -- `false` is the `WorkspaceLockedError`, behind `os.close`.
  unfoldable pub take_lock : Option os.State → ℕ → ℕ → os.State → (ℕ → Option ℕ) → Bool × World
  take_lock none i fd opened locks = (false, record { state = os.close fd opened; locks = locks })
  take_lock (some state) i fd opened locks =
      (true, record { state = state; locks = set i (some fd) locks })

  -- A second call is a no-op.
  unfoldable pub acquire_from : Option ℕ → ℕ → World → Bool × World
  unfolding take_lock
  acquire_from (some fd) i w = (true, w)
  acquire_from none i w =
      let opened = os.open_file w.state in
      take_lock (os.lock opened.0 opened.1) i opened.0 opened.1 w.locks

  unfoldable pub acquire : ℕ → World → Bool × World
  unfolding acquire_from
  acquire i w = acquire_from (w.locks i) i w

  unfoldable pub release_from : Option ℕ → ℕ → World → World
  release_from none i w = w
  release_from (some fd) i w = record {
    state = os.close fd (os.unlock fd w.state);
    locks = set i none w.locks;
  }

  unfoldable pub release : ℕ → World → World
  unfolding release_from
  release i w = release_from (w.locks i) i w

  -- The system closes what a process has open when it ends, however it ends.
  unfoldable pub end_from : Option ℕ → ℕ → World → World
  end_from none i w = w
  end_from (some fd) i w = record { state = os.close fd w.state; locks = set i none w.locks }

  unfoldable pub end_process : ℕ → World → World
  unfolding end_from
  end_process i w = end_from (w.locks i) i w

  pub data Step (w : World) : World → Type 0 where
    acquires : (i : ℕ) → Step w (acquire i w).1
    releases : (i : ℕ) → Step w (release i w)
    ends : (i : ℕ) → Step w (end_process i w)

  abbrev pub initial : World
  initial = record { state = os.start; locks = λ i. none }

  pub data Reach : World → Type 0 where
    started : Reach initial
    later : {w x : World} → Reach w → Step w x → Reach x
