-- ===== src/Models/Sources.antt =====
-- `SourceState` (chronicler/core/models.py).
use chronicler.Base.{Bool, true, false, ◌≡◌, ◌↔◌, Equality, arith}

pub data SourceState : Type 0 where
  source_pending source_running source_done source_failed : SourceState

abbrev pub state_beq : SourceState → SourceState → Bool
state_beq source_pending source_pending = true
state_beq source_running source_running = true
state_beq source_done source_done = true
state_beq source_failed source_failed = true
state_beq _ _ = false

pub state_beq_iff : (a b : SourceState) → (state_beq a b ≡ true) ↔ (a ≡ b)
state_beq_iff a b = ground arith

instance abbrev pub SourceState_eq : Equality SourceState
SourceState_eq = record { test = state_beq; test_iff = state_beq_iff }
