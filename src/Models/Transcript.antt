-- ===== src/Models/Transcript.antt =====
-- `TranscriptLine` (chronicler/core/models.py).
use chronicler.Base.{ℕ, Bool, Option}
use chronicler.Text.{Text}

pub record TranscriptLine : Type 0 where
  pub id : ℕ
  pub speaker_id : Option ℕ
  pub speaker_name : Option Text
  pub source_id : Option ℕ
  pub synthetic_timing : Option Bool
  pub chronicle_id : Option ℕ
  pub start_time : ℕ
  pub end_time : ℕ
  pub text : Text
