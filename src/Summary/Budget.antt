-- ===== src/Summary/Budget.antt =====
-- `budget_characters` of chronicler/core/processing/summarizer.py against the context window.
use chronicler.Base.{ℕ, ◌+◌, ◌/◌, ◌≤◌, ◌⊎◌, inl, inr, List, length, All, All-mono, In, arith}
use chronicler.Text.{Text}
use chronicler.Models.{TranscriptLine}
use chronicler.Summary.{SummarySettings, turns, chunk_transcript, budget_characters, reserved}
use chronicler.Summary.Chunks.{chunk_transcript-lossless}

-- Four characters count as a token: the prompt, the chunk, the answer and a margin of 256
abbrev pub tokens : SummarySettings → Text → ℕ
tokens s chunk = length s.chunk_prompt / 4 + length chunk / 4 + s.chunk_token_budget + 256

-- In a context window that holds what is reserved and 256 tokens more, each chunk that is cut for it
-- fits with the prompt, the answer and the margin, unless it is a single turn.
pub budget-fits :
    (s : SummarySettings) (context_window : ℕ) (lines : List TranscriptLine)
    → reserved s + 256 ≤ context_window
    → All
        (λ c. (tokens s c ≤ context_window) ⊎ In c (turns lines))
        (chunk_transcript lines (budget_characters s context_window))
unfolding budget_characters reserved
budget-fits s context_window lines room =
    All-mono _ _ _
      (λ c fits. elim fits [ inl short ↦ inl (omega (arith, short, room)) | inr one ↦ inr one ])
      (chunk_transcript-lossless lines (budget_characters s context_window)).1
