-- ===== src/Summary/Examples.antt =====
-- The summary theorems at a conversation of two turns.
use chronicler.Base.{ℕ, ◌≡◌, ◌≢◌, ◌≤◌, ◌⊎◌, refl, some, none, List, [], ◌∷◌, All, In, length, arith}
use chronicler.Text.{Text, codes, join}
use chronicler.Models.{TranscriptLine}
use chronicler.Summary.{
  nl, turns, transcript_text, chunk_transcript, budget_characters, SummarySettings, Completion,
  Request, reserved, summarize_transcript, system_of, request,
}
use chronicler.Summary.Chunks.{Fits, chunk_transcript-lossless}
use chronicler.Summary.Budget.{tokens, budget-fits}
use chronicler.Summary.Requests.{
  answering, Direct, Recapped, summarize_transcript-cases, summarize_transcript_blank,
}

abbrev said : Text → TranscriptLine
said text = record {
  id = 1;
  speaker_id = none;
  speaker_name = some (codes "Ada");
  source_id = none;
  synthetic_timing = none;
  chronicle_id = some 9;
  start_time = 0;
  end_time = 1000;
  text = text;
}

abbrev conversation : List TranscriptLine
conversation = said (codes "Good morning") ∷ said (codes "  ") ∷ said (codes "Good evening ") ∷ []

abbrev silence : List TranscriptLine
silence = said (codes " ") ∷ []

abbrev prompts : SummarySettings
prompts = record {
  system_prompt = codes "Be brief.";
  chunk_prompt = codes "Extract:";
  recap_prompt = codes "Recap:";
  chunk_token_budget = 1024;
}

abbrev echo : ℕ → Request → Completion
echo n r = record {
  text = r.prompt;
  model = codes "m";
  prompt_tokens = some 3;
  completion_tokens = none;
}

chunk_transcript-lossless_example :
    (join nl (chunk_transcript conversation 20) ≡ transcript_text conversation)
    × All (Fits 20 (turns conversation)) (chunk_transcript conversation 20)
chunk_transcript-lossless_example = chunk_transcript-lossless conversation 20

two_chunks :
    chunk_transcript conversation 20 ≡ codes "Ada: Good morning" ∷ codes "Ada: Good evening" ∷ []
unfolding chunk_transcript chronicler.Text.strip join
two_chunks = refl

budget-fits_example :
    All
      (λ c. (tokens prompts c ≤ 4096) ⊎ In c (turns conversation))
      (chunk_transcript conversation (budget_characters prompts 4096))
budget-fits_example = budget-fits prompts 4096 conversation (unfold reserved in omega arith)

conversation_ne : conversation ≢ []
conversation_ne e = ground (arith, e)

silence_ne : silence ≢ []
silence_ne e = ground (arith, e)

no_turns_in : turns silence ≡ []
unfolding turns chronicler.Text.strip
no_turns_in = refl

summarize_transcript-cases_example :
    Direct echo
      (system_of prompts none)
      none
      prompts
      (chunk_transcript conversation (budget_characters prompts 1280))
      (summarize_transcript
        (answering echo (system_of prompts none) none)
        conversation
        prompts
        1280
        none
        none)
    ⊎ ((length (chunk_transcript conversation (budget_characters prompts 1280)) ≢ 1)
        × Recapped echo
            (system_of prompts none)
            none
            prompts
            (chunk_transcript conversation (budget_characters prompts 1280))
            (summarize_transcript
              (answering echo (system_of prompts none) none)
              conversation
              prompts
              1280
              none
              none))
summarize_transcript-cases_example =
    summarize_transcript-cases echo none conversation prompts 1280 none conversation_ne

summarize_transcript_blank_example :
    (summarize_transcript
      (answering echo (system_of prompts none) none)
      silence
      prompts
      4096
      none
      none).0
    ≡ request
        (answering echo (system_of prompts none) none)
        (system_of prompts none)
        none
        prompts.recap_prompt
        []
      ∷ []
summarize_transcript_blank_example =
    summarize_transcript_blank echo none silence prompts 4096 none silence_ne no_turns_in
