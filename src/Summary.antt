-- ===== src/Summary.antt =====
-- chronicler/core/processing/summarizer.py: the transcript in chunks of whole turns, one request for
-- each chunk and one for the recap. The language model is a parameter: the n-th request of a run is
-- answered or fails.
pub mod Chunks
pub mod Budget
pub mod Requests
mod Examples
use chronicler.Base.{
  ℕ, zero, suc, ◌+◌, ◌-◌, ◌*◌, ◌/◌, max, Bool, true, false, not, ◌&&◌, Option, none, some, List, [],
  ◌∷◌, ◌++◌, length, ltb, if◌then◌else◌, ◌==◌, ℕ_eq,
}
use chronicler.Text.{Text, codes, strip, join}
use chronicler.Models.{TranscriptLine}

abbrev pub characters_per_token : ℕ
characters_per_token = 4

pub record SummarySettings : Type 0 where
  pub system_prompt : Text
  pub chunk_prompt : Text
  pub recap_prompt : Text
  pub chunk_token_budget : ℕ

pub record Completion : Type 0 where
  pub text : Text
  pub model : Text
  pub prompt_tokens : Option ℕ
  pub completion_tokens : Option ℕ

pub record Request : Type 0 where
  pub prompt : Text
  pub system : Text
  pub model : Option Text

pub record SummaryDraft : Type 0 where
  pub content : Text
  pub chunk_count : ℕ
  pub model : Text
  pub prompt_tokens : ℕ
  pub completion_tokens : ℕ
  pub chunk_summaries : List Text

abbrev pub nl : Text
nl = 10 ∷ []

abbrev pub is_empty {ℓ} : {A : Type ℓ} → List A → Bool
is_empty [] = true
is_empty (x ∷ xs) = false

abbrev pub name_of : Option Text → Text
name_of none = codes "Unknown"
name_of (some []) = codes "Unknown"
name_of (some (c ∷ cs)) = c ∷ cs

abbrev pub turn : TranscriptLine → Text
turn l = name_of l.speaker_name ++ (codes ": " ++ strip l.text)

unfoldable pub turns : List TranscriptLine → List Text
turns [] = []
turns (l ∷ ls) = if is_empty (strip l.text) then turns ls else turn l ∷ turns ls

unfoldable pub transcript_text : List TranscriptLine → Text
unfolding turns
transcript_text lines = join nl (turns lines)

-- `size` is what `length` is to become.
unfoldable pub is_full : ℕ → List Text → ℕ → Bool
is_full limit current size = not (is_empty current) && ltb limit size

-- The loop of `chunk_transcript`, with its `current` and `length`.
unfoldable pub chunk_from : ℕ → List Text → ℕ → List TranscriptLine → List Text
unfolding is_full
chunk_from limit current size [] = if is_empty current then [] else join nl current ∷ []
chunk_from limit current size (l ∷ ls) =
    let cost = length (turn l) + 1 in
    let skipped = chunk_from limit current size ls in
    let closed = chunk_from limit (turn l ∷ []) cost ls in
    let extended = chunk_from limit (current ++ (turn l ∷ [])) (size + cost) ls in
    if is_empty (strip l.text)
    then skipped
    else if is_full limit current (size + cost)
    then join nl current ∷ closed
    else extended

unfoldable pub chunk_transcript : List TranscriptLine → ℕ → List Text
unfolding chunk_from
chunk_transcript lines max_characters = chunk_from max_characters [] 0 lines

unfoldable pub reserved : SummarySettings → ℕ
reserved s = s.chunk_token_budget + length s.chunk_prompt / characters_per_token + 256

unfoldable pub budget_characters : SummarySettings → ℕ → ℕ
unfolding reserved
budget_characters s context_window = max (context_window - reserved s) 256 * characters_per_token

abbrev pub or_zero : Option ℕ → ℕ
or_zero none = 0
or_zero (some n) = n

abbrev pub or_text : Text → Text → Text
or_text [] u = u
or_text (c ∷ cs) u = c ∷ cs

-- `extracted`, the token counts and `used_model` of the loop
pub record Progress : Type 0 where
  pub extracted : List Text
  pub prompt_tokens : ℕ
  pub completion_tokens : ℕ
  pub used_model : Text

abbrev pub extracted_from : Progress → Completion → Progress
extracted_from p c = record {
  extracted = p.extracted ++ (c.text ∷ []);
  prompt_tokens = p.prompt_tokens + or_zero c.prompt_tokens;
  completion_tokens = p.completion_tokens + or_zero c.completion_tokens;
  used_model = c.model;
}

module _ (client : ℕ → Request → Option Completion) (system : Text) (model : Option Text) where
  abbrev pub request : Text → Text → Request
  request instruction body = record {
    prompt = instruction ++ (nl ++ (nl ++ body));
    system = system;
    model = model;
  }

  -- The loop over the chunks from the n-th request on: the requests it makes, and how it ends.
  unfoldable pub extract :
      SummarySettings → ℕ → Progress → List Text → List Request × Option Progress
  extract s n p [] = ([], some p)
  extract s n p (chunk ∷ chunks) =
      let r = request s.chunk_prompt chunk in
      elim (client n r) [
        | none ↦ (r ∷ [], none)
        | some c ↦ let rest = extract s (suc n) (extracted_from p c) chunks in (r ∷ rest.0, rest.1)
      ]

  unfoldable pub single : SummarySettings → Text → List Request × Option SummaryDraft
  single s chunk =
      let r = request s.recap_prompt chunk in
      (
        r ∷ [],
        elim (client 0 r) [
          | none ↦ none
          | some c ↦ some (record {
            content = c.text;
            chunk_count = 1;
            model = c.model;
            prompt_tokens = or_zero c.prompt_tokens;
            completion_tokens = or_zero c.completion_tokens;
            chunk_summaries = [];
          })
        ],
      )

  unfoldable pub recap : SummarySettings → ℕ → Progress → List Request × Option SummaryDraft
  recap s count p =
      let r = request s.recap_prompt (join nl p.extracted) in
      (
        r ∷ [],
        elim (client count r) [
          | none ↦ none
          | some c ↦ some (record {
            content = c.text;
            chunk_count = count;
            model = or_text c.model p.used_model;
            prompt_tokens = p.prompt_tokens + or_zero c.prompt_tokens;
            completion_tokens = p.completion_tokens + or_zero c.completion_tokens;
            chunk_summaries = p.extracted;
          })
        ],
      )

  abbrev pub first_model : Text
  first_model = elim model [ none ↦ codes "unknown" | some m ↦ or_text m (codes "unknown") ]

  abbrev pub nothing_yet : Progress
  nothing_yet = record {
    extracted = [];
    prompt_tokens = 0;
    completion_tokens = 0;
    used_model = first_model;
  }

  unfoldable pub finish :
      SummarySettings → ℕ → List Request × Option Progress → List Request × Option SummaryDraft
  unfolding recap
  finish s count (asked, none) = (asked, none)
  finish s count (asked, some p) = let last = recap s count p in (asked ++ last.0, last.1)

  unfoldable pub several : SummarySettings → List Text → List Request × Option SummaryDraft
  unfolding extract finish
  several s chunks = finish s (length chunks) (extract s 0 nothing_yet chunks)

  unfoldable pub summarize_chunks : SummarySettings → List Text → List Request × Option SummaryDraft
  unfolding single several
  summarize_chunks s [] = several s []
  summarize_chunks s (chunk ∷ []) = single s chunk
  summarize_chunks s (chunk ∷ other ∷ chunks) = several s (chunk ∷ other ∷ chunks)

abbrev pub system_of : SummarySettings → Option Text → Text
system_of s none = s.system_prompt
system_of s (some []) = s.system_prompt
system_of s (some (c ∷ cs)) =
    s.system_prompt ++ (nl ++ (nl ++ (codes "Write your answer in " ++ ((c ∷ cs) ++ codes "."))))

-- `none` is the exception: of an empty transcript, or of the client.
unfoldable pub summarize_transcript :
    (ℕ → Request → Option Completion)
    → List TranscriptLine
    → SummarySettings
    → ℕ
    → Option Text
    → Option Text
    → List Request × Option SummaryDraft
unfolding summarize_chunks chunk_transcript budget_characters
summarize_transcript client [] s context_window model language = ([], none)
summarize_transcript client (l ∷ ls) s context_window model language =
    summarize_chunks client (system_of s language) model s
      (chunk_transcript (l ∷ ls) (budget_characters s context_window))
