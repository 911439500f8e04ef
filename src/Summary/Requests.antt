-- ===== src/Summary/Requests.antt =====
-- `summarize_transcript` of chronicler/core/processing/summarizer.py: which requests it makes, and
-- what it makes of the answers.
use mathlib.Core.List.{append-nil, append_assoc}
use chronicler.Base.{
  ℕ, suc, ◌+◌, ◌≡◌, ◌≢◌, refl, sym, ap, ◌∙◌, ◌⊎◌, inl, inr, Bool-cases, Option, none, some, List,
  [], ◌∷◌, ◌++◌, map, length, arith,
}
use chronicler.Text.{Text, join, strip}
use chronicler.Models.{TranscriptLine}
use chronicler.Summary.{
  nl, turns, SummarySettings, Completion, Request, SummaryDraft, Progress, request, extract,
  extracted_from, recap, several, single, summarize_chunks, summarize_transcript, chunk_transcript,
  budget_characters, or_zero, nothing_yet, finish, system_of, chunk_from, is_empty, turn,
}

module _ (reply : ℕ → Request → Completion) (system : Text) (model : Option Text) where
  -- A client that answers each request
  abbrev pub answering : ℕ → Request → Option Completion
  answering n r = some (reply n r)

  abbrev ask : Text → Text → Request
  ask instruction body = request answering system model instruction body

  -- The answers to a chunk each, from the n-th request on
  abbrev pub answers : SummarySettings → ℕ → List Text → List Completion
  answers s n [] = []
  answers s n (chunk ∷ chunks) = reply n (ask s.chunk_prompt chunk) ∷ answers s (suc n) chunks

  abbrev pub sum_of : (Completion → Option ℕ) → List Completion → ℕ
  sum_of count [] = 0
  sum_of count (c ∷ cs) = or_zero (count c) + sum_of count cs

  abbrev pub text_of : Completion → Text
  text_of c = c.text

  abbrev Extracted :
      SummarySettings → ℕ → Progress → List Text → List Request × Option Progress → Type 0
  Extracted s n p chunks r =
      (r.0 ≡ map (ask s.chunk_prompt) chunks)
      × ((q : Progress) × (r.1 ≡ some q)
          × (q.extracted ≡ p.extracted ++ map text_of (answers s n chunks))
          × (q.prompt_tokens ≡ p.prompt_tokens + sum_of (λ c. c.prompt_tokens) (answers s n chunks))
          × (q.completion_tokens
              ≡ p.completion_tokens + sum_of (λ c. c.completion_tokens) (answers s n chunks)))

  extract-Extracted :
      (s : SummarySettings) (n : ℕ) (p : Progress) (chunks : List Text)
      → Extracted s n p chunks (extract answering system model s n p chunks)
  unfolding extract
  extract-Extracted s n p [] =
      (refl, (p, refl, sym (append-nil p.extracted), omega arith, omega arith))
  extract-Extracted s n p (chunk ∷ chunks) =
      let c = reply n (ask s.chunk_prompt chunk) in
      let (asked, (q, done, texts, prompts, completions)) =
        extract-Extracted s (suc n) (extracted_from p c) chunks in
      (
        ap (λ (rs : List Request). ask s.chunk_prompt chunk ∷ rs) asked,
        (
          q,
          done,
          texts ∙ append_assoc p.extracted (c.text ∷ []) _,
          omega (arith, prompts),
          omega (arith, completions),
        ),
      )

  -- How a transcript of several chunks ends: a request for each chunk in order, and one more for the
  -- recap of all the answers.
  abbrev pub Recapped : SummarySettings → List Text → List Request × Option SummaryDraft → Type 0
  Recapped s chunks r =
      let replies = answers s 0 chunks in
      let last = ask s.recap_prompt (join nl (map text_of replies)) in
      let final = reply (length chunks) last in
      (r.0 ≡ map (ask s.chunk_prompt) chunks ++ (last ∷ []))
      × ((d : SummaryDraft) × (r.1 ≡ some d)
          × (d.content ≡ final.text)
          × (d.chunk_count ≡ length chunks)
          × (d.chunk_summaries ≡ map text_of replies)
          × (d.prompt_tokens ≡ sum_of (λ c. c.prompt_tokens) replies + or_zero final.prompt_tokens)
          × (d.completion_tokens
              ≡ sum_of (λ c. c.completion_tokens) replies + or_zero final.completion_tokens))

  finish-Recapped :
      (s : SummarySettings) (chunks : List Text) (r : List Request × Option Progress)
      → Extracted s 0 (nothing_yet answering system model) chunks r
      → Recapped s chunks (finish answering system model s (length chunks) r)
  unfolding finish recap
  finish-Recapped s chunks (asked, none) (same, (q, done, _, _, _)) = ground (arith, done)
  finish-Recapped s chunks (asked, some p) (same, (q, done, texts, prompts, completions)) =
      let is_q : p ≡ q = ground (arith, done) in
      rw same (
        rw is_q (
          rw texts (
            rw prompts
              (rw completions (refl, (_, refl, refl, refl, refl, omega arith, omega arith))))))

  several-Recapped :
      (s : SummarySettings) (chunks : List Text)
      → Recapped s chunks (several answering system model s chunks)
  unfolding several
  several-Recapped s chunks =
      finish-Recapped s chunks _ (extract-Extracted s 0 (nothing_yet answering system model) chunks)

  -- One chunk: the only request is the recap of it.
  abbrev pub Direct : SummarySettings → List Text → List Request × Option SummaryDraft → Type 0
  Direct s chunks r =
      (chunk : Text) × (chunks ≡ chunk ∷ [])
      × (r.0 ≡ ask s.recap_prompt chunk ∷ [])
      × ((d : SummaryDraft) × (r.1 ≡ some d)
          × (d.content ≡ (reply 0 (ask s.recap_prompt chunk)).text)
          × (d.chunk_count ≡ 1))

  summarize_chunks-cases :
      (s : SummarySettings) (chunks : List Text)
      → Direct s chunks (summarize_chunks answering system model s chunks)
        ⊎ ((length chunks ≢ 1)
            × Recapped s chunks (summarize_chunks answering system model s chunks))
  unfolding summarize_chunks single
  summarize_chunks-cases s [] = inr (λ e. ground (arith, e), several-Recapped s [])
  summarize_chunks-cases s (chunk ∷ []) = inl (chunk, refl, refl, (_, refl, refl, refl))
  summarize_chunks-cases s (chunk ∷ other ∷ chunks) =
      inr (λ e. ground (arith, e), several-Recapped s (chunk ∷ other ∷ chunks))

module _ (reply : ℕ → Request → Completion) (model : Option Text) where
  -- With a model that answers every request, the summary of a transcript with lines is drafted. One
  -- chunk is summarised by one request. Otherwise each chunk has its own request, in the order of the
  -- transcript, one last request asks for the recap of all the answers, and the draft holds the last
  -- answer, the answers to the chunks, their number, and the tokens that all the answers count.
  pub summarize_transcript-cases :
      (lines : List TranscriptLine) (s : SummarySettings) (context_window : ℕ)
      (language : Option Text)
      → lines ≢ []
      → Direct reply
          (system_of s language)
          model
          s
          (chunk_transcript lines (budget_characters s context_window))
          (summarize_transcript
            (answering reply (system_of s language) model)
            lines
            s
            context_window
            model
            language)
        ⊎ ((length (chunk_transcript lines (budget_characters s context_window)) ≢ 1)
            × Recapped reply
                (system_of s language)
                model
                s
                (chunk_transcript lines (budget_characters s context_window))
                (summarize_transcript
                  (answering reply (system_of s language) model)
                  lines
                  s
                  context_window
                  model
                  language))
  unfolding summarize_transcript
  summarize_transcript-cases [] s context_window language h = absurd (h refl)
  summarize_transcript-cases (l ∷ ls) s context_window language h =
      summarize_chunks-cases reply (system_of s language) model s
        (chunk_transcript (l ∷ ls) (budget_characters s context_window))

  no_turns :
      (limit size : ℕ) (ls : List TranscriptLine) → turns ls ≡ [] → chunk_from limit [] size ls ≡ []
  unfolding chunk_from turns
  no_turns limit size [] h = refl
  no_turns limit size (l ∷ ls) h = elim (Bool-cases (is_empty (strip l.text))) [
    | inl e ↦ rw e (no_turns limit size ls (rw e at h))
    | inr e ↦ let bad : turn l ∷ turns ls ≡ [] = rw e at h in ground (arith, bad)
  ]

  -- A transcript that has lines, all of them blank, is summarised all the same: the one request asks
  -- for the recap of an empty text.
  pub summarize_transcript_blank :
      (lines : List TranscriptLine) (s : SummarySettings) (context_window : ℕ)
      (language : Option Text)
      → lines ≢ []
      → turns lines ≡ []
      → (summarize_transcript
          (answering reply (system_of s language) model)
          lines
          s
          context_window
          model
          language).0
        ≡ request
            (answering reply (system_of s language) model)
            (system_of s language)
            model
            s.recap_prompt
            []
          ∷ []
  unfolding summarize_transcript chunk_transcript summarize_chunks several finish recap extract join
  summarize_transcript_blank [] s context_window language h blank = absurd (h refl)
  summarize_transcript_blank (l ∷ ls) s context_window language h blank =
      rw (no_turns (budget_characters s context_window) 0 (l ∷ ls) blank) refl
