-- ===== src/Tests/LossMasked.antt =====
-- The loss mask with a stand-in for the tokenizer that gives code points.
use tiny_qwen_coder.Prelude.{
  ℕ, ◌≡◌, refl, Bool, true, false, List, [], ◌∷◌, ◌++◌, map, if◌then◌else◌,
}
use tiny_qwen_coder.Prelude.Eq.{list_beq}
use tiny_qwen_coder.Prelude.Int.{ℤ, pos, negsuc}
use tiny_qwen_coder.Prelude.Result.{Result, ok}
use tiny_qwen_coder.Data.Records.{user, assistant}
use tiny_qwen_coder.LossMasking.{
  LossMaskingError, LossMaskSpan, ChatMessage, TokenizedLossExample, loss_spans, labels,
  completion_only, completion_only_fallback,
}
use tiny_qwen_coder.LossMasking.Spans.{Separated, span_count, masked, loss_spans-runs}
use tiny_qwen_coder.LossMasking.Completion.{Trained, completion_only_fallback-Trained}

-- Each message with a mark before it, and a mark for the assistant at the end.
abbrev pub sample_tokens : List ChatMessage → Bool → List ℤ
sample_tokens [] add = if add then pos 0 ∷ [] else []
sample_tokens (m ∷ messages) add = pos 0 ∷ (map pos m.content ++ sample_tokens messages add)

abbrev tokenize : List ChatMessage → Bool → Result LossMaskingError (List ℤ)
tokenize messages add = ok (sample_tokens messages add)

abbrev pub chat : List ChatMessage
chat =
    record { role = user; content = 7 ∷ [] }
    ∷ record { role = assistant; content = 8 ∷ 9 ∷ [] }
    ∷ []

abbrev masked_chat : TokenizedLossExample
masked_chat = record {
  input_ids = map pos (0 ∷ 7 ∷ 0 ∷ 8 ∷ 9 ∷ []);
  loss_mask = false ∷ false ∷ false ∷ true ∷ true ∷ [];
  strategy = completion_only;
}

chat-masked : completion_only_fallback tokenize chat ≡ ok masked_chat
unfolding completion_only_fallback list_beq
chat-masked = refl

chat-labels : labels masked_chat ≡ negsuc 99 ∷ negsuc 99 ∷ negsuc 99 ∷ pos 8 ∷ pos 9 ∷ []
unfolding labels
chat-labels = refl

two_runs :
    loss_spans (true ∷ true ∷ false ∷ true ∷ [])
    ≡ ok (record { start = 0; end = 2 } ∷ record { start = 3; end = 4 } ∷ [])
unfolding loss_spans
two_runs = refl

completion_only_fallback-Trained_example : Trained tokenize chat masked_chat
completion_only_fallback-Trained_example =
    completion_only_fallback-Trained tokenize chat masked_chat chat-masked

loss_spans-runs_example :
    (spans : List LossMaskSpan) × ((loss_spans (true ∷ true ∷ false ∷ true ∷ []) ≡ ok spans)
      × (Separated 0 spans
          × ((i : ℕ)
              → span_count i spans
                ≡ (if masked (true ∷ true ∷ false ∷ true ∷ []) i then 1 else 0))))
loss_spans-runs_example = loss_spans-runs (true ∷ true ∷ false ∷ true ∷ [])
