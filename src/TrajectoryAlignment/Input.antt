-- ===== src/TrajectoryAlignment/Input.antt =====
-- The input of a completed ledger is its deltas and outputs in turn.
use tiny_qwen_coder.Prelude.{
  ℕ, suc, ◌≡◌, sym, ap, ◌∙◌, List, [], ◌∷◌, ◌++◌, length, last?, arith, append_assoc, append-nil,
}
use tiny_qwen_coder.Prelude.Result.{ok, >>-ok}
use tiny_qwen_coder.TokenLedger.{PromptTokenRecord, AssistantOutputRecord}
use tiny_qwen_coder.TokenLedger.Chain.{check_next_prompt, check_prompts}
use tiny_qwen_coder.TokenLedger.Transcript.{next_prompt-ids}
use tiny_qwen_coder.TrajectoryAlignment.Derived.{full_input}
use tiny_qwen_coder.TrajectoryAlignment.Described.{content}

-- The next turn continues the history of the one before.
pub content-next :
    (i : ℕ) (q p : PromptTokenRecord) (o b : AssistantOutputRecord) (ps : List PromptTokenRecord)
    (os : List AssistantOutputRecord)
    → check_next_prompt i q o p ≡ ok tt
    → (q.prompt_ids ++ o.output_ids) ++ content (p ∷ ps) (b ∷ os)
      ≡ (p.prompt_ids ++ b.output_ids) ++ content ps os
unfolding content
content-next i q p o b ps os h = rw (next_prompt-ids i q p o h) (
    sym (append_assoc (q.prompt_ids ++ o.output_ids) p.appended_ids (b.output_ids ++ content ps os))
    ∙ sym (
        append_assoc ((q.prompt_ids ++ o.output_ids) ++ p.appended_ids) b.output_ids
          (content ps os)))

pub full_input-content :
    (i : ℕ) (q : PromptTokenRecord) (o : AssistantOutputRecord) (ps : List PromptTokenRecord)
    (os : List AssistantOutputRecord)
    → check_prompts i q ps (o ∷ os) ≡ ok tt
    → length ps ≡ length os
    → full_input (last? (q ∷ ps)) (last? (o ∷ os))
      ≡ ok ((q.prompt_ids ++ o.output_ids) ++ content ps os)
unfolding full_input check_prompts content
full_input-content i q o [] [] h e =
    ap (λ t. ok t) (sym (append-nil (q.prompt_ids ++ o.output_ids)))
full_input-content i q o [] (b ∷ os) h e = absurd (omega (arith, e))
full_input-content i q o (p ∷ ps) [] h e = absurd (omega (arith, e))
full_input-content i q o (p ∷ ps) (b ∷ os) h e =
    let s = >>-ok (check_next_prompt i q o p) (check_prompts (suc i) p ps (b ∷ os)) tt h in
    full_input-content (suc i) p b ps os s.1 (omega (arith, e))
    ∙ ap (λ t. ok t) (sym (content-next i q p o b ps os s.0))
