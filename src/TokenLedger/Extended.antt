-- ===== src/TokenLedger/Extended.antt =====
-- The check of the records after one more output or one more prompt.
use tiny_qwen_coder.Prelude.{
  ◌||◌, false, ◌∙◌, ap, ◌⊎◌, inl, inr, ℕ, suc, ◌+◌, ◌≡◌, refl, true, not, List, [], ◌∷◌, ◌++◌,
  length, last?, some, length-append, arith, subst,
}
use tiny_qwen_coder.Prelude.Eq.{◌==◌, nat_eq, list_eq}
use tiny_qwen_coder.Prelude.Int.{pos, int_eq, int_beq_iff}
use tiny_qwen_coder.Prelude.Result.{ok, raise_if, >>-ok, raise_if-ok}
use tiny_qwen_coder.TokenLedger.{
  awaiting_output, awaiting_prompt_append, state_beq, PromptTokenRecord, AssistantOutputRecord,
  bad_output_index,
}
use tiny_qwen_coder.TokenLedger.Session.{expected_state}
use tiny_qwen_coder.TokenLedger.Chain.{
  check_first_prompt, check_next_prompt, check_prompts, check_outputs, check_chain,
}

check_prompts-output :
    (i : ℕ) (q : PromptTokenRecord) (ps : List PromptTokenRecord) (os : List AssistantOutputRecord)
    (o : AssistantOutputRecord)
    → length os ≡ length ps
    → check_prompts i q ps (os ++ (o ∷ [])) ≡ check_prompts i q ps os
unfolding check_prompts
check_prompts-output i q [] os o e = refl
check_prompts-output i q (p ∷ ps) [] o e = ground arith
check_prompts-output i q (p ∷ ps) (b ∷ os) o e =
    rw (check_prompts-output (suc i) p ps os o (omega (arith, e)))

check_prompts-prompt :
    (i : ℕ) (q : PromptTokenRecord) (ps : List PromptTokenRecord) (os : List AssistantOutputRecord)
    (a p : PromptTokenRecord) (b : AssistantOutputRecord)
    → length os ≡ suc (length ps)
    → last? (q ∷ ps) ≡ some a
    → last? os ≡ some b
    → check_prompts i q ps os ≡ ok tt
    → check_next_prompt (i + length ps) a b p ≡ ok tt
    → check_prompts i q (ps ++ (p ∷ [])) os ≡ ok tt
unfolding check_prompts
check_prompts-prompt i q [] (o ∷ []) a p b n ea eb h k = ground arith
check_prompts-prompt i q (r ∷ ps) (o ∷ c ∷ os) a p b n ea eb h k =
    let split = >>-ok (check_next_prompt i q o r) (check_prompts (suc i) r ps (c ∷ os)) tt h in
    ground (
      arith,
      split,
      check_prompts-prompt (suc i) r ps (c ∷ os) a p b (omega (arith, n)) ea eb split.1
          (subst (λ j. check_next_prompt j a b p ≡ ok tt) (omega arith) k),
    )
check_prompts-prompt i q [] [] a p b n ea eb h k = ground arith
check_prompts-prompt i q [] (o ∷ c ∷ os) a p b n ea eb h k = absurd (omega (arith, n))
check_prompts-prompt i q (r ∷ ps) [] a p b n ea eb h k = ground arith
check_prompts-prompt i q (r ∷ ps) (o ∷ []) a p b n ea eb h k = absurd (omega (arith, n))

check_outputs-output :
    (i : ℕ) (os : List AssistantOutputRecord) (o : AssistantOutputRecord)
    → o.turn_index ≡ pos (i + length os)
    → check_outputs i os ≡ ok tt
    → check_outputs i (os ++ (o ∷ [])) ≡ ok tt
unfolding check_outputs
check_outputs-output i [] o e h = ground (arith, int_beq_iff o.turn_index (pos i))
check_outputs-output i (b ∷ os) o e h =
    let split =
      >>-ok (raise_if (not (b.turn_index == pos i)) bad_output_index) (check_outputs (suc i) os) tt
        h in
    ground (arith, split, check_outputs-output (suc i) os o (ground arith) split.1)

-- The parts of the check.
pub record Parts (p : PromptTokenRecord) (ps : List PromptTokenRecord)
    (os : List AssistantOutputRecord) : Type 0 where
  pub counts : (length os ≡ length ps) ⊎ (length os ≡ suc (length ps))
  pub first : check_first_prompt p ≡ ok tt
  pub later : check_prompts 1 p ps os ≡ ok tt
  pub output : check_outputs 0 os ≡ ok tt

counts-cases : (a b : ℕ) → not (a == b || a == suc b) ≡ false → (a ≡ b) ⊎ (a ≡ suc b)
counts-cases a b h = ground arith

pub chain→Parts :
    (p : PromptTokenRecord) (ps : List PromptTokenRecord) (os : List AssistantOutputRecord)
    → check_chain (p ∷ ps) os (expected_state (p ∷ ps) os) ≡ ok tt
    → Parts p ps os
unfolding check_chain state_beq
chain→Parts p ps os h =
    let a = >>-ok _ _ _ h in
    let b = >>-ok _ _ _ a.1 in
    let c = >>-ok _ _ _ b.1 in
    let d = >>-ok _ _ _ c.1 in
    record {
      counts = counts-cases (length os) (length ps) (raise_if-ok _ _ a.0);
      first = b.0;
      later = c.0;
      output = d.0;
    }

Parts→chain :
    (p : PromptTokenRecord) (ps : List PromptTokenRecord) (os : List AssistantOutputRecord)
    → Parts p ps os
    → check_chain (p ∷ ps) os (expected_state (p ∷ ps) os) ≡ ok tt
unfolding check_chain state_beq
Parts→chain p ps os h = ground (arith, h.counts, h.first, h.later, h.output)

pub chain-output :
    (ps : List PromptTokenRecord) (os : List AssistantOutputRecord) (o : AssistantOutputRecord)
    → check_chain ps os (expected_state ps os) ≡ ok tt
    → state_beq (expected_state ps os) awaiting_output ≡ true
    → o.turn_index ≡ pos (length os)
    → check_chain ps (os ++ (o ∷ [])) (expected_state ps (os ++ (o ∷ []))) ≡ ok tt
unfolding state_beq check_chain
chain-output [] os o h e i = ground arith
chain-output (p ∷ ps) os o h e i =
    let parts = chain→Parts p ps os h in
    let even : length os ≡ length ps = ground (arith, parts.counts) in
    Parts→chain p ps (os ++ (o ∷ [])) (record {
      counts = inr (omega (arith, length-append os (o ∷ []), even));
      first = parts.first;
      later = check_prompts-output 1 p ps os o even ∙ parts.later;
      output = check_outputs-output 0 os o (i ∙ ap pos (omega arith)) parts.output;
    })

pub chain-prompt :
    (ps : List PromptTokenRecord) (os : List AssistantOutputRecord) (a q : PromptTokenRecord)
    (b : AssistantOutputRecord)
    → check_chain ps os (expected_state ps os) ≡ ok tt
    → state_beq (expected_state ps os) awaiting_prompt_append ≡ true
    → last? ps ≡ some a
    → last? os ≡ some b
    → check_next_prompt (length ps) a b q ≡ ok tt
    → check_chain (ps ++ (q ∷ [])) os (expected_state (ps ++ (q ∷ [])) os) ≡ ok tt
unfolding state_beq check_chain
chain-prompt [] os a q b h e ea eb k = ground arith
chain-prompt (p ∷ ps) os a q b h e ea eb k =
    let parts = chain→Parts p ps os h in
    let even : length os ≡ suc (length ps) = ground (arith, parts.counts) in
    Parts→chain p (ps ++ (q ∷ [])) os (record {
      counts = inl (omega (arith, length-append ps (q ∷ []), even));
      first = parts.first;
      later =
          check_prompts-prompt 1 p ps os a q b even ea eb parts.later
            (subst (λ j. check_next_prompt j a b q ≡ ok tt) (omega arith) k);
      output = parts.output;
    })
