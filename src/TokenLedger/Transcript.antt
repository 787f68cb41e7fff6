-- ===== src/TokenLedger/Transcript.antt =====
-- The current prompt as the concatenation of everything that was appended and put out.
use tiny_qwen_coder.Prelude.{
  ℕ, suc, ◌≡◌, not, List, [], ◌∷◌, ◌++◌, last?, some, arith, append_assoc, append-nil,
}
use tiny_qwen_coder.Prelude.Eq.{◌==◌, eq_of_==, nat_eq, list_eq}
use tiny_qwen_coder.Prelude.Int.{ℤ, pos, int_eq}
use tiny_qwen_coder.Prelude.Result.{ok, raise_if, >>-ok, raise_if-ok}
use tiny_qwen_coder.TokenLedger.{
  PromptTokenRecord, AssistantOutputRecord, is_initial, bad_prompt_index, later_initial_source,
}
use tiny_qwen_coder.TokenLedger.Session.{Ledger, ledger_state, expected_state}
use tiny_qwen_coder.TokenLedger.Chain.{
  check_first_prompt, check_next_prompt, check_prompts, check_chain,
}
use tiny_qwen_coder.TokenLedger.Extended.{chain→Parts}
use tiny_qwen_coder.TokenLedger.Preserved.{Reachable, Reachable→IsConsistent}

-- An output and the delta after it, turn by turn.
unfoldable pub turns : List PromptTokenRecord → List AssistantOutputRecord → List ℤ
turns [] outputs = []
turns (p ∷ prompts) [] = []
turns (p ∷ prompts) (o ∷ outputs) = o.output_ids ++ (p.appended_ids ++ turns prompts outputs)

unfoldable pub transcript : List PromptTokenRecord → List AssistantOutputRecord → List ℤ
unfolding turns
transcript [] outputs = []
transcript (p ∷ prompts) outputs = p.appended_ids ++ turns prompts outputs

pub next_prompt-ids :
    (i : ℕ) (q p : PromptTokenRecord) (o : AssistantOutputRecord)
    → check_next_prompt i q o p ≡ ok tt
    → p.prompt_ids ≡ (q.prompt_ids ++ o.output_ids) ++ p.appended_ids
unfolding check_next_prompt
next_prompt-ids i q p o h =
    let a = >>-ok (raise_if (not (p.turn_index == pos i)) bad_prompt_index) _ _ h in
    let b = >>-ok (raise_if (is_initial p.source) later_initial_source) _ _ a.1 in
    let test = raise_if-ok _ _ b.1 in
    eq_of_== p.prompt_ids ((q.prompt_ids ++ o.output_ids) ++ p.appended_ids) (ground arith)

pub first_prompt-ids :
    (p : PromptTokenRecord) → check_first_prompt p ≡ ok tt → p.prompt_ids ≡ p.appended_ids
unfolding check_first_prompt
first_prompt-ids p h =
    let a = >>-ok (raise_if (not (p.turn_index == pos 0)) bad_prompt_index) _ _ h in
    let test = raise_if-ok _ _ a.1 in eq_of_== p.prompt_ids p.appended_ids (ground arith)

prompts-turns :
    (i : ℕ) (q : PromptTokenRecord) (ps : List PromptTokenRecord) (os : List AssistantOutputRecord)
    (a : PromptTokenRecord)
    → check_prompts i q ps os ≡ ok tt
    → last? (q ∷ ps) ≡ some a
    → a.prompt_ids ≡ q.prompt_ids ++ turns ps os
unfolding check_prompts turns
prompts-turns i q [] os a h e = rw (append-nil q.prompt_ids) (ground arith)
prompts-turns i q (p ∷ ps) [] a h e = ground arith
prompts-turns i q (p ∷ ps) (o ∷ os) a h e =
    let s = >>-ok (check_next_prompt i q o p) (check_prompts (suc i) p ps os) tt h in
    let rest = prompts-turns (suc i) p ps os a s.1 e in
    let here = next_prompt-ids i q p o s.0 in
    ground (
      arith,
      rest,
      here,
      append_assoc (q.prompt_ids ++ o.output_ids) p.appended_ids (turns ps os),
      append_assoc q.prompt_ids o.output_ids (p.appended_ids ++ turns ps os),
    )

chain-transcript :
    (ps : List PromptTokenRecord) (os : List AssistantOutputRecord) (a : PromptTokenRecord)
    → check_chain ps os (expected_state ps os) ≡ ok tt
    → last? ps ≡ some a
    → a.prompt_ids ≡ transcript ps os
unfolding transcript
chain-transcript [] os a h e = ground arith
chain-transcript (p ∷ ps) os a h e =
    let parts = chain→Parts p ps os h in
    ground (arith, prompts-turns 1 p ps os a parts.later e, first_prompt-ids p parts.first)

-- In every ledger that the constructor and the operations gave, the current prompt is the initial
-- prompt followed, turn by turn, by the recorded output and the delta appended after it.
pub current_prompt-transcript :
    (l : Ledger) (current : PromptTokenRecord)
    → Reachable l
    → last? l.prompts ≡ some current
    → current.prompt_ids ≡ transcript l.prompts l.outputs
unfolding ledger_state
current_prompt-transcript l current r e =
    chain-transcript l.prompts l.outputs current (Reachable→IsConsistent l r).chain e
