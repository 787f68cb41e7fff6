-- ===== src/TrajectoryAlignment/Completed.antt =====
-- The alignment of a completed ledger.
use tiny_qwen_coder.Prelude.{
  ◌+◌, ◌<◌, ◌≡◌, refl, sym, subst, ap, ◌∙◌, true, false, List, [], ◌∷◌, ◌++◌, length, replicate,
  null, last?, All, arith, append_assoc, length-append,
}
use tiny_qwen_coder.Prelude.Eq.{==_refl, nat_eq, list_eq}
use tiny_qwen_coder.Prelude.Int.{ℤ, int_eq}
use tiny_qwen_coder.Prelude.Result.{ok, ok-value}
use tiny_qwen_coder.TextNormalization.{Text}
use tiny_qwen_coder.Json.{Json}
use tiny_qwen_coder.TokenLedger.{
  awaiting_prompt_append, state_beq, PromptTokenRecord, AssistantOutputRecord,
}
use tiny_qwen_coder.TokenLedger.Session.{Ledger, expected_state, ledger_state}
use tiny_qwen_coder.TokenLedger.Chain.{
  TokenLedgerSnapshot, check_first_prompt, check_chain, snapshot,
}
use tiny_qwen_coder.TokenLedger.Extended.{chain→Parts}
use tiny_qwen_coder.TokenLedger.Preserved.{
  ValidPrompt, ValidOutput, Reachable, Reachable→IsConsistent,
}
use tiny_qwen_coder.TokenLedger.Snapshots.{snapshot_of, snapshot-ok}
use tiny_qwen_coder.TokenLedger.Transcript.{first_prompt-ids}
use tiny_qwen_coder.TrajectoryAlignment.{is_sha256}
use tiny_qwen_coder.TrajectoryAlignment.Derived.{
  TrainingArrays, Derivation, no_turns, finish, full_input, derive_turns, derive_alignment,
}
use tiny_qwen_coder.TrajectoryAlignment.Described.{
  content, output_marks, output_tokens, selected-content,
}
use tiny_qwen_coder.TrajectoryAlignment.Turns.{Valid→TurnParts}
use tiny_qwen_coder.TrajectoryAlignment.Spans.{tokens-nonempty}
use tiny_qwen_coder.TrajectoryAlignment.Run.{
  AllSegments, described_turns, all_described_segments, finished, derive_turns-finished,
  replicate-add, length-replicate,
}
use tiny_qwen_coder.TrajectoryAlignment.Input.{full_input-content}

null-append {ℓ} : {A : Type ℓ} (xs ys : List A) → 0 < length xs → null (xs ++ ys) ≡ false
null-append [] ys h = absurd (omega (arith, h))
null-append (x ∷ xs) ys h = refl

empty_mask :
    (p o c : List ℤ)
    → replicate (length ((p ++ o) ++ c)) false
      ≡ replicate (length p) false ++ replicate (length o + length c) false
empty_mask p o c =
    rw
      (
        length-append (p ++ o) c,
        length-append p o,
        replicate-add false (length p) (length o + length c),
      )
      (ap (λ k. replicate k false) (omega arith))

pub lengths_agree :
    (ps : List PromptTokenRecord) (os : List AssistantOutputRecord)
    → state_beq (expected_state ps os) awaiting_prompt_append ≡ true
    → length ps ≡ length os
unfolding state_beq
lengths_agree ps os h = ground arith

no_prompts :
    (os : List AssistantOutputRecord) → ¬ (check_chain [] os (expected_state [] os) ≡ ok tt)
unfolding check_chain
no_prompts os h = ground arith

first_content :
    (p : PromptTokenRecord) (o : AssistantOutputRecord) (ps : List PromptTokenRecord)
    (os : List AssistantOutputRecord)
    → check_first_prompt p ≡ ok tt
    → (p.prompt_ids ++ o.output_ids) ++ content ps os ≡ content (p ∷ ps) (o ∷ os)
unfolding content
first_content p o ps os h =
    rw (first_prompt-ids p h) (append_assoc p.appended_ids o.output_ids (content ps os))

first_marks :
    (p : PromptTokenRecord) (o : AssistantOutputRecord) (ps : List PromptTokenRecord)
    (os : List AssistantOutputRecord)
    → replicate (length p.appended_ids) false
        ++ (replicate (length o.output_ids) true ++ output_marks ps os)
      ≡ output_marks (p ∷ ps) (o ∷ os)
unfolding output_marks
first_marks p o ps os = refl

module _ (dumps : Json → Text) (sha256 : Text → Text) where
  -- The arrays of a ledger without the loop: deltas and outputs in turn, the outputs, the mask of the
  -- outputs, and the spans.
  unfoldable pub described_arrays :
      List PromptTokenRecord → List AssistantOutputRecord → TrainingArrays
  unfolding content output_marks output_tokens described_turns all_described_segments
  described_arrays prompts outputs = record {
    input_ids = content prompts outputs;
    action_token_ids = output_tokens outputs;
    action_mask = output_marks prompts outputs;
    turns = described_turns dumps sha256 0 0 prompts outputs;
    segments = all_described_segments dumps sha256 0 0 prompts outputs;
  }

  -- The last test finds the mask to select the outputs.
  finish-described :
      (ps : List PromptTokenRecord) (os : List AssistantOutputRecord) (d : Derivation)
      → length ps ≡ length os
      → null (output_tokens os) ≡ false
      → d.action_ids ≡ output_tokens os
      → d.mask ≡ output_marks ps os
      → d.turns ≡ described_turns dumps sha256 0 0 ps os
      → d.segments ≡ all_described_segments dumps sha256 0 0 ps os
      → finish (content ps os) d ≡ ok (described_arrays ps os)
  unfolding finish described_arrays
  finish-described ps os d h n a m t s =
      rw (a, n, m, selected-content ps os h, ==_refl (output_tokens os), t, s)

  derive_alignment-steps :
      (s : TokenLedgerSnapshot) (input : List ℤ) (d : Derivation) (r : TrainingArrays)
      → state_beq s.state awaiting_prompt_append ≡ true
      → null s.outputs ≡ false
      → length s.prompts ≡ length s.outputs
      → full_input (last? s.prompts) (last? s.outputs) ≡ ok input
      → derive_turns dumps sha256 input 0 s.prompts s.outputs (no_turns (length input)) ≡ ok d
      → finish input d ≡ ok r
      → derive_alignment dumps sha256 s ≡ ok r
  unfolding derive_alignment
  derive_alignment-steps s input d r a n e f t k = rw (a, n, e, ==_refl (length s.outputs), f, t, k)

  module _ (hex : (t : Text) → is_sha256 (sha256 t) ≡ true) where
    derive_turns-described :
        (p : PromptTokenRecord) (o : AssistantOutputRecord) (ps : List PromptTokenRecord)
        (os : List AssistantOutputRecord)
        → check_chain (p ∷ ps) (o ∷ os) (expected_state (p ∷ ps) (o ∷ os)) ≡ ok tt
        → length ps ≡ length os
        → All ValidPrompt (p ∷ ps)
        → All ValidOutput (o ∷ os)
        → AllSegments (o ∷ os)
        → derive_turns dumps sha256
            (content (p ∷ ps) (o ∷ os))
            0
            (p ∷ ps)
            (o ∷ os)
            (no_turns (length (content (p ∷ ps) (o ∷ os))))
          ≡ ok (
              finished dumps sha256 hex 0 p o ps os
                (no_turns (length (content (p ∷ ps) (o ∷ os))))
                (replicate (length p.appended_ids) false))
    unfolding content
    derive_turns-described p o ps os c e vp vo vs =
        let parts = chain→Parts p ps (o ∷ os) c in
        let same = first_prompt-ids p parts.first in
        let input = first_content p o ps os parts.first in
        let d = no_turns (length (content (p ∷ ps) (o ∷ os))) in
        let run =
          derive_turns-finished dumps sha256 hex 1 0 p o ps os d
            (replicate (length p.appended_ids) false) parts.later e vp vo vs
            (length-replicate false (length p.appended_ids) ∙ ap (λ t. length t) (sym same))
            (ap (λ t. replicate (length t) false)
                (sym (append_assoc p.appended_ids o.output_ids (content ps os)))
              ∙ empty_mask p.appended_ids o.output_ids (content ps os)) in
        subst
          (λ i.
            derive_turns dumps sha256 i 0 (p ∷ ps) (o ∷ os) d
            ≡ ok
                (finished dumps sha256 hex 0 p o ps os d (replicate (length p.appended_ids) false)))
          input run

    output_tokens-nonempty :
        (o : AssistantOutputRecord) (os : List AssistantOutputRecord) (p : PromptTokenRecord)
        → ValidPrompt p
        → ValidOutput o
        → null (output_tokens (o ∷ os)) ≡ false
    unfolding output_tokens
    output_tokens-nonempty o os p h k =
        null-append o.output_ids (output_tokens os)
          (tokens-nonempty dumps sha256 hex o.output_ids (Valid→TurnParts p o h k).output)

    pub actions_nonempty :
        (ps : List PromptTokenRecord) (os : List AssistantOutputRecord)
        → check_chain ps os (expected_state ps os) ≡ ok tt
        → state_beq (expected_state ps os) awaiting_prompt_append ≡ true
        → All ValidPrompt ps
        → All ValidOutput os
        → null (output_tokens os) ≡ false
    actions_nonempty [] os c a vp vo = absurd (no_prompts os c)
    actions_nonempty (p ∷ ps) [] c a vp vo = absurd (omega (arith, lengths_agree (p ∷ ps) [] a))
    actions_nonempty (p ∷ ps) (o ∷ os) c a vp vo = output_tokens-nonempty o os p vp.0 vo.0

    -- The snapshot of a chain that ends after an output.
    derive_chain :
        (s : TokenLedgerSnapshot) (ps : List PromptTokenRecord) (os : List AssistantOutputRecord)
        → check_chain ps os (expected_state ps os) ≡ ok tt
        → state_beq (expected_state ps os) awaiting_prompt_append ≡ true
        → All ValidPrompt ps
        → All ValidOutput os
        → AllSegments os
        → derive_alignment dumps sha256
            (record s { prompts = ps; outputs = os; state = expected_state ps os })
          ≡ ok (described_arrays ps os)
    derive_chain s [] os c a vp vo vs = absurd (no_prompts os c)
    derive_chain s (p ∷ ps) [] c a vp vo vs = absurd (omega (arith, lengths_agree (p ∷ ps) [] a))
    derive_chain s (p ∷ ps) (o ∷ os) c a vp vo vs =
        let e = lengths_agree (p ∷ ps) (o ∷ os) a in
        let parts = chain→Parts p ps (o ∷ os) c in
        let even : length ps ≡ length os = omega (arith, e) in
        let d = no_turns (length (content (p ∷ ps) (o ∷ os))) in
        derive_alignment-steps
          (record s {
            prompts = p ∷ ps;
            outputs = o ∷ os;
            state = expected_state (p ∷ ps) (o ∷ os);
          })
          (content (p ∷ ps) (o ∷ os))
          (finished dumps sha256 hex 0 p o ps os d (replicate (length p.appended_ids) false))
          (described_arrays (p ∷ ps) (o ∷ os)) a refl e
          (full_input-content 1 p o ps os parts.later even
            ∙ ap (λ t. ok t) (first_content p o ps os parts.first))
          (derive_turns-described p o ps os c even vp vo vs)
          (finish-described (p ∷ ps) (o ∷ os) _ e (output_tokens-nonempty o os p vp.0 vo.0) refl
            (first_marks p o ps os) refl refl)

    -- A ledger that the constructor and the operations gave, with segments that their own checks
    -- accept, can be aligned once it ends after an output. The input is the appended deltas and the
    -- outputs in turn, the action tokens are the outputs, and the mask selects exactly these.
    pub derive_alignment-described :
        (l : Ledger) (s : TokenLedgerSnapshot)
        → Reachable l
        → AllSegments l.outputs
        → state_beq (ledger_state l) awaiting_prompt_append ≡ true
        → snapshot l ≡ ok s
        → derive_alignment dumps sha256 s ≡ ok (described_arrays l.prompts l.outputs)
    unfolding ledger_state
    derive_alignment-described l s r v a h =
        let w = Reachable→IsConsistent l r in
        subst (λ t. derive_alignment dumps sha256 t ≡ ok (described_arrays l.prompts l.outputs))
          (ok-value _ _ (sym (snapshot-ok l w) ∙ h))
          (derive_chain (snapshot_of l) l.prompts l.outputs w.chain a w.prompts w.outputs v)
