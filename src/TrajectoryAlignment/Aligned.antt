-- ===== src/TrajectoryAlignment/Aligned.antt =====
-- A completed ledger is aligned, and which log probabilities can be bound to the result.
use tiny_qwen_coder.Prelude.{◌≡◌, refl, sym, ◌∙◌, Bool, true, List, [], ◌∷◌, none, arith}
use tiny_qwen_coder.Prelude.Eq.{==_refl, nat_eq, list_eq}
use tiny_qwen_coder.Prelude.Int.{pos, int_eq}
use tiny_qwen_coder.Prelude.Result.{ok, ok-value}
use tiny_qwen_coder.TextNormalization.{Text}
use tiny_qwen_coder.Identities.{BaseModelIdentity}
use tiny_qwen_coder.Json.{Json}
use tiny_qwen_coder.TokenLedger.{AssistantSegmentKind, awaiting_prompt_append, state_beq}
use tiny_qwen_coder.TokenLedger.Session.{Ledger, ledger_state}
use tiny_qwen_coder.TokenLedger.Chain.{TokenLedgerSnapshot, snapshot}
use tiny_qwen_coder.TokenLedger.Preserved.{Reachable, Reachable→IsConsistent}
use tiny_qwen_coder.TrajectoryAlignment.{
  is_sha256, RolloutPolicyIdentity, ActionTurnBoundary, AlignedActionSegment,
}
use tiny_qwen_coder.TrajectoryAlignment.Derived.{TrainingArrays, derive_alignment, selected}
use tiny_qwen_coder.TrajectoryAlignment.Bound.{
  base_model_beq, turn_beq, kind_beq, segment_beq, bool_beq, lists_beq, arrays_beq,
  AlignedRolloutTrajectory, check_aligned, check_bound, align_rollout_trajectory,
}
use tiny_qwen_coder.TrajectoryAlignment.Run.{AllSegments}
use tiny_qwen_coder.TrajectoryAlignment.Completed.{
  described_arrays, lengths_agree, derive_alignment-described,
}
use tiny_qwen_coder.TrajectoryAlignment.Described.{selected-content}
use tiny_qwen_coder.TokenLedger.Snapshots.{snapshot_of, snapshot-ok}

-- The comparisons hold of a value and itself.
base_model_beq_refl : (i : BaseModelIdentity) → base_model_beq i i ≡ true
unfolding base_model_beq
base_model_beq_refl i = rw (
  ==_refl i.repository,
  ==_refl i.revision,
  ==_refl i.tokenizer_repository,
  ==_refl i.tokenizer_revision,
)

turn_beq_refl : (t : ActionTurnBoundary) → turn_beq t t ≡ true
unfolding turn_beq
turn_beq_refl t = rw (
  ==_refl t.turn_index,
  ==_refl t.input_start,
  ==_refl t.input_end,
  ==_refl t.action_start,
  ==_refl t.action_end,
  ==_refl t.prompt_ids_sha256,
  ==_refl t.output_ids_sha256,
)

kind_beq_refl : (k : AssistantSegmentKind) → kind_beq k k ≡ true
kind_beq_refl k = ground arith

segment_beq_refl : (s : AlignedActionSegment) → segment_beq s s ≡ true
unfolding segment_beq
segment_beq_refl s = rw (
  ==_refl s.turn_index,
  ==_refl s.segment_index,
  kind_beq_refl s.kind,
  ==_refl s.input_start,
  ==_refl s.input_end,
  ==_refl s.action_start,
  ==_refl s.action_end,
  ==_refl s.token_ids_sha256,
)

bool_beq_refl : (b : Bool) → bool_beq b b ≡ true
unfolding bool_beq
bool_beq_refl b = ground arith

lists_beq_refl {ℓ} :
    {A : Type ℓ} (same : A → A → Bool)
    → ((a : A) → same a a ≡ true)
    → (xs : List A) → lists_beq same xs xs ≡ true
unfolding lists_beq
lists_beq_refl same h [] = refl
lists_beq_refl same h (x ∷ xs) = rw (h x, lists_beq_refl same h xs)

arrays_beq_refl : (a : TrainingArrays) → arrays_beq a a ≡ true
unfolding arrays_beq
arrays_beq_refl a = rw (
  ==_refl a.input_ids,
  ==_refl a.action_token_ids,
  lists_beq_refl bool_beq bool_beq_refl a.action_mask,
  lists_beq_refl turn_beq turn_beq_refl a.turns,
  lists_beq_refl segment_beq segment_beq_refl a.segments,
)

module _ (dumps : Json → Text) (sha256 : Text → Text) (Float : Type 0) where
  -- A trajectory with the derived arrays passes every test but the last.
  check_aligned-derived :
      (a : AlignedRolloutTrajectory Float)
      → a.schema_version ≡ pos 1
      → a.ledger.identity.base_model ≡ a.policy.base_model
      → derive_alignment dumps sha256 a.ledger ≡ ok a.arrays
      → selected a.arrays.input_ids a.arrays.action_mask ≡ ok a.arrays.action_token_ids
      → check_aligned dumps sha256 Float a ≡ check_bound dumps sha256 Float a a.rollout_log_probs
  unfolding check_aligned
  check_aligned-derived a v b d m = rw (
    v,
    b,
    base_model_beq_refl a.policy.base_model,
    d,
    arrays_beq_refl a.arrays,
    m,
    ==_refl a.arrays.action_token_ids,
  )

  abbrev pub described_trajectory :
      Ledger → TokenLedgerSnapshot → RolloutPolicyIdentity → AlignedRolloutTrajectory Float
  described_trajectory l s policy = record {
    schema_version = pos 1;
    ledger = s;
    policy = policy;
    arrays = described_arrays dumps sha256 l.prompts l.outputs;
    rollout_log_probs = none;
  }

  align-steps :
      (s : TokenLedgerSnapshot) (policy : RolloutPolicyIdentity) (arrays : TrainingArrays)
      → derive_alignment dumps sha256 s ≡ ok arrays
      → check_aligned dumps sha256 Float (record {
        schema_version = pos 1;
        ledger = s;
        policy = policy;
        arrays = arrays;
        rollout_log_probs = none;
      })
        ≡ ok tt
      → align_rollout_trajectory dumps sha256 Float s policy
        ≡ ok (record {
          schema_version = pos 1;
          ledger = s;
          policy = policy;
          arrays = arrays;
          rollout_log_probs = none;
        })
  unfolding align_rollout_trajectory
  align-steps s policy arrays d c = rw (d, c)

  module _ (hex : (t : Text) → is_sha256 (sha256 t) ≡ true) where
    described_trajectory-selected :
        (l : Ledger)
        → state_beq (ledger_state l) awaiting_prompt_append ≡ true
        → selected
            (described_arrays dumps sha256 l.prompts l.outputs).input_ids
            (described_arrays dumps sha256 l.prompts l.outputs).action_mask
          ≡ ok (described_arrays dumps sha256 l.prompts l.outputs).action_token_ids
    unfolding described_arrays ledger_state
    described_trajectory-selected l a =
        selected-content l.prompts l.outputs (lengths_agree l.prompts l.outputs a)

    snapshot-identity :
        (l : Ledger) (s : TokenLedgerSnapshot) → Reachable l → snapshot l ≡ ok s → snapshot_of l ≡ s
    snapshot-identity l s r h = ok-value _ _ (sym (snapshot-ok l (Reachable→IsConsistent l r)) ∙ h)

    pub described-check_aligned :
        (l : Ledger) (s : TokenLedgerSnapshot) (a : AlignedRolloutTrajectory Float)
        → Reachable l
        → AllSegments l.outputs
        → state_beq (ledger_state l) awaiting_prompt_append ≡ true
        → snapshot l ≡ ok s
        → a.policy.base_model ≡ l.identity.base_model
        → a.schema_version ≡ pos 1
        → a.ledger ≡ s
        → a.arrays ≡ described_arrays dumps sha256 l.prompts l.outputs
        → check_aligned dumps sha256 Float a ≡ check_bound dumps sha256 Float a a.rollout_log_probs
    described-check_aligned l s a r v st h b sv al aa =
        let same : a.ledger ≡ snapshot_of l = al ∙ sym (snapshot-identity l s r h) in
        let derived : derive_alignment dumps sha256 a.ledger ≡ ok a.arrays =
          rw (al, aa) (derive_alignment-described dumps sha256 hex l s r v st h) in
        let masked : selected a.arrays.input_ids a.arrays.action_mask
            ≡ ok a.arrays.action_token_ids =
          rw aa (described_trajectory-selected l st) in
        check_aligned-derived a sv (rw (same, b)) derived masked

    -- A ledger that the constructor and the operations gave, with segments that their own checks
    -- accept and the policy's base model, is aligned once it ends after an output: no error is
    -- raised, the input is the appended deltas and the outputs in turn, the action tokens are the
    -- outputs, and the mask selects exactly these. The digest function gives 64 hexadecimal digits.
    pub align_rollout_trajectory-described :
        (l : Ledger) (s : TokenLedgerSnapshot) (policy : RolloutPolicyIdentity)
        → Reachable l
        → AllSegments l.outputs
        → state_beq (ledger_state l) awaiting_prompt_append ≡ true
        → policy.base_model ≡ l.identity.base_model
        → snapshot l ≡ ok s
        → align_rollout_trajectory dumps sha256 Float s policy
          ≡ ok (described_trajectory l s policy)
    unfolding check_bound
    align_rollout_trajectory-described l s policy r v st b h =
        let checked =
          described-check_aligned l s (described_trajectory l s policy) r v st h b refl refl refl in
        align-steps s policy (described_arrays dumps sha256 l.prompts l.outputs)
          (derive_alignment-described dumps sha256 hex l s r v st h) checked
