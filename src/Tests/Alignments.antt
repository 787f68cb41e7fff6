-- ===== src/Tests/Alignments.antt =====
-- The alignment of a ledger with one output.
use tiny_qwen_coder.Prelude.{
  ◌≡◌, ◌↔◌, refl, Bool, true, false, List, [], ◌∷◌, length, replicate, map, none, All,
}
use tiny_qwen_coder.Prelude.Int.{ℤ, pos, negsuc, int_ltb}
use tiny_qwen_coder.Prelude.Result.{ok, err}
use tiny_qwen_coder.Prelude.Eq.{list_beq}
use tiny_qwen_coder.TextNormalization.{Text}
use tiny_qwen_coder.Json.{Json}
use tiny_qwen_coder.TokenLedger.{check_segment, awaiting_output, state_beq}
use tiny_qwen_coder.TokenLedger.Session.{ledger_state}
use tiny_qwen_coder.TokenLedger.Chain.{snapshot}
use tiny_qwen_coder.TokenLedger.Snapshots.{snapshot_of}
use tiny_qwen_coder.TrajectoryAlignment.{
  RolloutPolicyIdentity, is_sha256, check_policy, zero_action,
}
use tiny_qwen_coder.TrajectoryAlignment.Derived.{derive_alignment}
use tiny_qwen_coder.TrajectoryAlignment.Described.{output_tokens}
use tiny_qwen_coder.TrajectoryAlignment.Completed.{described_arrays}
use tiny_qwen_coder.TrajectoryAlignment.Bound.{align_rollout_trajectory, bind_rollout_log_probs}
use tiny_qwen_coder.TrajectoryAlignment.Run.{AllSegments}
use tiny_qwen_coder.TrajectoryAlignment.Aligned.{
  described_trajectory, align_rollout_trajectory-described,
}
use tiny_qwen_coder.TrajectoryAlignment.Evidence.{
  IsLogProb, with_log_probs, bind_rollout_log_probs_iff,
}
use tiny_qwen_coder.Tests.Ledgers.{answered, answered-Reachable, sample_identity}

abbrev print_nothing : Json → Text
print_nothing j = []

abbrev sample_digest : Text → Text
sample_digest t = replicate 64 b'a'

sample_digest-hex : (t : Text) → is_sha256 (sample_digest t) ≡ true
sample_digest-hex t = refl

-- Numbers in place of floats.
abbrev always : ℤ → Bool
always x = true

abbrev above_zero : ℤ → Bool
above_zero (pos n) = int_ltb (pos 0) (pos n)
above_zero (negsuc n) = false

abbrev base_policy : RolloutPolicyIdentity
base_policy = record {
  base_model = sample_identity.base_model;
  adapter = record { family = none; adapter_id = none };
  checkpoint_id = replicate 40 b'0';
}

base_policy_accepted : check_policy base_policy ≡ ok tt
unfolding check_policy list_beq
base_policy_accepted = refl

answered-snapshot : snapshot answered ≡ ok (snapshot_of answered)
unfolding snapshot list_beq ledger_state
answered-snapshot = refl

answered-segments : AllSegments answered.outputs
unfolding check_segment
answered-segments = ((refl, tt), tt)

answered-arrays :
    ((described_arrays print_nothing sample_digest answered.prompts answered.outputs).input_ids
      ≡ map pos (1 ∷ 2 ∷ 3 ∷ 4 ∷ []))
    × ((described_arrays print_nothing sample_digest answered.prompts answered.outputs).action_mask
        ≡ false ∷ false ∷ true ∷ true ∷ [])
unfolding described_arrays
answered-arrays = (refl, refl)

-- A ledger that waits for an output cannot be aligned.
unanswered-derive :
    derive_alignment print_nothing sample_digest
      (record (snapshot_of answered) { state = awaiting_output })
    ≡ err zero_action
unfolding derive_alignment
unanswered-derive = refl

align_rollout_trajectory-described_example :
    align_rollout_trajectory print_nothing sample_digest ℤ (snapshot_of answered) base_policy
    ≡ ok (
        described_trajectory print_nothing sample_digest ℤ answered
          (snapshot_of answered)
          base_policy)
unfolding ledger_state state_beq
align_rollout_trajectory-described_example =
    align_rollout_trajectory-described print_nothing sample_digest ℤ sample_digest-hex answered
      (snapshot_of answered) base_policy answered-Reachable answered-segments refl refl
      answered-snapshot

abbrev two_log_probs : List ℤ
two_log_probs = negsuc 0 ∷ pos 0 ∷ []

bind_rollout_log_probs_iff_example :
    (bind_rollout_log_probs print_nothing sample_digest ℤ always above_zero
        (described_trajectory print_nothing sample_digest ℤ answered
          (snapshot_of answered)
          base_policy)
        two_log_probs
      ≡ ok (
          with_log_probs ℤ always above_zero print_nothing sample_digest
            (described_trajectory print_nothing sample_digest ℤ answered
              (snapshot_of answered)
              base_policy)
            two_log_probs))
    ↔ ((length two_log_probs ≡ length (output_tokens answered.outputs))
        × (All (IsLogProb ℤ always above_zero) two_log_probs
            × (with_log_probs ℤ always above_zero print_nothing sample_digest
                  (described_trajectory print_nothing sample_digest ℤ answered
                    (snapshot_of answered)
                    base_policy)
                  two_log_probs
                ≡ with_log_probs ℤ always above_zero print_nothing sample_digest
                    (described_trajectory print_nothing sample_digest ℤ answered
                      (snapshot_of answered)
                      base_policy)
                    two_log_probs)))
unfolding ledger_state state_beq
bind_rollout_log_probs_iff_example =
    bind_rollout_log_probs_iff ℤ always above_zero print_nothing sample_digest sample_digest-hex
      answered (snapshot_of answered) base_policy two_log_probs
      (with_log_probs ℤ always above_zero print_nothing sample_digest
        (described_trajectory print_nothing sample_digest ℤ answered (snapshot_of answered)
          base_policy)
        two_log_probs)
      answered-Reachable answered-segments refl refl answered-snapshot
