-- ===== src/TrajectoryAlignment/Bound.antt =====
-- The aligned trajectory and its check `_validate_alignment`, and the evidence that is bound to it:
-- log probabilities and a reward. A float of Python is a parameter, with its tests.
use tiny_qwen_coder.Prelude.{
  Bool, true, false, not, ◌&&◌, ◌||◌, List, [], ◌∷◌, null, length, Option, none, some,
}
use tiny_qwen_coder.Prelude.Eq.{◌==◌, nat_eq, list_eq}
use tiny_qwen_coder.Prelude.Int.{ℤ, pos, int_eq}
use tiny_qwen_coder.Prelude.Result.{Result, ok, ◌>>=◌, ◌>>◌, raise_if}
use tiny_qwen_coder.TextNormalization.{Text}
use tiny_qwen_coder.Data.Deduplication.Payload.{codes}
use tiny_qwen_coder.Identities.{BaseModelIdentity}
use tiny_qwen_coder.Json.{Json, integer, string, object, members}
use tiny_qwen_coder.TokenLedger.{AssistantSegmentKind, text, reasoning, action}
use tiny_qwen_coder.TokenLedger.Chain.{TokenLedgerSnapshot}
use tiny_qwen_coder.TokenLedger.Persisted.{snapshot_payload}
use tiny_qwen_coder.TrajectoryAlignment.{
  TrajectoryAlignmentError, bad_schema_version, empty_log_probs, bad_log_prob, bad_reward,
  policy_base_model, stored_arrays, loss_mask, other_trajectory, other_policy, other_actions,
  log_prob_count, reward_trajectory, RolloutPolicyIdentity, ActionTurnBoundary,
  AlignedActionSegment, sha,
}
use tiny_qwen_coder.TrajectoryAlignment.Derived.{
  TrainingArrays, selected, token_ids_sha256, derive_alignment,
}

-- The comparisons of dataclasses field by field.
unfoldable pub base_model_beq : BaseModelIdentity → BaseModelIdentity → Bool
base_model_beq a b =
    a.repository == b.repository
    && (a.revision == b.revision
        && (a.tokenizer_repository == b.tokenizer_repository
            && a.tokenizer_revision == b.tokenizer_revision))

unfoldable pub turn_beq : ActionTurnBoundary → ActionTurnBoundary → Bool
turn_beq a b =
    a.turn_index == b.turn_index
    && (a.input_start == b.input_start
        && (a.input_end == b.input_end
            && (a.action_start == b.action_start
                && (a.action_end == b.action_end
                    && (a.prompt_ids_sha256 == b.prompt_ids_sha256
                        && a.output_ids_sha256 == b.output_ids_sha256)))))

abbrev pub kind_beq : AssistantSegmentKind → AssistantSegmentKind → Bool
kind_beq text text = true
kind_beq reasoning reasoning = true
kind_beq action action = true
kind_beq _ _ = false

unfoldable pub segment_beq : AlignedActionSegment → AlignedActionSegment → Bool
segment_beq a b =
    a.turn_index == b.turn_index
    && (a.segment_index == b.segment_index
        && (kind_beq a.kind b.kind
            && (a.input_start == b.input_start
                && (a.input_end == b.input_end
                    && (a.action_start == b.action_start
                        && (a.action_end == b.action_end
                            && a.token_ids_sha256 == b.token_ids_sha256))))))

unfoldable pub bool_beq : Bool → Bool → Bool
bool_beq true true = true
bool_beq false false = true
bool_beq _ _ = false

unfoldable pub lists_beq {ℓ} : {A : Type ℓ} → (A → A → Bool) → List A → List A → Bool
lists_beq same [] [] = true
lists_beq same (x ∷ xs) (y ∷ ys) = same x y && lists_beq same xs ys
lists_beq same _ _ = false

unfoldable pub arrays_beq : TrainingArrays → TrainingArrays → Bool
unfolding lists_beq turn_beq segment_beq bool_beq
arrays_beq a b =
    a.input_ids == b.input_ids
    && (a.action_token_ids == b.action_token_ids
        && (lists_beq bool_beq a.action_mask b.action_mask
            && (lists_beq turn_beq a.turns b.turns && lists_beq segment_beq a.segments b.segments)))

abbrev pub text_or_null : Option Text → Json
text_or_null none = Json.null
text_or_null (some t) = string t

unfoldable pub policy_payload : RolloutPolicyIdentity → Json
policy_payload p = object (
    members (
      (
        codes "adapter",
        object (
            members (
              (codes "adapter_id", text_or_null p.adapter.adapter_id)
              ∷ (codes "family", text_or_null p.adapter.family)
              ∷ [])),
      )
      ∷ (
        codes "base_model",
        object (
            members (
              (codes "repository", string p.base_model.repository)
              ∷ (codes "revision", string p.base_model.revision)
              ∷ (codes "tokenizer_repository", string p.base_model.tokenizer_repository)
              ∷ (codes "tokenizer_revision", string p.base_model.tokenizer_revision)
              ∷ [])),
      )
      ∷ (codes "checkpoint_id", string p.checkpoint_id)
      ∷ []))

pub record RolloutLogProbEvidence (Float : Type 0) : Type 0 where
  pub trajectory_id : Text
  pub policy_sha256 : Text
  pub action_token_ids_sha256 : Text
  pub log_probs : List Float

pub record AlignedRolloutTrajectory (Float : Type 0) : Type 0 where
  pub schema_version : ℤ
  pub ledger : TokenLedgerSnapshot
  pub policy : RolloutPolicyIdentity
  pub arrays : TrainingArrays
  pub rollout_log_probs : Option (RolloutLogProbEvidence Float)

pub record TrajectoryRewardAttribution (Float : Type 0) : Type 0 where
  pub trajectory_id : Text
  pub reward : Float
  pub reward_evidence_sha256 : Text

pub record AlignedTrainingTrajectory (Float : Type 0) : Type 0 where
  pub alignment : AlignedRolloutTrajectory Float
  pub reward : TrajectoryRewardAttribution Float

module _ (dumps : Json → Text) (sha256 : Text → Text) where
  unfoldable pub policy_sha256 : RolloutPolicyIdentity → Text
  unfolding policy_payload
  policy_sha256 p = sha256 (dumps (policy_payload p))

  unfoldable pub ledger_sha256 : TokenLedgerSnapshot → Text
  unfolding snapshot_payload
  ledger_sha256 ledger = sha256 (dumps (snapshot_payload ledger))

  unfoldable pub trajectory_id : TokenLedgerSnapshot → RolloutPolicyIdentity → Text
  unfolding policy_sha256 ledger_sha256
  trajectory_id ledger policy = sha256 (
      dumps (
        object (
          members (
            (codes "ledger_sha256", string (ledger_sha256 ledger))
            ∷ (codes "policy_sha256", string (policy_sha256 policy))
            ∷ (codes "schema_version", integer (pos 1))
            ∷ []))))

module _ (Float : Type 0) (is_finite is_positive : Float → Bool) where
  unfoldable pub check_log_probs : List Float → Result TrajectoryAlignmentError (Unit {0})
  check_log_probs [] = ok tt
  check_log_probs (x ∷ xs) =
      raise_if (not (is_finite x) || is_positive x) bad_log_prob >> check_log_probs xs

  unfoldable pub check_evidence :
      RolloutLogProbEvidence Float → Result TrajectoryAlignmentError (Unit {0})
  check_evidence e =
      sha e.trajectory_id
      >> (sha e.policy_sha256
          >> (sha e.action_token_ids_sha256
              >> (raise_if (null e.log_probs) empty_log_probs >> check_log_probs e.log_probs)))

  unfoldable pub check_reward :
      TrajectoryRewardAttribution Float → Result TrajectoryAlignmentError (Unit {0})
  check_reward r =
      sha r.trajectory_id
      >> (raise_if (not (is_finite r.reward)) bad_reward >> sha r.reward_evidence_sha256)

module _ (dumps : Json → Text) (sha256 : Text → Text) (Float : Type 0) where
  -- The last test of `_validate_alignment`.
  unfoldable pub check_bound :
      AlignedRolloutTrajectory Float
      → Option (RolloutLogProbEvidence Float)
      → Result TrajectoryAlignmentError (Unit {0})
  unfolding trajectory_id policy_sha256 token_ids_sha256
  check_bound a none = ok tt
  check_bound a (some e) = do
    raise_if (not (e.trajectory_id == trajectory_id dumps sha256 a.ledger a.policy))
        other_trajectory
    raise_if (not (e.policy_sha256 == policy_sha256 dumps sha256 a.policy)) other_policy
    digest ← token_ids_sha256 dumps sha256 a.arrays.action_token_ids
    raise_if (not (e.action_token_ids_sha256 == digest)) other_actions
    raise_if (not (length e.log_probs == length a.arrays.action_token_ids)) log_prob_count

  unfoldable pub validate_alignment :
      AlignedRolloutTrajectory Float → Result TrajectoryAlignmentError (Unit {0})
  unfolding base_model_beq derive_alignment arrays_beq selected check_bound
  validate_alignment a = do
    raise_if (not (base_model_beq a.ledger.identity.base_model a.policy.base_model))
        policy_base_model
    expected ← derive_alignment dumps sha256 a.ledger
    raise_if (not (arrays_beq a.arrays expected)) stored_arrays
    masked ← selected a.arrays.input_ids a.arrays.action_mask
    raise_if (not (masked == a.arrays.action_token_ids)) loss_mask
    check_bound a a.rollout_log_probs

  unfoldable pub check_aligned :
      AlignedRolloutTrajectory Float → Result TrajectoryAlignmentError (Unit {0})
  unfolding validate_alignment
  check_aligned a =
      raise_if (not (a.schema_version == pos 1)) bad_schema_version >> validate_alignment a

  unfoldable pub align_rollout_trajectory :
      TokenLedgerSnapshot
      → RolloutPolicyIdentity
      → Result TrajectoryAlignmentError (AlignedRolloutTrajectory Float)
  align_rollout_trajectory ledger policy = do
    arrays ← derive_alignment dumps sha256 ledger
    let a : AlignedRolloutTrajectory Float = record {
      schema_version = pos 1;
      ledger = ledger;
      policy = policy;
      arrays = arrays;
      rollout_log_probs = none;
    }
    check_aligned a
    ok a

  module _ (is_finite is_positive : Float → Bool) where
    unfoldable pub bind_rollout_log_probs :
        AlignedRolloutTrajectory Float
        → List Float
        → Result TrajectoryAlignmentError (AlignedRolloutTrajectory Float)
    bind_rollout_log_probs a log_probs = do
      raise_if (not (length log_probs == length a.arrays.action_token_ids)) log_prob_count
      digest ← token_ids_sha256 dumps sha256 a.arrays.action_token_ids
      let e : RolloutLogProbEvidence Float = record {
        trajectory_id = trajectory_id dumps sha256 a.ledger a.policy;
        policy_sha256 = policy_sha256 dumps sha256 a.policy;
        action_token_ids_sha256 = digest;
        log_probs = log_probs;
      }
      check_evidence Float is_finite is_positive e
      let bound : AlignedRolloutTrajectory Float = record a { rollout_log_probs = some e }
      check_aligned bound
      ok bound

    -- `AlignedTrainingTrajectory.__post_init__`.
    unfoldable pub check_training :
        AlignedTrainingTrajectory Float → Result TrajectoryAlignmentError (Unit {0})
    unfolding trajectory_id
    check_training t =
        raise_if
          (not (
            t.reward.trajectory_id
            == trajectory_id dumps sha256 t.alignment.ledger t.alignment.policy))
          reward_trajectory

    unfoldable pub bind_trajectory_reward :
        AlignedRolloutTrajectory Float
        → Float
        → Text
        → Result TrajectoryAlignmentError (AlignedTrainingTrajectory Float)
    bind_trajectory_reward a reward evidence = do
      let r : TrajectoryRewardAttribution Float = record {
        trajectory_id = trajectory_id dumps sha256 a.ledger a.policy;
        reward = reward;
        reward_evidence_sha256 = evidence;
      }
      check_reward Float is_finite is_positive r
      let t : AlignedTrainingTrajectory Float = record { alignment = a; reward = r }
      check_training t
      ok t
