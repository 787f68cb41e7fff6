-- ===== src/TrajectoryAlignment.antt =====
-- src/tiny_qwen_coder/pvrl/trajectory_alignment.py: the records of an aligned rollout and the checks
-- of their constructors. `check_x` is the `__post_init__` of the class `X`.
pub mod Derived
pub mod Bound
pub mod Described
mod Spans
mod Turns
mod Input
pub mod Run
pub mod Completed
pub mod Aligned
pub mod Evidence
use tiny_qwen_coder.Prelude.{
  ◌≡◌, Bool, true, false, not, ◌&&◌, ◌||◌, List, [], ◌∷◌, all, null, length, Option, none, some,
}
use tiny_qwen_coder.Prelude.Eq.{◌==◌, nat_eq, list_eq, option_eq}
use tiny_qwen_coder.Prelude.Int.{ℤ, pos, is_negative, int_eq, int_ltb, int_leb, ◌-ℤ◌}
use tiny_qwen_coder.Prelude.Result.{Result, ok, err, ◌>>◌, raise_if}
use tiny_qwen_coder.TextNormalization.{Text}
use tiny_qwen_coder.Identities.{BaseModelIdentity, AdapterIdentity, is_lower_hex}
use tiny_qwen_coder.TokenLedger.{AssistantSegmentKind}

-- The three exception classes; the plain one by its message, with those of the ledger's own calls.
pub data TrajectoryAlignmentError : Type 0 where
  bad_digest bad_checkpoint adapted_checkpoint bad_schema_version : TrajectoryAlignmentError
  negative_integer empty_turn empty_segment empty_log_probs bad_log_prob bad_reward :
      TrajectoryAlignmentError
  base_checkpoint turn_lengths segment_lengths missing_output incomplete_ledger index_error
        zip_lengths :
      TrajectoryAlignmentError
  mask_recovery policy_base_model stored_arrays loss_mask : TrajectoryAlignmentError
  other_trajectory other_policy other_actions log_prob_count : TrajectoryAlignmentError
  reward_trajectory : TrajectoryAlignmentError
  bad_tokens : TrajectoryAlignmentError
  zero_action : TrajectoryAlignmentError

-- `^[0-9a-f]{64}$` and `^(?:[0-9a-f]{40}|[0-9a-f]{64})$`, matched in full.
abbrev pub is_sha256 : Text → Bool
is_sha256 t = length t == 64 && all is_lower_hex t

abbrev pub is_checkpoint : Text → Bool
is_checkpoint t = (length t == 40 || length t == 64) && all is_lower_hex t

unfoldable pub sha : Text → Result TrajectoryAlignmentError (Unit {0})
sha t = raise_if (not (is_sha256 t)) bad_digest

unfoldable pub non_negative : ℤ → Result TrajectoryAlignmentError (Unit {0})
non_negative n = raise_if (is_negative n) negative_integer

-- The loop over the names of integer fields.
unfoldable pub all_non_negative : List ℤ → Result TrajectoryAlignmentError (Unit {0})
unfolding non_negative
all_non_negative [] = ok tt
all_non_negative (n ∷ ns) = non_negative n >> all_non_negative ns

pub record RolloutPolicyIdentity : Type 0 where
  pub base_model : BaseModelIdentity
  pub adapter : AdapterIdentity
  pub checkpoint_id : Text

abbrev pub check_adapter_checkpoint :
    Option Text → Text → Text → Result TrajectoryAlignmentError (Unit {0})
check_adapter_checkpoint none checkpoint revision =
    raise_if (not (checkpoint == revision)) base_checkpoint
check_adapter_checkpoint (some adapter_id) checkpoint revision =
    raise_if (not (is_sha256 checkpoint)) adapted_checkpoint

unfoldable pub check_policy : RolloutPolicyIdentity → Result TrajectoryAlignmentError (Unit {0})
check_policy p =
    raise_if (not (is_checkpoint p.checkpoint_id)) bad_checkpoint
    >> check_adapter_checkpoint p.adapter.adapter_id p.checkpoint_id p.base_model.revision

pub record ActionTurnBoundary : Type 0 where
  pub turn_index : ℤ
  pub input_start : ℤ
  pub input_end : ℤ
  pub action_start : ℤ
  pub action_end : ℤ
  pub prompt_ids_sha256 : Text
  pub output_ids_sha256 : Text

unfoldable pub check_turn : ActionTurnBoundary → Result TrajectoryAlignmentError (Unit {0})
unfolding all_non_negative sha int_ltb
check_turn t =
    all_non_negative
      (t.turn_index ∷ t.input_start ∷ t.input_end ∷ t.action_start ∷ t.action_end ∷ [])
    >> (raise_if (int_leb t.input_end t.input_start || int_leb t.action_end t.action_start)
          empty_turn
        >> (raise_if (not (t.input_end -ℤ t.input_start == t.action_end -ℤ t.action_start))
              turn_lengths
            >> (sha t.prompt_ids_sha256 >> sha t.output_ids_sha256)))

pub record AlignedActionSegment : Type 0 where
  pub turn_index : ℤ
  pub segment_index : ℤ
  pub kind : AssistantSegmentKind
  pub input_start : ℤ
  pub input_end : ℤ
  pub action_start : ℤ
  pub action_end : ℤ
  pub token_ids_sha256 : Text

unfoldable pub check_aligned_segment :
    AlignedActionSegment → Result TrajectoryAlignmentError (Unit {0})
unfolding all_non_negative sha int_ltb
check_aligned_segment s =
    all_non_negative (
      s.turn_index ∷ s.segment_index ∷ s.input_start ∷ s.input_end ∷ s.action_start ∷ s.action_end
      ∷ [])
    >> (raise_if (int_leb s.input_end s.input_start || int_leb s.action_end s.action_start)
          empty_segment
        >> (raise_if (not (s.input_end -ℤ s.input_start == s.action_end -ℤ s.action_start))
              segment_lengths
            >> sha s.token_ids_sha256))
