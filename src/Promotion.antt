-- ===== src/Promotion.antt =====
-- src/tiny_qwen_coder/evaluation/promotion.py: the promotion policy and its evidence. `check_x` is
-- the `__post_init__` of the class `X`. `Float` stands for Python's floating-point numbers.
pub mod Decision
pub mod Eligible
pub mod Better
use tiny_qwen_coder.Prelude.{
  ◌≡◌, Bool, true, false, not, ◌&&◌, ◌||◌, List, [], ◌∷◌, Option, if◌then◌else◌,
}
use tiny_qwen_coder.Prelude.Eq.{◌==◌, list_eq, nat_eq}
use tiny_qwen_coder.Prelude.Int.{ℤ, pos, negsuc, int_eq, int_ltb, int_leb, ◌+ℤ◌}
use tiny_qwen_coder.Prelude.Result.{Result, ok, ◌>>◌, raise_if}
use tiny_qwen_coder.TextNormalization.{Text}
use tiny_qwen_coder.Data.Records.{is_blank}
use tiny_qwen_coder.Data.Deduplication.Payload.{codes}

pub data PromotionPolicyError : Type 0 where
  bad_suite_baseline bad_schema_version bad_policy_identity bad_gain : PromotionPolicyError
  bad_minimum_combined bad_general_tool bad_cross_language : PromotionPolicyError
  empty_adapter_id bad_suite_result bad_regressions : PromotionPolicyError
  empty_conclusion empty_contamination_status : PromotionPolicyError

pub record SuiteBaseline : Type 0 where
  pub passed : ℤ
  pub total : ℤ

-- `0 <= passed <= total`.
abbrev within : ℤ → ℤ → Bool
within passed total = int_leb (pos 0) passed && int_leb passed total

unfoldable pub check_suite_baseline : SuiteBaseline → Result PromotionPolicyError (Unit {0})
unfolding int_ltb
check_suite_baseline s =
    raise_if (int_leb s.total (pos 0) || not (within s.passed s.total)) bad_suite_baseline

pub record PythonPromotionPolicy (Float : Type 0) : Type 0 where
  pub schema_version : ℤ
  pub policy_id : Text
  pub language : Text
  pub baseline_source_git_sha : Text
  pub baseline_artifact_set_sha256 : Text
  pub humaneval : SuiteBaseline
  pub mbpp : SuiteBaseline
  pub repository_holdout : SuiteBaseline
  pub combined : SuiteBaseline
  pub minimum_combined_absolute_gain : Float
  pub minimum_combined_passed : ℤ
  pub require_no_suite_below_baseline : Bool
  pub general_tool_minimum_passed : ℤ
  pub general_tool_total : ℤ
  pub general_tool_maximum_regressions : ℤ
  pub cross_language_required_conclusion : Text
  pub minimum_typescript_semantic_passed : ℤ
  pub minimum_rust_semantic_passed : ℤ
  pub cross_language_cases_per_language : ℤ
  pub required_contamination_status : Text
  pub require_adapter_load_validation : Bool

pub record PythonPromotionEvidence : Type 0 where
  pub adapter_id : Text
  pub humaneval_passed : ℤ
  pub humaneval_total : ℤ
  pub mbpp_passed : ℤ
  pub mbpp_total : ℤ
  pub repository_holdout_passed : ℤ
  pub repository_holdout_total : ℤ
  pub combined_passed : ℤ
  pub combined_total : ℤ
  pub general_tool_passed : ℤ
  pub general_tool_total : ℤ
  pub general_tool_regressions : ℤ
  pub cross_language_conclusion : Text
  pub typescript_semantic_passed : ℤ
  pub typescript_semantic_total : ℤ
  pub rust_semantic_passed : ℤ
  pub rust_semantic_total : ℤ
  pub contamination_status : Text
  pub adapter_load_validated : Bool

-- `is_fraction x` is `0.0 < x < 1.0`, and `ceil_product x n` is `math.ceil(x * n)`.
module _ {Float : Type 0} (is_fraction : Float → Bool) (ceil_product : Float → ℤ → ℤ) where
  unfoldable pub check_promotion_policy :
      PythonPromotionPolicy Float → Result PromotionPolicyError (Unit {0})
  unfolding int_ltb
  check_promotion_policy p =
      raise_if (not (p.schema_version == pos 1)) bad_schema_version
      >> (raise_if
            (not (p.policy_id == codes "python-promotion-v1") || not (p.language == codes "python"))
            bad_policy_identity
          >> (raise_if (not (is_fraction p.minimum_combined_absolute_gain)) bad_gain
              >> (raise_if
                    (not (
                      p.minimum_combined_passed
                      == p.combined.passed
                        +ℤ ceil_product p.minimum_combined_absolute_gain p.combined.total))
                    bad_minimum_combined
                  >> (raise_if (int_leb p.general_tool_total (pos 0)) bad_general_tool
                      >> (raise_if (not (within p.general_tool_minimum_passed p.general_tool_total))
                            bad_general_tool
                          >> (raise_if (int_ltb p.general_tool_maximum_regressions (pos 0))
                                bad_general_tool
                              >> (raise_if (int_leb p.cross_language_cases_per_language (pos 0))
                                    bad_cross_language
                                  >> (raise_if
                                        (not (
                                          within p.minimum_typescript_semantic_passed
                                            p.cross_language_cases_per_language))
                                        bad_cross_language
                                      >> raise_if
                                          (not (
                                            within p.minimum_rust_semantic_passed
                                              p.cross_language_cases_per_language))
                                          bad_cross_language))))))))

abbrev pub check_results : List (ℤ × ℤ) → Result PromotionPolicyError (Unit {0})
unfolding int_ltb
check_results [] = ok tt
check_results ((passed, total) ∷ results) =
    raise_if (int_leb total (pos 0) || not (within passed total)) bad_suite_result
    >> check_results results

-- The pairs that the loop goes through, each with its total.
abbrev pub results_of : PythonPromotionEvidence → List (ℤ × ℤ)
results_of e =
    (e.humaneval_passed, e.humaneval_total)
    ∷ (e.mbpp_passed, e.mbpp_total)
    ∷ (e.repository_holdout_passed, e.repository_holdout_total)
    ∷ (e.combined_passed, e.combined_total)
    ∷ (e.general_tool_passed, e.general_tool_total)
    ∷ (e.typescript_semantic_passed, e.typescript_semantic_total)
    ∷ (e.rust_semantic_passed, e.rust_semantic_total)
    ∷ []

unfoldable pub check_promotion_evidence :
    PythonPromotionEvidence → Result PromotionPolicyError (Unit {0})
unfolding int_ltb is_blank
check_promotion_evidence e =
    raise_if (is_blank e.adapter_id) empty_adapter_id
    >> (check_results (
          (e.humaneval_passed, e.humaneval_total)
          ∷ (e.mbpp_passed, e.mbpp_total)
          ∷ (e.repository_holdout_passed, e.repository_holdout_total)
          ∷ (e.combined_passed, e.combined_total)
          ∷ (e.general_tool_passed, e.general_tool_total)
          ∷ (e.typescript_semantic_passed, e.typescript_semantic_total)
          ∷ (e.rust_semantic_passed, e.rust_semantic_total)
          ∷ [])
        >> (raise_if (int_ltb e.general_tool_regressions (pos 0)) bad_regressions
            >> (raise_if (is_blank e.cross_language_conclusion) empty_conclusion
                >> raise_if (is_blank e.contamination_status) empty_contamination_status)))

pub record PromotionCheck : Type 0 where
  pub check_id : Text
  pub passed : Bool
  pub detail : Text

pub data PromotionDisposition : Type 0 where
  promote reject : PromotionDisposition

pub record PythonPromotionDecision : Type 0 where
  pub policy_id : Text
  pub adapter_id : Text
  pub disposition : PromotionDisposition
  pub recommended_adapter_id : Option Text
  pub checks : List PromotionCheck
  pub rejection_reasons : List Text
