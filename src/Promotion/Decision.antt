-- ===== src/Promotion/Decision.antt =====
-- `evaluate_python_adapter_promotion`: the eight gates in their order, and the decision.
use tiny_qwen_coder.Prelude.{
  ℕ, zero, suc, ◌+◌, ◌/◌, ◌%◌, Bool, true, false, not, ◌&&◌, ◌||◌, List, [], ◌∷◌, ◌++◌, null,
  Option, none, some, ltb, if◌then◌else◌,
}
use tiny_qwen_coder.Prelude.Eq.{◌==◌, list_eq, nat_eq}
use tiny_qwen_coder.Prelude.Int.{ℤ, pos, negsuc, int_eq, int_ltb, int_leb}
use tiny_qwen_coder.TextNormalization.{Text}
use tiny_qwen_coder.Data.Deduplication.Payload.{codes}
use tiny_qwen_coder.Promotion.{
  SuiteBaseline, PythonPromotionPolicy, PythonPromotionEvidence, PromotionCheck, promote, reject,
  PromotionDisposition, PythonPromotionDecision,
}

-- `str` of an integer; a number has no more digits than its value and one.
abbrev digits : ℕ → ℕ → Text
digits zero n = []
digits (suc fuel) n =
    let front = digits fuel (n / 10) in
    if ltb n 10 then (b'0' + n) ∷ [] else front ++ ((b'0' + n % 10) ∷ [])

unfoldable pub decimal : ℤ → Text
decimal (pos n) = digits (suc n) n
decimal (negsuc n) = b'-' ∷ digits (suc (suc n)) (suc n)

-- `str(flag).lower()`.
abbrev flag_text : Bool → Text
flag_text true = codes "true"
flag_text false = codes "false"

abbrev ratio : ℤ → ℤ → Text
unfolding decimal
ratio passed total = decimal passed ++ (codes "/" ++ decimal total)

abbrev requires : ℤ → ℤ → ℤ → ℤ → Text
unfolding decimal
requires passed total minimum of_total =
    ratio passed total ++ (codes "; requires >= " ++ ratio minimum of_total)

module _ {Float : Type 0} (policy : PythonPromotionPolicy Float)
    (evidence : PythonPromotionEvidence) where
  unfoldable pub combined_gain : PromotionCheck
  unfolding int_ltb decimal
  combined_gain = record {
    check_id = codes "python_combined_gain";
    passed =
        evidence.combined_total == policy.combined.total
        && int_leb policy.minimum_combined_passed evidence.combined_passed;
    detail =
        requires evidence.combined_passed evidence.combined_total policy.minimum_combined_passed
          policy.combined.total;
  }

  abbrev required_passed : SuiteBaseline → ℤ
  required_passed baseline =
      if policy.require_no_suite_below_baseline then baseline.passed else pos 0

  unfoldable pub suite_preservation : Text → ℤ → ℤ → SuiteBaseline → PromotionCheck
  unfolding int_ltb decimal
  suite_preservation check_id passed total baseline = record {
    check_id = check_id;
    passed = total == baseline.total && int_leb (required_passed baseline) passed;
    detail = requires passed total (required_passed baseline) baseline.total;
  }

  unfoldable pub general_tool : PromotionCheck
  unfolding int_ltb decimal
  general_tool = record {
    check_id = codes "general_tool_preservation";
    passed =
        evidence.general_tool_total == policy.general_tool_total
        && (int_leb policy.general_tool_minimum_passed evidence.general_tool_passed
            && int_leb evidence.general_tool_regressions policy.general_tool_maximum_regressions);
    detail =
        ratio evidence.general_tool_passed evidence.general_tool_total
        ++ (codes ", regressions="
            ++ (decimal evidence.general_tool_regressions
                ++ (codes "; requires >= "
                    ++ (ratio policy.general_tool_minimum_passed policy.general_tool_total
                        ++ (codes ", regressions <= "
                            ++ decimal policy.general_tool_maximum_regressions)))));
  }

  unfoldable pub cross_language : PromotionCheck
  unfolding int_ltb decimal
  cross_language = record {
    check_id = codes "cross_language_preservation";
    passed =
        evidence.cross_language_conclusion == policy.cross_language_required_conclusion
        && (evidence.typescript_semantic_total == policy.cross_language_cases_per_language
            && (evidence.rust_semantic_total == policy.cross_language_cases_per_language
                && (int_leb policy.minimum_typescript_semantic_passed
                      evidence.typescript_semantic_passed
                    && int_leb policy.minimum_rust_semantic_passed evidence.rust_semantic_passed)));
    detail =
        codes "conclusion="
        ++ (evidence.cross_language_conclusion
            ++ (codes ", typescript="
                ++ (ratio evidence.typescript_semantic_passed evidence.typescript_semantic_total
                    ++ (codes ", rust="
                        ++ ratio evidence.rust_semantic_passed evidence.rust_semantic_total))));
  }

  unfoldable pub contamination_evidence : PromotionCheck
  contamination_evidence = record {
    check_id = codes "contamination_evidence";
    passed = evidence.contamination_status == policy.required_contamination_status;
    detail =
        codes "status="
        ++ (evidence.contamination_status
            ++ (codes "; requires " ++ policy.required_contamination_status));
  }

  unfoldable pub adapter_load : PromotionCheck
  adapter_load = record {
    check_id = codes "adapter_load_validation";
    passed = evidence.adapter_load_validated || not policy.require_adapter_load_validation;
    detail =
        codes "validated="
        ++ (flag_text evidence.adapter_load_validated
            ++ (codes "; required=" ++ flag_text policy.require_adapter_load_validation));
  }

  unfoldable pub promotion_checks : List PromotionCheck
  unfolding combined_gain suite_preservation general_tool cross_language contamination_evidence
      adapter_load
  promotion_checks =
      combined_gain
      ∷ suite_preservation (codes "humaneval_preservation") evidence.humaneval_passed
          evidence.humaneval_total policy.humaneval
      ∷ suite_preservation (codes "mbpp_preservation") evidence.mbpp_passed evidence.mbpp_total
          policy.mbpp
      ∷ suite_preservation (codes "repository_holdout_preservation")
          evidence.repository_holdout_passed evidence.repository_holdout_total
          policy.repository_holdout
      ∷ general_tool
      ∷ cross_language
      ∷ contamination_evidence
      ∷ adapter_load
      ∷ []

-- The ids of the checks that did not pass.
unfoldable pub failed_checks : List PromotionCheck → List Text
failed_checks [] = []
failed_checks (c ∷ checks) =
    let rest = failed_checks checks in if c.passed then rest else c.check_id ∷ rest

abbrev pub disposition_of : List Text → PromotionDisposition
disposition_of failed = if null failed then promote else reject

abbrev pub recommended_of : PromotionDisposition → Text → Option Text
recommended_of promote adapter_id = some adapter_id
recommended_of reject adapter_id = none

unfoldable pub evaluate_python_adapter_promotion :
    {Float : Type 0}
    → PythonPromotionPolicy Float
    → PythonPromotionEvidence
    → PythonPromotionDecision
unfolding promotion_checks failed_checks
evaluate_python_adapter_promotion policy evidence =
    let checks = promotion_checks policy evidence in
    let failed = failed_checks checks in
    record {
      policy_id = policy.policy_id;
      adapter_id = evidence.adapter_id;
      disposition = disposition_of failed;
      recommended_adapter_id = recommended_of (disposition_of failed) evidence.adapter_id;
      checks = checks;
      rejection_reasons = failed;
    }
