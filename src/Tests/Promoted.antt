-- ===== src/Tests/Promoted.antt =====
-- The promotion gates at the scores of a small baseline.
use tiny_qwen_coder.Prelude.{◌≡◌, ◌↔◌, refl, true, false, [], ◌∷◌, some, replicate}
use tiny_qwen_coder.Prelude.Eq.{list_beq}
use tiny_qwen_coder.Prelude.Int.{pos, int_ltb}
use tiny_qwen_coder.Prelude.Result.{ok}
use tiny_qwen_coder.Data.Deduplication.Payload.{codes}
use tiny_qwen_coder.Promotion.{
  PythonPromotionPolicy, PythonPromotionEvidence, check_promotion_policy, check_promotion_evidence,
}
use tiny_qwen_coder.Promotion.Decision.{evaluate_python_adapter_promotion}
use tiny_qwen_coder.Promotion.Eligible.{IsEligible, evaluate-IsEligible_iff}
use tiny_qwen_coder.Promotion.Better.{IsAsGood, evaluate-better}

abbrev policy : PythonPromotionPolicy (Unit {0})
policy = record {
  schema_version = pos 1;
  policy_id = codes "python-promotion-v1";
  language = codes "python";
  baseline_source_git_sha = replicate 40 b'0';
  baseline_artifact_set_sha256 = replicate 64 b'0';
  humaneval = record { passed = pos 3; total = pos 5 };
  mbpp = record { passed = pos 2; total = pos 5 };
  repository_holdout = record { passed = pos 1; total = pos 5 };
  combined = record { passed = pos 6; total = pos 15 };
  minimum_combined_absolute_gain = tt;
  minimum_combined_passed = pos 7;
  require_no_suite_below_baseline = true;
  general_tool_minimum_passed = pos 4;
  general_tool_total = pos 5;
  general_tool_maximum_regressions = pos 0;
  cross_language_required_conclusion = codes "preserved";
  minimum_typescript_semantic_passed = pos 1;
  minimum_rust_semantic_passed = pos 1;
  cross_language_cases_per_language = pos 2;
  required_contamination_status = codes "clean";
  require_adapter_load_validation = true;
}

policy_accepted : check_promotion_policy (λ x. true) (λ x n. pos 1) policy ≡ ok tt
unfolding check_promotion_policy list_beq
policy_accepted = refl

abbrev shown : PythonPromotionEvidence
shown = record {
  adapter_id = codes "python-a";
  humaneval_passed = pos 3;
  humaneval_total = pos 5;
  mbpp_passed = pos 3;
  mbpp_total = pos 5;
  repository_holdout_passed = pos 1;
  repository_holdout_total = pos 5;
  combined_passed = pos 7;
  combined_total = pos 15;
  general_tool_passed = pos 4;
  general_tool_total = pos 5;
  general_tool_regressions = pos 0;
  cross_language_conclusion = codes "preserved";
  typescript_semantic_passed = pos 1;
  typescript_semantic_total = pos 2;
  rust_semantic_passed = pos 2;
  rust_semantic_total = pos 2;
  contamination_status = codes "clean";
  adapter_load_validated = true;
}

abbrev better : PythonPromotionEvidence
better = record shown { mbpp_passed = pos 4; combined_passed = pos 8 }

abbrev worse : PythonPromotionEvidence
worse = record shown { humaneval_passed = pos 2; adapter_load_validated = false }

shown_accepted : check_promotion_evidence shown ≡ ok tt
unfolding check_promotion_evidence
shown_accepted = refl

better_accepted : check_promotion_evidence better ≡ ok tt
unfolding check_promotion_evidence
better_accepted = refl

shown_recommended :
    (evaluate_python_adapter_promotion policy shown).recommended_adapter_id
    ≡ some (codes "python-a")
unfolding evaluate_python_adapter_promotion list_beq
shown_recommended = refl

worse_rejected :
    (evaluate_python_adapter_promotion policy worse).rejection_reasons
    ≡ codes "humaneval_preservation" ∷ codes "adapter_load_validation" ∷ []
unfolding evaluate_python_adapter_promotion list_beq
worse_rejected = refl

better-IsAsGood : IsAsGood shown better
unfolding int_ltb
better-IsAsGood = record {
  combined_size = refl;
  combined = refl;
  humaneval_size = refl;
  humaneval = refl;
  mbpp_size = refl;
  mbpp = refl;
  holdout_size = refl;
  holdout = refl;
  tool_size = refl;
  tool = refl;
  regressions = refl;
  conclusion = refl;
  typescript_size = refl;
  typescript = refl;
  rust_size = refl;
  rust = refl;
  contamination = refl;
  load = λ h. h;
}

evaluate-IsEligible_iff_example :
    ((evaluate_python_adapter_promotion policy shown).recommended_adapter_id
      ≡ some (codes "python-a"))
    ↔ (IsEligible policy shown × (codes "python-a" ≡ shown.adapter_id))
evaluate-IsEligible_iff_example =
    evaluate-IsEligible_iff policy shown (codes "python-a") shown_accepted

evaluate-better_example :
    (evaluate_python_adapter_promotion policy better).recommended_adapter_id
    ≡ some (codes "python-a")
evaluate-better_example =
    evaluate-better policy shown better better-IsAsGood shown_accepted better_accepted
      shown_recommended
