-- ===== src/Promotion/Better.antt =====
-- Better evidence does not cost an adapter its recommendation.
use tiny_qwen_coder.Prelude.{◌≡◌, ◌∙◌, refl, true, some}
use tiny_qwen_coder.Prelude.Int.{ℤ, int_leb_trans}
use tiny_qwen_coder.Prelude.Result.{ok}
use tiny_qwen_coder.Promotion.{
  SuiteBaseline, PythonPromotionPolicy, PythonPromotionEvidence, check_promotion_evidence,
}
use tiny_qwen_coder.Promotion.Decision.{evaluate_python_adapter_promotion}
use tiny_qwen_coder.Promotion.Eligible.{◌≤ℤ◌, IsPreserved, IsEligible, evaluate-IsEligible_iff}

-- Evidence that is at least as good, over the same suites.
pub record IsAsGood (e f : PythonPromotionEvidence) : Type 0 where
  pub combined_size : f.combined_total ≡ e.combined_total
  pub combined : e.combined_passed ≤ℤ f.combined_passed
  pub humaneval_size : f.humaneval_total ≡ e.humaneval_total
  pub humaneval : e.humaneval_passed ≤ℤ f.humaneval_passed
  pub mbpp_size : f.mbpp_total ≡ e.mbpp_total
  pub mbpp : e.mbpp_passed ≤ℤ f.mbpp_passed
  pub holdout_size : f.repository_holdout_total ≡ e.repository_holdout_total
  pub holdout : e.repository_holdout_passed ≤ℤ f.repository_holdout_passed
  pub tool_size : f.general_tool_total ≡ e.general_tool_total
  pub tool : e.general_tool_passed ≤ℤ f.general_tool_passed
  pub regressions : f.general_tool_regressions ≤ℤ e.general_tool_regressions
  pub conclusion : f.cross_language_conclusion ≡ e.cross_language_conclusion
  pub typescript_size : f.typescript_semantic_total ≡ e.typescript_semantic_total
  pub typescript : e.typescript_semantic_passed ≤ℤ f.typescript_semantic_passed
  pub rust_size : f.rust_semantic_total ≡ e.rust_semantic_total
  pub rust : e.rust_semantic_passed ≤ℤ f.rust_semantic_passed
  pub contamination : f.contamination_status ≡ e.contamination_status
  pub load : e.adapter_load_validated ≡ true → f.adapter_load_validated ≡ true

module _ {Float : Type 0} (p : PythonPromotionPolicy Float) (e f : PythonPromotionEvidence)
    (good : IsAsGood e f) where
  better-IsPreserved :
      (base : SuiteBaseline) (passed total better size : ℤ)
      → passed ≤ℤ better
      → size ≡ total
      → IsPreserved p base passed total
      → IsPreserved p base better size
  better-IsPreserved base passed total better size h e k = record {
    size = e ∙ k.size;
    score = λ r. int_leb_trans base.passed passed better (k.score r) h;
  }

  better-IsEligible : IsEligible p e → IsEligible p f
  better-IsEligible k = record {
    combined_size = good.combined_size ∙ k.combined_size;
    combined_score = int_leb_trans _ e.combined_passed _ k.combined_score good.combined;
    humaneval = better-IsPreserved _ _ _ _ _ good.humaneval good.humaneval_size k.humaneval;
    mbpp = better-IsPreserved _ _ _ _ _ good.mbpp good.mbpp_size k.mbpp;
    holdout = better-IsPreserved _ _ _ _ _ good.holdout good.holdout_size k.holdout;
    tool_size = good.tool_size ∙ k.tool_size;
    tool_score = int_leb_trans _ e.general_tool_passed _ k.tool_score good.tool;
    tool_regressions =
        int_leb_trans _ e.general_tool_regressions _ good.regressions k.tool_regressions;
    conclusion = good.conclusion ∙ k.conclusion;
    typescript_size = good.typescript_size ∙ k.typescript_size;
    rust_size = good.rust_size ∙ k.rust_size;
    typescript_score =
        int_leb_trans _ e.typescript_semantic_passed _ k.typescript_score good.typescript;
    rust_score = int_leb_trans _ e.rust_semantic_passed _ k.rust_score good.rust;
    contamination = good.contamination ∙ k.contamination;
    load = λ r. good.load (k.load r);
  }

  -- When the decision recommends the adapter of some checked evidence, it also recommends the
  -- adapter of checked evidence that is at least as good over the same suites.
  pub evaluate-better :
      check_promotion_evidence e ≡ ok tt
      → check_promotion_evidence f ≡ ok tt
      → (evaluate_python_adapter_promotion p e).recommended_adapter_id ≡ some e.adapter_id
      → (evaluate_python_adapter_promotion p f).recommended_adapter_id ≡ some f.adapter_id
  evaluate-better he hf r =
      let eligible = ((evaluate-IsEligible_iff p e e.adapter_id he).0 r).0 in
      (evaluate-IsEligible_iff p f f.adapter_id hf).1 (better-IsEligible eligible, refl)
