-- ===== src/Promotion/Eligible.antt =====
-- What a recommended adapter has shown, and that better evidence keeps the recommendation.
use tiny_qwen_coder.Prelude.{
  ℕ, subst, ◌≡◌, ◌↔◌, refl, Bool, true, false, not, ◌&&◌, ◌||◌, List, [], ◌∷◌, null, all, some,
  arith, &&-split,
}
use tiny_qwen_coder.Prelude.Eq.{list_eq, nat_eq}
use tiny_qwen_coder.Prelude.Int.{ℤ, pos, int_eq, int_ltb, int_leb, int_beq_iff}
use tiny_qwen_coder.Prelude.Result.{ok, raise_if, >>-ok, raise_if-ok}
use tiny_qwen_coder.TextNormalization.{Text}
use tiny_qwen_coder.Data.Records.{is_blank}
use tiny_qwen_coder.Data.Deduplication.Payload.{codes}
use tiny_qwen_coder.Promotion.{
  SuiteBaseline, PythonPromotionPolicy, PythonPromotionEvidence, PromotionCheck, check_results,
  results_of, check_promotion_evidence, empty_adapter_id, bad_suite_result,
}
use tiny_qwen_coder.Promotion.Decision.{
  combined_gain, suite_preservation, general_tool, cross_language, contamination_evidence,
  adapter_load, promotion_checks, failed_checks, evaluate_python_adapter_promotion, recommended_of,
  disposition_of,
}

infix 40 ◌≤ℤ◌
abbrev pub ◌≤ℤ◌ : ℤ → ℤ → Type 0
a ≤ℤ b = int_leb a b ≡ true

module _ {Float : Type 0} (p : PythonPromotionPolicy Float) where
  -- A suite of the baseline's size; a lower score only where the policy allows it.
  pub record IsPreserved (baseline : SuiteBaseline) (passed total : ℤ) : Type 0 where
    pub size : total ≡ baseline.total
    pub score : p.require_no_suite_below_baseline ≡ true → baseline.passed ≤ℤ passed

  pub record IsEligible (e : PythonPromotionEvidence) : Type 0 where
    pub combined_size : e.combined_total ≡ p.combined.total
    pub combined_score : p.minimum_combined_passed ≤ℤ e.combined_passed
    pub humaneval : IsPreserved p.humaneval e.humaneval_passed e.humaneval_total
    pub mbpp : IsPreserved p.mbpp e.mbpp_passed e.mbpp_total
    pub holdout :
        IsPreserved p.repository_holdout e.repository_holdout_passed e.repository_holdout_total
    pub tool_size : e.general_tool_total ≡ p.general_tool_total
    pub tool_score : p.general_tool_minimum_passed ≤ℤ e.general_tool_passed
    pub tool_regressions : e.general_tool_regressions ≤ℤ p.general_tool_maximum_regressions
    pub conclusion : e.cross_language_conclusion ≡ p.cross_language_required_conclusion
    pub typescript_size : e.typescript_semantic_total ≡ p.cross_language_cases_per_language
    pub rust_size : e.rust_semantic_total ≡ p.cross_language_cases_per_language
    pub typescript_score : p.minimum_typescript_semantic_passed ≤ℤ e.typescript_semantic_passed
    pub rust_score : p.minimum_rust_semantic_passed ≤ℤ e.rust_semantic_passed
    pub contamination : e.contamination_status ≡ p.required_contamination_status
    pub load : p.require_adapter_load_validation ≡ true → e.adapter_load_validated ≡ true

failed-all :
    (checks : List PromotionCheck) → null (failed_checks checks) ≡ all (λ c. c.passed) checks
unfolding failed_checks
failed-all [] = refl
failed-all (c ∷ checks) = ground (arith, failed-all checks)

-- The scores of checked evidence are not negative.
record Scores (e : PythonPromotionEvidence) : Type 0 where
  humaneval : pos 0 ≤ℤ e.humaneval_passed
  mbpp : pos 0 ≤ℤ e.mbpp_passed
  holdout : pos 0 ≤ℤ e.repository_holdout_passed

abbrev outside : ℤ → ℤ → Bool
outside passed total = int_leb total (pos 0) || not (int_leb (pos 0) passed && int_leb passed total)

score-positive : (passed total : ℤ) → outside passed total ≡ false → pos 0 ≤ℤ passed
unfolding int_ltb
score-positive passed total h = ground arith

evidence-Scores : (e : PythonPromotionEvidence) → check_promotion_evidence e ≡ ok tt → Scores e
unfolding check_promotion_evidence
evidence-Scores e h =
    let a = >>-ok (raise_if (is_blank e.adapter_id) empty_adapter_id) _ _ h in
    let results = >>-ok (check_results (results_of e)) _ _ a.1 in
    let first =
      >>-ok (raise_if (outside e.humaneval_passed e.humaneval_total) bad_suite_result) _ _
        results.0 in
    let second =
      >>-ok (raise_if (outside e.mbpp_passed e.mbpp_total) bad_suite_result) _ _ first.1 in
    let third =
      >>-ok
        (raise_if (outside e.repository_holdout_passed e.repository_holdout_total) bad_suite_result)
        _ _ second.1 in
    record {
      humaneval = score-positive e.humaneval_passed e.humaneval_total (raise_if-ok _ _ first.0);
      mbpp = score-positive e.mbpp_passed e.mbpp_total (raise_if-ok _ _ second.0);
      holdout =
          score-positive e.repository_holdout_passed e.repository_holdout_total
            (raise_if-ok _ _ third.0);
    }

load_passed :
    (validated required : Bool)
    → (required ≡ true → validated ≡ true)
    → (validated || not required) ≡ true
load_passed true required h = refl
load_passed false true h = h refl
load_passed false false h = refl

recommended_null :
    (failed : List Text) (a id : Text)
    → (recommended_of (disposition_of failed) id ≡ some a) ↔ ((null failed ≡ true) × (a ≡ id))
recommended_null [] a id = ground arith
recommended_null (r ∷ failed) a id = ground arith

recommended_when :
    (checks : List PromotionCheck) (a id : Text)
    → (recommended_of (disposition_of (failed_checks checks)) id ≡ some a)
      ↔ ((all (λ c. c.passed) checks ≡ true) × (a ≡ id))
recommended_when checks a id =
    subst
      (λ b.
        (recommended_of (disposition_of (failed_checks checks)) id ≡ some a)
        ↔ ((b ≡ true) × (a ≡ id)))
      (failed-all checks) (recommended_null (failed_checks checks) a id)

module _ {Float : Type 0} (p : PythonPromotionPolicy Float) (e : PythonPromotionEvidence) where
  suite_iff :
      (check_id : Text) (passed total : ℤ) (baseline : SuiteBaseline)
      → pos 0 ≤ℤ passed
      → ((suite_preservation p e check_id passed total baseline).passed ≡ true)
        ↔ IsPreserved p baseline passed total
  unfolding suite_preservation
  suite_iff check_id passed total baseline h = (
    λ k. record {
      size = ground (arith, int_beq_iff total baseline.total);
      score = λ r. ground arith;
    },
    λ k. ground (arith, int_beq_iff total baseline.total, k.size, k.score),
  )

  combined_iff :
      ((combined_gain p e).passed ≡ true)
      ↔ ((e.combined_total ≡ p.combined.total) × (p.minimum_combined_passed ≤ℤ e.combined_passed))
  unfolding combined_gain
  combined_iff = ground (arith, int_beq_iff e.combined_total p.combined.total)

  tool_iff : ((general_tool p e).passed ≡ true) ↔ (
      (e.general_tool_total ≡ p.general_tool_total)
      × ((p.general_tool_minimum_passed ≤ℤ e.general_tool_passed)
          × (e.general_tool_regressions ≤ℤ p.general_tool_maximum_regressions)))
  unfolding general_tool
  tool_iff = ground (arith, int_beq_iff e.general_tool_total p.general_tool_total)

  cross_iff : ((cross_language p e).passed ≡ true) ↔ (
      (e.cross_language_conclusion ≡ p.cross_language_required_conclusion)
      × ((e.typescript_semantic_total ≡ p.cross_language_cases_per_language)
          × ((e.rust_semantic_total ≡ p.cross_language_cases_per_language)
              × ((p.minimum_typescript_semantic_passed ≤ℤ e.typescript_semantic_passed)
                  × (p.minimum_rust_semantic_passed ≤ℤ e.rust_semantic_passed)))))
  unfolding cross_language
  cross_iff = ground (
    arith,
    (list_eq {A = ℕ}).equals_iff e.cross_language_conclusion p.cross_language_required_conclusion,
    int_beq_iff e.typescript_semantic_total p.cross_language_cases_per_language,
    int_beq_iff e.rust_semantic_total p.cross_language_cases_per_language,
  )

  contamination_iff :
      ((contamination_evidence p e).passed ≡ true)
      ↔ (e.contamination_status ≡ p.required_contamination_status)
  unfolding contamination_evidence
  contamination_iff =
      (list_eq {A = ℕ}).equals_iff e.contamination_status p.required_contamination_status

  load_iff :
      ((adapter_load p e).passed ≡ true)
      ↔ (p.require_adapter_load_validation ≡ true → e.adapter_load_validated ≡ true)
  unfolding adapter_load
  load_iff = (λ h r. ground arith, λ h. load_passed e.adapter_load_validated _ h)

  gates_iff : Scores e → (all (λ c. c.passed) (promotion_checks p e) ≡ true) ↔ IsEligible p e
  unfolding promotion_checks
  gates_iff s =
      let human =
        suite_iff (codes "humaneval_preservation") e.humaneval_passed e.humaneval_total p.humaneval
          s.humaneval in
      let mbpp = suite_iff (codes "mbpp_preservation") e.mbpp_passed e.mbpp_total p.mbpp s.mbpp in
      let holdout =
        suite_iff (codes "repository_holdout_preservation") e.repository_holdout_passed
          e.repository_holdout_total p.repository_holdout s.holdout in
      (
        λ k.
            let a = &&-split _ _ k in
            let b = &&-split _ _ a.1 in
            let c = &&-split _ _ b.1 in
            let d = &&-split _ _ c.1 in
            let f = &&-split _ _ d.1 in
            let g = &&-split _ _ f.1 in
            let h = &&-split _ _ g.1 in
            let l = &&-split _ _ h.1 in
            let combined = combined_iff.0 a.0 in
            let tool = tool_iff.0 f.0 in
            let cross = cross_iff.0 g.0 in
            record {
              combined_size = combined.0;
              combined_score = combined.1;
              humaneval = human.0 b.0;
              mbpp = mbpp.0 c.0;
              holdout = holdout.0 d.0;
              tool_size = tool.0;
              tool_score = tool.1.0;
              tool_regressions = tool.1.1;
              conclusion = cross.0;
              typescript_size = cross.1.0;
              rust_size = cross.1.1.0;
              typescript_score = cross.1.1.1.0;
              rust_score = cross.1.1.1.1;
              contamination = contamination_iff.0 h.0;
              load = load_iff.0 l.0;
            },
        λ k. rw (
          combined_iff.1 (k.combined_size, k.combined_score),
          human.1 k.humaneval,
          mbpp.1 k.mbpp,
          holdout.1 k.holdout,
          tool_iff.1 (k.tool_size, (k.tool_score, k.tool_regressions)),
          cross_iff.1 (
            k.conclusion,
            (k.typescript_size, (k.rust_size, (k.typescript_score, k.rust_score))),
          ),
          contamination_iff.1 k.contamination,
          load_iff.1 k.load,
        ),
      )

  recommended_iff :
      (a : Text)
      → ((evaluate_python_adapter_promotion p e).recommended_adapter_id ≡ some a)
        ↔ ((all (λ c. c.passed) (promotion_checks p e) ≡ true) × (a ≡ e.adapter_id))
  unfolding evaluate_python_adapter_promotion
  recommended_iff a = recommended_when (promotion_checks p e) a e.adapter_id

  -- For checked evidence the decision recommends an adapter exactly when it is the adapter of the
  -- evidence and the evidence meets every condition of the policy.
  pub evaluate-IsEligible_iff :
      (a : Text)
      → check_promotion_evidence e ≡ ok tt
      → ((evaluate_python_adapter_promotion p e).recommended_adapter_id ≡ some a)
        ↔ (IsEligible p e × (a ≡ e.adapter_id))
  evaluate-IsEligible_iff a h =
      let gates = gates_iff (evidence-Scores e h) in
      let rec = recommended_iff a in
      (λ k. (gates.0 (rec.0 k).0, (rec.0 k).1), λ k. rec.1 (gates.1 k.0, k.1))
