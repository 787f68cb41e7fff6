-- ===== src/LossMasking/Built.antt =====
-- The report as a whole, and what it proves of the mask.
use tiny_qwen_coder.Prelude.{
  ℕ, suc, ◌-◌, ◌≡◌, ap, subst, sym, ◌∙◌, Bool, List, [], ◌∷◌, map, length, none, some,
  if◌then◌else◌, arith,
}
use tiny_qwen_coder.Prelude.Int.{ℤ}
use tiny_qwen_coder.Prelude.Result.{Result, ok, ◌>>◌, ◌>>=◌, >>-ok, >>=-ok, ok-value}
use tiny_qwen_coder.TextNormalization.{Text}
use tiny_qwen_coder.LossMasking.{
  LossMaskingError, ChatMessage, LossMaskSpan, LossMaskToken, check_token, TokenizedLossExample,
  loss_spans,
}
use tiny_qwen_coder.LossMasking.Spans.{masked, span_count, loss_spans-runs}
use tiny_qwen_coder.LossMasking.Report.{
  Tokenizer, InspectionTarget, ChatLossMaskReport, TrlMask, count_true, check_mask_report,
  require_template, assistant_mask, trl_mask, chosen_example, tokens_from, selected_ids, loss_token,
}

-- `training_template or checkpoint_template`.
abbrev effective_template : Tokenizer → Text → Text
effective_template t checkpoint = elim t.training_template [
  | none ↦ checkpoint
  | some template ↦ template
]

-- The fields of the report, from the values that the function has computed.
abbrev report_of :
    Tokenizer
    → InspectionTarget
    → Text
    → List Bool
    → TrlMask
    → TokenizedLossExample
    → List ℤ
    → List LossMaskToken
    → List LossMaskSpan
    → ChatLossMaskReport
report_of t target checkpoint checkpoint_mask trl e selected tokens spans =
    let effective = effective_template t checkpoint in
    record {
      schema_version = 1;
      tokenizer_repository = target.tokenizer_repository;
      tokenizer_revision = target.tokenizer_revision;
      tokenizer_class = t.tokenizer_class;
      trl_version = t.trl_version;
      checkpoint_chat_template_sha256 = t.sha256 checkpoint;
      checkpoint_has_generation_markers = t.has_generation_markers checkpoint;
      checkpoint_assistant_token_count = count_true checkpoint_mask;
      trl_training_template_sha256 =
          if t.has_generation_markers effective then some (t.sha256 effective) else none;
      trl_training_template_has_generation_markers = t.has_generation_markers effective;
      trl_assistant_token_count = trl.assistant_count;
      trl_stop_token_trained = trl.stop_token_trained;
      strategy = e.strategy;
      token_count = length e.input_ids;
      loss_token_count = count_true e.loss_mask;
      ignored_token_count = length e.input_ids - count_true e.loss_mask;
      loss_spans_of = spans;
      loss_text = t.decode selected;
      tokens = tokens;
    }

-- The end of the function, from the example on.
unfoldable pub finish_report :
    Tokenizer
    → InspectionTarget
    → Text
    → List Bool
    → TrlMask
    → TokenizedLossExample
    → Result LossMaskingError ChatLossMaskReport
unfolding selected_ids tokens_from loss_spans check_mask_report
finish_report t target checkpoint checkpoint_mask trl e =
    selected_ids e.input_ids e.loss_mask >>= λ selected.
    tokens_from t 0 e.input_ids e.loss_mask >>= λ tokens. loss_spans e.loss_mask >>= λ spans.
    check_mask_report (report_of t target checkpoint checkpoint_mask trl e selected tokens spans)
    >> ok (report_of t target checkpoint checkpoint_mask trl e selected tokens spans)

unfoldable pub build_chat_loss_mask_report :
    Tokenizer → InspectionTarget → List ChatMessage → Result LossMaskingError ChatLossMaskReport
unfolding require_template assistant_mask trl_mask chosen_example finish_report
build_chat_loss_mask_report t target messages = require_template t >>= λ checkpoint.
    assistant_mask t messages checkpoint >>= λ encoded.
    trl_mask t messages (effective_template t checkpoint) >>= λ trl.
    chosen_example t messages checkpoint trl.tokenized >>= λ e.
    finish_report t target checkpoint encoded.1 trl e

abbrev pub token_mask : List LossMaskToken → List Bool
token_mask tokens = map (λ token. token.receives_loss) tokens

tokens-mask :
    (t : Tokenizer) (n : ℕ) (ids selected : List ℤ) (mask : List Bool) (tokens : List LossMaskToken)
    → selected_ids ids mask ≡ ok selected
    → tokens_from t n ids mask ≡ ok tokens
    → token_mask tokens ≡ mask
unfolding tokens_from selected_ids
tokens-mask t n [] selected [] tokens h k = ap token_mask (sym (ok-value _ _ k))
tokens-mask t n (i ∷ ids) selected (b ∷ mask) tokens h k =
    let rest = >>=-ok (selected_ids ids mask) _ _ h in
    let valid = >>-ok (check_token (loss_token t n i b)) _ _ k in
    let later = >>=-ok (tokens_from t (suc n) ids mask) _ _ valid.1 in
    ap token_mask (sym (ok-value _ _ later.1.1))
    ∙ ap (λ m. b ∷ m) (tokens-mask t (suc n) ids rest.0 mask later.0 rest.1.0 later.1.0)
tokens-mask t n [] selected (b ∷ mask) tokens h k = absurd (ground arith)
tokens-mask t n (i ∷ ids) selected [] tokens h k = absurd (ground arith)

finish_report-spans :
    (t : Tokenizer) (target : InspectionTarget) (checkpoint : Text) (checkpoint_mask : List Bool)
    (trl : TrlMask) (e : TokenizedLossExample) (r : ChatLossMaskReport)
    → finish_report t target checkpoint checkpoint_mask trl e ≡ ok r
    → (i : ℕ) → span_count i r.loss_spans_of ≡ (if masked (token_mask r.tokens) i then 1 else 0)
unfolding finish_report
finish_report-spans t target checkpoint checkpoint_mask trl e r h =
    let a = >>=-ok (selected_ids e.input_ids e.loss_mask) _ _ h in
    let b = >>=-ok (tokens_from t 0 e.input_ids e.loss_mask) _ _ a.1.1 in
    let c = >>=-ok (loss_spans e.loss_mask) _ _ b.1.1 in
    let d =
      >>-ok (check_mask_report (report_of t target checkpoint checkpoint_mask trl e a.0 b.0 c.0)) _
        _ c.1.1 in
    let runs = loss_spans-runs e.loss_mask in
    let same : runs.0 ≡ c.0 = ok-value _ _ (sym runs.1.0 ∙ c.1.0) in
    let mask = tokens-mask t 0 e.input_ids a.0 e.loss_mask b.0 a.1.0 b.1.0 in
    λ i.
      subst (λ x. span_count i x.loss_spans_of ≡ (if masked (token_mask x.tokens) i then 1 else 0))
        (ok-value _ _ d.1)
        (ap (λ spans. span_count i spans) (sym same)
          ∙ (runs.1.1.1 i ∙ ap (λ m. if masked m i then 1 else 0) (sym mask)))

-- When the report is built, each of its tokens is in one of its spans, and in no other, when it
-- receives loss, and in none when it does not.
pub build_chat_loss_mask_report-spans :
    (t : Tokenizer) (target : InspectionTarget) (messages : List ChatMessage)
    (r : ChatLossMaskReport) (i : ℕ)
    → build_chat_loss_mask_report t target messages ≡ ok r
    → span_count i r.loss_spans_of ≡ (if masked (token_mask r.tokens) i then 1 else 0)
unfolding build_chat_loss_mask_report
build_chat_loss_mask_report-spans t target messages r i h =
    let a = >>=-ok (require_template t) _ _ h in
    let b = >>=-ok (assistant_mask t messages a.0) _ _ a.1.1 in
    let c = >>=-ok (trl_mask t messages (effective_template t a.0)) _ _ b.1.1 in
    let d = >>=-ok (chosen_example t messages a.0 c.0.tokenized) _ _ c.1.1 in
    finish_report-spans t target a.0 b.0.1 c.0 d.0 r d.1.1 i
