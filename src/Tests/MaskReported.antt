-- ===== src/Tests/MaskReported.antt =====
-- The report of the fallback, where the tokenizer's template marks no assistant tokens.
use tiny_qwen_coder.Prelude.{◌≡◌, refl, true, false, [], ◌∷◌, map, some, none, if◌then◌else◌}
use tiny_qwen_coder.Prelude.Eq.{list_beq}
use tiny_qwen_coder.Prelude.Int.{pos}
use tiny_qwen_coder.Prelude.Result.{ok}
use tiny_qwen_coder.LossMasking.{completion_only}
use tiny_qwen_coder.LossMasking.Spans.{masked, span_count}
use tiny_qwen_coder.LossMasking.Report.{Tokenizer, InspectionTarget, ChatLossMaskReport, loss_token}
use tiny_qwen_coder.LossMasking.Built.{
  build_chat_loss_mask_report, token_mask, build_chat_loss_mask_report-spans,
}
use tiny_qwen_coder.Tests.LossMasked.{sample_tokens, chat}

abbrev plain_tokenizer : Tokenizer
plain_tokenizer = record {
  chat_template = some (1 ∷ []);
  tokenizer_class = [];
  trl_version = [];
  sha256 = λ text. text;
  tokenize = λ template messages add. sample_tokens messages add;
  encode = λ template messages.
      (sample_tokens messages false, map (λ x. pos 0) (sample_tokens messages false));
  decode = λ ids. [];
  training_template = none;
  has_generation_markers = λ template. false;
  is_stop_token_trained = λ template. false;
}

abbrev target : InspectionTarget
target = record { tokenizer_repository = 1 ∷ []; tokenizer_revision = 2 ∷ [] }

abbrev chat_report : ChatLossMaskReport
chat_report = record {
  schema_version = 1;
  tokenizer_repository = 1 ∷ [];
  tokenizer_revision = 2 ∷ [];
  tokenizer_class = [];
  trl_version = [];
  checkpoint_chat_template_sha256 = 1 ∷ [];
  checkpoint_has_generation_markers = false;
  checkpoint_assistant_token_count = 0;
  trl_training_template_sha256 = none;
  trl_training_template_has_generation_markers = false;
  trl_assistant_token_count = 0;
  trl_stop_token_trained = false;
  strategy = completion_only;
  token_count = 5;
  loss_token_count = 2;
  ignored_token_count = 3;
  loss_spans_of = record { start = 3; end = 5 } ∷ [];
  loss_text = [];
  tokens =
      loss_token plain_tokenizer 0 (pos 0) false
      ∷ loss_token plain_tokenizer 1 (pos 7) false
      ∷ loss_token plain_tokenizer 2 (pos 0) false
      ∷ loss_token plain_tokenizer 3 (pos 8) true
      ∷ loss_token plain_tokenizer 4 (pos 9) true
      ∷ [];
}

chat_report-built : build_chat_loss_mask_report plain_tokenizer target chat ≡ ok chat_report
unfolding build_chat_loss_mask_report list_beq
chat_report-built = refl

build_chat_loss_mask_report-spans_example :
    span_count 3 chat_report.loss_spans_of
    ≡ (if masked (token_mask chat_report.tokens) 3 then 1 else 0)
build_chat_loss_mask_report-spans_example =
    build_chat_loss_mask_report-spans plain_tokenizer target chat chat_report 3 chat_report-built
