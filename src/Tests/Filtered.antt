-- ===== src/Tests/Filtered.antt =====
-- The filter at small inputs.
use tiny_qwen_coder.Prelude.{◌≡◌, ◌↔◌, refl, List, [], ◌∷◌, none, true, All}
use tiny_qwen_coder.Prelude.Eq.{list_beq, elem}
use tiny_qwen_coder.Prelude.Result.{ok}
use tiny_qwen_coder.TextNormalization.{
  utf8_encodable, remove_prefix, replace_crlf, replace_cr, normalize_training_text,
}
use tiny_qwen_coder.Data.Records.{role_beq, is_blank, NormalizedTrainingRecord}
use tiny_qwen_coder.Data.Filtering.{
  reason_beq, empty_response, normalize_messages, normalize_record_text,
  conversation_is_well_formed, content_rejection_reasons, examine, update, rejected_record,
  filter_step, check_filter_report, check_rejected_record, filter_required_content,
  RequiredContentFilterReport,
}
use tiny_qwen_coder.Data.Filtering.Conversation.{Conversation, conversation_is_well_formed_iff}
use tiny_qwen_coder.Data.Filtering.Report.{
  accepted_of, rejected_from, count_with, expected_report, filter_required_content-report,
}
use tiny_qwen_coder.Data.Filtering.Accepted.{IsAcceptable, filter_required_content-IsAcceptable}
use tiny_qwen_coder.Data.Deduplication.Payload.{codes}
use tiny_qwen_coder.Tests.Samples.{round_of, sample}

abbrev inputs : List NormalizedTrainingRecord
inputs = sample none (codes "q") (codes "a\n") ∷ sample none (codes "q") (codes " ") ∷ []

abbrev outcome : RequiredContentFilterReport
outcome = record {
  total_records = 2;
  accepted_records = sample none (codes "q") (codes "a\n") ∷ [];
  rejected_records =
      record {
        input_index = 1;
        language = codes "python";
        source_id = codes "olmo";
        source_record_id = none;
        reasons = empty_response ∷ [];
      }
      ∷ [];
  reason_counts = (expected_report inputs).reason_counts;
}

run : Unit {0}
unfolding filter_required_content examine normalize_record_text normalize_messages
    normalize_training_text utf8_encodable remove_prefix replace_crlf replace_cr
    content_rejection_reasons conversation_is_well_formed role_beq is_blank reason_beq filter_step
    rejected_record update check_rejected_record check_filter_report list_beq elem rejected_from
    count_with accepted_of
run = tt

filter_required_content-inputs : filter_required_content inputs ≡ ok outcome
unfolding run
filter_required_content-inputs = refl

filter_required_content-report_example :
    filter_required_content inputs ≡ ok (expected_report inputs)
filter_required_content-report_example = filter_required_content-report inputs

filter_required_content-IsAcceptable_example : All IsAcceptable outcome.accepted_records
filter_required_content-IsAcceptable_example =
    filter_required_content-IsAcceptable inputs outcome filter_required_content-inputs

conversation_is_well_formed_iff_example :
    (conversation_is_well_formed (round_of (codes "q") (codes "a")) ≡ true)
    ↔ Conversation (round_of (codes "q") (codes "a"))
conversation_is_well_formed_iff_example =
    conversation_is_well_formed_iff (round_of (codes "q") (codes "a"))
