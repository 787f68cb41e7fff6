-- ===== src/Data/Filtering.antt =====
-- src/tiny_qwen_coder/data/filtering.py: the filter for required content. `check_x` is the
-- `__post_init__` of the class `X`; counts and indices are natural numbers, so its tests for
-- negative ones are left out.
pub mod Conversation
pub mod Report
pub mod Accepted
use tiny_qwen_coder.Prelude.{
  ℕ, zero, suc, ◌+◌, ◌≡◌, Bool, true, false, not, ◌&&◌, ◌||◌, List, [], ◌∷◌, ◌++◌, map, Option,
  none, some, any, null, last?, length, if◌then◌else◌, arith, ◌↔◌,
}
use tiny_qwen_coder.Prelude.Eq.{Eq, ◌==◌, nat_eq, list_eq, option_eq, distinct, elem, from_keys}
use tiny_qwen_coder.Prelude.Result.{Result, ok, err, ◌>>=◌, ◌>>◌, raise_if}
use tiny_qwen_coder.TextNormalization.{Text, normalize_training_text}
use tiny_qwen_coder.Data.Records.{
  MessageRole, system, user, assistant, role_beq, role_eq, TrainingMessage,
  NormalizedTrainingRecord, is_blank,
}

pub data ContentRejectionReason : Type 0 where
  invalid_text_encoding malformed_record empty_prompt empty_response : ContentRejectionReason

unfoldable pub reason_beq : ContentRejectionReason → ContentRejectionReason → Bool
reason_beq invalid_text_encoding invalid_text_encoding = true
reason_beq malformed_record malformed_record = true
reason_beq empty_prompt empty_prompt = true
reason_beq empty_response empty_response = true
reason_beq _ _ = false

pub reason_beq_iff : (a b : ContentRejectionReason) → (reason_beq a b ≡ true) ↔ (a ≡ b)
unfolding reason_beq
reason_beq_iff invalid_text_encoding b = ground arith
reason_beq_iff malformed_record b = ground arith
reason_beq_iff empty_prompt b = ground arith
reason_beq_iff empty_response b = ground arith

instance abbrev pub reason_eq : Eq ContentRejectionReason
reason_eq = record { equals = reason_beq; equals_iff = reason_beq_iff }

-- `tuple(ContentRejectionReason)`
abbrev pub all_reasons : List ContentRejectionReason
all_reasons = invalid_text_encoding ∷ malformed_record ∷ empty_prompt ∷ empty_response ∷ []

pub record RejectionReasonCount : Type 0 where
  pub reason : ContentRejectionReason
  pub count : ℕ

pub record RejectedTrainingRecord : Type 0 where
  pub input_index : ℕ
  pub language : Text
  pub source_id : Text
  pub source_record_id : Option Text
  pub reasons : List ContentRejectionReason

pub record RequiredContentFilterReport : Type 0 where
  pub total_records : ℕ
  pub accepted_records : List NormalizedTrainingRecord
  pub rejected_records : List RejectedTrainingRecord
  pub reason_counts : List RejectionReasonCount

pub data FilterError : Type 0 where
  no_reasons repeated_reasons : FilterError
  wrong_total wrong_reason_counts : FilterError

unfoldable pub check_rejected_record : RejectedTrainingRecord → Result FilterError (Unit {0})
unfolding distinct
check_rejected_record r = do
  raise_if (null r.reasons) no_reasons
  raise_if (not (distinct r.reasons)) repeated_reasons

unfoldable pub check_filter_report : RequiredContentFilterReport → Result FilterError (Unit {0})
check_filter_report r = do
  raise_if (not (r.total_records == length r.accepted_records + length r.rejected_records))
      wrong_total
  raise_if (not (map (λ c. c.reason) r.reason_counts == all_reasons)) wrong_reason_counts

-- `none` where the encoding of a text fails.
unfoldable pub normalize_messages : List TrainingMessage → Option (List TrainingMessage)
normalize_messages [] = some []
normalize_messages (m ∷ ms) =
    let rest = normalize_messages ms in
    elim (normalize_training_text m.content) [
      | none ↦ none
      | some content ↦ elim rest [
        | none ↦ none
        | some ms' ↦ some (record m { content = content } ∷ ms')
      ]
    ]

unfoldable pub normalize_record_text : NormalizedTrainingRecord → Option NormalizedTrainingRecord
normalize_record_text r = elim (normalize_messages r.messages) [
  | none ↦ none
  | some ms ↦ some (record r { messages = ms })
]

-- The loop of `_conversation_is_well_formed` from an expected role.
unfoldable pub roles_alternate : MessageRole → List TrainingMessage → Bool
roles_alternate expected [] = true
roles_alternate expected (m ∷ ms) =
    if m.role == expected
    then roles_alternate (if expected == user then assistant else user) ms
    else false

abbrev ends_with_assistant : List TrainingMessage → Bool
ends_with_assistant ms = elim (last? ms) [ none ↦ false | some m ↦ m.role == assistant ]

unfoldable pub conversation_is_well_formed : List TrainingMessage → Bool
unfolding roles_alternate
conversation_is_well_formed [] = false
conversation_is_well_formed (m ∷ ms) =
    let turns = if m.role == system then ms else m ∷ ms in
    not (null turns) && roles_alternate user turns && ends_with_assistant (m ∷ ms)

abbrev has_blank : MessageRole → List TrainingMessage → Bool
has_blank r ms = any (λ m. m.role == r && is_blank m.content) ms

unfoldable pub content_rejection_reasons : NormalizedTrainingRecord → List ContentRejectionReason
content_rejection_reasons r =
    (if conversation_is_well_formed r.messages then [] else malformed_record ∷ [])
    ++ ((if has_blank user r.messages then empty_prompt ∷ [] else [])
        ++ (if has_blank assistant r.messages then empty_response ∷ [] else []))

-- `Counter`
abbrev pub Counts : Type 0
Counts = ContentRejectionReason → ℕ

unfoldable pub update : List ContentRejectionReason → Counts → Counts
update [] counts r = counts r
update (x ∷ xs) counts r = update xs (λ s. if x == s then counts s + 1 else counts s) r

-- The reasons against a record, given its normalisation: `none` is the UnicodeEncodeError, after
-- which the loop goes on with the record as it is.
unfoldable pub unique_reasons :
    NormalizedTrainingRecord
    → Option NormalizedTrainingRecord
    → NormalizedTrainingRecord × List ContentRejectionReason
unfolding from_keys
unique_reasons r none = (r, from_keys [] (invalid_text_encoding ∷ content_rejection_reasons r))
unique_reasons r (some n) = (n, from_keys [] (content_rejection_reasons n))

-- What the loop body computes for one record: the record to go on with, and the unique reasons.
unfoldable pub examine :
    NormalizedTrainingRecord → NormalizedTrainingRecord × List ContentRejectionReason
unfolding unique_reasons
examine r = unique_reasons r (normalize_record_text r)

pub record FilterState : Type 0 where
  pub accepted : List NormalizedTrainingRecord
  pub rejected : List RejectedTrainingRecord
  pub counts : Counts
  pub total : ℕ

unfoldable pub rejected_record :
    ℕ → NormalizedTrainingRecord → List ContentRejectionReason → RejectedTrainingRecord
rejected_record i r reasons = record {
  input_index = i;
  language = r.language;
  source_id = r.provenance.source_id;
  source_record_id = r.provenance.record_id;
  reasons = reasons;
}

-- The body of the loop for the record at an index.
unfoldable pub filter_step :
    ℕ → NormalizedTrainingRecord → FilterState → Result FilterError FilterState
filter_step i r s =
    let (normalized, reasons) = examine r in
    let s' : FilterState = record s { total = s.total + 1 } in
    if null reasons then ok (record s' { accepted = s.accepted ++ (normalized ∷ []) }) else do
      check_rejected_record (rejected_record i r reasons)
      ok (record s' {
        rejected = s.rejected ++ (rejected_record i r reasons ∷ []);
        counts = update reasons s.counts;
      })

unfoldable pub filter_from :
    ℕ → List NormalizedTrainingRecord → FilterState → Result FilterError FilterState
filter_from i [] s = ok s
filter_from i (r ∷ rs) s = filter_step i r s >>= filter_from (i + 1) rs

abbrev pub initial : FilterState
initial = record { accepted = []; rejected = []; counts = λ _. 0; total = 0 }

abbrev pub report_of : FilterState → RequiredContentFilterReport
report_of s = record {
  total_records = s.total;
  accepted_records = s.accepted;
  rejected_records = s.rejected;
  reason_counts = map (λ r. record { reason = r; count = s.counts r }) all_reasons;
}

unfoldable pub filter_required_content :
    List NormalizedTrainingRecord → Result FilterError RequiredContentFilterReport
unfolding filter_from
filter_required_content records = do
  s ← filter_from 0 records initial
  check_filter_report (report_of s)
  ok (report_of s)
