-- ===== src/Data/LengthFiltering/Run.antt =====
-- The loop of `filter_by_token_length`. The tokenizer is a record of what the code uses of it; its
-- `apply_chat_template` gives the tokens of the messages and the template.
use tiny_qwen_coder.Prelude.{
  ℕ, ◌+◌, not, List, [], ◌∷◌, ◌++◌, map, Option, none, some, null, length, ltb, if◌then◌else◌,
}
use tiny_qwen_coder.Prelude.Eq.{◌==◌, nat_eq, list_eq}
use tiny_qwen_coder.Prelude.Int.{ℤ}
use tiny_qwen_coder.Prelude.Result.{Result, ok, err, ◌>>=◌, ◌>>◌, raise_if}
use tiny_qwen_coder.TextNormalization.{Text}
use tiny_qwen_coder.Data.Records.{NormalizedTrainingRecord}
use tiny_qwen_coder.Data.Deduplication.Payload.{role_name}
use tiny_qwen_coder.Data.LengthFiltering.{
  LengthFilteringError, no_chat_template, no_tokens, wrong_revision, LengthRejectionReason,
  length_reason_eq, too_short, too_long, length_reasons, LengthFilterConfig, config_or_default,
  InspectionTarget, AcceptedTokenLength, check_accepted_length, LengthRejectedTrainingRecord,
  check_length_rejected, TokenLengthFilterReport, check_length_report,
}
use tiny_qwen_coder.Data.LengthFiltering.Distribution.{Percentile, token_length_distribution}

pub record Tokenizer : Type 0 where
  pub chat_template : Option Text
  pub class_name : Text
  pub resolved_revision : Option Text
  pub apply_chat_template : List (Text × Text) → Text → List ℤ

unfoldable pub require_chat_template : Option Text → Result LengthFilteringError Text
require_chat_template none = err no_chat_template
require_chat_template (some t) = raise_if (null t) no_chat_template >> ok t

-- `_message_dicts`, role and content.
abbrev pub message_dicts : NormalizedTrainingRecord → List (Text × Text)
message_dicts r = map (λ m. (role_name m.role, m.content)) r.messages

unfoldable pub tokenize_training_record :
    Tokenizer → NormalizedTrainingRecord → Result LengthFilteringError (List ℤ)
unfolding require_chat_template
tokenize_training_record t r = do
  template ← require_chat_template t.chat_template
  let ids : List ℤ = t.apply_chat_template (message_dicts r) template
  raise_if (null ids) no_tokens
  ok ids

unfoldable pub validate_revision : Option Text → Text → Result LengthFilteringError (Unit {0})
validate_revision none expected = ok tt
validate_revision (some resolved) expected = raise_if (not (resolved == expected)) wrong_revision

pub record LengthFilterState : Type 0 where
  pub accepted : List NormalizedTrainingRecord
  pub accepted_lengths : List AcceptedTokenLength
  pub rejected : List LengthRejectedTrainingRecord
  pub counts : LengthRejectionReason → ℕ
  pub all_lengths : List ℕ

abbrev pub no_records : LengthFilterState
no_records = record {
  accepted = [];
  accepted_lengths = [];
  rejected = [];
  counts = λ _. 0;
  all_lengths = [];
}

abbrev pub length_reason : LengthFilterConfig → ℕ → Option LengthRejectionReason
length_reason c n =
    if ltb n c.min_tokens
    then some too_short
    else if ltb c.max_tokens n
    then some too_long
    else none

abbrev pub length_rejected :
    ℕ → NormalizedTrainingRecord → ℕ → LengthRejectionReason → LengthRejectedTrainingRecord
length_rejected i r n reason = record {
  input_index = i;
  language = r.language;
  source_id = r.provenance.source_id;
  source_record_id = r.provenance.record_id;
  token_count = n;
  reason = reason;
}

-- The rest of the loop's body, with the reason that was found.
unfoldable pub place_length :
    ℕ
    → NormalizedTrainingRecord
    → ℕ
    → Option LengthRejectionReason
    → LengthFilterState
    → Result LengthFilteringError LengthFilterState
unfolding check_accepted_length check_length_rejected
place_length i r n none s =
    check_accepted_length (record { input_index = i; token_count = n })
    >> ok (record s {
      accepted = s.accepted ++ (r ∷ []);
      accepted_lengths = s.accepted_lengths ++ (record { input_index = i; token_count = n } ∷ []);
    })
place_length i r n (some reason) s =
    check_length_rejected (length_rejected i r n reason)
    >> ok (record s {
      rejected = s.rejected ++ (length_rejected i r n reason ∷ []);
      counts = λ x. if reason == x then s.counts x + 1 else s.counts x;
    })

unfoldable pub length_step :
    Tokenizer
    → LengthFilterConfig
    → ℕ
    → NormalizedTrainingRecord
    → LengthFilterState
    → Result LengthFilteringError LengthFilterState
unfolding tokenize_training_record place_length
length_step t c i r s = do
  tokens ← tokenize_training_record t r
  place_length i r (length tokens) (length_reason c (length tokens))
      (record s { all_lengths = s.all_lengths ++ (length tokens ∷ []) })

unfoldable pub length_loop :
    Tokenizer
    → LengthFilterConfig
    → ℕ
    → List NormalizedTrainingRecord
    → LengthFilterState
    → Result LengthFilteringError LengthFilterState
unfolding length_step
length_loop t c i [] s = ok s
length_loop t c i (r ∷ rs) s = length_step t c i r s >>= λ next. length_loop t c (i + 1) rs next

module _ (rank : Percentile → ℕ → ℕ) (Float : Type 0) (mean : List ℕ → Float)
    (sha256 : Text → Text) where
  unfoldable pub length_report :
      Tokenizer
      → InspectionTarget
      → LengthFilterConfig
      → LengthFilterState
      → Result LengthFilteringError (TokenLengthFilterReport Float)
  length_report t target c s = do
    template ← require_chat_template t.chat_template
    before ← token_length_distribution rank Float mean s.all_lengths
    after ← token_length_distribution rank Float mean (map (λ a. a.token_count) s.accepted_lengths)
    let report : TokenLengthFilterReport Float = record {
      schema_version = 1;
      target = target;
      tokenizer_class = t.class_name;
      chat_template_sha256 = sha256 template;
      config = c;
      total_records = length s.all_lengths;
      accepted_records = s.accepted;
      accepted_lengths = s.accepted_lengths;
      rejected_records = s.rejected;
      rejection_counts = map (λ x. record { reason = x; count = s.counts x }) length_reasons;
      input_distribution = before;
      accepted_distribution = after;
    }
    check_length_report report
    ok report

  unfoldable pub filter_by_token_length :
      List NormalizedTrainingRecord
      → Tokenizer
      → InspectionTarget
      → Option LengthFilterConfig
      → Result LengthFilteringError (TokenLengthFilterReport Float)
  filter_by_token_length records t target config = do
    let c : LengthFilterConfig = config_or_default config
    validate_revision t.resolved_revision target.tokenizer_revision
    s ← length_loop t c 0 records no_records
    length_report t target c s
