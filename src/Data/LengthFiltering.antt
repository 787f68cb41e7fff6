-- ===== src/Data/LengthFiltering.antt =====
-- src/tiny_qwen_coder/data/length_filtering.py: the records of the token-length filter and their
-- checks. Bounds, counts and indices are natural numbers, so the tests for negative ones are left
-- out. `InspectionTarget` is that of model/inspection.py.
pub mod Distribution
pub mod Run
pub mod Described
mod Ordered
mod Tally
pub mod Total
pub mod Filtered
use tiny_qwen_coder.Prelude.{
  ℕ, ◌+◌, ◌≡◌, Bool, true, false, not, ◌&&◌, ◌||◌, List, [], ◌∷◌, map, Option, none, some, null,
  last?, length, ltb, leb, arith, ◌↔◌,
}
use tiny_qwen_coder.Prelude.Eq.{Eq, ◌==◌, nat_eq, list_eq, option_eq}
use tiny_qwen_coder.Prelude.Sort.{sorted}
use tiny_qwen_coder.Prelude.Result.{Result, ok, err, ◌>>◌, raise_if}
use tiny_qwen_coder.TextNormalization.{Text}
use tiny_qwen_coder.Data.Records.{NormalizedTrainingRecord}

pub data LengthFilteringError : Type 0 where
  bad_min_tokens bad_max_tokens unsupported_policy : LengthFilteringError
  empty_bar histogram_count histogram_order : LengthFilteringError
  empty_statistics empty_histogram missing_statistics missing_histogram : LengthFilteringError
  wrong_minimum wrong_maximum index_error : LengthFilteringError
  empty_accepted empty_rejected : LengthFilteringError
  bad_schema_version wrong_total misaligned_lengths input_count accepted_count :
      LengthFilteringError
  wrong_reasons bad_template_digest : LengthFilteringError
  no_chat_template no_tokens wrong_revision : LengthFilteringError

pub data LengthRejectionReason : Type 0 where
  too_short too_long : LengthRejectionReason

unfoldable pub length_reason_beq : LengthRejectionReason → LengthRejectionReason → Bool
length_reason_beq too_short too_short = true
length_reason_beq too_long too_long = true
length_reason_beq _ _ = false

pub length_reason_beq_iff : (a b : LengthRejectionReason) → (length_reason_beq a b ≡ true) ↔ (a ≡ b)
unfolding length_reason_beq
length_reason_beq_iff too_short b = ground arith
length_reason_beq_iff too_long b = ground arith

instance abbrev pub length_reason_eq : Eq LengthRejectionReason
length_reason_eq = record { equals = length_reason_beq; equals_iff = length_reason_beq_iff }

-- `tuple(LengthRejectionReason)`
abbrev pub length_reasons : List LengthRejectionReason
length_reasons = too_short ∷ too_long ∷ []

pub data TruncationPolicy : Type 0 where
  reject : TruncationPolicy

abbrev pub policy_beq : TruncationPolicy → TruncationPolicy → Bool
policy_beq reject reject = true

pub record LengthFilterConfig : Type 0 where
  pub min_tokens : ℕ
  pub max_tokens : ℕ
  pub truncation_policy : TruncationPolicy

-- `config or LengthFilterConfig()`.
abbrev pub config_or_default : Option LengthFilterConfig → LengthFilterConfig
config_or_default none = record { min_tokens = 1; max_tokens = 2048; truncation_policy = reject }
config_or_default (some c) = c

unfoldable pub check_config : LengthFilterConfig → Result LengthFilteringError (Unit {0})
check_config c = do
  raise_if (ltb c.min_tokens 1) bad_min_tokens
  raise_if (ltb c.max_tokens c.min_tokens) bad_max_tokens
  raise_if (not (policy_beq c.truncation_policy reject)) unsupported_policy

pub record TokenLengthCount : Type 0 where
  pub token_count : ℕ
  pub record_count : ℕ

unfoldable pub check_length_count : TokenLengthCount → Result LengthFilteringError (Unit {0})
check_length_count c = raise_if (leb c.record_count 0) empty_bar

-- The four percentiles are a list in the order of the fields.
pub record TokenLengthDistribution (Float : Type 0) : Type 0 where
  pub count : ℕ
  pub minimum : Option ℕ
  pub maximum : Option ℕ
  pub mean : Option Float
  pub percentiles : List (Option ℕ)
  pub histogram : List TokenLengthCount

abbrev pub sum_of : List TokenLengthCount → ℕ
sum_of [] = 0
sum_of (c ∷ cs) = c.record_count + sum_of cs

abbrev pub is_none {ℓ} : {A : Type ℓ} → Option A → Bool
is_none none = true
is_none (some a) = false

abbrev pub all_none {ℓ} : {A : Type ℓ} → List (Option A) → Bool
all_none [] = true
all_none (o ∷ os) = is_none o && all_none os

abbrev pub some_none {ℓ} : {A : Type ℓ} → List (Option A) → Bool
some_none [] = false
some_none (o ∷ os) = is_none o || some_none os

abbrev pub first_tokens : List TokenLengthCount → Option ℕ
first_tokens [] = none
first_tokens (c ∷ cs) = some c.token_count

abbrev pub token_counts : List TokenLengthCount → List ℕ
token_counts bars = map (λ c. c.token_count) bars

unfoldable pub check_distribution :
    {Float : Type 0} → TokenLengthDistribution Float → Result LengthFilteringError (Unit {0})
check_distribution d = do
  raise_if (not (sum_of d.histogram == d.count)) histogram_count
  raise_if (not (token_counts d.histogram == sorted leb (token_counts d.histogram))) histogram_order
  let statistics : List (Option ℕ) = d.minimum ∷ d.maximum ∷ d.percentiles
  elim (d.count == 0) [
    | true ↦
        raise_if (not (all_none statistics && is_none d.mean)) empty_statistics
        >> raise_if (not (null d.histogram)) empty_histogram
    | false ↦
        raise_if (some_none statistics || is_none d.mean) missing_statistics
        >> (raise_if (null d.histogram) missing_histogram
            >> (raise_if (not (d.minimum == first_tokens d.histogram)) wrong_minimum
                >> raise_if (not (d.maximum == last? (token_counts d.histogram))) wrong_maximum))
  ]

pub record AcceptedTokenLength : Type 0 where
  pub input_index : ℕ
  pub token_count : ℕ

unfoldable pub check_accepted_length : AcceptedTokenLength → Result LengthFilteringError (Unit {0})
check_accepted_length a = raise_if (leb a.token_count 0) empty_accepted

pub record LengthRejectedTrainingRecord : Type 0 where
  pub input_index : ℕ
  pub language : Text
  pub source_id : Text
  pub source_record_id : Option Text
  pub token_count : ℕ
  pub reason : LengthRejectionReason

unfoldable pub check_length_rejected :
    LengthRejectedTrainingRecord → Result LengthFilteringError (Unit {0})
check_length_rejected r = raise_if (leb r.token_count 0) empty_rejected

pub record LengthRejectionCount : Type 0 where
  pub reason : LengthRejectionReason
  pub count : ℕ

pub record InspectionTarget : Type 0 where
  pub config_id : Text
  pub model_repository : Text
  pub model_revision : Text
  pub tokenizer_repository : Text
  pub tokenizer_revision : Text
  pub model_load_dtype : Text

pub record TokenLengthFilterReport (Float : Type 0) : Type 0 where
  pub schema_version : ℕ
  pub target : InspectionTarget
  pub tokenizer_class : Text
  pub chat_template_sha256 : Text
  pub config : LengthFilterConfig
  pub total_records : ℕ
  pub accepted_records : List NormalizedTrainingRecord
  pub accepted_lengths : List AcceptedTokenLength
  pub rejected_records : List LengthRejectedTrainingRecord
  pub rejection_counts : List LengthRejectionCount
  pub input_distribution : TokenLengthDistribution Float
  pub accepted_distribution : TokenLengthDistribution Float

unfoldable pub check_length_report :
    {Float : Type 0} → TokenLengthFilterReport Float → Result LengthFilteringError (Unit {0})
check_length_report r = do
  raise_if (not (r.schema_version == 1)) bad_schema_version
  raise_if (not (r.total_records == length r.accepted_records + length r.rejected_records))
      wrong_total
  raise_if (not (length r.accepted_records == length r.accepted_lengths)) misaligned_lengths
  raise_if (not (r.input_distribution.count == r.total_records)) input_count
  raise_if (not (r.accepted_distribution.count == length r.accepted_records)) accepted_count
  raise_if (not (map (λ c. c.reason) r.rejection_counts == length_reasons)) wrong_reasons
  raise_if (null r.chat_template_sha256 || not (length r.chat_template_sha256 == 64))
      bad_template_digest
