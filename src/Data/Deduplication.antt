-- ===== src/Data/Deduplication.antt =====
-- src/tiny_qwen_coder/data/deduplication.py. `sha256` is the hex digest of a text's UTF-8 bytes;
-- `check_x` is the `__post_init__` of the class `X`. Indices and counts are natural numbers, so
-- the tests for negative ones are left out.
pub mod Payload
pub mod Run
pub mod FirstOccurrences
pub mod Tables
pub mod Step
pub mod Correct
pub mod RepeatedMarks
use tiny_qwen_coder.Prelude.{
  ℕ, zero, suc, ◌+◌, ◌≡◌, ◌↔◌, Bool, true, false, not, ◌&&◌, ◌||◌, List, [], ◌∷◌, ◌++◌, map, Option,
  none, some, null, all, last?, init, length, ltb, leb, if◌then◌else◌, arith,
}
use tiny_qwen_coder.Prelude.Eq.{Eq, ◌==◌, nat_eq, list_eq, option_eq, distinct, elem, list_beq}
use tiny_qwen_coder.Prelude.Lookup.{lookup, insert}
use tiny_qwen_coder.Prelude.Result.{Result, ok, err, ◌>>=◌, ◌>>◌, raise_if}
use tiny_qwen_coder.TextNormalization.{Text, normalize_training_text}
use tiny_qwen_coder.Data.Records.{
  assistant, role_beq, role_eq, TrainingMessage, message_eq, NormalizedTrainingRecord,
}
use tiny_qwen_coder.Data.Filtering.{normalize_messages, normalize_record_text}

pub data DuplicateReason : Type 0 where
  exact_content source_identity : DuplicateReason

unfoldable pub reason_beq : DuplicateReason → DuplicateReason → Bool
reason_beq exact_content exact_content = true
reason_beq source_identity source_identity = true
reason_beq _ _ = false

pub reason_beq_iff : (a b : DuplicateReason) → (reason_beq a b ≡ true) ↔ (a ≡ b)
unfolding reason_beq
reason_beq_iff exact_content b = ground arith
reason_beq_iff source_identity b = ground arith

instance abbrev pub reason_eq : Eq DuplicateReason
reason_eq = record { equals = reason_beq; equals_iff = reason_beq_iff }

-- `tuple(DuplicateReason)`
abbrev pub all_reasons : List DuplicateReason
all_reasons = exact_content ∷ source_identity ∷ []

pub record RecordContentFingerprint : Type 0 where
  pub prompt_sha256 : Text
  pub response_sha256 : Text
  pub record_sha256 : Text

unfoldable pub fingerprint_beq : RecordContentFingerprint → RecordContentFingerprint → Bool
fingerprint_beq a b =
    a.prompt_sha256 == b.prompt_sha256
    && a.response_sha256 == b.response_sha256
    && a.record_sha256 == b.record_sha256

pub fingerprint_beq_iff : (a b : RecordContentFingerprint) → (fingerprint_beq a b ≡ true) ↔ (a ≡ b)
unfolding fingerprint_beq
fingerprint_beq_iff a b = ground (
  arith,
  (list_eq {A = ℕ}).equals_iff a.prompt_sha256 b.prompt_sha256,
  (list_eq {A = ℕ}).equals_iff a.response_sha256 b.response_sha256,
  (list_eq {A = ℕ}).equals_iff a.record_sha256 b.record_sha256,
)

instance abbrev pub fingerprint_eq : Eq RecordContentFingerprint
fingerprint_eq = record { equals = fingerprint_beq; equals_iff = fingerprint_beq_iff }

pub record SourceRecordIdentity : Type 0 where
  pub source_id : Text
  pub revision : Text
  pub split : Option Text
  pub record_id : Text

unfoldable pub identity_beq : SourceRecordIdentity → SourceRecordIdentity → Bool
identity_beq a b =
    a.source_id == b.source_id
    && a.revision == b.revision
    && a.split == b.split
    && a.record_id == b.record_id

pub identity_beq_iff : (a b : SourceRecordIdentity) → (identity_beq a b ≡ true) ↔ (a ≡ b)
unfolding identity_beq
identity_beq_iff a b = ground (
  arith,
  (list_eq {A = ℕ}).equals_iff a.source_id b.source_id,
  (list_eq {A = ℕ}).equals_iff a.revision b.revision,
  (option_eq {A = Text}).equals_iff a.split b.split,
  (list_eq {A = ℕ}).equals_iff a.record_id b.record_id,
)

instance abbrev pub identity_eq : Eq SourceRecordIdentity
identity_eq = record { equals = identity_beq; equals_iff = identity_beq_iff }

pub record DuplicateTrainingRecord : Type 0 where
  pub input_index : ℕ
  pub language : Text
  pub source_id : Text
  pub source_record_id : Option Text
  pub fingerprint : RecordContentFingerprint
  pub reasons : List DuplicateReason
  pub content_duplicate_of_input_index : Option ℕ
  pub source_duplicate_of_input_index : Option ℕ

pub record DuplicateReasonCount : Type 0 where
  pub reason : DuplicateReason
  pub count : ℕ

pub record ExactDeduplicationReport : Type 0 where
  pub schema_version : ℕ
  pub total_records : ℕ
  pub unique_records : List NormalizedTrainingRecord
  pub unique_fingerprints : List RecordContentFingerprint
  pub duplicate_records : List DuplicateTrainingRecord
  pub reason_counts : List DuplicateReasonCount

pub data DeduplicationError : Type 0 where
  invalid_digest : DeduplicationError
  no_reasons repeated_reasons unstable_reasons : DeduplicationError
  missing_content_reference spurious_content_reference : DeduplicationError
  missing_source_reference spurious_source_reference later_reference : DeduplicationError
  unsupported_schema wrong_total unaligned repeated_content unstable_counts : DeduplicationError
  empty_prompt_history prompt_not_encodable response_not_encodable : DeduplicationError
  record_not_encodable no_final_response : DeduplicationError
  content_collision source_conflict : DeduplicationError

unfoldable pub is_sha256_digest : Text → Bool
is_sha256_digest t =
    length t == 64 && all (λ c. leb b'0' c && leb c b'9' || leb b'a' c && leb c b'f') t

unfoldable pub check_fingerprint : RecordContentFingerprint → Result DeduplicationError (Unit {0})
check_fingerprint f = do
  raise_if (not (is_sha256_digest f.prompt_sha256)) invalid_digest
  raise_if (not (is_sha256_digest f.response_sha256)) invalid_digest
  raise_if (not (is_sha256_digest f.record_sha256)) invalid_digest

-- One reason and its reference stand together, and the reference is to an earlier record.
abbrev check_reference :
    Bool → Option ℕ → DeduplicationError → DeduplicationError → Result DeduplicationError (Unit {0})
check_reference true none missing spurious = err missing
check_reference false (some i) missing spurious = err spurious
check_reference _ _ missing spurious = ok tt

abbrev check_earlier : Option ℕ → ℕ → Result DeduplicationError (Unit {0})
check_earlier none index = ok tt
check_earlier (some i) index = raise_if (not (ltb i index)) later_reference

abbrev keep_listed : List DuplicateReason → List DuplicateReason → List DuplicateReason
keep_listed listed [] = []
keep_listed listed (r ∷ rs) =
    let rest = keep_listed listed rs in if elem r listed then r ∷ rest else rest

unfoldable pub check_duplicate_record :
    DuplicateTrainingRecord → Result DeduplicationError (Unit {0})
unfolding distinct elem list_beq reason_beq
check_duplicate_record d = do
  raise_if (null d.reasons) no_reasons
  raise_if (not (distinct d.reasons)) repeated_reasons
  raise_if (not (keep_listed d.reasons all_reasons == d.reasons)) unstable_reasons
  check_reference (elem exact_content d.reasons) d.content_duplicate_of_input_index
      missing_content_reference spurious_content_reference
  check_reference (elem source_identity d.reasons) d.source_duplicate_of_input_index
      missing_source_reference spurious_source_reference
  check_earlier d.content_duplicate_of_input_index d.input_index
  check_earlier d.source_duplicate_of_input_index d.input_index

unfoldable pub check_report : ExactDeduplicationReport → Result DeduplicationError (Unit {0})
check_report r = do
  raise_if (not (r.schema_version == 1)) unsupported_schema
  raise_if (not (r.total_records == length r.unique_records + length r.duplicate_records))
      wrong_total
  raise_if (not (length r.unique_records == length r.unique_fingerprints)) unaligned
  raise_if (not (distinct (map (λ f. f.record_sha256) r.unique_fingerprints))) repeated_content
  raise_if (not (map (λ c. c.reason) r.reason_counts == all_reasons)) unstable_counts

unfoldable pub source_record_identity : NormalizedTrainingRecord → Option SourceRecordIdentity
source_record_identity r = elim r.provenance.record_id [
  | none ↦ none
  | some id ↦ some (record {
    source_id = r.provenance.source_id;
    revision = r.provenance.revision;
    split = r.provenance.split;
    record_id = id;
  })
]

-- What a library function may raise, as this module's error.
abbrev pub or_raise {ℓ} : {A : Type ℓ} → DeduplicationError → Option A → Result DeduplicationError A
or_raise e none = err e
or_raise e (some a) = ok a
