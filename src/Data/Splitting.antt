-- ===== src/Data/Splitting.antt =====
-- src/tiny_qwen_coder/data/splitting.py: the data of a split and the checks of its classes.
-- `check_x` is the `__post_init__` of the class `X`. Indices are natural numbers, so the tests for
-- negative ones are left out.
pub mod Run
pub mod Choice
use tiny_qwen_coder.Prelude.{
  ℕ, zero, suc, ◌+◌, Bool, true, false, not, ◌&&◌, ◌||◌, List, [], ◌∷◌, ◌++◌, map, Option, none,
  some, null, all, length, leb, ltb, if◌then◌else◌,
}
use tiny_qwen_coder.Prelude.Eq.{◌==◌, nat_eq, list_eq, list_beq, distinct, elem}
use tiny_qwen_coder.Prelude.Int.{ℤ}
use tiny_qwen_coder.Prelude.Result.{Result, ok, err, ◌>>=◌, ◌>>◌, raise_if}
use tiny_qwen_coder.Prelude.Sort.{sorted}
use tiny_qwen_coder.Reproducibility.{seed_is_valid}
use tiny_qwen_coder.TextNormalization.{Text}
use tiny_qwen_coder.Data.Records.{NormalizedTrainingRecord}
use tiny_qwen_coder.Data.Deduplication.{RecordContentFingerprint, is_sha256_digest}

pub data DatasetPartition : Type 0 where
  train validation : DatasetPartition

pub record TrainValidationSplit (A : Type 0) : Type 0 where
  pub train_items : List A
  pub validation_items : List A

pub record LinkedPromptGroup : Type 0 where
  pub prompt_sha256 : Text
  pub unique_indices : List ℕ

pub record DatasetSplitMembership : Type 0 where
  pub unique_index : ℕ
  pub partition : DatasetPartition
  pub record_sha256 : Text
  pub prompt_sha256 : Text
  pub source_id : Text
  pub source_record_id : Option Text

-- The fraction is kept by what the code asks of it: whether it lies strictly between 0 and 1, and
-- `round(total * fraction)`, in floating point.
pub record Fraction : Type 0 where
  pub in_range : Bool
  pub rounded_share : ℕ → ℕ

pub record DeduplicatedDatasetSplit : Type 0 where
  pub schema_version : ℕ
  pub seed : ℤ
  pub requested_validation_fraction : Fraction
  pub target_validation_records : ℕ
  pub linked_prompt_group_count : ℕ
  pub train_records : List NormalizedTrainingRecord
  pub validation_records : List NormalizedTrainingRecord
  pub train_fingerprints : List RecordContentFingerprint
  pub validation_fingerprints : List RecordContentFingerprint
  pub memberships : List DatasetSplitMembership

pub data DatasetSplittingError : Type 0 where
  invalid_seed invalid_fraction too_few_records : DatasetSplittingError
  invalid_group_digest empty_group unsorted_group repeated_index : DatasetSplittingError
  invalid_membership_digest unsupported_schema empty_partition : DatasetSplittingError
  unaligned_train unaligned_validation unaligned_memberships : DatasetSplittingError
  invalid_target too_few_groups : DatasetSplittingError
  content_crosses prompt_crosses unordered_memberships uncovered_fingerprint : DatasetSplittingError
  unaligned_report index_error : DatasetSplittingError

unfoldable pub check_group : LinkedPromptGroup → Result DatasetSplittingError (Unit {0})
check_group g = do
  raise_if (not (length g.prompt_sha256 == 64)) invalid_group_digest
  raise_if (null g.unique_indices) empty_group
  raise_if (not (sorted leb g.unique_indices == g.unique_indices)) unsorted_group
  raise_if (not (distinct g.unique_indices)) repeated_index

unfoldable pub check_membership : DatasetSplitMembership → Result DatasetSplittingError (Unit {0})
check_membership m = do
  raise_if (not (is_sha256_digest m.record_sha256)) invalid_membership_digest
  raise_if (not (is_sha256_digest m.prompt_sha256)) invalid_membership_digest

-- `range(n)` behind `i`.
unfoldable pub range_from : ℕ → ℕ → List ℕ
range_from i zero = []
range_from i (suc n) = i ∷ range_from (i + 1) n

-- `not (a & b)` and `a == b` on the sets of two lists.
unfoldable pub disjoint : List Text → List Text → Bool
disjoint xs ys = all (λ x. not (elem x ys)) xs

unfoldable pub same_set : List Text → List Text → Bool
same_set xs ys = all (λ x. elem x ys) xs && all (λ y. elem y xs) ys

abbrev pub record_hashes : List RecordContentFingerprint → List Text
record_hashes fs = map (λ f. f.record_sha256) fs

abbrev pub prompt_hashes : List RecordContentFingerprint → List Text
prompt_hashes fs = map (λ f. f.prompt_sha256) fs

-- `DeduplicatedDatasetSplit.total_records`
abbrev pub total_records : DeduplicatedDatasetSplit → ℕ
total_records s = length s.train_records + length s.validation_records

unfoldable pub check_split : DeduplicatedDatasetSplit → Result DatasetSplittingError (Unit {0})
check_split s = do
  raise_if (not (s.schema_version == 1)) unsupported_schema
  raise_if (not (seed_is_valid s.seed)) invalid_seed
  raise_if (not s.requested_validation_fraction.in_range) invalid_fraction
  raise_if (ltb (total_records s) 2) too_few_records
  raise_if (null s.train_records || null s.validation_records) empty_partition
  raise_if (not (length s.train_records == length s.train_fingerprints)) unaligned_train
  raise_if (not (length s.validation_records == length s.validation_fingerprints))
      unaligned_validation
  raise_if (not (length s.memberships == total_records s)) unaligned_memberships
  raise_if (ltb s.target_validation_records 1 || leb (total_records s) s.target_validation_records)
      invalid_target
  raise_if (ltb s.linked_prompt_group_count 2) too_few_groups
  raise_if
      (not
        (disjoint (record_hashes s.train_fingerprints) (record_hashes s.validation_fingerprints)))
      content_crosses
  raise_if
      (not
        (disjoint (prompt_hashes s.train_fingerprints) (prompt_hashes s.validation_fingerprints)))
      prompt_crosses
  raise_if (not (map (λ m. m.unique_index) s.memberships == range_from 0 (total_records s)))
      unordered_memberships
  raise_if
      (not (
        same_set (map (λ m. m.record_sha256) s.memberships)
          (record_hashes s.train_fingerprints ++ record_hashes s.validation_fingerprints)))
      uncovered_fingerprint
