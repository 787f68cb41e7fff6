-- ===== src/Tests/Deduplicated.antt =====
-- Deduplication at small inputs, under a digest that tells texts apart by the sum of their code points.
use mathlib.Core.Bool.{false≢true}
use tiny_qwen_coder.Prelude.{
  ◌≡◌, refl, true, List, [], ◌∷◌, some, none, arith, ℕ, ◌+◌, ◌%◌, ◌≢◌, leb, ◌&&◌, ◌||◌,
}
use tiny_qwen_coder.Prelude.Eq.{nat_eq, list_eq, list_beq, option_beq, elem, distinct}
use tiny_qwen_coder.Prelude.Lookup.{lookup, insert}
use tiny_qwen_coder.Prelude.Result.{ok, err}
use tiny_qwen_coder.TextNormalization.{
  Text, bom, utf8_encodable, remove_prefix, replace_crlf, replace_cr, normalize_training_text,
}
use tiny_qwen_coder.Data.Records.{role_beq, message_beq, NormalizedTrainingRecord}
use tiny_qwen_coder.Data.Filtering.{normalize_messages, normalize_record_text}
use tiny_qwen_coder.Data.Deduplication.{
  reason_beq, fingerprint_beq, identity_beq, RecordContentFingerprint, content_collision,
  is_sha256_digest, check_fingerprint, check_duplicate_record, check_report, source_record_identity,
}
use tiny_qwen_coder.Data.Deduplication.Payload.{
  codes, prompt_payload, response_payload, record_payload,
}
use tiny_qwen_coder.Data.Deduplication.Run.{
  content_duplicate_of, source_duplicate_of, enter_source, update, dedup_step,
  normalized_record_fingerprint, prepare, deduplicate_exact_records,
}
use tiny_qwen_coder.Data.Deduplication.FirstOccurrences.{Prepared, Agrees, AllAgree}
use tiny_qwen_coder.Data.Deduplication.Correct.{
  prepare_all, expected_report, deduplicate_exact_records-report,
}
use tiny_qwen_coder.Data.Deduplication.RepeatedMarks.{
  with_texts, IsPlain, deduplicate_exact_records-repeated_marks,
}
use tiny_qwen_coder.Tests.Samples.{code_sum, sum_digest, sample}

run : Unit {0}
unfolding deduplicate_exact_records prepare_all prepare normalized_record_fingerprint dedup_step
    normalize_record_text normalize_messages normalize_training_text utf8_encodable remove_prefix
    replace_crlf replace_cr role_beq message_beq reason_beq fingerprint_beq identity_beq list_beq
    option_beq elem distinct lookup insert is_sha256_digest check_fingerprint check_duplicate_record
    check_report source_record_identity content_duplicate_of source_duplicate_of enter_source update
    prompt_payload response_payload record_payload
run = tt

-- The same record twice, and another with another text.
abbrev first : NormalizedTrainingRecord
first = sample (some (codes "7")) (codes "q") (codes "a")

abbrev other : NormalizedTrainingRecord
other = sample none (codes "qq") (codes "a")

abbrev fingerprint : NormalizedTrainingRecord → RecordContentFingerprint
fingerprint r = elim (normalized_record_fingerprint sum_digest r) [
  | ok f ↦ f
  | err e ↦ record { prompt_sha256 = []; response_sha256 = []; record_sha256 = [] }
]

abbrev inputs : List NormalizedTrainingRecord
inputs = first ∷ first ∷ other ∷ []

abbrev prepared : List Prepared
prepared = (first, fingerprint first) ∷ (first, fingerprint first) ∷ (other, fingerprint other) ∷ []

prepared-inputs : prepare_all sum_digest inputs ≡ ok prepared
unfolding run
prepared-inputs = refl

same_record : Agrees (first, fingerprint first) (first, fingerprint first)
same_record = record { content = λ e. refl; source = λ id e e'. refl }

digests_differ : (fingerprint first).record_sha256 ≢ (fingerprint other).record_sha256
unfolding run
digests_differ e = false≢true (
    ((list_eq {A = ℕ}).equals_iff (fingerprint first).record_sha256
        (fingerprint other).record_sha256).1
      e)

other_record : Agrees (first, fingerprint first) (other, fingerprint other)
unfolding source_record_identity
other_record = record {
  content = λ e. absurd (digests_differ e);
  source = λ id e e'. absurd (cc e');
}

prepared-agree : AllAgree [] prepared
prepared-agree = (tt, ((same_record, tt), ((other_record, (other_record, tt)), tt)))

deduplicate_exact_records-report_example :
    deduplicate_exact_records sum_digest inputs ≡ ok (expected_report prepared)
deduplicate_exact_records-report_example =
    deduplicate_exact_records-report sum_digest inputs prepared prepared-inputs prepared-agree

digit-hex :
    (n : ℕ)
    → (leb b'0' (b'0' + n % 10) && leb (b'0' + n % 10) b'9'
        || leb b'a' (b'0' + n % 10) && leb (b'0' + n % 10) b'f')
      ≡ true
digit-hex n = ground arith

digest-IsSha256 : (t : Text) → is_sha256_digest (sum_digest t) ≡ true
unfolding is_sha256_digest
digest-IsSha256 t = rw (digit-hex (code_sum t))

IsPlain-q : IsPlain (codes "q")
unfolding utf8_encodable
IsPlain-q = record { encodable = refl; no_cr = omega arith; unmarked = refl }

deduplicate_exact_records-repeated_marks_example :
    deduplicate_exact_records sum_digest (
      with_texts other (bom ∷ bom ∷ codes "q") (codes "q")
      ∷ with_texts other (codes "q") (codes "q")
      ∷ [])
    ≡ err content_collision
deduplicate_exact_records-repeated_marks_example =
    deduplicate_exact_records-repeated_marks sum_digest digest-IsSha256 other (codes "q")
      (codes "q") refl IsPlain-q IsPlain-q
