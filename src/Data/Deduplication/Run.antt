-- ===== src/Data/Deduplication/Run.antt =====
-- `deduplicate_exact_records` and the hashing that it calls, over the digest function.
use tiny_qwen_coder.Prelude.{
  ℕ, ◌+◌, Bool, false, not, ◌||◌, List, [], ◌∷◌, ◌++◌, map, Option, none, some, null, last?, init,
  length, ltb, if◌then◌else◌,
}
use tiny_qwen_coder.Prelude.Eq.{◌==◌, nat_eq, list_eq}
use tiny_qwen_coder.Prelude.Lookup.{lookup, insert}
use tiny_qwen_coder.Prelude.Result.{Result, ok, err, ◌>>=◌, ◌>>◌, raise_if}
use tiny_qwen_coder.TextNormalization.{Text, normalize_training_text}
use tiny_qwen_coder.Data.Records.{
  assistant, role_eq, TrainingMessage, message_eq, NormalizedTrainingRecord,
}
use tiny_qwen_coder.Data.Filtering.{normalize_messages, normalize_record_text}
use tiny_qwen_coder.Data.Deduplication.Payload.{prompt_payload, response_payload, record_payload}
use tiny_qwen_coder.Data.Deduplication.{
  DuplicateReason, exact_content, source_identity, reason_eq, all_reasons, RecordContentFingerprint,
  fingerprint_eq, SourceRecordIdentity, identity_eq, DuplicateTrainingRecord,
  ExactDeduplicationReport, DeduplicationError, empty_prompt_history, prompt_not_encodable,
  response_not_encodable, record_not_encodable, no_final_response, content_collision,
  source_conflict, check_fingerprint, check_duplicate_record, check_report, source_record_identity,
  or_raise,
}

pub record DedupState : Type 0 where
  pub unique_records : List NormalizedTrainingRecord
  pub unique_fingerprints : List RecordContentFingerprint
  pub duplicate_records : List DuplicateTrainingRecord
  pub reason_counts : DuplicateReason → ℕ
  pub content_seen : List (Text × (ℕ × List TrainingMessage))
  pub source_seen : List (SourceRecordIdentity × (ℕ × RecordContentFingerprint))
  pub total : ℕ

abbrev pub initial : DedupState
initial = record {
  unique_records = [];
  unique_fingerprints = [];
  duplicate_records = [];
  reason_counts = λ _. 0;
  content_seen = [];
  source_seen = [];
  total = 0;
}

-- `messages[-1].role == "assistant"`
abbrev ends_with_assistant : List TrainingMessage → Bool
ends_with_assistant ms = elim (last? ms) [ none ↦ false | some m ↦ m.role == assistant ]

-- The content of the last message; the source reads it only where there is one.
abbrev last_content : List TrainingMessage → Text
last_content ms = elim (last? ms) [ none ↦ [] | some m ↦ m.content ]

-- The index of the earlier record with this content; other messages under its digest are an error.
unfoldable pub content_duplicate_of :
    Option (ℕ × List TrainingMessage) → List TrainingMessage → Result DeduplicationError (Option ℕ)
content_duplicate_of none messages = ok none
content_duplicate_of (some (i, seen)) messages =
    if seen == messages then ok (some i) else err content_collision

-- The index of the earlier record with this identity; another fingerprint there is an error.
unfoldable pub source_duplicate_of :
    Option (ℕ × RecordContentFingerprint)
    → RecordContentFingerprint
    → Result DeduplicationError (Option ℕ)
source_duplicate_of none fingerprint = ok none
source_duplicate_of (some (i, seen)) fingerprint =
    if seen == fingerprint then ok (some i) else err source_conflict

abbrev pub matched : Option ℕ → DuplicateReason → List DuplicateReason
matched none reason = []
matched (some i) reason = reason ∷ []

unfoldable pub update : List DuplicateReason → (DuplicateReason → ℕ) → DuplicateReason → ℕ
update [] counts r = counts r
update (x ∷ xs) counts r = update xs (λ s. if x == s then counts s + 1 else counts s) r

-- `source_seen.get(identity)`, where there is an identity.
abbrev pub source_match :
    Option SourceRecordIdentity
    → List (SourceRecordIdentity × (ℕ × RecordContentFingerprint))
    → Option (ℕ × RecordContentFingerprint)
source_match none seen = none
source_match (some id) seen = lookup id seen

-- A new identity is entered, also for a record that turns out a duplicate of content.
unfoldable pub enter_source :
    Option SourceRecordIdentity
    → Option ℕ
    → ℕ × RecordContentFingerprint
    → List (SourceRecordIdentity × (ℕ × RecordContentFingerprint))
    → List (SourceRecordIdentity × (ℕ × RecordContentFingerprint))
enter_source (some id) none entry seen = insert id entry seen
enter_source _ _ entry seen = seen

abbrev pub duplicate_record :
    ℕ
    → NormalizedTrainingRecord
    → RecordContentFingerprint
    → Option ℕ
    → Option ℕ
    → DuplicateTrainingRecord
duplicate_record i n f content source = record {
  input_index = i;
  language = n.language;
  source_id = n.provenance.source_id;
  source_record_id = n.provenance.record_id;
  fingerprint = f;
  reasons = matched content exact_content ++ matched source source_identity;
  content_duplicate_of_input_index = content;
  source_duplicate_of_input_index = source;
}

-- The end of the loop body, once the earlier records with this content and identity are known.
unfoldable pub place :
    ℕ
    → NormalizedTrainingRecord
    → RecordContentFingerprint
    → Option ℕ
    → Option ℕ
    → DedupState
    → Result DeduplicationError DedupState
place i n f content source s =
    let reasons = matched content exact_content ++ matched source source_identity in
    let sources = enter_source (source_record_identity n) source (i, f) s.source_seen in
    if null reasons
    then ok (record s {
      content_seen = insert f.record_sha256 (i, n.messages) s.content_seen;
      source_seen = sources;
      unique_records = s.unique_records ++ (n ∷ []);
      unique_fingerprints = s.unique_fingerprints ++ (f ∷ []);
      total = s.total + 1;
    })
    else do
      check_duplicate_record (duplicate_record i n f content source)
      ok (record s {
        source_seen = sources;
        duplicate_records = s.duplicate_records ++ (duplicate_record i n f content source ∷ []);
        reason_counts = update reasons s.reason_counts;
        total = s.total + 1;
      })

-- The loop body after the hashing.
unfoldable pub dedup_step :
    ℕ
    → NormalizedTrainingRecord × RecordContentFingerprint
    → DedupState
    → Result DeduplicationError DedupState
unfolding place
dedup_step i (n, f) s = do
  content ← content_duplicate_of (lookup f.record_sha256 s.content_seen) n.messages
  source ← source_duplicate_of (source_match (source_record_identity n) s.source_seen) f
  place i n f content source s

abbrev pub report_of : DedupState → ExactDeduplicationReport
report_of s = record {
  schema_version = 1;
  total_records = s.total;
  unique_records = s.unique_records;
  unique_fingerprints = s.unique_fingerprints;
  duplicate_records = s.duplicate_records;
  reason_counts = map (λ r. record { reason = r; count = s.reason_counts r }) all_reasons;
}

module _ (sha256 : Text → Text) where
  unfoldable pub normalized_prompt_sha256 : List TrainingMessage → Result DeduplicationError Text
  normalized_prompt_sha256 ms = do
    raise_if (null ms) empty_prompt_history
    ms' ← or_raise prompt_not_encodable (normalize_messages ms)
    ok (sha256 (prompt_payload ms'))

  unfoldable pub normalized_response_sha256 : Text → Result DeduplicationError Text
  normalized_response_sha256 content = do
    content' ← or_raise response_not_encodable (normalize_training_text content)
    ok (sha256 (response_payload content'))

  unfoldable pub normalized_record_fingerprint :
      NormalizedTrainingRecord → Result DeduplicationError RecordContentFingerprint
  unfolding normalized_prompt_sha256 normalized_response_sha256
  normalized_record_fingerprint r = do
    n ← or_raise record_not_encodable (normalize_record_text r)
    raise_if (ltb (length n.messages) 2 || not (ends_with_assistant n.messages)) no_final_response
    prompt ← normalized_prompt_sha256 (init n.messages)
    response ← normalized_response_sha256 (last_content n.messages)
    let f : RecordContentFingerprint = record {
      prompt_sha256 = prompt;
      response_sha256 = response;
      record_sha256 = sha256 (record_payload prompt response);
    }
    check_fingerprint f
    ok f

  -- The loop body's hashing: the record is normalised, and hashed after a second normalisation.
  unfoldable pub prepare :
      NormalizedTrainingRecord
      → Result DeduplicationError (NormalizedTrainingRecord × RecordContentFingerprint)
  prepare r = do
    n ← or_raise record_not_encodable (normalize_record_text r)
    f ← normalized_record_fingerprint n
    ok (n, f)

  unfoldable pub dedup_from :
      ℕ → List NormalizedTrainingRecord → DedupState → Result DeduplicationError DedupState
  unfolding prepare dedup_step
  dedup_from i [] s = ok s
  dedup_from i (r ∷ rs) s = do p ← prepare r; s' ← dedup_step i p s; dedup_from (i + 1) rs s'

  unfoldable pub deduplicate_exact_records :
      List NormalizedTrainingRecord → Result DeduplicationError ExactDeduplicationReport
  unfolding dedup_from
  deduplicate_exact_records records = do
    s ← dedup_from 0 records initial
    check_report (report_of s)
    ok (report_of s)
