-- ===== src/Data/Deduplication/Step.antt =====
-- One step of the loop, after records that the new one agrees with: its result in closed form,
-- and the tables after it.
use tiny_qwen_coder.Prelude.{
  ℕ, ◌+◌, ◌≡◌, refl, true, false, List, [], ◌∷◌, ◌++◌, Option, none, some, length, All, arith,
}
use tiny_qwen_coder.Prelude.Eq.{option_beq, nat_eq, list_eq, option_eq}
use tiny_qwen_coder.Prelude.Find.{find_index, find_index-snoc, is_none}
use tiny_qwen_coder.Prelude.Lookup.{lookup, insert, lookup-insert}
use tiny_qwen_coder.Prelude.Result.{ok}
use tiny_qwen_coder.TextNormalization.{Text}
use tiny_qwen_coder.Data.Records.{NormalizedTrainingRecord}
use tiny_qwen_coder.Data.Deduplication.{
  exact_content, source_identity, reason_eq, RecordContentFingerprint, SourceRecordIdentity,
  identity_eq, source_record_identity,
}
use tiny_qwen_coder.Data.Deduplication.Run.{
  DedupState, enter_source, update, matched, duplicate_record, place, dedup_step,
}
use tiny_qwen_coder.Data.Deduplication.FirstOccurrences.{
  Prepared, same_content, same_source, content_before, source_before, source_before_id, Agrees,
}
use tiny_qwen_coder.Data.Deduplication.Tables.{
  Tables, seen_messages, seen_fingerprint, IsEarlier, check_duplicate_record-ok, index_of-IsEarlier,
  content_duplicate_of-before, source_duplicate_of-before, source_before-content,
}

unfoldable pub placed :
    ℕ
    → NormalizedTrainingRecord
    → RecordContentFingerprint
    → Option ℕ
    → Option ℕ
    → DedupState
    → DedupState
placed i n f none source s = record s {
  content_seen = insert f.record_sha256 (i, n.messages) s.content_seen;
  source_seen = enter_source (source_record_identity n) none (i, f) s.source_seen;
  unique_records = s.unique_records ++ (n ∷ []);
  unique_fingerprints = s.unique_fingerprints ++ (f ∷ []);
  total = s.total + 1;
}
placed i n f (some c) source s = record s {
  source_seen = enter_source (source_record_identity n) source (i, f) s.source_seen;
  duplicate_records = s.duplicate_records ++ (duplicate_record i n f (some c) source ∷ []);
  reason_counts = update (exact_content ∷ matched source source_identity) s.reason_counts;
  total = s.total + 1;
}

place-ok :
    (i : ℕ) (n : NormalizedTrainingRecord) (f : RecordContentFingerprint)
    (content source : Option ℕ) (s : DedupState)
    → IsEarlier i content
    → IsEarlier i source
    → (is_none content ≡ true → source ≡ none)
    → place i n f content source s ≡ ok (placed i n f content source s)
unfolding place placed
place-ok i n f none source s c e h = rw (h refl)
place-ok i n f (some c) source s lt e h = rw (check_duplicate_record-ok i c n f source lt e)

content_before-IsEarlier :
    (before : List Prepared) (n : NormalizedTrainingRecord) (f : RecordContentFingerprint)
    → IsEarlier (length before) (content_before before (n, f))
unfolding content_before
content_before-IsEarlier before n f = index_of-IsEarlier (same_content f.record_sha256) before

source_before_id-IsEarlier :
    (own : Option SourceRecordIdentity) (before : List Prepared)
    → IsEarlier (length before) (source_before_id own before)
source_before_id-IsEarlier none before = tt
source_before_id-IsEarlier (some id) before = index_of-IsEarlier (same_source id) before

source_before-IsEarlier :
    (before : List Prepared) (n : NormalizedTrainingRecord) (f : RecordContentFingerprint)
    → IsEarlier (length before) (source_before before (n, f))
unfolding source_before
source_before-IsEarlier before n f = source_before_id-IsEarlier (source_record_identity n) before

-- The identity table after a step.
lookup-enter_source :
    (own : Option SourceRecordIdentity) (before : List Prepared) (n : NormalizedTrainingRecord)
    (f : RecordContentFingerprint)
    (seen : List (SourceRecordIdentity × (ℕ × RecordContentFingerprint)))
    → source_record_identity n ≡ own
    → ((id : SourceRecordIdentity)
        → lookup id seen ≡ seen_fingerprint (find_index (same_source id) 0 before))
    → (id : SourceRecordIdentity)
    → lookup id (enter_source own (source_before_id own before) (length before, f) seen)
      ≡ seen_fingerprint (find_index (same_source id) 0 (before ++ ((n, f) ∷ [])))
unfolding enter_source option_beq
lookup-enter_source none before n f seen e t id =
    let test = same_source id in
    let here : test (n, f) ≡ false = rw e in
    rw (find_index-snoc test 0 before (n, f), here) (ground (arith, t id))
lookup-enter_source (some own) before n f seen e t id = ground (
  arith,
  t id,
  t own,
  find_index-snoc (same_source id) 0 before (n, f),
  lookup-insert own id (length before, f) seen,
  identity_eq.equals_iff own id,
)

source_seen-placed :
    (i : ℕ) (n : NormalizedTrainingRecord) (f : RecordContentFingerprint)
    (content source : Option ℕ) (s : DedupState)
    → (is_none content ≡ true → source ≡ none)
    → (placed i n f content source s).source_seen
      ≡ enter_source (source_record_identity n) source (i, f) s.source_seen
unfolding placed
source_seen-placed i n f none source s h = rw (h refl)
source_seen-placed i n f (some c) source s h = refl

-- The content table after a step.
lookup-placed :
    (before : List Prepared) (n : NormalizedTrainingRecord) (f : RecordContentFingerprint)
    (s : DedupState)
    → ((h : Text) → lookup h s.content_seen ≡ seen_messages (find_index (same_content h) 0 before))
    → (h : Text)
    → lookup h
        (placed
          (length before)
          n
          f
          (content_before before (n, f))
          (source_before before (n, f))
          s).content_seen
      ≡ seen_messages (find_index (same_content h) 0 (before ++ ((n, f) ∷ [])))
unfolding placed content_before
lookup-placed before n f s t h = ground (
  arith,
  t h,
  t f.record_sha256,
  find_index-snoc (same_content h) 0 before (n, f),
  lookup-insert f.record_sha256 h (length before, n.messages) s.content_seen,
  (list_eq {A = ℕ}).equals_iff f.record_sha256 h,
)

module _ (before : List Prepared) (n : NormalizedTrainingRecord) (f : RecordContentFingerprint)
    (agree : All (λ q. Agrees q (n, f)) before) where
  pub dedup_step-ok :
      (s : DedupState)
      → Tables before s
      → dedup_step (length before) (n, f) s
        ≡ ok (
            placed
              (length before)
              n
              f
              (content_before before (n, f))
              (source_before before (n, f))
              s)
  unfolding dedup_step
  dedup_step-ok s t =
      rw
        (
          content_duplicate_of-before before n f agree s t,
          source_duplicate_of-before before n f agree s t,
        )
        (place-ok (length before) n f (content_before before (n, f)) (source_before before (n, f)) s
          (content_before-IsEarlier before n f) (source_before-IsEarlier before n f)
          (source_before-content before n f agree))

  lookup-enter_before :
      (s : DedupState)
      → Tables before s
      → (id : SourceRecordIdentity)
      → lookup id (
          enter_source
            (source_record_identity n)
            (source_before before (n, f))
            (length before, f)
            s.source_seen)
        ≡ seen_fingerprint (find_index (same_source id) 0 (before ++ ((n, f) ∷ [])))
  unfolding source_before
  lookup-enter_before s t =
      lookup-enter_source (source_record_identity n) before n f s.source_seen refl t.source

  pub placed-Tables :
      (s : DedupState)
      → Tables before s
      → Tables (before ++ ((n, f) ∷ [])) (
          placed (length before) n f (content_before before (n, f)) (source_before before (n, f)) s)
  placed-Tables s t = record {
    content = lookup-placed before n f s t.content;
    source = λ id.
        rw
          (source_seen-placed (length before) n f (content_before before (n, f))
            (source_before before (n, f)) s (source_before-content before n f agree))
          (lookup-enter_before s t id);
  }
