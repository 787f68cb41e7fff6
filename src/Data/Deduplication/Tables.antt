-- ===== src/Data/Deduplication/Tables.antt =====
-- The loop's two tables against the records read so far, and one step of the loop by them.
use tiny_qwen_coder.Prelude.{
  ℕ, ◌≡◌, ◌≢◌, ◌<◌, refl, ap, Bool, true, List, Option, none, some, length, All, arith,
  Option-cases, inl, inr,
}
use tiny_qwen_coder.Prelude.Eq.{==_refl, nat_eq, list_eq, option_eq}
use tiny_qwen_coder.Prelude.Find.{
  find_index, find_index-found, find_index-All, find_index-weaker, is_none,
}
use tiny_qwen_coder.Prelude.Lookup.{lookup}
use tiny_qwen_coder.Prelude.Result.{ok}
use tiny_qwen_coder.TextNormalization.{Text}
use tiny_qwen_coder.Data.Records.{TrainingMessage, message_eq, NormalizedTrainingRecord}
use tiny_qwen_coder.Data.Deduplication.{
  reason_eq, RecordContentFingerprint, fingerprint_eq, SourceRecordIdentity, identity_eq,
  source_record_identity, check_duplicate_record,
}
use tiny_qwen_coder.Data.Deduplication.Run.{
  DedupState, content_duplicate_of, source_duplicate_of, source_match, duplicate_record,
}
use tiny_qwen_coder.Data.Deduplication.FirstOccurrences.{
  Prepared, same_content, same_source, index_of, content_before, source_before, source_before_id,
  Agrees,
}

abbrev pub seen_messages : Option (ℕ × Prepared) → Option (ℕ × List TrainingMessage)
seen_messages none = none
seen_messages (some (i, p)) = some (i, p.0.messages)

abbrev pub seen_fingerprint : Option (ℕ × Prepared) → Option (ℕ × RecordContentFingerprint)
seen_fingerprint none = none
seen_fingerprint (some (i, p)) = some (i, p.1)

pub record Tables (before : List Prepared) (s : DedupState) : Type 0 where
  pub content :
      (h : Text) → lookup h s.content_seen ≡ seen_messages (find_index (same_content h) 0 before)
  pub source :
      (id : SourceRecordIdentity)
      → lookup id s.source_seen ≡ seen_fingerprint (find_index (same_source id) 0 before)

is_none-index_of : (o : Option (ℕ × Prepared)) → is_none (index_of o) ≡ is_none o
is_none-index_of none = refl
is_none-index_of (some (i, p)) = refl

content_found :
    (n : NormalizedTrainingRecord) (found : Option (ℕ × Prepared))
    → ((i : ℕ) (q : Prepared) → found ≡ some (i, q) → q.0.messages ≡ n.messages)
    → content_duplicate_of (seen_messages found) n.messages ≡ ok (index_of found)
unfolding content_duplicate_of
content_found n none h = refl
content_found n (some (i, q)) h = rw (h i q refl, ==_refl n.messages)

source_found :
    (f : RecordContentFingerprint) (found : Option (ℕ × Prepared))
    → ((i : ℕ) (q : Prepared) → found ≡ some (i, q) → q.1 ≡ f)
    → source_duplicate_of (seen_fingerprint found) f ≡ ok (index_of found)
unfolding source_duplicate_of
source_found f none h = refl
source_found f (some (i, q)) h = rw (h i q refl, ==_refl f)

-- One record, after records that it agrees with.
module _ (before : List Prepared) (n : NormalizedTrainingRecord) (f : RecordContentFingerprint)
    (agree : All (λ q. Agrees q (n, f)) before) where
  content_agrees :
      (i : ℕ) (q : Prepared)
      → find_index (same_content f.record_sha256) 0 before ≡ some (i, q)
      → q.0.messages ≡ n.messages
  content_agrees i q e =
      let test = find_index-found (same_content f.record_sha256) 0 before i q e in
      (find_index-All (same_content f.record_sha256) (λ q. Agrees q (n, f)) 0 before i q agree
          e).content
        (((list_eq {A = ℕ}).equals_iff q.1.record_sha256 f.record_sha256).0 test.2)

  source_agrees :
      (id : SourceRecordIdentity)
      → source_record_identity n ≡ some id
      → (i : ℕ) (q : Prepared) → find_index (same_source id) 0 before ≡ some (i, q)
      → q.1 ≡ f
  source_agrees id own i q e =
      let test = find_index-found (same_source id) 0 before i q e in
      (find_index-All (same_source id) (λ q. Agrees q (n, f)) 0 before i q agree e).source id
        (((option_eq {A = SourceRecordIdentity}).equals_iff (source_record_identity q.0)
            (some id)).0
          test.2)
        own

  pub content_duplicate_of-before :
      (s : DedupState)
      → Tables before s
      → content_duplicate_of (lookup f.record_sha256 s.content_seen) n.messages
        ≡ ok (content_before before (n, f))
  unfolding content_before
  content_duplicate_of-before s t =
      rw (t.content f.record_sha256)
        (content_found n (find_index (same_content f.record_sha256) 0 before) content_agrees)

  source_match-before :
      (s : DedupState)
      → Tables before s
      → (own : Option SourceRecordIdentity) → source_record_identity n ≡ own
      → source_duplicate_of (source_match own s.source_seen) f ≡ ok (source_before_id own before)
  unfolding source_duplicate_of
  source_match-before s t none e = refl
  source_match-before s t (some id) e =
      rw (t.source id) (source_found f (find_index (same_source id) 0 before) (source_agrees id e))

  pub source_duplicate_of-before :
      (s : DedupState)
      → Tables before s
      → source_duplicate_of (source_match (source_record_identity n) s.source_seen) f
        ≡ ok (source_before before (n, f))
  unfolding source_before
  source_duplicate_of-before s t = source_match-before s t (source_record_identity n) refl

  earlier_content :
      (test : Prepared → Bool) (i : ℕ) (q : Prepared)
      → find_index test 0 before ≡ some (i, q)
      → q.1.record_sha256 ≡ f.record_sha256
      → is_none (content_before before (n, f)) ≢ true
  unfolding content_before
  earlier_content test i q found same h =
      let content = same_content f.record_sha256 in
      let here = ((list_eq {A = ℕ}).equals_iff q.1.record_sha256 f.record_sha256).1 same in
      ground (
        arith,
        find_index-weaker test content 0 before i q found here,
        is_none-index_of (find_index content 0 before),
      )

  -- A record with an earlier identity has earlier content.
  source_before_id-content :
      (own : Option SourceRecordIdentity)
      → source_record_identity n ≡ own
      → is_none (content_before before (n, f)) ≡ true
      → source_before_id own before ≡ none
  source_before_id-content none e h = refl
  source_before_id-content (some id) e h =
      elim (Option-cases (find_index (same_source id) 0 before)) [
        | inl absent ↦ rw absent
        | inr ((i, q), found) ↦
            let same = source_agrees id e i q found in
            absurd (earlier_content (same_source id) i q found (ap (λ g. g.record_sha256) same) h)
      ]

  pub source_before-content :
      is_none (content_before before (n, f)) ≡ true → source_before before (n, f) ≡ none
  unfolding source_before
  source_before-content = source_before_id-content (source_record_identity n) refl

abbrev pub IsEarlier : ℕ → Option ℕ → Type 0
IsEarlier i none = Unit
IsEarlier i (some j) = j < i

pub check_duplicate_record-ok :
    (i c : ℕ) (n : NormalizedTrainingRecord) (f : RecordContentFingerprint) (source : Option ℕ)
    → c < i
    → IsEarlier i source
    → check_duplicate_record (duplicate_record i n f (some c) source) ≡ ok tt
unfolding check_duplicate_record
check_duplicate_record-ok i c n f none h k = ground arith
check_duplicate_record-ok i c n f (some j) h k = ground arith

pub index_of-IsEarlier :
    (test : Prepared → Bool) (before : List Prepared)
    → IsEarlier (length before) (index_of (find_index test 0 before))
index_of-IsEarlier test before = elim (Option-cases (find_index test 0 before)) [
  | inl e ↦ rw e tt
  | inr ((i, q), e) ↦
      let found = find_index-found test 0 before i q e in rw e (omega (arith, found.1))
]
