-- ===== src/Data/Deduplication/FirstOccurrences.antt =====
-- Deduplication described without a loop over tables: a record is kept exactly if no earlier
-- record of the input, kept or not, has its content digest. Each prepared record is the pair of
-- the normalised record and its fingerprint.
use tiny_qwen_coder.Prelude.{
  ℕ, ◌+◌, ◌≡◌, Bool, List, [], ◌∷◌, ◌++◌, Option, none, some, length, if◌then◌else◌, All,
}
use tiny_qwen_coder.Prelude.Eq.{◌==◌, nat_eq, list_eq, option_eq, elem}
use tiny_qwen_coder.Prelude.Find.{find_index, is_none}
use tiny_qwen_coder.TextNormalization.{Text}
use tiny_qwen_coder.Data.Records.{NormalizedTrainingRecord}
use tiny_qwen_coder.Data.Deduplication.{
  DuplicateReason, reason_eq, RecordContentFingerprint, SourceRecordIdentity, identity_eq,
  DuplicateTrainingRecord, source_record_identity,
}
use tiny_qwen_coder.Data.Deduplication.Run.{duplicate_record}

abbrev pub Prepared : Type 0
Prepared = NormalizedTrainingRecord × RecordContentFingerprint

abbrev pub same_content : Text → Prepared → Bool
same_content h (n, f) = f.record_sha256 == h

abbrev pub same_source : SourceRecordIdentity → Prepared → Bool
same_source id (n, f) = source_record_identity n == some id

abbrev pub index_of : Option (ℕ × Prepared) → Option ℕ
index_of none = none
index_of (some (i, p)) = some i

-- The first record among the earlier ones with the content of `p`, and with its identity.
unfoldable pub content_before : List Prepared → Prepared → Option ℕ
content_before before (n, f) = index_of (find_index (same_content f.record_sha256) 0 before)

abbrev pub source_before_id : Option SourceRecordIdentity → List Prepared → Option ℕ
source_before_id none before = none
source_before_id (some id) before = index_of (find_index (same_source id) 0 before)

unfoldable pub source_before : List Prepared → Prepared → Option ℕ
source_before before (n, f) = source_before_id (source_record_identity n) before

unfoldable pub unique_from : List Prepared → List Prepared → List Prepared
unique_from before [] = []
unique_from before (p ∷ ps) =
    let rest = unique_from (before ++ (p ∷ [])) ps in
    if is_none (content_before before p) then p ∷ rest else rest

unfoldable pub duplicates_from : List Prepared → List Prepared → List DuplicateTrainingRecord
duplicates_from before [] = []
duplicates_from before (p ∷ ps) =
    let rest = duplicates_from (before ++ (p ∷ [])) ps in
    if is_none (content_before before p)
    then rest
    else duplicate_record (length before) p.0 p.1 (content_before before p) (source_before before p)
      ∷ rest

unfoldable pub count_with : DuplicateReason → List DuplicateTrainingRecord → ℕ
count_with reason [] = 0
count_with reason (d ∷ ds) = (if elem reason d.reasons then 1 else 0) + count_with reason ds

-- Two records with one content digest have the same messages, and two with one identity have the
-- same fingerprint.
pub record Agrees (p q : Prepared) : Type 0 where
  pub content : p.1.record_sha256 ≡ q.1.record_sha256 → p.0.messages ≡ q.0.messages
  pub source :
      (id : SourceRecordIdentity)
      → source_record_identity p.0 ≡ some id
      → source_record_identity q.0 ≡ some id
      → p.1 ≡ q.1

-- Each of the records agrees with all before it.
abbrev pub AllAgree : List Prepared → List Prepared → Type 0
AllAgree before [] = Unit
AllAgree before (p ∷ ps) = All (λ q. Agrees q p) before × AllAgree (before ++ (p ∷ [])) ps
