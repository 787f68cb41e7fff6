-- ===== src/Data/Deduplication/Correct.antt =====
-- Deduplication returns the report of first occurrences.
use tiny_qwen_coder.Prelude.{
  ℕ, ◌+◌, ◌≡◌, refl, sym, true, false, List, [], ◌∷◌, ◌++◌, map, length, length-append, length-map,
  append_assoc, append-nil, arith,
}
use tiny_qwen_coder.Prelude.Eq.{==_refl, nat_eq, list_eq, elem, distinct}
use tiny_qwen_coder.Prelude.Find.{find_index, find_index-snoc, is_none}
use tiny_qwen_coder.Prelude.Lookup.{lookup}
use tiny_qwen_coder.Prelude.Result.{Result, ok, ◌>>=◌}
use tiny_qwen_coder.TextNormalization.{Text}
use tiny_qwen_coder.Data.Records.{NormalizedTrainingRecord}
use tiny_qwen_coder.Data.Deduplication.{
  DuplicateReason, exact_content, source_identity, reason_beq, reason_eq, all_reasons,
  RecordContentFingerprint, ExactDeduplicationReport, DeduplicationError, check_report,
}
use tiny_qwen_coder.Data.Deduplication.Run.{
  DedupState, initial, update, duplicate_record, report_of, prepare, dedup_from,
  deduplicate_exact_records,
}
use tiny_qwen_coder.Data.Deduplication.FirstOccurrences.{
  Prepared, same_content, content_before, source_before, unique_from, duplicates_from, count_with,
  AllAgree,
}
use tiny_qwen_coder.Data.Deduplication.Tables.{Tables}
use tiny_qwen_coder.Data.Deduplication.Step.{placed, dedup_step-ok, placed-Tables}

abbrev step : List Prepared → Prepared → DedupState → DedupState
step before (n, f) s =
    placed (length before) n f (content_before before (n, f)) (source_before before (n, f)) s

run : List Prepared → List Prepared → DedupState → DedupState
run before [] s = s
run before (p ∷ ps) s = run (before ++ (p ∷ [])) ps (step before p s)

run-total :
    (before ps : List Prepared) (s : DedupState) → (run before ps s).total ≡ s.total + length ps
unfolding run placed
run-total before [] s = omega arith
run-total before (p ∷ ps) s = ground (arith, run-total (before ++ (p ∷ [])) ps (step before p s))

run-records :
    (before ps : List Prepared) (s : DedupState)
    → (run before ps s).unique_records ≡ s.unique_records ++ map (λ p. p.0) (unique_from before ps)
unfolding run placed unique_from
run-records before [] s = sym (append-nil s.unique_records)
run-records before (p ∷ ps) s =
    let later = before ++ (p ∷ []) in
    ground (
      arith,
      run-records later ps (step before p s),
      append_assoc s.unique_records (p.0 ∷ []) (map (λ q. q.0) (unique_from later ps)),
    )

run-fingerprints :
    (before ps : List Prepared) (s : DedupState)
    → (run before ps s).unique_fingerprints
      ≡ s.unique_fingerprints ++ map (λ p. p.1) (unique_from before ps)
unfolding run placed unique_from
run-fingerprints before [] s = sym (append-nil s.unique_fingerprints)
run-fingerprints before (p ∷ ps) s =
    let later = before ++ (p ∷ []) in
    ground (
      arith,
      run-fingerprints later ps (step before p s),
      append_assoc s.unique_fingerprints (p.1 ∷ []) (map (λ q. q.1) (unique_from later ps)),
    )

run-duplicates :
    (before ps : List Prepared) (s : DedupState)
    → (run before ps s).duplicate_records ≡ s.duplicate_records ++ duplicates_from before ps
unfolding run placed duplicates_from
run-duplicates before [] s = sym (append-nil s.duplicate_records)
run-duplicates before (p ∷ ps) s =
    let later = before ++ (p ∷ []) in
    ground (
      arith,
      run-duplicates later ps (step before p s),
      append_assoc s.duplicate_records
          (duplicate_record (length before) p.0 p.1 (content_before before p)
              (source_before before p)
            ∷ [])
          (duplicates_from later ps),
    )

run-counts :
    (reason : DuplicateReason) (before ps : List Prepared) (s : DedupState)
    → (run before ps s).reason_counts reason
      ≡ s.reason_counts reason + count_with reason (duplicates_from before ps)
unfolding run placed duplicates_from count_with update elem reason_beq
run-counts reason before [] s = omega arith
run-counts exact_content before (p ∷ ps) s =
    ground (arith, run-counts exact_content (before ++ (p ∷ [])) ps (step before p s))
run-counts source_identity before (p ∷ ps) s =
    ground (arith, run-counts source_identity (before ++ (p ∷ [])) ps (step before p s))

unique-add-duplicates :
    (before ps : List Prepared)
    → length (map (λ (p : Prepared). p.0) (unique_from before ps))
        + length (duplicates_from before ps)
      ≡ length ps
unfolding unique_from duplicates_from
unique-add-duplicates before [] = refl
unique-add-duplicates before (p ∷ ps) =
    ground (arith, unique-add-duplicates (before ++ (p ∷ [])) ps)

abbrev digests : List Prepared → List Text
digests ps = map (λ (f : RecordContentFingerprint). f.record_sha256) (map (λ p. p.1) ps)

-- A digest among the kept records is not among those before.
elem_unique :
    (h : Text) (before ps : List Prepared)
    → elem h (digests (unique_from before ps)) ≡ true
    → is_none (find_index (same_content h) 0 before) ≡ true
unfolding unique_from content_before elem
elem_unique h before [] e = absurd (cc e)
elem_unique h before (p ∷ ps) e = ground (
  arith,
  elem_unique h (before ++ (p ∷ [])) ps,
  find_index-snoc (same_content h) 0 before p,
  (list_eq {A = ℕ}).equals_iff p.1.record_sha256 h,
)

not-elem_unique :
    (before ps : List Prepared) (p : Prepared)
    → elem p.1.record_sha256 (digests (unique_from (before ++ (p ∷ [])) ps)) ≡ false
not-elem_unique before ps p =
    let h = p.1.record_sha256 in
    ground (
      arith,
      elem_unique h (before ++ (p ∷ [])) ps,
      find_index-snoc (same_content h) 0 before p,
      ==_refl h,
    )

distinct_unique : (before ps : List Prepared) → distinct (digests (unique_from before ps)) ≡ true
unfolding unique_from distinct
distinct_unique before [] = refl
distinct_unique before (p ∷ ps) =
    ground (arith, distinct_unique (before ++ (p ∷ [])) ps, not-elem_unique before ps p)

abbrev pub expected_report : List Prepared → ExactDeduplicationReport
expected_report ps = record {
  schema_version = 1;
  total_records = length ps;
  unique_records = map (λ p. p.0) (unique_from [] ps);
  unique_fingerprints = map (λ p. p.1) (unique_from [] ps);
  duplicate_records = duplicates_from [] ps;
  reason_counts =
      map (λ r. record { reason = r; count = count_with r (duplicates_from [] ps) }) all_reasons;
}

report_of-run : (ps : List Prepared) → report_of (run [] ps initial) ≡ expected_report ps
report_of-run ps = ground (
  arith,
  run-total [] ps initial,
  run-records [] ps initial,
  run-fingerprints [] ps initial,
  run-duplicates [] ps initial,
  run-counts exact_content [] ps initial,
  run-counts source_identity [] ps initial,
)

expected_report-checked : (ps : List Prepared) → check_report (expected_report ps) ≡ ok tt
unfolding check_report
expected_report-checked ps = ground (
  arith,
  unique-add-duplicates [] ps,
  length-map (λ (p : Prepared). p.0) (unique_from [] ps),
  length-map (λ (p : Prepared). p.1) (unique_from [] ps),
  distinct_unique [] ps,
  ==_refl {A = List DuplicateReason} all_reasons,
)

initial-Tables : Tables [] initial
unfolding find_index lookup
initial-Tables = record { content = λ h. refl; source = λ id. refl }

module _ (sha256 : Text → Text) where
  -- Every record normalised and hashed.
  unfoldable pub prepare_all :
      List NormalizedTrainingRecord → Result DeduplicationError (List Prepared)
  prepare_all [] = ok []
  prepare_all (r ∷ rs) = do p ← prepare sha256 r; ps ← prepare_all rs; ok (p ∷ ps)

  prepare_all-cons :
      (r : NormalizedTrainingRecord) (rs : List NormalizedTrainingRecord) (p : Prepared)
      (ps : List Prepared)
      → prepare_all (r ∷ rs) ≡ ok (p ∷ ps)
      → (prepare sha256 r ≡ ok p) × (prepare_all rs ≡ ok ps)
  unfolding prepare_all
  prepare_all-cons r rs p ps h = ground arith

  dedup_from-ok :
      (rs : List NormalizedTrainingRecord) (before ps : List Prepared) (s : DedupState)
      → prepare_all rs ≡ ok ps
      → AllAgree before ps
      → Tables before s
      → dedup_from sha256 (length before) rs s ≡ ok (run before ps s)
  unfolding dedup_from run
  dedup_from-ok [] before [] s h a t = refl
  dedup_from-ok [] before (p ∷ ps) s h a t = absurd (unfold prepare_all in cc h)
  dedup_from-ok (r ∷ rs) before [] s h a t = absurd (unfold prepare_all in ground arith)
  dedup_from-ok (r ∷ rs) before ((n, f) ∷ ps) s h a t =
      let (prepared, rest) = prepare_all-cons r rs (n, f) ps h in
      let later = before ++ ((n, f) ∷ []) in
      let next : ℕ = length before + 1 in
      let counted : next ≡ length later = omega (arith, length-append before ((n, f) ∷ [])) in
      rw (prepared, dedup_step-ok before n f a.0 s t, counted)
        (dedup_from-ok rs later ps (step before (n, f) s) rest a.1
          (placed-Tables before n f a.0 s t))

  -- If every record can be normalised and hashed, and records with one content digest have the
  -- same messages and records with one identity the same fingerprint, then deduplication succeeds.
  -- It keeps, in the input's order, each record with no earlier record of its content digest, kept
  -- or not; it lists every other with the first earlier indices of its content and of its identity;
  -- and it counts for each reason the listed records that have it.
  pub deduplicate_exact_records-report :
      (rs : List NormalizedTrainingRecord) (ps : List Prepared)
      → prepare_all rs ≡ ok ps
      → AllAgree [] ps
      → deduplicate_exact_records sha256 rs ≡ ok (expected_report ps)
  unfolding deduplicate_exact_records
  deduplicate_exact_records-report rs ps h a = rw (
    dedup_from-ok rs [] ps initial h a initial-Tables,
    report_of-run ps,
    expected_report-checked ps,
  )
