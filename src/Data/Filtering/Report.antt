-- ===== src/Data/Filtering/Report.antt =====
-- The report of the filter against a description without a loop.
use tiny_qwen_coder.Prelude.{
  ℕ, ◌+◌, ◌≡◌, refl, sym, ◌∙◌, true, false, List, [], ◌∷◌, ◌++◌, map, Option, none, some, null,
  length, append_assoc, append-nil, if◌then◌else◌, arith,
}
use tiny_qwen_coder.Prelude.Eq.{◌==◌, ==_refl, list_eq, elem, distinct, distinct-from_keys}
use tiny_qwen_coder.Prelude.Result.{ok}
use tiny_qwen_coder.Data.Records.{NormalizedTrainingRecord}
use tiny_qwen_coder.Data.Filtering.{
  ContentRejectionReason, reason_beq_iff, reason_eq, all_reasons, RejectedTrainingRecord,
  RequiredContentFilterReport, check_rejected_record, check_filter_report, Counts, update, examine,
  unique_reasons, normalize_record_text, content_rejection_reasons, invalid_text_encoding,
  malformed_record, empty_prompt, empty_response, FilterState, rejected_record, filter_step,
  filter_from, initial, report_of, filter_required_content,
}

-- The records without a reason against them, normalised.
unfoldable pub accepted_of : List NormalizedTrainingRecord → List NormalizedTrainingRecord
accepted_of [] = []
accepted_of (r ∷ rs) =
    let rest = accepted_of rs in if null (examine r).1 then (examine r).0 ∷ rest else rest

-- The others, with the index that they have in the input and all the reasons.
unfoldable pub rejected_from : ℕ → List NormalizedTrainingRecord → List RejectedTrainingRecord
rejected_from i [] = []
rejected_from i (r ∷ rs) =
    let rest = rejected_from (i + 1) rs in
    if null (examine r).1 then rest else rejected_record i r (examine r).1 ∷ rest

-- How many rejected records show a reason.
unfoldable pub count_with : ContentRejectionReason → List RejectedTrainingRecord → ℕ
count_with reason [] = 0
count_with reason (r ∷ rs) = (if elem reason r.reasons then 1 else 0) + count_with reason rs

unique_reasons-distinct :
    (r : NormalizedTrainingRecord) (o : Option NormalizedTrainingRecord)
    → distinct (unique_reasons r o).1 ≡ true
unfolding unique_reasons
unique_reasons-distinct r none =
    distinct-from_keys [] (invalid_text_encoding ∷ content_rejection_reasons r)
unique_reasons-distinct r (some n) = distinct-from_keys [] (content_rejection_reasons n)

examine-distinct : (r : NormalizedTrainingRecord) → distinct (examine r).1 ≡ true
unfolding examine
examine-distinct r = unique_reasons-distinct r (normalize_record_text r)

update_absent :
    (reason : ContentRejectionReason) (xs : List ContentRejectionReason) (c : Counts)
    → elem reason xs ≡ false
    → update xs c reason ≡ c reason
unfolding update elem
update_absent reason [] c h = refl
update_absent reason (x ∷ xs) c h =
    update_absent reason xs (λ s. if x == s then c s + 1 else c s) (ground arith) ∙ ground arith

update_lem :
    (reason : ContentRejectionReason) (xs : List ContentRejectionReason) (c : Counts)
    → distinct xs ≡ true
    → update xs c reason ≡ c reason + (if elem reason xs then 1 else 0)
unfolding update elem distinct
update_lem reason [] c h = omega arith
update_lem reason (x ∷ xs) c h = ground (
  arith,
  reason_beq_iff x reason,
  update_absent reason xs (λ s. if x == s then c s + 1 else c s),
  update_lem reason xs (λ s. if x == s then c s + 1 else c s),
)

-- What one step makes of the state.
step_state : ℕ → NormalizedTrainingRecord → FilterState → FilterState
step_state i r s =
    if null (examine r).1
    then record s { total = s.total + 1; accepted = s.accepted ++ ((examine r).0 ∷ []) }
    else record s {
      total = s.total + 1;
      rejected = s.rejected ++ (rejected_record i r (examine r).1 ∷ []);
      counts = update (examine r).1 s.counts;
    }

filter_step-ok :
    (i : ℕ) (r : NormalizedTrainingRecord) (s : FilterState)
    → filter_step i r s ≡ ok (step_state i r s)
unfolding filter_step step_state check_rejected_record rejected_record
filter_step-ok i r s = ground (arith, examine-distinct r)

run : ℕ → List NormalizedTrainingRecord → FilterState → FilterState
run i [] s = s
run i (r ∷ rs) s = run (i + 1) rs (step_state i r s)

filter_from-ok :
    (i : ℕ) (rs : List NormalizedTrainingRecord) (s : FilterState)
    → filter_from i rs s ≡ ok (run i rs s)
unfolding filter_from run
filter_from-ok i [] s = refl
filter_from-ok i (r ∷ rs) s =
    rw (filter_step-ok i r s) (filter_from-ok (i + 1) rs (step_state i r s))

run-total :
    (i : ℕ) (rs : List NormalizedTrainingRecord) (s : FilterState)
    → (run i rs s).total ≡ s.total + length rs
unfolding run step_state
run-total i [] s = omega arith
run-total i (r ∷ rs) s = ground (arith, run-total (i + 1) rs (step_state i r s))

run-accepted :
    (i : ℕ) (rs : List NormalizedTrainingRecord) (s : FilterState)
    → (run i rs s).accepted ≡ s.accepted ++ accepted_of rs
unfolding run step_state accepted_of
run-accepted i [] s = sym (append-nil s.accepted)
run-accepted i (r ∷ rs) s = ground (
  arith,
  run-accepted (i + 1) rs (step_state i r s),
  append_assoc s.accepted ((examine r).0 ∷ []) (accepted_of rs),
)

run-rejected :
    (i : ℕ) (rs : List NormalizedTrainingRecord) (s : FilterState)
    → (run i rs s).rejected ≡ s.rejected ++ rejected_from i rs
unfolding run step_state rejected_from
run-rejected i [] s = sym (append-nil s.rejected)
run-rejected i (r ∷ rs) s = ground (
  arith,
  run-rejected (i + 1) rs (step_state i r s),
  append_assoc s.rejected (rejected_record i r (examine r).1 ∷ []) (rejected_from (i + 1) rs),
)

run-counts :
    (reason : ContentRejectionReason) (i : ℕ) (rs : List NormalizedTrainingRecord) (s : FilterState)
    → (run i rs s).counts reason ≡ s.counts reason + count_with reason (rejected_from i rs)
unfolding run step_state rejected_from count_with rejected_record
run-counts reason i [] s = omega arith
run-counts reason i (r ∷ rs) s = ground (
  arith,
  run-counts reason (i + 1) rs (step_state i r s),
  update_lem reason (examine r).1 s.counts (examine-distinct r),
)

accepted-add-rejected :
    (i : ℕ) (rs : List NormalizedTrainingRecord)
    → length (accepted_of rs) + length (rejected_from i rs) ≡ length rs
unfolding accepted_of rejected_from
accepted-add-rejected i [] = refl
accepted-add-rejected i (r ∷ rs) = ground (arith, accepted-add-rejected (i + 1) rs)

abbrev pub expected_report : List NormalizedTrainingRecord → RequiredContentFilterReport
expected_report rs = record {
  total_records = length rs;
  accepted_records = accepted_of rs;
  rejected_records = rejected_from 0 rs;
  reason_counts =
      map (λ r. record { reason = r; count = count_with r (rejected_from 0 rs) }) all_reasons;
}

expected_report-checked :
    (rs : List NormalizedTrainingRecord) → check_filter_report (expected_report rs) ≡ ok tt
unfolding check_filter_report
expected_report-checked rs =
    ground
      (arith, accepted-add-rejected 0 rs, ==_refl {A = List ContentRejectionReason} all_reasons)

report_of-run :
    (rs : List NormalizedTrainingRecord) → report_of (run 0 rs initial) ≡ expected_report rs
report_of-run rs = ground (
  arith,
  run-total 0 rs initial,
  run-accepted 0 rs initial,
  run-rejected 0 rs initial,
  run-counts invalid_text_encoding 0 rs initial,
  run-counts malformed_record 0 rs initial,
  run-counts empty_prompt 0 rs initial,
  run-counts empty_response 0 rs initial,
)

-- The filter never raises. Its report counts every input record, keeps the records without a
-- reason in the input's order and normalised, lists every other with its index and reasons, and
-- counts for each of the four reasons, in their order, the rejected records that show it.
pub filter_required_content-report :
    (rs : List NormalizedTrainingRecord) → filter_required_content rs ≡ ok (expected_report rs)
unfolding filter_required_content
filter_required_content-report rs =
    rw (filter_from-ok 0 rs initial, report_of-run rs, expected_report-checked rs)
