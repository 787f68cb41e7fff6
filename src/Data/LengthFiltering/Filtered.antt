-- ===== src/Data/LengthFiltering/Filtered.antt =====
-- The whole length filter succeeds.
use tiny_qwen_coder.Prelude.{
  ℕ, ◌+◌, ◌≤◌, ◌≡◌, refl, sym, ap, ◌∙◌, false, not, ◌||◌, List, [], ◌∷◌, map, Option, null, length,
  length-map, All, arith,
}
use tiny_qwen_coder.Prelude.Eq.{◌==◌, ==_refl, nat_eq, list_eq}
use tiny_qwen_coder.Prelude.Result.{ok}
use tiny_qwen_coder.TextNormalization.{Text}
use tiny_qwen_coder.Data.Records.{NormalizedTrainingRecord}
use tiny_qwen_coder.Data.LengthFiltering.{
  LengthRejectionReason, too_short, too_long, length_reason_eq, length_reasons, LengthFilterConfig,
  config_or_default, InspectionTarget, TokenLengthDistribution, TokenLengthFilterReport,
  AcceptedTokenLength, LengthRejectedTrainingRecord, check_length_report,
}
use tiny_qwen_coder.Data.LengthFiltering.Distribution.{Percentile, token_length_distribution}
use tiny_qwen_coder.Data.LengthFiltering.Run.{
  Tokenizer, require_chat_template, validate_revision, LengthFilterState, no_records, length_loop,
  length_report, filter_by_token_length,
}
use tiny_qwen_coder.Data.LengthFiltering.Described.{
  count_dropped, tokens_of, IsSplit, none_left, within, below_minimum, above_maximum, IsDescribed,
  loop-IsDescribed, kept-IsSplit,
}
use tiny_qwen_coder.Data.LengthFiltering.Total.{token_length_distribution-total}

nonempty_digest : (t : Text) → length t ≡ 64 → (null t || not (length t == 64)) ≡ false
nonempty_digest [] h = absurd (omega (arith, h))
nonempty_digest (x ∷ t) h = ground arith

-- Every record is accepted, with its length, or rejected.
module _ (t : Tokenizer) (template : Text) (c : LengthFilterConfig) where
  IsSplit-lengths :
      {i : ℕ} {rs ks : List NormalizedTrainingRecord} {ls : List AcceptedTokenLength}
      {ds : List LengthRejectedTrainingRecord}
      → IsSplit t template c i rs ks ls ds
      → (length ks + length ds ≡ length rs) × (length ks ≡ length ls)
  IsSplit-lengths (none_left i) = (omega arith, refl)
  IsSplit-lengths (within r low high s) =
      let (whole, aligned) = IsSplit-lengths s in (omega (arith, whole), omega (arith, aligned))
  IsSplit-lengths (below_minimum r low s) =
      let (whole, aligned) = IsSplit-lengths s in (omega (arith, whole), aligned)
  IsSplit-lengths (above_maximum r low high s) =
      let (whole, aligned) = IsSplit-lengths s in (omega (arith, whole), aligned)

counted :
    (t : Tokenizer) (template : Text) (c : LengthFilterConfig)
    (records : List NormalizedTrainingRecord) (s : LengthFilterState)
    → IsDescribed t template c 0 records no_records s
    → (x : LengthRejectionReason) → s.counts x ≡ count_dropped x s.rejected
counted t template c records s d x = rw d.rejected (d.counts x ∙ omega arith)

module _ (rank : Percentile → ℕ → ℕ) (Float : Type 0) (mean : List ℕ → Float)
    (sha256 : Text → Text) where
  abbrev pub report_of :
      Tokenizer
      → InspectionTarget
      → Text
      → LengthFilterConfig
      → LengthFilterState
      → TokenLengthDistribution Float
      → TokenLengthDistribution Float
      → TokenLengthFilterReport Float
  report_of t target template c s before after = record {
    schema_version = 1;
    target = target;
    tokenizer_class = t.class_name;
    chat_template_sha256 = sha256 template;
    config = c;
    total_records = length s.all_lengths;
    accepted_records = s.accepted;
    accepted_lengths = s.accepted_lengths;
    rejected_records = s.rejected;
    rejection_counts = map (λ x. record { reason = x; count = s.counts x }) length_reasons;
    input_distribution = before;
    accepted_distribution = after;
  }

  -- The numbers that the report's check compares.
  record Agrees (s : LengthFilterState) (before after : TokenLengthDistribution Float)
      : Type 0 where
    total : length s.all_lengths ≡ length s.accepted + length s.rejected
    lengths : length s.accepted ≡ length s.accepted_lengths
    input : before.count ≡ length s.all_lengths
    accepted : after.count ≡ length s.accepted

  report_of-accepted :
      (t : Tokenizer) (target : InspectionTarget) (template : Text) (c : LengthFilterConfig)
      (s : LengthFilterState) (before after : TokenLengthDistribution Float)
      → length (sha256 template) ≡ 64
      → Agrees s before after
      → check_length_report (report_of t target template c s before after) ≡ ok tt
  unfolding check_length_report
  report_of-accepted t target template c s before after h a = rw (
    a.input,
    a.total,
    ==_refl (length s.accepted + length s.rejected),
    a.accepted,
    a.lengths,
    ==_refl (length s.accepted_lengths),
    ==_refl length_reasons,
    nonempty_digest (sha256 template) h,
  )

  length_report-ok :
      (t : Tokenizer) (target : InspectionTarget) (template : Text) (c : LengthFilterConfig)
      (s : LengthFilterState) (before after : TokenLengthDistribution Float)
      → require_chat_template t.chat_template ≡ ok template
      → token_length_distribution rank Float mean s.all_lengths ≡ ok before
      → token_length_distribution rank Float mean (map (λ a. a.token_count) s.accepted_lengths)
        ≡ ok after
      → check_length_report (report_of t target template c s before after) ≡ ok tt
      → length_report rank Float mean sha256 t target c s
        ≡ ok (report_of t target template c s before after)
  unfolding length_report
  length_report-ok t target template c s before after e b a k = rw (e, b, a, k)

  filter-steps :
      (t : Tokenizer) (target : InspectionTarget) (config : Option LengthFilterConfig)
      (records : List NormalizedTrainingRecord) (s : LengthFilterState)
      (r : TokenLengthFilterReport Float)
      → validate_revision t.resolved_revision target.tokenizer_revision ≡ ok tt
      → length_loop t (config_or_default config) 0 records no_records ≡ ok s
      → length_report rank Float mean sha256 t target (config_or_default config) s ≡ ok r
      → filter_by_token_length rank Float mean sha256 records t target config ≡ ok r
  unfolding filter_by_token_length
  filter-steps t target config records s r v l k = rw (v, l, k)

  -- What a report says of the records that were filtered.
  pub record IsFiltered (t : Tokenizer) (template : Text) (c : LengthFilterConfig)
      (records : List NormalizedTrainingRecord) (report : TokenLengthFilterReport Float)
      : Type 0 where
    pub split :
        IsSplit t template c 0 records report.accepted_records report.accepted_lengths
          report.rejected_records
    pub total : report.total_records ≡ length records
    pub counts :
        report.rejection_counts
        ≡ record { reason = too_short; count = count_dropped too_short report.rejected_records }
          ∷ record { reason = too_long; count = count_dropped too_long report.rejected_records }
          ∷ []
    pub before :
        token_length_distribution rank Float mean
          (map (λ r. length (tokens_of t template c r)) records)
        ≡ ok report.input_distribution
    pub after :
        token_length_distribution rank Float mean (map (λ a. a.token_count) report.accepted_lengths)
        ≡ ok report.accepted_distribution

  -- If the tokenizer has the expected revision and a chat template whose digest has 64 characters
  -- and gives at least one token for each record, and the rank of a percentile is at most the
  -- number of values, the filter raises no error. Of the records, in order, its report accepts
  -- those with at least `min_tokens` and at most `max_tokens` tokens, with index and length, and
  -- rejects those with fewer as too short and those with more as too long, with index, provenance
  -- and length. It counts the records and the rejections for each reason, and its distributions are
  -- those of the lengths of all and of the accepted records. A missing configuration is the
  -- default one.
  pub filter_by_token_length-IsFiltered :
      (t : Tokenizer) (template : Text) (target : InspectionTarget)
      (config : Option LengthFilterConfig) (records : List NormalizedTrainingRecord)
      → ((p : Percentile) (n : ℕ) → rank p n ≤ n)
      → validate_revision t.resolved_revision target.tokenizer_revision ≡ ok tt
      → require_chat_template t.chat_template ≡ ok template
      → length (sha256 template) ≡ 64
      → All (λ r. null (tokens_of t template (config_or_default config) r) ≡ false) records
      → (report : TokenLengthFilterReport Float) × ((filter_by_token_length rank Float mean sha256
              records t target config
            ≡ ok report)
          × IsFiltered t template (config_or_default config) records report)
  filter_by_token_length-IsFiltered t template target config records in_range v e h k =
      let c = config_or_default config in
      let (s, (run, d)) = loop-IsDescribed t template c 0 records no_records e k in
      let parts : IsSplit t template c 0 records s.accepted s.accepted_lengths s.rejected =
        rw (d.accepted, d.accepted_lengths, d.rejected) (kept-IsSplit t template c 0 records) in
      let (whole, aligned) = IsSplit-lengths t template c parts in
      let (before, (hb, (cb, _))) =
        token_length_distribution-total rank in_range Float mean s.all_lengths in
      let (after, (ha, (ca, _))) =
        token_length_distribution-total rank in_range Float mean
          (map (λ a. a.token_count) s.accepted_lengths) in
      let all : length s.all_lengths ≡ length records =
        ap (λ l. length l) d.all_lengths ∙ length-map _ records in
      let agrees : Agrees s before after = record {
        total = all ∙ sym whole;
        lengths = aligned;
        input = cb;
        accepted = ca ∙ (length-map _ s.accepted_lengths ∙ sym aligned);
      } in
      (
        report_of t target template c s before after,
        (
          filter-steps t target config records s _ v run (
              length_report-ok t target template c s before after e hb ha
                (report_of-accepted t target template c s before after h agrees)),
          record {
            split = parts;
            total = all;
            counts = rw (
              counted t template c records s d too_short,
              counted t template c records s d too_long,
            );
            before = rw (sym d.all_lengths) hb;
            after = ha;
          },
        ),
      )
