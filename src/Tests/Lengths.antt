-- ===== src/Tests/Lengths.antt =====
-- The length filter on three short records.
use tiny_qwen_coder.Prelude.{
  ℕ, ◌-◌, ◌/◌, ◌≤◌, ◌≡◌, refl, List, [], ◌∷◌, ◌++◌, map, length, none, some, arith,
}
use tiny_qwen_coder.Prelude.Eq.{from_keys}
use tiny_qwen_coder.Prelude.Int.{pos}
use tiny_qwen_coder.Prelude.Sort.{sorted}
use tiny_qwen_coder.Prelude.Result.{ok, err}
use tiny_qwen_coder.TextNormalization.{Text}
use tiny_qwen_coder.Data.Records.{NormalizedTrainingRecord}
use tiny_qwen_coder.Data.Deduplication.Payload.{codes}
use tiny_qwen_coder.Data.LengthFiltering.{
  LengthFilterConfig, reject, InspectionTarget, TokenLengthDistribution, TokenLengthFilterReport,
  check_config, bad_max_tokens, too_short, too_long,
}
use tiny_qwen_coder.Data.LengthFiltering.Distribution.{
  bars, bar, count_of, lengths_seen, Percentile, p50, p90, p95, p99, token_length_distribution,
}
use tiny_qwen_coder.Data.LengthFiltering.Total.{token_length_distribution-total}
use tiny_qwen_coder.Data.LengthFiltering.Run.{
  Tokenizer, require_chat_template, validate_revision, filter_by_token_length, length_reason,
}
use tiny_qwen_coder.Tests.Samples.{sample, sum_digest}
use tiny_qwen_coder.Data.LengthFiltering.Filtered.{IsFiltered, filter_by_token_length-IsFiltered}

-- One token for each code point of the contents, and one before them.
abbrev contents_of : List (Text × Text) → Text
contents_of [] = []
contents_of (m ∷ ms) = m.1 ++ contents_of ms

abbrev code_tokenizer : Tokenizer
code_tokenizer = record {
  chat_template = some (codes "t");
  class_name = codes "Code";
  resolved_revision = none;
  apply_chat_template = λ ms template. pos 0 ∷ map pos (contents_of ms);
}

abbrev narrow : LengthFilterConfig
narrow = record { min_tokens = 4; max_tokens = 5; truncation_policy = reject }

narrow_accepted : check_config narrow ≡ ok tt
unfolding check_config
narrow_accepted = refl

reversed_bounds :
    check_config (record { min_tokens = 4; max_tokens = 3; truncation_policy = reject })
    ≡ err bad_max_tokens
unfolding check_config
reversed_bounds = refl

abbrev three_records : List NormalizedTrainingRecord
three_records =
    sample none (codes "a") (codes "b")
    ∷ sample none (codes "ab") (codes "cd")
    ∷ sample none (codes "abc") (codes "def")
    ∷ []

-- Both bounds belong to the range.
narrow_reasons :
    (length_reason narrow 3 ≡ some too_short)
    × ((length_reason narrow 4 ≡ none)
        × ((length_reason narrow 5 ≡ none) × (length_reason narrow 6 ≡ some too_long)))
narrow_reasons = (refl, (refl, (refl, refl)))

three_bars :
    bars (5 ∷ 3 ∷ 5 ∷ []) (lengths_seen (5 ∷ 3 ∷ 5 ∷ []))
    ≡ ok (bar (3 ∷ []) 3 ∷ bar (5 ∷ 5 ∷ []) 5 ∷ [])
unfolding bars from_keys sorted count_of
three_bars = refl

code_template : require_chat_template code_tokenizer.chat_template ≡ ok (codes "t")
unfolding require_chat_template
code_template = refl

-- The rank of a percentile, for `p50` by halves.
abbrev simple_rank : Percentile → ℕ → ℕ
simple_rank p50 n = n - n / 2
simple_rank p n = n

simple_rank-in_range : (p : Percentile) (n : ℕ) → simple_rank p n ≤ n
simple_rank-in_range p50 n = omega arith
simple_rank-in_range p90 n = omega arith
simple_rank-in_range p95 n = omega arith
simple_rank-in_range p99 n = omega arith

abbrev sample_lengths : List ℕ
sample_lengths = 5 ∷ 3 ∷ 5 ∷ []

abbrev first_length : List ℕ → ℕ
first_length [] = 0
first_length (n ∷ ns) = n

token_length_distribution-total_example :
    (d : TokenLengthDistribution ℕ) × ((token_length_distribution simple_rank ℕ first_length
          sample_lengths
        ≡ ok d)
      × ((d.count ≡ length sample_lengths)
          × (d.histogram ≡ map (bar sample_lengths) (lengths_seen sample_lengths))))
token_length_distribution-total_example =
    token_length_distribution-total simple_rank simple_rank-in_range ℕ first_length sample_lengths

abbrev sample_target : InspectionTarget
sample_target = record {
  config_id = codes "base";
  model_repository = codes "qwen";
  model_revision = codes "m";
  tokenizer_repository = codes "qwen";
  tokenizer_revision = codes "r";
  model_load_dtype = codes "bfloat16";
}

code_revision :
    validate_revision code_tokenizer.resolved_revision sample_target.tokenizer_revision ≡ ok tt
unfolding validate_revision
code_revision = refl

filter_by_token_length-IsFiltered_example :
    (report : TokenLengthFilterReport ℕ) × ((filter_by_token_length simple_rank ℕ first_length
          sum_digest three_records code_tokenizer sample_target
          (some narrow)
        ≡ ok report)
      × IsFiltered simple_rank ℕ first_length sum_digest code_tokenizer
          (codes "t")
          narrow
          three_records
          report)
filter_by_token_length-IsFiltered_example =
    filter_by_token_length-IsFiltered simple_rank ℕ first_length sum_digest code_tokenizer
      (codes "t") sample_target (some narrow) three_records simple_rank-in_range code_revision
      code_template refl (refl, (refl, (refl, tt)))
