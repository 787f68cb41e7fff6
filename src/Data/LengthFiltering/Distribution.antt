-- ===== src/Data/LengthFiltering/Distribution.antt =====
-- `token_length_distribution`: the histogram and the percentiles of nearest rank. `rank` stands for
-- the ceiling of a percentile times a length, a product of floats, and `mean` for the quotient.
use tiny_qwen_coder.Prelude.{
  ℕ, ◌+◌, ◌-◌, min, max, List, [], ◌∷◌, Option, none, some, length, get_elem?, leb, if◌then◌else◌,
}
use tiny_qwen_coder.Prelude.Eq.{◌==◌, nat_eq, from_keys}
use tiny_qwen_coder.Prelude.Sort.{sorted}
use tiny_qwen_coder.Prelude.Result.{Result, ok, err, ◌>>=◌, ◌>>◌}
use tiny_qwen_coder.Data.LengthFiltering.{
  LengthFilteringError, index_error, TokenLengthCount, check_length_count, TokenLengthDistribution,
  check_distribution,
}

pub data Percentile : Type 0 where
  p50 p90 p95 p99 : Percentile

-- `Counter(values)[n]`.
unfoldable pub count_of : ℕ → List ℕ → ℕ
count_of n [] = 0
count_of n (x ∷ xs) = (if x == n then 1 else 0) + count_of n xs

abbrev pub bar : List ℕ → ℕ → TokenLengthCount
bar values n = record { token_count = n; record_count = count_of n values }

-- `sorted(counts)`, the keys of the counter in order.
abbrev pub lengths_seen : List ℕ → List ℕ
lengths_seen values = sorted leb (from_keys [] values)

unfoldable pub bars : List ℕ → List ℕ → Result LengthFilteringError (List TokenLengthCount)
unfolding check_length_count
bars values [] = ok []
bars values (n ∷ ns) =
    check_length_count (bar values n) >> (bars values ns >>= λ rest. ok (bar values n ∷ rest))

abbrev pub or_index_error : Option ℕ → Result LengthFilteringError ℕ
or_index_error none = err index_error
or_index_error (some n) = ok n

-- `min(values)` and `max(values)` of a value and those after it.
abbrev pub least : ℕ → List ℕ → ℕ
least n [] = n
least n (x ∷ xs) = least (min n x) xs

abbrev pub greatest : ℕ → List ℕ → ℕ
greatest n [] = n
greatest n (x ∷ xs) = greatest (max n x) xs

module _ (rank : Percentile → ℕ → ℕ) where
  unfoldable pub nearest_rank : List ℕ → Percentile → Result LengthFilteringError ℕ
  nearest_rank lengths p =
      let ordered = sorted leb lengths in
      or_index_error (get_elem? ordered (max 0 (rank p (length ordered) - 1)))

  module _ (Float : Type 0) (mean : List ℕ → Float) where
    abbrev pub empty_distribution : TokenLengthDistribution Float
    empty_distribution = record {
      count = 0;
      minimum = none;
      maximum = none;
      mean = none;
      percentiles = none ∷ none ∷ none ∷ none ∷ [];
      histogram = [];
    }

    unfoldable pub token_length_distribution :
        List ℕ → Result LengthFilteringError (TokenLengthDistribution Float)
    token_length_distribution [] = check_distribution empty_distribution >> ok empty_distribution
    token_length_distribution (x ∷ xs) = do
      histogram ← bars (x ∷ xs) (lengths_seen (x ∷ xs))
      a ← nearest_rank (x ∷ xs) p50
      b ← nearest_rank (x ∷ xs) p90
      c ← nearest_rank (x ∷ xs) p95
      d ← nearest_rank (x ∷ xs) p99
      let distribution : TokenLengthDistribution Float = record {
        count = length (x ∷ xs);
        minimum = some (least x xs);
        maximum = some (greatest x xs);
        mean = some (mean (x ∷ xs));
        percentiles = some a ∷ some b ∷ some c ∷ some d ∷ [];
        histogram = histogram;
      }
      check_distribution distribution
      ok distribution
