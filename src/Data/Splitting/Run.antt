-- ===== src/Data/Splitting/Run.antt =====
-- The splitting procedures, over Python's seeded shuffle.
use tiny_qwen_coder.Prelude.{
  ℕ, ◌+◌, ◌-◌, Bool, true, false, not, List, [], ◌∷◌, ◌++◌, map, flat_map, Option, none, some,
  length, take, drop, get_elem?, ltb, if◌then◌else◌, min, max,
}
use tiny_qwen_coder.Prelude.Eq.{◌==◌, nat_eq, list_eq, elem}
use tiny_qwen_coder.Prelude.Int.{ℤ}
use tiny_qwen_coder.Prelude.Lookup.{lookup, insert}
use tiny_qwen_coder.Prelude.Result.{Result, ok, err, ◌>>=◌, ◌>>◌, raise_if}
use tiny_qwen_coder.Prelude.Sort.{sorted, text_leb}
use tiny_qwen_coder.Reproducibility.{seed_is_valid, Shuffle}
use tiny_qwen_coder.TextNormalization.{Text}
use tiny_qwen_coder.Data.Records.{NormalizedTrainingRecord}
use tiny_qwen_coder.Data.Deduplication.{RecordContentFingerprint, ExactDeduplicationReport}
use tiny_qwen_coder.Data.Splitting.{
  train, validation, TrainValidationSplit, LinkedPromptGroup, DatasetSplitMembership, Fraction,
  DeduplicatedDatasetSplit, DatasetSplittingError, invalid_seed, invalid_fraction, too_few_records,
  too_few_groups, unaligned_report, index_error, check_group, check_membership, check_split,
  range_from,
}

-- `items[index]` for each index of a sequence.
unfoldable pub pick : {A : Type 0} → List A → List ℕ → Result DatasetSplittingError (List A)
pick items [] = ok []
pick items (i ∷ is) =
    let rest = pick items is in
    elim (get_elem? items i) [ none ↦ err index_error | some a ↦ (do as' ← rest; ok (a ∷ as')) ]

-- The dictionary of the indices under each prompt, in the order of first occurrence.
abbrev pub Grouped : Type 0
Grouped = List (Text × List ℕ)

abbrev pub indices_under : Text → Grouped → List ℕ
indices_under k m = elim (lookup k m) [ none ↦ [] | some is ↦ is ]

unfoldable pub group_indices : ℕ → List RecordContentFingerprint → Grouped → Grouped
group_indices i [] m = m
group_indices i (f ∷ fs) m =
    group_indices (i + 1) fs
      (insert f.prompt_sha256 (indices_under f.prompt_sha256 m ++ (i ∷ [])) m)

unfoldable pub make_groups :
    Grouped → List Text → Result DatasetSplittingError (List LinkedPromptGroup)
make_groups m [] = ok []
make_groups m (k ∷ ks) =
    let g : LinkedPromptGroup = record { prompt_sha256 = k; unique_indices = indices_under k m } in
    let rest = make_groups m ks in do check_group g; gs ← rest; ok (g ∷ gs)

unfoldable pub linked_prompt_groups :
    List RecordContentFingerprint → Result DatasetSplittingError (List LinkedPromptGroup)
unfolding group_indices make_groups
linked_prompt_groups fs =
    let m = group_indices 0 fs [] in make_groups m (sorted text_leb (map (λ entry. entry.0) m))

-- `max(1, min(total - 1, share))`
abbrev pub clamp_count : ℕ → ℕ → ℕ
clamp_count total share = max 1 (min (total - 1) share)

unfoldable pub target_validation_count : ℕ → Fraction → Result DatasetSplittingError ℕ
target_validation_count total fraction = do
  raise_if (not fraction.in_range) invalid_fraction
  raise_if (ltb total 2) too_few_records
  ok (clamp_count total (fraction.rounded_share total))

-- `abs(a - b)`
abbrev pub distance : ℕ → ℕ → ℕ
distance a b = (a - b) + (b - a)

-- `(abs(c - t), c > t, c, count)`, compared from the left.
pub record Key : Type 0 where
  pub off : ℕ
  pub over : Bool
  pub cumulative : ℕ
  pub group_count : ℕ

abbrev pub key_of : ℕ → ℕ → ℕ → Key
key_of target cumulative count = record {
  off = distance cumulative target;
  over = ltb target cumulative;
  cumulative = cumulative;
  group_count = count;
}

unfoldable pub less_counts : Key → Key → Bool
less_counts a b =
    if a.cumulative == b.cumulative
    then ltb a.group_count b.group_count
    else ltb a.cumulative b.cumulative

unfoldable pub key_less : Key → Key → Bool
unfolding less_counts
key_less a b =
    if a.off == b.off
    then (if a.over
        then (if b.over then less_counts a b else false)
        else (if b.over then true else less_counts a b))
    else ltb a.off b.off

-- `best_key`, with `best_group_count` in it; `none` before the first round.
abbrev pub better : Option Key → Key → Option Key
better none k = some k
better (some best) k = if key_less k best then some k else some best

-- The loop over `range(1, len(groups))`: the last group is left out.
unfoldable pub choose_from : ℕ → ℕ → ℕ → List LinkedPromptGroup → Option Key → Option Key
unfolding key_less
choose_from target count cumulative [] best = best
choose_from target count cumulative (g ∷ []) best = best
choose_from target count cumulative (g ∷ h ∷ gs) best =
    let cumulative' = cumulative + length g.unique_indices in
    choose_from target (count + 1) cumulative' (h ∷ gs)
      (better best (key_of target cumulative' count))

unfoldable pub choose_validation_group_count :
    List LinkedPromptGroup → ℕ → Result DatasetSplittingError ℕ
unfolding choose_from
choose_validation_group_count groups target = do
  raise_if (ltb (length groups) 2) too_few_groups
  ok (elim (choose_from target 1 0 groups none) [ none ↦ 1 | some best ↦ best.group_count ])

abbrev pub indices_of : List LinkedPromptGroup → List ℕ
indices_of groups = flat_map (λ g. g.unique_indices) groups

-- `DatasetSplitMembership(...)` for an index, with the check of its class.
unfoldable pub membership :
    List NormalizedTrainingRecord
    → List RecordContentFingerprint
    → List ℕ
    → ℕ
    → Result DatasetSplittingError DatasetSplitMembership
membership records fingerprints validation_indices i = elim (get_elem? fingerprints i) [
  | none ↦ err index_error
  | some f ↦ elim (get_elem? records i) [
    | none ↦ err index_error
    | some r ↦ (do
      let m : DatasetSplitMembership = record {
        unique_index = i;
        partition = if elem i validation_indices then validation else train;
        record_sha256 = f.record_sha256;
        prompt_sha256 = f.prompt_sha256;
        source_id = r.provenance.source_id;
        source_record_id = r.provenance.record_id;
      }
      check_membership m
      ok m)
  ]
]

unfoldable pub memberships_for :
    List NormalizedTrainingRecord
    → List RecordContentFingerprint
    → List ℕ
    → List ℕ
    → Result DatasetSplittingError (List DatasetSplitMembership)
unfolding membership
memberships_for records fingerprints validation_indices [] = ok []
memberships_for records fingerprints validation_indices (i ∷ is) =
    let rest = memberships_for records fingerprints validation_indices is in
    do m ← membership records fingerprints validation_indices i; ms ← rest; ok (m ∷ ms)

-- The end of `split_deduplicated_records`: what is built once the groups are ordered and counted.
unfoldable pub build_split :
    ExactDeduplicationReport
    → Fraction
    → ℤ
    → ℕ
    → List LinkedPromptGroup
    → ℕ
    → Result DatasetSplittingError DeduplicatedDatasetSplit
unfolding memberships_for pick
build_split report fraction seed target groups count =
    let records = report.unique_records in
    let fingerprints = report.unique_fingerprints in
    let validation_indices = indices_of (take count groups) in
    let train_indices = indices_of (drop count groups) in
    do
      ms ← memberships_for records fingerprints validation_indices (range_from 0 (length records))
      train_records ← pick records train_indices
      validation_records ← pick records validation_indices
      train_fingerprints ← pick fingerprints train_indices
      validation_fingerprints ← pick fingerprints validation_indices
      let split : DeduplicatedDatasetSplit = record {
        schema_version = 1;
        seed = seed;
        requested_validation_fraction = fraction;
        target_validation_records = target;
        linked_prompt_group_count = length groups;
        train_records = train_records;
        validation_records = validation_records;
        train_fingerprints = train_fingerprints;
        validation_fingerprints = validation_fingerprints;
        memberships = ms;
      }
      check_split split
      ok split

module _ (random : Shuffle) where
  unfoldable pub deterministic_train_validation_split :
      {A : Type 0} → List A → Fraction → ℤ → Result DatasetSplittingError (TrainValidationSplit A)
  deterministic_train_validation_split items fraction seed = do
    raise_if (not (seed_is_valid seed)) invalid_seed
    raise_if (not fraction.in_range) invalid_fraction
    raise_if (ltb (length items) 2) too_few_records
    let indices = random.shuffle ℕ seed (range_from 0 (length items))
    let count = clamp_count (length indices) (fraction.rounded_share (length indices))
    validation_items ← pick items (take count indices)
    train_items ← pick items (drop count indices)
    ok (record { train_items = train_items; validation_items = validation_items })

  unfoldable pub split_deduplicated_records :
      ExactDeduplicationReport
      → Fraction
      → ℤ
      → Result DatasetSplittingError DeduplicatedDatasetSplit
  unfolding linked_prompt_groups target_validation_count choose_validation_group_count build_split
  split_deduplicated_records report fraction seed = do
    raise_if (not (seed_is_valid seed)) invalid_seed
    raise_if (not (length report.unique_records == length report.unique_fingerprints))
        unaligned_report
    target ← target_validation_count (length report.unique_records) fraction
    groups ← linked_prompt_groups report.unique_fingerprints
    raise_if (ltb (length groups) 2) too_few_groups
    let shuffled = random.shuffle LinkedPromptGroup seed groups
    count ← choose_validation_group_count shuffled target
    build_split report fraction seed target shuffled count
