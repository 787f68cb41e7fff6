-- ===== src/Tests/Divided.antt =====
-- Splitting at small inputs.
use tiny_qwen_coder.Prelude.{ℕ, ◌≡◌, ◌≤◌, ◌<◌, refl, List, [], ◌∷◌, take, length, arith}
use tiny_qwen_coder.Prelude.Result.{ok}
use tiny_qwen_coder.Data.Splitting.{LinkedPromptGroup}
use tiny_qwen_coder.Data.Splitting.Run.{distance, choose_validation_group_count}
use tiny_qwen_coder.Data.Splitting.Choice.{records_in, choose_validation_group_count-best}

abbrev group : List ℕ → LinkedPromptGroup
group is = record { prompt_sha256 = []; unique_indices = is }

abbrev groups : List LinkedPromptGroup
groups = group (0 ∷ 1 ∷ 2 ∷ []) ∷ group (3 ∷ []) ∷ group (4 ∷ 5 ∷ []) ∷ group (6 ∷ []) ∷ []

choose_validation_group_count-groups : choose_validation_group_count groups 5 ≡ ok 2
unfolding choose_validation_group_count
choose_validation_group_count-groups = refl

choose_validation_group_count-best_example :
    (c : ℕ) × (choose_validation_group_count groups 5 ≡ ok c)
    × (1 ≤ c)
    × (c < length groups)
    × ((k : ℕ)
        → 1 ≤ k
        → k < length groups
        → (distance (records_in (take c groups)) 5 ≤ distance (records_in (take k groups)) 5)
          × (distance (records_in (take c groups)) 5 ≡ distance (records_in (take k groups)) 5
              → 5 < records_in (take c groups)
              → 5 < records_in (take k groups)))
choose_validation_group_count-best_example =
    choose_validation_group_count-best groups 5 (omega arith)
