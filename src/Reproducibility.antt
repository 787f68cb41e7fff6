-- ===== src/Reproducibility.antt =====
-- src/tiny_qwen_coder/reproducibility.py: the range of seeds, and the seeded generator that the
-- split uses.
use mathlib.Core.Bool.{false}
use tiny_qwen_coder.Prelude.{ℕ, ◌^◌, ◌-◌, Bool, List, Perm, leb}
use tiny_qwen_coder.Prelude.Int.{ℤ, pos, negsuc}

abbrev pub max_seed : ℕ
max_seed = 2 ^ 32 - 1

-- `validate_seed`: whether it accepts the integer.
unfoldable pub seed_is_valid : ℤ → Bool
seed_is_valid (pos n) = leb n max_seed
seed_is_valid (negsuc n) = false

-- `random.Random(seed).shuffle`, of Python's library: some permutation, fixed by the seed.
pub record Shuffle : Type 1 where
  pub shuffle : (A : Type 0) → ℤ → List A → List A
  pub shuffle_perm : (A : Type 0) (seed : ℤ) (xs : List A) → Perm (shuffle A seed xs) xs
