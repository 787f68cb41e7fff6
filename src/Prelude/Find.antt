-- ===== src/Prelude/Find.antt =====
-- The first element of a list that passes a test, with its index.
use Prim.Native.Nat.{ℕ, ◌+◌, ◌<◌, ◌≤◌}
use mathlib.Core.Path.{◌≡◌, subst}
use mathlib.Core.Logic.{◌≢◌, inl, inr}
use mathlib.Core.Bool.{Bool, true, false}
use mathlib.Core.Option.{Option, none, some}
use mathlib.Core.List.{List, [], ◌∷◌, ◌++◌}
use native.Mathlib.Omega.{arith}
use tiny_qwen_coder.Prelude.Tests.{if◌then◌else◌, Bool-cases}
use tiny_qwen_coder.Prelude.Lists.{length, All}

-- The first of two answers.
abbrev pub or_else {ℓ} : {A : Type ℓ} → Option A → Option A → Option A
or_else none b = b
or_else (some a) b = some a

abbrev pub is_none {ℓ} : {A : Type ℓ} → Option A → Bool
is_none none = true
is_none (some a) = false

module _ {ℓ} {A : Type ℓ} (test : A → Bool) where
  -- Indices are counted from `i`.
  unfoldable pub find_index : ℕ → List A → Option (ℕ × A)
  find_index i [] = none
  find_index i (x ∷ xs) = if test x then some (i, x) else find_index (i + 1) xs

  pub find_index-snoc :
      (i : ℕ) (xs : List A) (x : A)
      → find_index i (xs ++ (x ∷ []))
        ≡ or_else (find_index i xs) (if test x then some (i + length xs, x) else none)
  unfolding find_index
  find_index-snoc i [] x = ground arith
  find_index-snoc i (y ∷ xs) x = ground (arith, find_index-snoc (i + 1) xs x)

  pub find_index-found :
      (i : ℕ) (xs : List A) (j : ℕ) (a : A)
      → find_index i xs ≡ some (j, a)
      → (i ≤ j) × (j < i + length xs) × (test a ≡ true)
  unfolding find_index
  find_index-found i [] j a h = absurd (cc h)
  find_index-found i (x ∷ xs) j a h = ground (arith, find_index-found (i + 1) xs j a)

  pub find_index-All {κ} :
      (P : A → Type κ) (i : ℕ) (xs : List A) (j : ℕ) (a : A)
      → All P xs
      → find_index i xs ≡ some (j, a)
      → P a
  unfolding find_index
  find_index-All P i [] j a ps h = absurd (cc h)
  find_index-All P i (x ∷ xs) j a ps h = elim (Bool-cases (test x)) [
    | inl e ↦ let same : x ≡ a = ground arith in subst P same ps.0
    | inr e ↦ find_index-All P (i + 1) xs j a ps.1 (ground arith)
  ]

-- What one test finds, a weaker test finds too, there or before.
find_index-none {ℓ} :
    {A : Type ℓ} (p q : A → Bool) (i : ℕ) (xs : List A) (j : ℕ) (a : A)
    → find_index p i xs ≡ some (j, a)
    → q a ≡ true
    → find_index q i xs ≢ none
unfolding find_index
find_index-none p q i [] j a h t = absurd (cc h)
find_index-none p q i (x ∷ xs) j a h t = ground (arith, find_index-none p q (i + 1) xs j a)

pub find_index-weaker {ℓ} :
    {A : Type ℓ} (p q : A → Bool) (i : ℕ) (xs : List A) (j : ℕ) (a : A)
    → find_index p i xs ≡ some (j, a)
    → q a ≡ true
    → is_none (find_index q i xs) ≡ false
find_index-weaker p q i xs j a h t = ground (arith, find_index-none p q i xs j a h t)
