-- ===== src/Prelude/Eq.antt =====
-- Python's `==` as an interface: a Boolean test that decides equality.
use Prim.Native.Nat.{ℕ}
use mathlib.Core.Path.{◌≡◌, refl}
use mathlib.Core.Logic.{◌↔◌, ◌≢◌}
use mathlib.Core.Bool.{Bool, true, false, not, ◌&&◌, ◌||◌}
use mathlib.Core.Option.{Option, none, some}
use mathlib.Core.List.{List, [], ◌∷◌}
use native.Mathlib.Omega.{arith}
use tiny_qwen_coder.Prelude.Tests.{nat_beq, nat_beq_iff, if◌then◌else◌}

pub record Eq {ℓ} (A : Type ℓ) : Type ℓ where
  pub equals : A → A → Bool
  pub equals_iff : (a b : A) → (equals a b ≡ true) ↔ (a ≡ b)

-- Python's integers where they are counts, indices or code points.
instance abbrev pub nat_eq : Eq ℕ
nat_eq = record { equals_iff = nat_beq_iff; equals = nat_beq }

-- `x == y` at any type that has the test.
infix 50 ◌==◌
abbrev pub ◌==◌ {ℓ} : {Item : Type ℓ} ⦃eq : Eq Item⦄ → Item → Item → Bool
◌==◌ ⦃eq⦄ x y = eq.equals x y

module _ {ℓ} {A : Type ℓ} ⦃e : Eq A⦄ where
  pub ==_refl : (a : A) → (a == a) ≡ true
  ==_refl a = (e.equals_iff a a).1 refl

  pub ==_of_ne : (a b : A) → a ≢ b → (a == b) ≡ false
  ==_of_ne a b h = ground (arith, e.equals_iff a b)

  pub eq_of_== : (a b : A) → (a == b) ≡ true → a ≡ b
  eq_of_== a b = (e.equals_iff a b).0

  unfoldable pub list_beq : List A → List A → Bool
  list_beq [] [] = true
  list_beq (x ∷ xs) (y ∷ ys) = x == y && list_beq xs ys
  list_beq _ _ = false

  pub list_beq_iff : (xs ys : List A) → (list_beq xs ys ≡ true) ↔ (xs ≡ ys)
  unfolding list_beq
  list_beq_iff [] [] = ground arith
  list_beq_iff (x ∷ xs) (y ∷ ys) = ground (arith, e.equals_iff x y, list_beq_iff xs ys)
  list_beq_iff [] (y ∷ ys) = ground arith
  list_beq_iff (x ∷ xs) [] = ground arith

  unfoldable pub option_beq : Option A → Option A → Bool
  option_beq none none = true
  option_beq (some x) (some y) = x == y
  option_beq _ _ = false

  pub option_beq_iff : (x y : Option A) → (option_beq x y ≡ true) ↔ (x ≡ y)
  unfolding option_beq
  option_beq_iff none none = ground arith
  option_beq_iff (some x) (some y) = ground (arith, e.equals_iff x y)
  option_beq_iff none (some y) = ground arith
  option_beq_iff (some x) none = ground arith

  instance abbrev pub list_eq : Eq (List A)
  list_eq = record { equals = list_beq; equals_iff = list_beq_iff }

  instance abbrev pub option_eq : Eq (Option A)
  option_eq = record { equals = option_beq; equals_iff = option_beq_iff }

  -- Python's `x in xs`.
  unfoldable pub elem : A → List A → Bool
  elem a [] = false
  elem a (x ∷ xs) = x == a || elem a xs

  -- No element twice: `len(xs) == len(set(xs))`.
  unfoldable pub distinct : List A → Bool
  unfolding elem
  distinct [] = true
  distinct (x ∷ xs) = not (elem x xs) && distinct xs

  -- `dict.fromkeys(xs)`: the first occurrence of each element, in order. `seen` are the keys so far.
  unfoldable pub from_keys : List A → List A → List A
  unfolding elem
  from_keys seen [] = []
  from_keys seen (x ∷ xs) =
      let rest = from_keys (x ∷ seen) xs in if elem x seen then rest else x ∷ rest

  pub elem-from_keys :
      (y : A) (seen xs : List A) → elem y (from_keys seen xs) ≡ (elem y xs && not (elem y seen))
  unfolding from_keys elem
  elem-from_keys y seen [] = refl
  elem-from_keys y seen (x ∷ xs) = ground (arith, elem-from_keys y (x ∷ seen) xs, e.equals_iff x y)

  pub distinct-from_keys : (seen xs : List A) → distinct (from_keys seen xs) ≡ true
  unfolding from_keys distinct elem
  distinct-from_keys seen [] = refl
  distinct-from_keys seen (x ∷ xs) =
      ground
        (arith, distinct-from_keys (x ∷ seen) xs, elem-from_keys x (x ∷ seen) xs, e.equals_iff x x)
