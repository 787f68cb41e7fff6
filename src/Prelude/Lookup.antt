-- ===== src/Prelude/Lookup.antt =====
-- Python's `dict` as an association list: `get`, and `d[k] = v`.
use mathlib.Core.Path.{◌≡◌, refl}
use mathlib.Core.Option.{Option, none, some}
use mathlib.Core.List.{List, [], ◌∷◌}
use native.Mathlib.Omega.{arith}
use tiny_qwen_coder.Prelude.Tests.{if◌then◌else◌}
use tiny_qwen_coder.Prelude.Eq.{Eq, ◌==◌}

module _ {ℓ κ} {Key : Type ℓ} {Value : Type κ} ⦃same : Eq Key⦄ where
  -- Under a new key the entry goes last.
  unfoldable pub insert : Key → Value → List (Key × Value) → List (Key × Value)
  insert key value [] = (key, value) ∷ []
  insert key value ((other, old) ∷ rest) =
      if other == key then (key, value) ∷ rest else (other, old) ∷ insert key value rest

  unfoldable pub lookup : Key → List (Key × Value) → Option Value
  lookup key [] = none
  lookup key ((other, value) ∷ rest) = if other == key then some value else lookup key rest

  pub lookup-insert :
      (key asked : Key) (value : Value) (dict : List (Key × Value))
      → lookup asked (insert key value dict)
        ≡ (if key == asked then some value else lookup asked dict)
  unfolding insert lookup
  lookup-insert key asked value [] = refl
  lookup-insert key asked value ((other, old) ∷ rest) = ground (
    arith,
    lookup-insert key asked value rest,
    same.equals_iff other key,
    same.equals_iff other asked,
    same.equals_iff key asked,
  )
