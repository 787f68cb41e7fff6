-- ===== src/Json.antt =====
-- The values of Python's `json` module, and the tests that the parsers of src/tiny_qwen_coder make
-- on them. A float is its literal. An object is what `json.loads` makes of it: each key once.
use tiny_qwen_coder.Prelude.{
  ◌≡◌, refl, ap, Bool, ◌&&◌, List, [], ◌∷◌, all, Option, none, some, if◌then◌else◌,
}
use tiny_qwen_coder.Prelude.Eq.{◌==◌, nat_eq, list_eq, elem}
use tiny_qwen_coder.Prelude.Int.{ℤ}
use tiny_qwen_coder.Prelude.Result.{Result, ok, err, ◌>>=◌}
use tiny_qwen_coder.TextNormalization.{Text}

mutual
  pub data Json : Type 0 where
    null : Json
    boolean : Bool → Json
    integer : ℤ → Json
    float : Text → Json
    string : Text → Json
    array : Items → Json
    object : Fields → Json

  pub data Items : Type 0 where
    nil : Items
    cons : Json → Items → Items

  pub data Fields : Type 0 where
    end : Fields
    field : Text → Json → Fields → Fields

-- A list of values as an array, and back.
abbrev pub items : List Json → Items
items [] = nil
items (j ∷ js) = cons j (items js)

abbrev pub elements : Items → List Json
elements nil = []
elements (cons j js) = j ∷ elements js

pub elements-items : (js : List Json) → elements (items js) ≡ js
elements-items [] = refl
elements-items (j ∷ js) = ap (λ t. j ∷ t) (elements-items js)

abbrev pub members : List (Text × Json) → Fields
members [] = end
members ((k, j) ∷ fs) = field k j (members fs)

abbrev pub keys : Fields → List Text
keys end = []
keys (field k j fs) = k ∷ keys fs

-- `row.get(key)`
unfoldable pub get : Text → Fields → Option Json
get key end = none
get key (field k j fs) = if k == key then some j else get key fs

-- `set(row) == expected`
unfoldable pub has_keys : Fields → List Text → Bool
unfolding elem
has_keys row expected =
    all (λ k. elem k expected) (keys row) && all (λ k. elem k (keys row)) expected

-- The type tests, `none` where the value has another type.
abbrev pub as_object : Option Json → Option Fields
as_object (some (object fs)) = some fs
as_object _ = none

abbrev pub as_list : Option Json → Option (List Json)
as_list (some (array js)) = some (elements js)
as_list _ = none

abbrev pub as_string : Option Json → Option Text
as_string (some (string t)) = some t
as_string _ = none

abbrev pub as_integer : Option Json → Option ℤ
as_integer (some (integer n)) = some n
as_integer _ = none

abbrev pub as_boolean : Option Json → Option Bool
as_boolean (some (boolean b)) = some b
as_boolean _ = none

-- `if the test fails: raise error`
abbrev pub or_raise {ℓ} : {E : Type 0} {A : Type ℓ} → Option A → E → Result E A
or_raise (some a) e = ok a
or_raise none e = err e

-- A generator expression over a list, with the first error.
unfoldable pub traverse {ℓ κ} :
    {E : Type 0} {A : Type ℓ} {B : Type κ} → (A → Result E B) → List A → Result E (List B)
traverse f [] = ok []
traverse f (x ∷ xs) = f x >>= λ y. traverse f xs >>= λ ys. ok (y ∷ ys)
