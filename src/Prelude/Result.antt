-- ===== src/Prelude/Result.antt =====
-- Python's exceptions as values: a call returns `ok a` or raises `err e`.
use mathlib.Core.Path.{◌≡◌, refl, subst, ap}
use mathlib.Core.Bool.{Bool, true, false}
use native.Mathlib.Omega.{arith}

pub data Result {ℓ} (E : Type 0) (A : Type ℓ) : Type ℓ where
  ok : A → Result E A
  err : E → Result E A

-- `if bad: raise error`
abbrev pub raise_if : {E : Type 0} → Bool → E → Result E (Unit {0})
raise_if false error = ok tt
raise_if true error = err error

-- The next statement, and the next one that takes no value; an error ends the block.
infixl 5 ◌>>=◌ ◌>>◌
abbrev pub ◌>>=◌ {ℓ κ} :
    {E : Type 0} {A : Type ℓ} {B : Type κ} → Result E A → (A → Result E B) → Result E B
err error >>= next = err error
ok value >>= next = next value

abbrev pub ◌>>◌ {ℓ} : {E : Type 0} {B : Type ℓ} → Result E (Unit {0}) → Result E B → Result E B
err error >> next = err error
ok done >> next = next

-- What a block that ends with a value says of its statements.
module _ {ℓ} {E : Type 0} {B : Type ℓ} where
  pub >>-ok :
      (r : Result E (Unit {0})) (next : Result E B) (b : B)
      → (r >> next) ≡ ok b
      → (r ≡ ok tt) × (next ≡ ok b)
  >>-ok (ok done) next b h = (refl, h)
  >>-ok (err error) next b h = ground arith

  pub >>=-ok {κ} :
      {A : Type κ} (r : Result E A) (next : A → Result E B) (b : B)
      → (r >>= next) ≡ ok b
      → (a : A) × ((r ≡ ok a) × (next a ≡ ok b))
  >>=-ok (ok a) next b h = (a, (refl, h))
  >>=-ok (err error) next b h = absurd (ground arith)

  pub >>=-known {κ} :
      {A : Type κ} (r : Result E A) (next : A → Result E B) (a : A) (b : B)
      → r ≡ ok a
      → (r >>= next) ≡ ok b
      → next a ≡ ok b
  >>=-known (ok c) next a b e h = subst (λ x. next x ≡ ok b) (ground arith) h
  >>=-known (err error) next a b e h = ground arith

pub raise_if-ok : {E : Type 0} (b : Bool) (e : E) → raise_if b e ≡ ok tt → b ≡ false
raise_if-ok true e h = ground arith
raise_if-ok false e h = refl

pub ok-value {ℓ} : {E : Type 0} {A : Type ℓ} (a b : A) → ◌≡◌ {A = Result E A} (ok a) (ok b) → a ≡ b
ok-value a b h = ground arith

-- A block that goes on after a part with a known value.
pub >>=-then {ℓ κ μ} :
    {E : Type 0} {A : Type ℓ} {B : Type κ} {C : Type μ} (m : Result E A) (f : A → Result E B)
    (g : B → Result E C) (b : B)
    → (m >>= f) ≡ ok b
    → (m >>= λ x. f x >>= g) ≡ g b
>>=-then (ok a) f g b h = ap (λ r. r >>= g) h
>>=-then (err error) f g b h = absurd (ground arith)
