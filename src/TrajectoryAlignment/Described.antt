-- ===== src/TrajectoryAlignment/Described.antt =====
-- The training arrays of a ledger without a loop over positions: the appended deltas and the outputs
-- in turn, and what a mask over them selects.
use tiny_qwen_coder.Prelude.{
  ℕ, zero, suc, ◌+◌, ◌≡◌, refl, ap, ◌∙◌, Bool, true, false, List, [], ◌∷◌, ◌++◌, length, replicate,
  drop, arith, take-length-append, if◌then◌else◌,
}
use tiny_qwen_coder.Prelude.Int.{ℤ}
use tiny_qwen_coder.Prelude.Result.{Result, ok, err, ◌>>=◌}
use tiny_qwen_coder.TokenLedger.{PromptTokenRecord, AssistantOutputRecord}
use tiny_qwen_coder.TrajectoryAlignment.{TrajectoryAlignmentError}
use tiny_qwen_coder.TrajectoryAlignment.Derived.{selected, mark}

-- Delta and output of each turn, the mask that marks the outputs, and the outputs alone.
unfoldable pub content : List PromptTokenRecord → List AssistantOutputRecord → List ℤ
content (p ∷ prompts) (o ∷ outputs) = p.appended_ids ++ (o.output_ids ++ content prompts outputs)
content _ _ = []

unfoldable pub output_marks : List PromptTokenRecord → List AssistantOutputRecord → List Bool
output_marks (p ∷ prompts) (o ∷ outputs) =
    replicate (length p.appended_ids) false
    ++ (replicate (length o.output_ids) true ++ output_marks prompts outputs)
output_marks _ _ = []

unfoldable pub output_tokens : List AssistantOutputRecord → List ℤ
output_tokens [] = []
output_tokens (o ∷ outputs) = o.output_ids ++ output_tokens outputs

>>=-id :
    (r : Result TrajectoryAlignmentError (List ℤ)) → (r >>= λ x. ok (if false then x else x)) ≡ r
>>=-id (ok x) = refl
>>=-id (err e) = refl

selected-false :
    (xs ys : List ℤ) (n : List Bool)
    → selected (xs ++ ys) (replicate (length xs) false ++ n) ≡ selected ys n
unfolding selected
selected-false [] ys n = refl
selected-false (x ∷ xs) ys n =
    ap (λ r. r >>= λ rest. ok rest) (selected-false xs ys n) ∙ >>=-id (selected ys n)

selected-true :
    (xs ys zs : List ℤ) (n : List Bool)
    → selected ys n ≡ ok zs
    → selected (xs ++ ys) (replicate (length xs) true ++ n) ≡ ok (xs ++ zs)
unfolding selected
selected-true [] ys zs n h = h
selected-true (x ∷ xs) ys zs n h =
    ap (λ r. r >>= λ rest. ok (x ∷ rest)) (selected-true xs ys zs n h)

pub selected-content :
    (prompts : List PromptTokenRecord) (outputs : List AssistantOutputRecord)
    → length prompts ≡ length outputs
    → selected (content prompts outputs) (output_marks prompts outputs) ≡ ok (output_tokens outputs)
unfolding selected content output_marks output_tokens
selected-content [] [] h = refl
selected-content [] (o ∷ outputs) h = absurd (omega (arith, h))
selected-content (p ∷ prompts) [] h = absurd (omega (arith, h))
selected-content (p ∷ prompts) (o ∷ outputs) h =
    selected-false p.appended_ids _ _
    ∙ selected-true o.output_ids _ _ _ (selected-content prompts outputs (omega (arith, h)))

suc-add : (a b : ℕ) → suc a + b ≡ suc (a + b)
suc-add a b = omega arith

drop-append {ℓ} :
    {A : Type ℓ} (xs ys : List A) (n : ℕ) → drop (length xs + n) (xs ++ ys) ≡ drop n ys
drop-append [] ys n = ap (λ k. drop k ys) (omega arith)
drop-append (x ∷ xs) ys n =
    ap (λ k. drop k (x ∷ (xs ++ ys))) (suc-add (length xs) n) ∙ drop-append xs ys n

drop-replicate {ℓ} : {A : Type ℓ} (a : A) (n r : ℕ) → drop n (replicate (n + r) a) ≡ replicate r a
drop-replicate a zero r = ap (λ k. replicate k a) (omega arith)
drop-replicate a (suc n) r =
    ap (λ k. drop (suc n) (replicate k a)) (suc-add n r) ∙ drop-replicate a n r

pub mark-lem :
    (m : List Bool) (n r : ℕ)
    → mark (length m) n (m ++ replicate (n + r) false)
      ≡ m ++ (replicate n true ++ replicate r false)
mark-lem m n r = rw (
  take-length-append m (replicate (n + r) false),
  drop-append m (replicate (n + r) false) n,
  drop-replicate false n r,
)
