-- ===== src/TokenLedger/Forks.antt =====
-- Which candidate prompts a ledger adopts.
use tiny_qwen_coder.Prelude.{
  ◌≡◌, ◌↔◌, ◌<◌, sym, subst, ap, ◌∙◌, Bool, false, not, ◌||◌, List, [], ◌∷◌, ◌++◌, length, leb,
  last?, take, drop, arith, length-append, take-append-drop, take-length-append, drop-length-append,
}
use tiny_qwen_coder.Prelude.Eq.{◌==◌, ==_refl, eq_of_==, nat_eq, list_eq}
use tiny_qwen_coder.Prelude.Int.{pos, ℤ, int_eq}
use tiny_qwen_coder.Prelude.Result.{ok, raise_if, >>-ok, >>=-known, raise_if-ok}
use tiny_qwen_coder.TokenLedger.{
  PromptAppendSource, PromptTokenRecord, history_fork, check_tokens, check_prompt, check_index,
}
use tiny_qwen_coder.TokenLedger.Session.{
  Ledger, history, require_append, append_prompt_delta, adopt_verified_next_prompt, next_prompt,
}

abbrev is_fork : List ℤ → List ℤ → Bool
is_fork candidate prefix =
    leb (length candidate) (length prefix) || not (take (length prefix) candidate == prefix)

is_fork-extension :
    (prefix delta : List ℤ) → 0 < length delta → is_fork (prefix ++ delta) prefix ≡ false
is_fork-extension prefix delta h =
    rw (take-length-append prefix delta, ==_refl prefix, length-append prefix delta) (ground arith)

extension-is_fork :
    (candidate prefix : List ℤ)
    → is_fork candidate prefix ≡ false
    → candidate ≡ prefix ++ drop (length prefix) candidate
extension-is_fork candidate prefix h =
    let same : take (length prefix) candidate ≡ prefix =
      eq_of_== (take (length prefix) candidate) prefix (ground arith) in
    sym (take-append-drop (length prefix) candidate)
    ∙ ap (λ t. t ++ drop (length prefix) candidate) same

-- The statements that an appended delta has passed.
record Passed (l : Ledger) (delta : List ℤ) (source : PromptAppendSource) (prefix : List ℤ)
    : Type 0 where
  required : require_append l source ≡ ok tt
  nonempty : 0 < length delta
  whole : check_tokens (prefix ++ delta) ≡ ok tt

tokens-nonempty : (ids : List ℤ) → check_tokens ids ≡ ok tt → 0 < length ids
unfolding check_tokens
tokens-nonempty [] h = ground arith
tokens-nonempty (t ∷ ids) h = omega arith

append-Passed :
    (l : Ledger) (delta prefix : List ℤ) (source : PromptAppendSource)
    (r : PromptTokenRecord × Ledger)
    → history (last? l.prompts) (last? l.outputs) ≡ ok prefix
    → append_prompt_delta l delta source ≡ ok r
    → Passed l delta source prefix
unfolding append_prompt_delta check_prompt
append-Passed l delta prefix source r e h =
    let a = >>-ok (require_append l source) _ _ h in
    let b = >>-ok (check_tokens delta) _ _ a.1 in
    let c = >>=-known (history (last? l.prompts) (last? l.outputs)) _ prefix _ e b.1 in
    let d = >>-ok (check_prompt (next_prompt l source prefix delta)) _ _ c in
    let f = >>-ok (check_index (pos (length l.prompts))) _ _ d.0 in
    let g = >>-ok (check_tokens (prefix ++ delta)) _ _ f.1 in
    record { required = a.0; nonempty = tokens-nonempty delta b.0; whole = g.0 }

adopt-remainder :
    (l : Ledger) (ids prefix : List ℤ) (source : PromptAppendSource)
    → require_append l source ≡ ok tt
    → check_tokens ids ≡ ok tt
    → history (last? l.prompts) (last? l.outputs) ≡ ok prefix
    → is_fork ids prefix ≡ false
    → adopt_verified_next_prompt l ids source
      ≡ append_prompt_delta l (drop (length prefix) ids) source
unfolding adopt_verified_next_prompt
adopt-remainder l ids prefix source a b e f = rw (a, b, e, f)

append-adopts :
    (l : Ledger) (delta prefix : List ℤ) (source : PromptAppendSource)
    (r : PromptTokenRecord × Ledger)
    → history (last? l.prompts) (last? l.outputs) ≡ ok prefix
    → append_prompt_delta l delta source ≡ ok r
    → adopt_verified_next_prompt l (prefix ++ delta) source ≡ ok r
append-adopts l delta prefix source r e h =
    let passed = append-Passed l delta prefix source r e h in
    adopt-remainder l (prefix ++ delta) prefix source passed.required passed.whole e
      (is_fork-extension prefix delta passed.nonempty)
    ∙ (ap (λ ids. append_prompt_delta l ids source) (drop-length-append prefix delta) ∙ h)

-- A ledger that has a last prompt and a last output adopts a candidate exactly when the candidate is
-- their history followed by a delta that the ledger appends, and then both give the same record and
-- the same ledger.
pub adopt_verified_next_prompt_iff :
    (l : Ledger) (candidate prefix : List ℤ) (source : PromptAppendSource)
    (r : PromptTokenRecord × Ledger)
    → history (last? l.prompts) (last? l.outputs) ≡ ok prefix
    → (adopt_verified_next_prompt l candidate source ≡ ok r) ↔ (
        (delta : List ℤ) × ((candidate ≡ prefix ++ delta)
          × (append_prompt_delta l delta source ≡ ok r)))
unfolding adopt_verified_next_prompt
adopt_verified_next_prompt_iff l candidate prefix source r e = (
  λ h.
      let a = >>-ok (require_append l source) _ _ h in
      let b = >>-ok (check_tokens candidate) _ _ a.1 in
      let c = >>=-known (history (last? l.prompts) (last? l.outputs)) _ prefix _ e b.1 in
      let d = >>-ok (raise_if (is_fork candidate prefix) history_fork) _ _ c in
      let extends = extension-is_fork candidate prefix (raise_if-ok _ _ d.0) in
      (drop (length prefix) candidate, (extends, d.1)),
  λ (delta, (split, h)).
      subst (λ ids. adopt_verified_next_prompt l ids source ≡ ok r) (sym split)
        (append-adopts l delta prefix source r e h),
)
