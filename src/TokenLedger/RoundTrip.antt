-- ===== src/TokenLedger/RoundTrip.antt =====
-- A persisted snapshot is read back unchanged.
use tiny_qwen_coder.Prelude.{◌≡◌, refl, List, [], ◌∷◌, map, All, Option, some}
use tiny_qwen_coder.Prelude.Eq.{list_beq}
use tiny_qwen_coder.Prelude.Int.{ℤ}
use tiny_qwen_coder.Prelude.Result.{Result, ok, >>-ok}
use tiny_qwen_coder.TextNormalization.{Text}
use tiny_qwen_coder.Identities.{check_base_model}
use tiny_qwen_coder.Json.{Json, integer, elements-items, get, has_keys, traverse}
use tiny_qwen_coder.TokenLedger.{
  PromptAppendSource, initial, user, tool, AssistantSegmentKind, text, reasoning, action,
  TokenLedgerState, awaiting_output, awaiting_prompt_append, LedgerIdentity, check_identity,
  AssistantTokenSegment, check_segment, check_tokens, check_index, PromptTokenRecord, check_prompt,
  AssistantOutputRecord, check_output,
}
use tiny_qwen_coder.TokenLedger.Chain.{TokenLedgerSnapshot, check_snapshot}
use tiny_qwen_coder.TokenLedger.Persisted.{
  source_value, kind_value, state_value, source_of, kind_of, state_of, token_values,
  identity_payload, prompt_payload, segment_payload, output_payload, snapshot_payload, token_of,
  json_tokens, base_model_of, identity_of, prompt_of, segment_of, output_of, snapshot_of_json,
  token_ledger_snapshot_json, token_ledger_snapshot_from_json,
}

-- Every part of the snapshot has passed the check of its constructor.
pub record IsConstructed (s : TokenLedgerSnapshot) : Type 0 where
  pub base_model : check_base_model s.identity.base_model ≡ ok tt
  pub identity : check_identity s.identity ≡ ok tt
  pub prompts : All (λ p. check_prompt p ≡ ok tt) s.prompts
  pub outputs : All (λ o. check_output o ≡ ok tt) s.outputs
  pub segments : All (λ o. All (λ g. check_segment g ≡ ok tt) o.segments) s.outputs
  pub whole : check_snapshot s ≡ ok tt

traverse-map {ℓ} :
    {E : Type 0} {A : Type ℓ} (print : A → Json) (parse : Json → Result E A) (xs : List A)
    → All (λ x. parse (print x) ≡ ok x) xs
    → traverse parse (map print xs) ≡ ok xs
unfolding traverse
traverse-map print parse [] h = refl
traverse-map print parse (x ∷ xs) h = rw (h.0, traverse-map print parse xs h.1)

All-weaker {ℓ κ μ} :
    {A : Type ℓ} (P : A → Type κ) (Q : A → Type μ) (xs : List A)
    → ((x : A) → P x → Q x)
    → All P xs
    → All Q xs
All-weaker P Q [] f h = tt
All-weaker P Q (x ∷ xs) f h = (f x h.0, All-weaker P Q xs f h.1)

integers-back : (ids : List ℤ) → traverse token_of (map integer ids) ≡ ok ids
unfolding traverse
integers-back [] = refl
integers-back (t ∷ ids) = rw (integers-back ids)

tokens-back :
    (ids : List ℤ) → check_tokens ids ≡ ok tt → json_tokens (some (token_values ids)) ≡ ok ids
unfolding json_tokens
tokens-back ids h = rw (elements-items (map integer ids), integers-back ids, h)

source-back : (s : PromptAppendSource) → source_of (source_value s) ≡ some s
unfolding source_of source_value list_beq
source-back initial = refl
source-back user = refl
source-back tool = refl

kind-back : (k : AssistantSegmentKind) → kind_of (kind_value k) ≡ some k
unfolding kind_of kind_value list_beq
kind-back text = refl
kind-back reasoning = refl
kind-back action = refl

state-back : (s : TokenLedgerState) → state_of (state_value s) ≡ some s
unfolding state_of state_value list_beq
state-back awaiting_output = refl
state-back awaiting_prompt_append = refl

check_prompt-tokens :
    (p : PromptTokenRecord)
    → check_prompt p ≡ ok tt
    → (check_tokens p.prompt_ids ≡ ok tt) × (check_tokens p.appended_ids ≡ ok tt)
unfolding check_prompt
check_prompt-tokens p h =
    let turn = >>-ok (check_index p.turn_index) _ _ h in
    >>-ok (check_tokens p.prompt_ids) _ _ turn.1

prompt-back : (p : PromptTokenRecord) → check_prompt p ≡ ok tt → prompt_of (prompt_payload p) ≡ ok p
unfolding prompt_of prompt_payload get has_keys list_beq
prompt-back p h =
    let parts = check_prompt-tokens p h in
    rw (
      source-back p.source,
      tokens-back p.prompt_ids parts.0,
      tokens-back p.appended_ids parts.1,
      h,
    )

check_output-tokens :
    (o : AssistantOutputRecord) → check_output o ≡ ok tt → check_tokens o.output_ids ≡ ok tt
unfolding check_output
check_output-tokens o h =
    let turn = >>-ok (check_index o.turn_index) _ _ h in
    (>>-ok (check_tokens o.output_ids) _ _ turn.1).0

segment-back :
    (s : AssistantTokenSegment) → check_segment s ≡ ok tt → segment_of (segment_payload s) ≡ ok s
unfolding segment_of segment_payload get has_keys list_beq
segment-back s h = rw (kind-back s.kind, h)

output-back :
    (o : AssistantOutputRecord)
    → check_output o ≡ ok tt
    → All (λ s. check_segment s ≡ ok tt) o.segments
    → output_of (output_payload o) ≡ ok o
unfolding output_of output_payload get has_keys list_beq
output-back o h v = rw (
  elements-items (map segment_payload o.segments),
  traverse-map segment_payload segment_of o.segments
      (All-weaker _ (λ s. segment_of (segment_payload s) ≡ ok s) o.segments segment-back v),
  tokens-back o.output_ids (check_output-tokens o h),
  h,
)

outputs-back :
    (os : List AssistantOutputRecord)
    → All (λ o. check_output o ≡ ok tt) os
    → All (λ o. All (λ s. check_segment s ≡ ok tt) o.segments) os
    → All (λ o. output_of (output_payload o) ≡ ok o) os
outputs-back [] h v = tt
outputs-back (o ∷ os) h v = (output-back o h.0 v.0, outputs-back os h.1 v.1)

base_model-back :
    (i : LedgerIdentity)
    → check_base_model i.base_model ≡ ok tt
    → check_identity i ≡ ok tt
    → identity_of (some (identity_payload i)) ≡ ok i
unfolding identity_of identity_payload base_model_of get has_keys list_beq
base_model-back i b h = rw (b, h)

snapshot-back :
    (s : TokenLedgerSnapshot) → IsConstructed s → snapshot_of_json (snapshot_payload s) ≡ ok s
unfolding snapshot_of_json snapshot_payload get has_keys list_beq
snapshot-back s c = rw (
  elements-items (map prompt_payload s.prompts),
  elements-items (map output_payload s.outputs),
  state-back s.state,
  base_model-back s.identity c.base_model c.identity,
  traverse-map prompt_payload prompt_of s.prompts
      (All-weaker _ (λ p. prompt_of (prompt_payload p) ≡ ok p) s.prompts prompt-back c.prompts),
  traverse-map output_payload output_of s.outputs (outputs-back s.outputs c.outputs c.segments),
  c.whole,
)

-- A snapshot whose parts have all passed the checks of their constructors is read back unchanged
-- from its JSON text, where `json.loads` gives the value that `json.dumps` has printed.
pub token_ledger_snapshot_from_json-token_ledger_snapshot_json :
    (dumps : Json → Text) (loads : Text → Option Json) (s : TokenLedgerSnapshot)
    → loads (token_ledger_snapshot_json dumps loads s) ≡ some (snapshot_payload s)
    → IsConstructed s
    → token_ledger_snapshot_from_json dumps loads (token_ledger_snapshot_json dumps loads s) ≡ ok s
unfolding token_ledger_snapshot_from_json
token_ledger_snapshot_from_json-token_ledger_snapshot_json dumps loads s h c =
    rw h (snapshot-back s c)
