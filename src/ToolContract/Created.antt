-- ===== src/ToolContract/Created.antt =====
-- A created result: its size, what it keeps of the output, and its JSON form.
use tiny_qwen_coder.Prelude.{
  not-false, ℕ, ◌≡◌, ◌≤◌, refl, subst, true, false, not, length, ltb, Option, none, some, arith,
}
use tiny_qwen_coder.Prelude.Eq.{list_beq, elem}
use tiny_qwen_coder.Prelude.Int.{ℤ}
use tiny_qwen_coder.Prelude.Result.{ok, raise_if, >>-ok, >>=-ok, raise_if-ok, ok-value}
use tiny_qwen_coder.TextNormalization.{Text, utf8_encodable}
use tiny_qwen_coder.Utf8.{encode}
use tiny_qwen_coder.Json.{Json, get, has_keys}
use tiny_qwen_coder.ToolContract.{
  tool_not_enabled, LeafLiteToolName, tool_eq, LeafLiteResultStatus, succeeded, error, timeout,
  resource_limit, LeafLiteToolContract, byte_length, check_contract,
}
use tiny_qwen_coder.ToolContract.Results.{
  LeafLiteToolResult, truncate, result_of, check_result, create_leaf_lite_tool_result, status_value,
  status_of, code_value, code_of, result_payload, parse_result, leaf_lite_tool_result_json,
  leaf_lite_tool_result_from_json,
}
use tiny_qwen_coder.ToolContract.Reparsed.{tool-back}
use tiny_qwen_coder.ToolContract.Bounded.{Shown, Good, truncate-Good, byte_length-Sized}

record IsCreated (c : LeafLiteToolContract) (output : Text) (r : LeafLiteToolResult) : Type 0 where
  enabled : elem r.tool c.tool_names ≡ true
  good : Good c output (r.output, r.truncated)
  valid : check_result r ≡ ok tt

create-IsCreated :
    (c : LeafLiteToolContract) (tool : LeafLiteToolName) (status : LeafLiteResultStatus)
    (output : Text) (code : Option ℤ) (r : LeafLiteToolResult)
    → check_contract c ≡ ok tt
    → create_leaf_lite_tool_result c tool status output code ≡ ok r
    → IsCreated c output r
unfolding create_leaf_lite_tool_result
create-IsCreated c tool status output code r k h =
    let a = >>-ok (raise_if (not (elem tool c.tool_names)) tool_not_enabled) _ _ h in
    let size = >>=-ok (byte_length output) _ _ a.1 in
    let shown = >>=-ok (truncate c output size.0) _ _ size.1.1 in
    let v = >>-ok (check_result (result_of tool status code shown.0)) _ _ shown.1.1 in
    subst (IsCreated c output) (ok-value _ _ v.1) (record {
      enabled = not-false _ (raise_if-ok _ _ a.0);
      good =
          truncate-Good c output size.0 shown.0 k (byte_length-Sized output size.0 size.1.0)
            shown.1.0;
      valid = v.0;
    })

-- A result that is created under a checked contract has at most the contract's bytes, and its output
-- is the whole output or, marked as truncated, the code points of the output that fit whole before
-- the marker, and the marker.
pub create_leaf_lite_tool_result-Shown :
    (c : LeafLiteToolContract) (tool : LeafLiteToolName) (status : LeafLiteResultStatus)
    (output : Text) (code : Option ℤ) (r : LeafLiteToolResult)
    → check_contract c ≡ ok tt
    → create_leaf_lite_tool_result c tool status output code ≡ ok r
    → (length (encode r.output) ≤ c.max_output_bytes) × Shown c output r.output r.truncated
create_leaf_lite_tool_result-Shown c tool status output code r k h =
    let made = create-IsCreated c tool status output code r k h in
    (made.good.within, made.good.keeps)

status-back : (s : LeafLiteResultStatus) → status_of (status_value s) ≡ some s
unfolding status_of status_value list_beq
status-back succeeded = refl
status-back error = refl
status-back timeout = refl
status-back resource_limit = refl

code-back : (code : Option ℤ) → code_of (some (code_value code)) ≡ ok code
code-back none = refl
code-back (some n) = refl

byte_length-ok : (t : Text) → utf8_encodable t ≡ true → byte_length t ≡ ok (length (encode t))
unfolding byte_length
byte_length-ok t h = rw h

le-ltb : (a b : ℕ) → a ≤ b → ltb b a ≡ false
le-ltb a b h = ground arith

result-back :
    (c : LeafLiteToolContract) (output : Text) (r : LeafLiteToolResult)
    → IsCreated c output r
    → parse_result (result_payload r) c ≡ ok r
unfolding parse_result result_payload get has_keys list_beq
result-back c output r h = rw (
  tool-back r.tool,
  status-back r.status,
  h.enabled,
  byte_length-ok r.output h.good.encodable,
  le-ltb (length (encode r.output)) c.max_output_bytes h.good.within,
  code-back r.exit_code,
  h.good.marked,
  h.valid,
)

-- The JSON text of a result that was created under a checked contract is read back as that result,
-- where `json.loads` gives the value that `json.dumps` has printed.
pub leaf_lite_tool_result_from_json-leaf_lite_tool_result_json :
    (dumps : Json → Text) (loads : Text → Option Json) (c : LeafLiteToolContract)
    (tool : LeafLiteToolName) (status : LeafLiteResultStatus) (output : Text) (code : Option ℤ)
    (r : LeafLiteToolResult)
    → check_contract c ≡ ok tt
    → create_leaf_lite_tool_result c tool status output code ≡ ok r
    → loads (leaf_lite_tool_result_json dumps loads r) ≡ some (result_payload r)
    → leaf_lite_tool_result_from_json dumps loads (leaf_lite_tool_result_json dumps loads r) c
      ≡ ok r
unfolding leaf_lite_tool_result_from_json
leaf_lite_tool_result_from_json-leaf_lite_tool_result_json dumps loads c tool status output code r k
      h printed =
    rw printed (result-back c output r (create-IsCreated c tool status output code r k h))
