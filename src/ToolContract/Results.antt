-- ===== src/ToolContract/Results.antt =====
-- Results of tools: their check, their creation with truncation, their JSON form.
use tiny_qwen_coder.Prelude.{
  ℕ, ◌-◌, Bool, true, false, not, ◌&&◌, ◌||◌, List, [], ◌∷◌, ◌++◌, length, take, drop, ltb, leb,
  Option, none, some, if◌then◌else◌,
}
use tiny_qwen_coder.Prelude.Eq.{◌==◌, nat_eq, list_eq, elem}
use tiny_qwen_coder.Prelude.Int.{ℤ, pos, int_eq}
use tiny_qwen_coder.Prelude.Result.{Result, ok, err, ◌>>◌, ◌>>=◌, raise_if}
use tiny_qwen_coder.TextNormalization.{Text}
use tiny_qwen_coder.Data.Deduplication.Payload.{codes}
use tiny_qwen_coder.Utf8.{encode, idle, decode_ignore}
use tiny_qwen_coder.Json.{
  Json, null, boolean, integer, string, object, members, get, has_keys, as_boolean, or_raise,
}
use tiny_qwen_coder.ToolContract.{
  LeafLiteContractError, bad_result_status, bad_exit_code, not_json, not_integer, not_boolean,
  unknown_tool, unknown_status, tool_not_enabled, too_long, missing_marker, LeafLiteToolName, bash,
  tool_eq, tool_beq, LeafLiteResultStatus, succeeded, error, timeout, resource_limit,
  LeafLiteToolContract, byte_length,
}
use tiny_qwen_coder.ToolContract.Calls.{object_of, require_keys, string_at, tool_value, tool_of}

pub record LeafLiteToolResult : Type 0 where
  pub tool : LeafLiteToolName
  pub status : LeafLiteResultStatus
  pub output : Text
  pub exit_code : Option ℤ
  pub truncated : Bool

abbrev has_code : Option ℤ → Bool
has_code none = false
has_code (some n) = true

abbrev is_zero : Option ℤ → Bool
is_zero none = false
is_zero (some n) = n == pos 0

abbrev check_plain_status : LeafLiteResultStatus → Result LeafLiteContractError (Unit {0})
check_plain_status timeout = err bad_result_status
check_plain_status resource_limit = err bad_result_status
check_plain_status _ = ok tt

abbrev check_bash_status : LeafLiteResultStatus → Option ℤ → Result LeafLiteContractError (Unit {0})
check_bash_status succeeded code = raise_if (not (is_zero code)) bad_exit_code
check_bash_status error code = raise_if (not (has_code code) || is_zero code) bad_exit_code
check_bash_status timeout code = raise_if (is_zero code) bad_exit_code
check_bash_status resource_limit code = raise_if (is_zero code) bad_exit_code

unfoldable pub check_result : LeafLiteToolResult → Result LeafLiteContractError (Unit {0})
unfolding tool_beq
check_result r =
    if r.tool == bash
    then check_bash_status r.status r.exit_code
    else (check_plain_status r.status >> raise_if (has_code r.exit_code) bad_exit_code)

-- The output as it is, or the code points of a prefix with the marker after them.
unfoldable pub truncate :
    LeafLiteToolContract → Text → ℕ → Result LeafLiteContractError (Text × Bool)
unfolding encode decode_ignore byte_length
truncate c output size =
    if ltb c.max_output_bytes size
    then (byte_length c.truncation_marker >>= λ marker_size. ok (
      decode_ignore idle (take (c.max_output_bytes - marker_size) (encode output))
          ++ c.truncation_marker,
      true,
    ))
    else ok (output, false)

abbrev pub result_of :
    LeafLiteToolName → LeafLiteResultStatus → Option ℤ → Text × Bool → LeafLiteToolResult
result_of tool status exit_code (output, truncated) = record {
  tool = tool;
  status = status;
  output = output;
  exit_code = exit_code;
  truncated = truncated;
}

unfoldable pub create_leaf_lite_tool_result :
    LeafLiteToolContract
    → LeafLiteToolName
    → LeafLiteResultStatus
    → Text
    → Option ℤ
    → Result LeafLiteContractError LeafLiteToolResult
unfolding elem tool_beq byte_length truncate check_result
create_leaf_lite_tool_result c tool status output exit_code = do
  raise_if (not (elem tool c.tool_names)) tool_not_enabled
  size ← byte_length output
  shown ← truncate c output size
  check_result (result_of tool status exit_code shown)
  ok (result_of tool status exit_code shown)

unfoldable pub status_value : LeafLiteResultStatus → Text
status_value succeeded = codes "ok"
status_value error = codes "error"
status_value timeout = codes "timeout"
status_value resource_limit = codes "resource_limit"

unfoldable pub status_of : Text → Option LeafLiteResultStatus
status_of t =
    if t == codes "ok"
    then some succeeded
    else if t == codes "error"
    then some error
    else if t == codes "timeout"
    then some timeout
    else if t == codes "resource_limit"
    then some resource_limit
    else none

abbrev pub code_value : Option ℤ → Json
code_value none = null
code_value (some n) = integer n

unfoldable pub result_payload : LeafLiteToolResult → Json
unfolding status_value tool_value
result_payload r = object (
    members (
      (codes "exit_code", code_value r.exit_code)
      ∷ (codes "output", string r.output)
      ∷ (codes "status", string (status_value r.status))
      ∷ (codes "tool", string (tool_value r.tool))
      ∷ (codes "truncated", boolean r.truncated)
      ∷ []))

abbrev pub code_of : Option Json → Result LeafLiteContractError (Option ℤ)
code_of (some null) = ok none
code_of (some (integer n)) = ok (some n)
code_of _ = err not_integer

-- `output.endswith(marker)`
unfoldable pub ends_with : Text → Text → Bool
ends_with output marker =
    leb (length marker) (length output) && drop (length output - length marker) output == marker

abbrev pub result_keys : List Text
result_keys =
    codes "tool" ∷ codes "status" ∷ codes "output" ∷ codes "exit_code" ∷ codes "truncated" ∷ []

unfoldable pub parse_result :
    Json → LeafLiteToolContract → Result LeafLiteContractError LeafLiteToolResult
unfolding get has_keys tool_of status_of elem tool_beq byte_length ends_with check_result
parse_result raw c = do
  payload ← object_of (some raw)
  require_keys payload result_keys
  name ← string_at payload (codes "tool")
  tool ← or_raise (tool_of name) unknown_tool
  status_name ← string_at payload (codes "status")
  status ← or_raise (status_of status_name) unknown_status
  raise_if (not (elem tool c.tool_names)) tool_not_enabled
  output ← string_at payload (codes "output")
  size ← byte_length output
  raise_if (ltb c.max_output_bytes size) too_long
  exit_code ← code_of (get (codes "exit_code") payload)
  truncated ← or_raise (as_boolean (get (codes "truncated") payload)) not_boolean
  raise_if (truncated && not (ends_with output c.truncation_marker)) missing_marker
  let r : LeafLiteToolResult = record {
    tool = tool;
    status = status;
    output = output;
    exit_code = exit_code;
    truncated = truncated;
  }
  check_result r
  ok r

module _ (dumps : Json → Text) (loads : Text → Option Json) where
  unfoldable pub leaf_lite_tool_result_json : LeafLiteToolResult → Text
  unfolding result_payload
  leaf_lite_tool_result_json r = dumps (result_payload r) ++ 10 ∷ []

  unfoldable pub leaf_lite_tool_result_from_json :
      Text → LeafLiteToolContract → Result LeafLiteContractError LeafLiteToolResult
  unfolding parse_result
  leaf_lite_tool_result_from_json text c =
      or_raise (loads text) not_json >>= λ raw. parse_result raw c
