-- ===== src/Tests/Tools.antt =====
-- Tool calls and results under the repository contract. The stand-in for `json.loads` knows one text.
use tiny_qwen_coder.Prelude.{◌≡◌, ◌≤◌, ◌↔◌, refl, true, List, [], ◌∷◌, ◌++◌, length, Option, some}
use tiny_qwen_coder.Prelude.Eq.{list_beq}
use tiny_qwen_coder.Prelude.Int.{pos}
use tiny_qwen_coder.Prelude.Result.{ok, err}
use tiny_qwen_coder.TextNormalization.{Text}
use tiny_qwen_coder.Data.Deduplication.Payload.{codes}
use tiny_qwen_coder.Utf8.{encode}
use tiny_qwen_coder.Json.{Json, string, object, members}
use tiny_qwen_coder.ToolContract.{
  read, write, bash, succeeded, LeafLiteToolContract, repository_leaf_lite_contract, check_contract,
  check_path, index_error, reserved_path, bad_path, encode_error,
}
use tiny_qwen_coder.ToolContract.Paths.{IsRelativePath, check_path-IsRelativePath_iff}
use tiny_qwen_coder.ToolContract.Calls.{
  read_arguments, write_arguments, LeafLiteToolCall, parse_call, call_payload,
  parse_leaf_lite_tool_call, leaf_lite_tool_call_json,
}
use tiny_qwen_coder.ToolContract.Reparsed.{parse_leaf_lite_tool_call-leaf_lite_tool_call_json}
use tiny_qwen_coder.ToolContract.Safe.{IsPermitted, parse_leaf_lite_tool_call-IsPermitted}
use tiny_qwen_coder.ToolContract.Results.{
  LeafLiteToolResult, create_leaf_lite_tool_result, result_payload, leaf_lite_tool_result_json,
  leaf_lite_tool_result_from_json,
}
use tiny_qwen_coder.ToolContract.Bounded.{Shown}
use tiny_qwen_coder.ToolContract.Created.{
  create_leaf_lite_tool_result-Shown, leaf_lite_tool_result_from_json-leaf_lite_tool_result_json,
}

abbrev contract : LeafLiteToolContract
contract = repository_leaf_lite_contract

contract_accepted : check_contract contract ≡ ok tt
unfolding check_contract list_beq
contract_accepted = refl

-- The path `.` has no parts: `parsed.parts[0]` raises IndexError.
path_of_nothing : check_path (codes ".") ≡ err index_error
unfolding check_path list_beq
path_of_nothing = refl

path_reserved : check_path (codes "grader/run.py") ≡ err reserved_path
unfolding check_path list_beq
path_reserved = refl

path_outside : check_path (codes "src/../x") ≡ err bad_path
unfolding check_path list_beq
path_outside = refl

-- A lone surrogate cannot be encoded: `content.encode()` raises UnicodeEncodeError.
write_surrogate :
    parse_call
      (call_payload
        (record { tool = write; arguments = write_arguments (codes "a") (0xd800 ∷ []) }))
      contract
    ≡ err encode_error
unfolding parse_call call_payload list_beq
write_surrogate = refl

abbrev call : LeafLiteToolCall
call = record { tool = read; arguments = read_arguments (codes "src/a.py") (pos 1) (pos 200) }

-- The call as a model writes it, without the arguments that have a default.
abbrev written : Json
written = object (
    members (
      (codes "tool", string (codes "read"))
      ∷ (codes "arguments", object (members ((codes "path", string (codes "src/a.py")) ∷ [])))
      ∷ []))

abbrev dumps : Json → Text
dumps j = codes "{}"

abbrev loads : Text → Option Json
loads [] = some written
loads (c ∷ t) = some (call_payload call)

call-parsed : parse_leaf_lite_tool_call dumps loads [] contract ≡ ok call
unfolding parse_leaf_lite_tool_call list_beq
call-parsed = refl

call-printed : loads (leaf_lite_tool_call_json dumps loads call) ≡ some (call_payload call)
unfolding leaf_lite_tool_call_json
call-printed = refl

check_path-IsRelativePath_iff_example :
    (check_path (codes "src/a.py") ≡ ok tt)
    ↔ ((parts : List Text) × IsRelativePath (codes "src/a.py") parts)
check_path-IsRelativePath_iff_example = check_path-IsRelativePath_iff (codes "src/a.py")

parse_leaf_lite_tool_call-leaf_lite_tool_call_json_example :
    parse_leaf_lite_tool_call dumps loads (leaf_lite_tool_call_json dumps loads call) contract
    ≡ ok call
parse_leaf_lite_tool_call-leaf_lite_tool_call_json_example =
    parse_leaf_lite_tool_call-leaf_lite_tool_call_json dumps loads contract [] call call-printed
      call-parsed

parse_leaf_lite_tool_call-IsPermitted_example : IsPermitted contract call
parse_leaf_lite_tool_call-IsPermitted_example =
    parse_leaf_lite_tool_call-IsPermitted dumps loads contract [] call call-parsed

-- A contract of six bytes, of which the marker takes three: a code point of two bytes is cut.
abbrev small : LeafLiteToolContract
small = record contract { max_output_bytes = 6; truncation_marker = codes "..." }

small_accepted : check_contract small ≡ ok tt
unfolding check_contract list_beq
small_accepted = refl

abbrev shown : LeafLiteToolResult
shown = record {
  tool = bash;
  status = succeeded;
  output = codes "ab...";
  exit_code = some (pos 0);
  truncated = true;
}

shown-created :
    create_leaf_lite_tool_result small bash succeeded
      (codes "ab" ++ 0xe9 ∷ codes "cd\n")
      (some (pos 0))
    ≡ ok shown
unfolding create_leaf_lite_tool_result
shown-created = refl

abbrev loads_result : Text → Option Json
loads_result t = some (result_payload shown)

create_leaf_lite_tool_result-Shown_example :
    (length (encode shown.output) ≤ 6)
    × Shown small (codes "ab" ++ 0xe9 ∷ codes "cd\n") shown.output true
create_leaf_lite_tool_result-Shown_example =
    create_leaf_lite_tool_result-Shown small bash succeeded (codes "ab" ++ 0xe9 ∷ codes "cd\n")
      (some (pos 0)) shown small_accepted shown-created

leaf_lite_tool_result_from_json-leaf_lite_tool_result_json_example :
    leaf_lite_tool_result_from_json dumps loads_result
      (leaf_lite_tool_result_json dumps loads_result shown)
      small
    ≡ ok shown
leaf_lite_tool_result_from_json-leaf_lite_tool_result_json_example =
    leaf_lite_tool_result_from_json-leaf_lite_tool_result_json dumps loads_result small bash
      succeeded (codes "ab" ++ 0xe9 ∷ codes "cd\n") (some (pos 0)) shown small_accepted
      shown-created refl
