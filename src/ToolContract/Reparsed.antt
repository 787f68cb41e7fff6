-- ===== src/ToolContract/Reparsed.antt =====
-- The payload of an allowed call is parsed as that call.
use tiny_qwen_coder.Prelude.{◌≡◌, refl, Option, some}
use tiny_qwen_coder.Prelude.Eq.{list_beq, elem, nat_eq}
use tiny_qwen_coder.Prelude.Result.{ok, ◌>>=◌, >>=-then, >>=-ok}
use tiny_qwen_coder.TextNormalization.{Text}
use tiny_qwen_coder.Json.{Json, get, has_keys, or_raise}
use tiny_qwen_coder.ToolContract.{
  not_json, LeafLiteToolName, read, write, edit, glob, bash, LeafLiteToolContract,
}
use tiny_qwen_coder.ToolContract.Calls.{
  LeafLiteArguments, read_arguments, write_arguments, edit_arguments, glob_arguments,
  bash_arguments, LeafLiteToolCall, tool_value, tool_of, parse_read, parse_write, parse_edit,
  parse_glob, parse_bash, parse_arguments, parse_call, arguments_payload, call_payload, object_of,
  parse_leaf_lite_tool_call, leaf_lite_tool_call_json,
}
use tiny_qwen_coder.ToolContract.Allowed.{Fits, IsAllowed, parse_call-IsAllowed}

pub tool-back : (t : LeafLiteToolName) → tool_of (tool_value t) ≡ some t
unfolding tool_of tool_value list_beq
tool-back read = refl
tool-back write = refl
tool-back edit = refl
tool-back glob = refl
tool-back bash = refl

arguments-back :
    (c : LeafLiteToolContract) (t : LeafLiteToolName) (a : LeafLiteArguments)
    → Fits c t a
    → (object_of (some (arguments_payload a)) >>= λ args. parse_arguments t args c) ≡ ok a
unfolding arguments_payload parse_arguments parse_read parse_write parse_edit parse_glob parse_bash
    get has_keys elem list_beq
arguments-back c read (read_arguments path start maximum) h = rw (h.0, h.1)
arguments-back c write (write_arguments path content) h = rw (h.1.0, h.1.1.0, h.1.1.1)
arguments-back c edit (edit_arguments path old new count) h = rw (h.0, h.1.0, h.1.1)
arguments-back c glob (glob_arguments pattern_text) h = rw h
arguments-back c bash (bash_arguments command) h = rw h
arguments-back c read (write_arguments p t) h = absurd h
arguments-back c read (edit_arguments p o n k) h = absurd h
arguments-back c read (glob_arguments p) h = absurd h
arguments-back c read (bash_arguments k) h = absurd h
arguments-back c write (read_arguments p s m) h = absurd h
arguments-back c write (edit_arguments p o n k) h = absurd h
arguments-back c write (glob_arguments p) h = absurd h
arguments-back c write (bash_arguments k) h = absurd h
arguments-back c edit (read_arguments p s m) h = absurd h
arguments-back c edit (write_arguments p t) h = absurd h
arguments-back c edit (glob_arguments p) h = absurd h
arguments-back c edit (bash_arguments k) h = absurd h
arguments-back c glob (read_arguments p s m) h = absurd h
arguments-back c glob (write_arguments p t) h = absurd h
arguments-back c glob (edit_arguments p o n k) h = absurd h
arguments-back c glob (bash_arguments k) h = absurd h
arguments-back c bash (read_arguments p s m) h = absurd h
arguments-back c bash (write_arguments p t) h = absurd h
arguments-back c bash (edit_arguments p o n k) h = absurd h
arguments-back c bash (glob_arguments p) h = absurd h

call-back :
    (c : LeafLiteToolContract) (call : LeafLiteToolCall)
    → IsAllowed c call
    → parse_call (call_payload call) c ≡ ok call
unfolding parse_call call_payload get has_keys list_beq
call-back c call h =
    rw (tool-back call.tool, h.enabled)
      (>>=-then (object_of (some (arguments_payload call.arguments)))
        (λ args. parse_arguments call.tool args c) _ call.arguments
        (arguments-back c call.tool call.arguments h.fits))

-- The JSON text of a parsed call is parsed again, under the same contract, as that call, where
-- `json.loads` gives the value that `json.dumps` has printed.
pub parse_leaf_lite_tool_call-leaf_lite_tool_call_json :
    (dumps : Json → Text) (loads : Text → Option Json) (c : LeafLiteToolContract) (t : Text)
    (call : LeafLiteToolCall)
    → loads (leaf_lite_tool_call_json dumps loads call) ≡ some (call_payload call)
    → parse_leaf_lite_tool_call dumps loads t c ≡ ok call
    → parse_leaf_lite_tool_call dumps loads (leaf_lite_tool_call_json dumps loads call) c ≡ ok call
unfolding parse_leaf_lite_tool_call
parse_leaf_lite_tool_call-leaf_lite_tool_call_json dumps loads c t call printed h =
    let raw = >>=-ok (or_raise (loads t) not_json) (λ raw. parse_call raw c) call h in
    rw printed (call-back c call (parse_call-IsAllowed raw.0 c call raw.1.1))
