-- ===== src/ToolContract/Calls.antt =====
-- `parse_leaf_lite_tool_call` on the value that `json.loads` gives, and the payload of a call, which
-- `leaf_lite_tool_call_json` prints with its keys in order.
use tiny_qwen_coder.Prelude.{
  Bool, not, ◌&&◌, ◌||◌, List, [], ◌∷◌, ◌++◌, all, null, ltb, Option, none, some, if◌then◌else◌,
}
use tiny_qwen_coder.Prelude.Eq.{◌==◌, nat_eq, list_eq, elem}
use tiny_qwen_coder.Prelude.Int.{ℤ, pos, int_ltb, int_leb}
use tiny_qwen_coder.Prelude.Result.{Result, ok, ◌>>◌, ◌>>=◌, raise_if}
use tiny_qwen_coder.TextNormalization.{Text}
use tiny_qwen_coder.Data.Records.{is_blank}
use tiny_qwen_coder.Data.Deduplication.Payload.{codes}
use tiny_qwen_coder.Json.{
  Json, integer, string, object, Fields, members, keys, get, has_keys, as_object, as_string,
  as_integer, or_raise,
}
use tiny_qwen_coder.ToolContract.{
  LeafLiteContractError, not_json, not_object, bad_keys, not_string, not_integer, unknown_tool,
  tool_not_enabled, bad_range, too_long, empty_old_text, bad_replacements, bad_command,
  LeafLiteToolName, read, write, edit, glob, bash, tool_eq, tool_beq, LeafLiteToolContract,
  byte_length, check_path,
}

-- The five classes of arguments.
pub data LeafLiteArguments : Type 0 where
  read_arguments : (path : Text) (start_line max_lines : ℤ) → LeafLiteArguments
  write_arguments : (path content : Text) → LeafLiteArguments
  edit_arguments : (path old_text new_text : Text) (expected_replacements : ℤ) → LeafLiteArguments
  glob_arguments : (pattern : Text) → LeafLiteArguments
  bash_arguments : (command : Text) → LeafLiteArguments

pub record LeafLiteToolCall : Type 0 where
  pub tool : LeafLiteToolName
  pub arguments : LeafLiteArguments

unfoldable pub tool_value : LeafLiteToolName → Text
tool_value read = codes "read"
tool_value write = codes "write"
tool_value edit = codes "edit"
tool_value glob = codes "glob"
tool_value bash = codes "bash"

unfoldable pub tool_of : Text → Option LeafLiteToolName
tool_of t =
    if t == codes "read"
    then some read
    else if t == codes "write"
    then some write
    else if t == codes "edit"
    then some edit
    else if t == codes "glob"
    then some glob
    else if t == codes "bash"
    then some bash
    else none

abbrev pub object_of : Option Json → Result LeafLiteContractError Fields
object_of value = or_raise (as_object value) not_object

abbrev pub require_keys : Fields → List Text → Result LeafLiteContractError (Unit {0})
unfolding has_keys
require_keys row expected = raise_if (not (has_keys row expected)) bad_keys

-- Every required key is there, and no key that is not allowed.
abbrev pub require_some_keys :
    Fields → List Text → List Text → Result LeafLiteContractError (Unit {0})
unfolding elem
require_some_keys row required allowed =
    raise_if
      (not (all (λ k. elem k (keys row)) required) || not (all (λ k. elem k allowed) (keys row)))
      bad_keys

abbrev pub string_at : Fields → Text → Result LeafLiteContractError Text
unfolding get
string_at row key = or_raise (as_string (get key row)) not_string

-- An integer that has a default.
abbrev pub integer_value : Option Json → ℤ → Result LeafLiteContractError ℤ
integer_value none default = ok default
integer_value (some value) default = or_raise (as_integer (some value)) not_integer

abbrev pub integer_or : Fields → Text → ℤ → Result LeafLiteContractError ℤ
unfolding get
integer_or row key default = integer_value (get key row) default

-- `low <= n <= high`
abbrev pub between : ℤ → ℤ → ℤ → Bool
unfolding int_ltb
between low n high = int_leb low n && int_leb n high

abbrev pub check_range : LeafLiteToolContract → ℤ → ℤ → Result LeafLiteContractError (Unit {0})
unfolding int_ltb
check_range c start maximum =
    raise_if (int_ltb start (pos 1) || not (between (pos 1) maximum (pos c.read_max_lines)))
      bad_range

-- The keys that the schemas require and allow.
abbrev pub read_required : List Text
read_required = codes "path" ∷ []

abbrev pub read_allowed : List Text
read_allowed = codes "path" ∷ codes "start_line" ∷ codes "max_lines" ∷ []

abbrev pub write_keys : List Text
write_keys = codes "path" ∷ codes "content" ∷ []

abbrev pub edit_required : List Text
edit_required = codes "path" ∷ codes "old_text" ∷ codes "new_text" ∷ []

abbrev pub edit_allowed : List Text
edit_allowed =
    codes "path" ∷ codes "old_text" ∷ codes "new_text" ∷ codes "expected_replacements" ∷ []

abbrev pub glob_keys : List Text
glob_keys = codes "pattern" ∷ []

abbrev pub bash_keys : List Text
bash_keys = codes "command" ∷ []

abbrev pub call_keys : List Text
call_keys = codes "tool" ∷ codes "arguments" ∷ []

unfoldable pub parse_read :
    Fields → LeafLiteToolContract → Result LeafLiteContractError LeafLiteArguments
unfolding get elem int_ltb check_path
parse_read args c = do
  require_some_keys args read_required read_allowed
  start ← integer_or args (codes "start_line") (pos 1)
  maximum ← integer_or args (codes "max_lines") (pos c.read_default_max_lines)
  check_range c start maximum
  path ← string_at args (codes "path")
  check_path path
  ok (read_arguments path start maximum)

unfoldable pub parse_write :
    Fields → LeafLiteToolContract → Result LeafLiteContractError LeafLiteArguments
unfolding get has_keys byte_length check_path
parse_write args c = do
  require_keys args write_keys
  content ← string_at args (codes "content")
  size ← byte_length content
  raise_if (ltb c.max_write_bytes size) too_long
  path ← string_at args (codes "path")
  check_path path
  ok (write_arguments path content)

unfoldable pub parse_edit : Fields → Result LeafLiteContractError LeafLiteArguments
unfolding get elem int_ltb check_path
parse_edit args = do
  require_some_keys args edit_required edit_allowed
  old ← string_at args (codes "old_text")
  count ← integer_or args (codes "expected_replacements") (pos 1)
  raise_if (null old) empty_old_text
  raise_if (not (between (pos 1) count (pos 100))) bad_replacements
  path ← string_at args (codes "path")
  check_path path
  new ← string_at args (codes "new_text")
  ok (edit_arguments path old new count)

unfoldable pub parse_glob : Fields → Result LeafLiteContractError LeafLiteArguments
unfolding get has_keys check_path
parse_glob args = do
  require_keys args glob_keys
  pattern_text ← string_at args (codes "pattern")
  check_path pattern_text
  ok (glob_arguments pattern_text)

unfoldable pub parse_bash : Fields → Result LeafLiteContractError LeafLiteArguments
unfolding get has_keys is_blank elem
parse_bash args = do
  require_keys args bash_keys
  command ← string_at args (codes "command")
  raise_if (is_blank command || elem 0 command) bad_command
  ok (bash_arguments command)

unfoldable pub parse_arguments :
    LeafLiteToolName
    → Fields
    → LeafLiteToolContract
    → Result LeafLiteContractError LeafLiteArguments
unfolding parse_read parse_write parse_edit parse_glob parse_bash
parse_arguments read args c = parse_read args c
parse_arguments write args c = parse_write args c
parse_arguments edit args c = parse_edit args
parse_arguments glob args c = parse_glob args
parse_arguments bash args c = parse_bash args

unfoldable pub parse_call :
    Json → LeafLiteToolContract → Result LeafLiteContractError LeafLiteToolCall
unfolding get has_keys tool_of tool_beq elem parse_arguments
parse_call raw c = do
  payload ← object_of (some raw)
  require_keys payload call_keys
  name ← string_at payload (codes "tool")
  tool ← or_raise (tool_of name) unknown_tool
  raise_if (not (elem tool c.tool_names)) tool_not_enabled
  args ← object_of (get (codes "arguments") payload)
  arguments ← parse_arguments tool args c
  ok (record { tool = tool; arguments = arguments })

-- `asdict(call.arguments)`, its keys in order.
unfoldable pub arguments_payload : LeafLiteArguments → Json
arguments_payload (read_arguments path start maximum) = object (
    members (
      (codes "max_lines", integer maximum)
      ∷ (codes "path", string path)
      ∷ (codes "start_line", integer start)
      ∷ []))
arguments_payload (write_arguments path content) =
    object (members ((codes "content", string content) ∷ (codes "path", string path) ∷ []))
arguments_payload (edit_arguments path old new count) = object (
    members (
      (codes "expected_replacements", integer count)
      ∷ (codes "new_text", string new)
      ∷ (codes "old_text", string old)
      ∷ (codes "path", string path)
      ∷ []))
arguments_payload (glob_arguments pattern_text) =
    object (members ((codes "pattern", string pattern_text) ∷ []))
arguments_payload (bash_arguments command) =
    object (members ((codes "command", string command) ∷ []))

unfoldable pub call_payload : LeafLiteToolCall → Json
unfolding arguments_payload tool_value
call_payload call = object (
    members (
      (codes "arguments", arguments_payload call.arguments)
      ∷ (codes "tool", string (tool_value call.tool))
      ∷ []))

module _ (dumps : Json → Text) (loads : Text → Option Json) where
  unfoldable pub parse_leaf_lite_tool_call :
      Text → LeafLiteToolContract → Result LeafLiteContractError LeafLiteToolCall
  unfolding parse_call
  parse_leaf_lite_tool_call text c = or_raise (loads text) not_json >>= λ raw. parse_call raw c

  unfoldable pub leaf_lite_tool_call_json : LeafLiteToolCall → Text
  unfolding call_payload
  leaf_lite_tool_call_json call = dumps (call_payload call) ++ 10 ∷ []
