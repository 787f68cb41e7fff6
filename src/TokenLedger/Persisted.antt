-- ===== src/TokenLedger/Persisted.antt =====
-- The JSON form of a snapshot: `_snapshot_payload` with the keys in the order of `sort_keys`, and
-- the strict parser. `dumps` and `loads` stand for `json.dumps` and `json.loads`.
use tiny_qwen_coder.Prelude.{Bool, not, List, [], ◌∷◌, ◌++◌, map, Option, none, some, if◌then◌else◌}
use tiny_qwen_coder.Prelude.Eq.{◌==◌, nat_eq, list_eq}
use tiny_qwen_coder.Prelude.Int.{ℤ}
use tiny_qwen_coder.Prelude.Result.{Result, ok, err, ◌>>◌, ◌>>=◌, raise_if}
use tiny_qwen_coder.TextNormalization.{Text}
use tiny_qwen_coder.Data.Deduplication.Payload.{codes}
use tiny_qwen_coder.Identities.{BaseModelIdentity, ManifestError, check_base_model}
use tiny_qwen_coder.Json.{
  Json, boolean, integer, string, array, object, Fields, items, members, get, has_keys, as_object,
  as_list, as_string, as_integer, as_boolean, or_raise, traverse,
}
use tiny_qwen_coder.TokenLedger.{
  TokenLedgerError, not_json, not_object, not_list, bad_keys, not_string, not_integer, not_boolean,
  unknown_state, unknown_source, unknown_kind, bad_base_model, negative_token, PromptAppendSource,
  initial, user, tool, AssistantSegmentKind, text, reasoning, action, TokenLedgerState,
  awaiting_output, awaiting_prompt_append, LedgerIdentity, check_identity, AssistantTokenSegment,
  check_segment, check_tokens, PromptTokenRecord, check_prompt, AssistantOutputRecord, check_output,
}
use tiny_qwen_coder.TokenLedger.Chain.{TokenLedgerSnapshot, check_snapshot}

-- The values of the enumerations, and the enumerations by their values.
unfoldable pub source_value : PromptAppendSource → Text
source_value initial = codes "initial"
source_value user = codes "user"
source_value tool = codes "tool"

unfoldable pub kind_value : AssistantSegmentKind → Text
kind_value text = codes "text"
kind_value reasoning = codes "reasoning"
kind_value action = codes "action"

unfoldable pub state_value : TokenLedgerState → Text
state_value awaiting_output = codes "awaiting_output"
state_value awaiting_prompt_append = codes "awaiting_prompt_append"

unfoldable pub source_of : Text → Option PromptAppendSource
source_of t =
    if t == codes "initial"
    then some initial
    else if t == codes "user"
    then some user
    else if t == codes "tool"
    then some tool
    else none

unfoldable pub kind_of : Text → Option AssistantSegmentKind
kind_of t =
    if t == codes "text"
    then some text
    else if t == codes "reasoning"
    then some reasoning
    else if t == codes "action"
    then some action
    else none

unfoldable pub state_of : Text → Option TokenLedgerState
state_of t =
    if t == codes "awaiting_output"
    then some awaiting_output
    else if t == codes "awaiting_prompt_append"
    then some awaiting_prompt_append
    else none

abbrev pub token_values : List ℤ → Json
token_values ids = array (items (map integer ids))

unfoldable pub identity_payload : LedgerIdentity → Json
identity_payload i = object (
    members (
      (
        codes "base_model",
        object (
            members (
              (codes "repository", string i.base_model.repository)
              ∷ (codes "revision", string i.base_model.revision)
              ∷ (codes "tokenizer_repository", string i.base_model.tokenizer_repository)
              ∷ (codes "tokenizer_revision", string i.base_model.tokenizer_revision)
              ∷ [])),
      )
      ∷ (codes "chat_template_sha256", string i.chat_template_sha256)
      ∷ (codes "compaction_enabled", boolean i.compaction_enabled)
      ∷ (codes "enable_thinking", boolean i.enable_thinking)
      ∷ (codes "leaf_lite_contract_sha256", string i.leaf_lite_contract_sha256)
      ∷ []))

unfoldable pub prompt_payload : PromptTokenRecord → Json
unfolding source_value
prompt_payload p = object (
    members (
      (codes "appended_ids", token_values p.appended_ids)
      ∷ (codes "prompt_ids", token_values p.prompt_ids)
      ∷ (codes "source", string (source_value p.source))
      ∷ (codes "turn_index", integer p.turn_index)
      ∷ []))

unfoldable pub segment_payload : AssistantTokenSegment → Json
unfolding kind_value
segment_payload s = object (
    members (
      (codes "end", integer s.end)
      ∷ (codes "kind", string (kind_value s.kind))
      ∷ (codes "start", integer s.start)
      ∷ []))

unfoldable pub output_payload : AssistantOutputRecord → Json
unfolding segment_payload
output_payload o = object (
    members (
      (codes "output_ids", token_values o.output_ids)
      ∷ (codes "segments", array (items (map segment_payload o.segments)))
      ∷ (codes "turn_index", integer o.turn_index)
      ∷ []))

unfoldable pub snapshot_payload : TokenLedgerSnapshot → Json
unfolding identity_payload prompt_payload output_payload state_value
snapshot_payload s = object (
    members (
      (codes "identity", identity_payload s.identity)
      ∷ (codes "outputs", array (items (map output_payload s.outputs)))
      ∷ (codes "prompts", array (items (map prompt_payload s.prompts)))
      ∷ (codes "schema_version", integer s.schema_version)
      ∷ (codes "session_id", string s.session_id)
      ∷ (codes "state", string (state_value s.state))
      ∷ []))

abbrev pub object_of : Option Json → Result TokenLedgerError Fields
object_of value = or_raise (as_object value) not_object

abbrev pub list_of : Option Json → Result TokenLedgerError (List Json)
list_of value = or_raise (as_list value) not_list

abbrev pub require_keys : Fields → List Text → Result TokenLedgerError (Unit {0})
unfolding has_keys
require_keys row expected = raise_if (not (has_keys row expected)) bad_keys

abbrev pub string_at : Fields → Text → Result TokenLedgerError Text
unfolding get
string_at row key = or_raise (as_string (get key row)) not_string

abbrev pub integer_at : Fields → Text → Result TokenLedgerError ℤ
unfolding get
integer_at row key = or_raise (as_integer (get key row)) not_integer

abbrev pub boolean_at : Fields → Text → Result TokenLedgerError Bool
unfolding get
boolean_at row key = or_raise (as_boolean (get key row)) not_boolean

abbrev pub token_of : Json → Result TokenLedgerError ℤ
token_of value = or_raise (as_integer (some value)) negative_token

unfoldable pub json_tokens : Option Json → Result TokenLedgerError (List ℤ)
unfolding traverse check_tokens
json_tokens value = do
  values ← list_of value
  ids ← traverse token_of values
  check_tokens ids
  ok ids

-- A `ManifestError` of the identity's constructor is caught.
abbrev pub checked_base_model :
    Result ManifestError (Unit {0}) → BaseModelIdentity → Result TokenLedgerError BaseModelIdentity
checked_base_model (ok done) i = ok i
checked_base_model (err error) i = err bad_base_model

unfoldable pub base_model_of : Option Json → Result TokenLedgerError BaseModelIdentity
unfolding get has_keys check_base_model
base_model_of value = do
  row ← object_of value
  require_keys row (
      codes "repository"
      ∷ codes "revision"
      ∷ codes "tokenizer_repository"
      ∷ codes "tokenizer_revision"
      ∷ [])
  repository ← string_at row (codes "repository")
  revision ← string_at row (codes "revision")
  tokenizer_repository ← string_at row (codes "tokenizer_repository")
  tokenizer_revision ← string_at row (codes "tokenizer_revision")
  let i : BaseModelIdentity = record {
    repository = repository;
    revision = revision;
    tokenizer_repository = tokenizer_repository;
    tokenizer_revision = tokenizer_revision;
  }
  checked_base_model (check_base_model i) i

unfoldable pub identity_of : Option Json → Result TokenLedgerError LedgerIdentity
unfolding get has_keys base_model_of check_identity
identity_of value = do
  row ← object_of value
  require_keys row (
      codes "base_model"
      ∷ codes "chat_template_sha256"
      ∷ codes "leaf_lite_contract_sha256"
      ∷ codes "enable_thinking"
      ∷ codes "compaction_enabled"
      ∷ [])
  base_model ← base_model_of (get (codes "base_model") row)
  chat_template ← string_at row (codes "chat_template_sha256")
  contract ← string_at row (codes "leaf_lite_contract_sha256")
  enable_thinking ← boolean_at row (codes "enable_thinking")
  compaction ← boolean_at row (codes "compaction_enabled")
  let i : LedgerIdentity = record {
    base_model = base_model;
    chat_template_sha256 = chat_template;
    leaf_lite_contract_sha256 = contract;
    enable_thinking = enable_thinking;
    compaction_enabled = compaction;
  }
  check_identity i
  ok i

unfoldable pub prompt_of : Json → Result TokenLedgerError PromptTokenRecord
unfolding get has_keys source_of json_tokens check_prompt
prompt_of value = do
  row ← object_of (some value)
  require_keys row
      (codes "turn_index" ∷ codes "source" ∷ codes "prompt_ids" ∷ codes "appended_ids" ∷ [])
  name ← string_at row (codes "source")
  source ← or_raise (source_of name) unknown_source
  turn_index ← integer_at row (codes "turn_index")
  prompt_ids ← json_tokens (get (codes "prompt_ids") row)
  appended_ids ← json_tokens (get (codes "appended_ids") row)
  let p : PromptTokenRecord = record {
    turn_index = turn_index;
    source = source;
    prompt_ids = prompt_ids;
    appended_ids = appended_ids;
  }
  check_prompt p
  ok p

unfoldable pub segment_of : Json → Result TokenLedgerError AssistantTokenSegment
unfolding get has_keys kind_of check_segment
segment_of value = do
  row ← object_of (some value)
  require_keys row (codes "kind" ∷ codes "start" ∷ codes "end" ∷ [])
  name ← string_at row (codes "kind")
  kind ← or_raise (kind_of name) unknown_kind
  start ← integer_at row (codes "start")
  end ← integer_at row (codes "end")
  let s : AssistantTokenSegment = record { kind = kind; start = start; end = end }
  check_segment s
  ok s

unfoldable pub output_of : Json → Result TokenLedgerError AssistantOutputRecord
unfolding get has_keys traverse segment_of json_tokens check_output
output_of value = do
  row ← object_of (some value)
  require_keys row (codes "turn_index" ∷ codes "output_ids" ∷ codes "segments" ∷ [])
  rows ← list_of (get (codes "segments") row)
  segments ← traverse segment_of rows
  turn_index ← integer_at row (codes "turn_index")
  output_ids ← json_tokens (get (codes "output_ids") row)
  let o : AssistantOutputRecord = record {
    turn_index = turn_index;
    output_ids = output_ids;
    segments = segments;
  }
  check_output o
  ok o

unfoldable pub snapshot_of_json : Json → Result TokenLedgerError TokenLedgerSnapshot
unfolding get has_keys state_of identity_of traverse prompt_of output_of check_snapshot
snapshot_of_json raw = do
  row ← object_of (some raw)
  require_keys row (
      codes "schema_version"
      ∷ codes "session_id"
      ∷ codes "identity"
      ∷ codes "prompts"
      ∷ codes "outputs"
      ∷ codes "state"
      ∷ [])
  prompt_rows ← list_of (get (codes "prompts") row)
  output_rows ← list_of (get (codes "outputs") row)
  name ← string_at row (codes "state")
  state ← or_raise (state_of name) unknown_state
  schema_version ← integer_at row (codes "schema_version")
  session_id ← string_at row (codes "session_id")
  identity ← identity_of (get (codes "identity") row)
  prompts ← traverse prompt_of prompt_rows
  outputs ← traverse output_of output_rows
  let s : TokenLedgerSnapshot = record {
    schema_version = schema_version;
    session_id = session_id;
    identity = identity;
    prompts = prompts;
    outputs = outputs;
    state = state;
  }
  check_snapshot s
  ok s

module _ (dumps : Json → Text) (loads : Text → Option Json) where
  unfoldable pub token_ledger_snapshot_json : TokenLedgerSnapshot → Text
  unfolding snapshot_payload
  token_ledger_snapshot_json s = dumps (snapshot_payload s) ++ (10 ∷ [])

  unfoldable pub token_ledger_snapshot_from_json :
      Text → Result TokenLedgerError TokenLedgerSnapshot
  unfolding snapshot_of_json
  token_ledger_snapshot_from_json t = or_raise (loads t) not_json >>= λ raw. snapshot_of_json raw
