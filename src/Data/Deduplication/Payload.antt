-- ===== src/Data/Deduplication/Payload.antt =====
-- The payloads that src/tiny_qwen_coder/data/deduplication.py hashes, as the text that
-- `json.dumps(value, ensure_ascii=False, separators=(",", ":"), sort_keys=True)` makes of them.
use Prim.Native.Char.{code}
use Prim.Native.String.{String}
use tiny_qwen_coder.Prelude.{ℕ, ◌+◌, ◌/◌, ◌%◌, List, [], ◌∷◌, ◌++◌, ltb, if◌then◌else◌}
use tiny_qwen_coder.Prelude.Eq.{◌==◌, nat_eq}
use tiny_qwen_coder.TextNormalization.{Text}
use tiny_qwen_coder.Data.Records.{MessageRole, system, user, assistant, TrainingMessage}

-- The code points of a literal.
abbrev pub codes : String → Text
codes String.[] = []
codes (String.◌∷◌ c s) = code c ∷ codes s

abbrev hex_digit : ℕ → ℕ
hex_digit d = if ltb d 10 then b'0' + d else 87 + d

-- One character of a JSON string.
unfoldable pub escape : ℕ → Text
escape c =
    if c == b'"'
    then 92 ∷ b'"' ∷ []
    else if c == 92
    then 92 ∷ 92 ∷ []
    else if c == 10
    then 92 ∷ b'n' ∷ []
    else if c == 13
    then 92 ∷ b'r' ∷ []
    else if c == 9
    then 92 ∷ b't' ∷ []
    else if c == 12
    then 92 ∷ b'f' ∷ []
    else if c == 8
    then 92 ∷ b'b' ∷ []
    else if ltb c 32
    then 92 ∷ b'u' ∷ b'0' ∷ b'0' ∷ hex_digit (c / 16) ∷ hex_digit (c % 16) ∷ []
    else c ∷ []

unfoldable pub escape_all : Text → Text
unfolding escape
escape_all [] = []
escape_all (c ∷ t) = escape c ++ escape_all t

unfoldable pub json_string : Text → Text
unfolding escape_all
json_string t = b'"' ∷ (escape_all t ++ (b'"' ∷ []))

abbrev pub role_name : MessageRole → Text
role_name system = codes "system"
role_name user = codes "user"
role_name assistant = codes "assistant"

-- `_message_payload`, one message: the keys in sorted order.
unfoldable pub message_json : TrainingMessage → Text
unfolding json_string
message_json m =
    codes "{\"content\":"
    ++ (json_string m.content
        ++ (codes ",\"role\":" ++ (json_string (role_name m.role) ++ codes "}")))

-- The messages that follow the first one.
unfoldable pub more_messages_json : List TrainingMessage → Text
unfolding message_json
more_messages_json [] = codes "]"
more_messages_json (m ∷ ms) = codes "," ++ (message_json m ++ more_messages_json ms)

unfoldable pub messages_json : List TrainingMessage → Text
unfolding more_messages_json
messages_json [] = codes "[]"
messages_json (m ∷ ms) = codes "[" ++ (message_json m ++ more_messages_json ms)

unfoldable pub prompt_payload : List TrainingMessage → Text
unfolding messages_json
prompt_payload ms = codes "{\"messages\":" ++ (messages_json ms ++ codes ",\"schema_version\":1}")

unfoldable pub response_payload : Text → Text
unfolding json_string
response_payload content =
    codes "{\"content\":"
    ++ (json_string content ++ codes ",\"role\":\"assistant\",\"schema_version\":1}")

unfoldable pub record_payload : Text → Text → Text
unfolding json_string
record_payload prompt_sha256 response_sha256 =
    codes "{\"prompt_sha256\":"
    ++ (json_string prompt_sha256
        ++ (codes ",\"response_sha256\":"
            ++ (json_string response_sha256 ++ codes ",\"schema_version\":1}")))
