-- ===== src/ToolContract.antt =====
-- src/tiny_qwen_coder/pvrl/tool_contract.py: the contract of the Leaf-lite tools and its paths. A
-- limit of the contract is a natural number; the constructor refuses a negative one. A constructor
-- of `LeafLiteContractError` stands for one message; the last two are exceptions that the code does
-- not raise itself, `IndexError` and `UnicodeEncodeError`.
pub mod Paths
pub mod Calls
pub mod Results
pub mod Allowed
pub mod Reparsed
pub mod Safe
pub mod Bounded
pub mod Created
use tiny_qwen_coder.Prelude.{
  ℕ, ◌+◌, ◌≡◌, ◌↔◌, arith, Bool, true, false, not, ◌&&◌, ◌||◌, List, [], ◌∷◌, ◌++◌, null, length,
  any, all, leb, ltb, Option, none, some, if◌then◌else◌,
}
use tiny_qwen_coder.Prelude.Eq.{Eq, ◌==◌, nat_eq, list_eq, elem}
use tiny_qwen_coder.Prelude.Int.{ℤ, pos, int_eq}
use tiny_qwen_coder.Prelude.Result.{Result, ok, err, ◌>>◌, ◌>>=◌, raise_if}
use tiny_qwen_coder.TextNormalization.{Text, utf8_encodable}
use tiny_qwen_coder.Data.Records.{is_blank}
use tiny_qwen_coder.Data.Deduplication.Payload.{codes}
use tiny_qwen_coder.TokenLedger.{strip_left, strip_right}
use tiny_qwen_coder.Utf8.{encode}

pub data LeafLiteContractError : Type 0 where
  bad_schema_version untrimmed_contract_id bad_tool_names : LeafLiteContractError
  bad_limit default_beyond_maximum marker_too_long : LeafLiteContractError
  bad_result_status bad_exit_code : LeafLiteContractError
  not_json not_object bad_keys not_string not_integer not_boolean : LeafLiteContractError
  bad_path_text bad_path reserved_path : LeafLiteContractError
  unknown_tool tool_not_enabled bad_range too_long empty_old_text : LeafLiteContractError
  bad_replacements bad_command unknown_status missing_marker : LeafLiteContractError
  index_error encode_error : LeafLiteContractError

pub data LeafLiteProfile : Type 0 where
  self_contained_v0 repository : LeafLiteProfile

pub data LeafLiteToolName : Type 0 where
  read write edit glob bash : LeafLiteToolName

unfoldable pub tool_beq : LeafLiteToolName → LeafLiteToolName → Bool
tool_beq read read = true
tool_beq write write = true
tool_beq edit edit = true
tool_beq glob glob = true
tool_beq bash bash = true
tool_beq _ _ = false

pub tool_beq_iff : (a b : LeafLiteToolName) → (tool_beq a b ≡ true) ↔ (a ≡ b)
unfolding tool_beq
tool_beq_iff read b = ground arith
tool_beq_iff write b = ground arith
tool_beq_iff edit b = ground arith
tool_beq_iff glob b = ground arith
tool_beq_iff bash b = ground arith

instance abbrev pub tool_eq : Eq LeafLiteToolName
tool_eq = record { equals = tool_beq; equals_iff = tool_beq_iff }

pub data LeafLiteResultStatus : Type 0 where
  succeeded error timeout resource_limit : LeafLiteResultStatus

pub record LeafLiteToolContract : Type 0 where
  pub schema_version : ℤ
  pub contract_id : Text
  pub profile : LeafLiteProfile
  pub tool_names : List LeafLiteToolName
  pub bash_timeout_seconds : ℕ
  pub max_output_bytes : ℕ
  pub read_default_max_lines : ℕ
  pub read_max_lines : ℕ
  pub glob_max_results : ℕ
  pub max_write_bytes : ℕ
  pub truncation_marker : Text

-- `_REPOSITORY` and `_SELF_CONTAINED`.
abbrev pub profile_tools : LeafLiteProfile → List LeafLiteToolName
profile_tools repository = read ∷ write ∷ edit ∷ glob ∷ bash ∷ []
profile_tools self_contained_v0 = read ∷ write ∷ bash ∷ []

-- `len(text.encode())`.
unfoldable pub byte_length : Text → Result LeafLiteContractError ℕ
unfolding utf8_encodable encode
byte_length t = if utf8_encodable t then ok (length (encode t)) else err encode_error

unfoldable pub check_contract : LeafLiteToolContract → Result LeafLiteContractError (Unit {0})
unfolding strip_right tool_beq byte_length
check_contract c =
    raise_if (not (c.schema_version == pos 1)) bad_schema_version
    >> (raise_if
          (null c.contract_id || not (c.contract_id == strip_right (strip_left c.contract_id)))
          untrimmed_contract_id
        >> (raise_if (not (c.tool_names == profile_tools c.profile)) bad_tool_names
            >> (raise_if
                  (any (λ n. n == 0)
                    (c.bash_timeout_seconds ∷ c.max_output_bytes ∷ c.read_default_max_lines
                      ∷ c.read_max_lines ∷ c.glob_max_results ∷ c.max_write_bytes ∷ []))
                  bad_limit
                >> (raise_if (ltb c.read_max_lines c.read_default_max_lines) default_beyond_maximum
                    >> (raise_if (null c.truncation_marker) marker_too_long
                        >> (byte_length c.truncation_marker >>= λ n.
                            raise_if (leb c.max_output_bytes n) marker_too_long))))))

-- `_contract`, `repository_leaf_lite_contract` and `self_contained_leaf_lite_contract`.
abbrev pub contract_of : Text → LeafLiteProfile → LeafLiteToolContract
contract_of contract_id profile = record {
  schema_version = pos 1;
  contract_id = contract_id;
  profile = profile;
  tool_names = profile_tools profile;
  bash_timeout_seconds = 20;
  max_output_bytes = 65536;
  read_default_max_lines = 200;
  read_max_lines = 2000;
  glob_max_results = 1000;
  max_write_bytes = 1048576;
  truncation_marker = codes "\n...[output truncated]\n";
}

abbrev pub repository_leaf_lite_contract : LeafLiteToolContract
repository_leaf_lite_contract = contract_of (codes "leaf-lite-v1-repository") repository

abbrev pub self_contained_leaf_lite_contract : LeafLiteToolContract
self_contained_leaf_lite_contract =
    contract_of (codes "leaf-lite-v1-self-contained-v0") self_contained_v0

abbrev pub slash : ℕ
slash = b'/'

-- The parts of `PurePosixPath` of a relative path: its text split at `/`, without the empty ones
-- and without `.`; and the text that it makes of them.
abbrev pub prepend : ℕ → List Text → List Text
prepend c [] = (c ∷ []) ∷ []
prepend c (p ∷ ps) = (c ∷ p) ∷ ps

unfoldable pub split : Text → List Text
split [] = [] ∷ []
split (c ∷ t) = let rest = split t in if c == slash then [] ∷ rest else prepend c rest

abbrev pub dot : Text
dot = b'.' ∷ []

abbrev pub dots : Text
dots = b'.' ∷ b'.' ∷ []

abbrev pub keep_parts : List Text → List Text
keep_parts [] = []
keep_parts (p ∷ ps) = let rest = keep_parts ps in if null p || p == dot then rest else p ∷ rest

unfoldable pub path_parts : Text → List Text
unfolding split
path_parts t = keep_parts (split t)

unfoldable pub join : List Text → Text
join [] = []
join (p ∷ []) = p
join (p ∷ q ∷ ps) = p ++ slash ∷ join (q ∷ ps)

unfoldable pub as_posix : List Text → Text
unfolding join
as_posix parts = if null parts then dot else join parts

abbrev pub is_absolute : Text → Bool
is_absolute [] = false
is_absolute (c ∷ t) = c == slash

-- `_RESERVED`
abbrev pub reserved : List Text
reserved = codes ".pvrl" ∷ codes "grader" ∷ codes "reference" ∷ []

-- `parsed.parts[0] in _RESERVED`
unfoldable pub check_first_part : List Text → Result LeafLiteContractError (Unit {0})
unfolding elem
check_first_part [] = err index_error
check_first_part (p ∷ ps) = raise_if (elem p reserved) reserved_path

-- `_path`, which returns its argument.
unfoldable pub check_path : Text → Result LeafLiteContractError (Unit {0})
unfolding is_blank elem path_parts as_posix check_first_part
check_path t =
    raise_if (is_blank t || elem 0 t || elem b'\\' t) bad_path_text
    >> (raise_if (is_absolute t || not (t == as_posix (path_parts t)) || elem dots (path_parts t))
          bad_path
        >> check_first_part (path_parts t))
