-- ===== src/TokenLedger.antt =====
-- src/tiny_qwen_coder/pvrl/token_ledger.py: the records of an exact token ledger. `check_x` is the
-- `__post_init__` of the class `X`. A constructor of `TokenLedgerError` stands for one message.
pub mod Session
pub mod Chain
pub mod Segments
pub mod Extended
pub mod Preserved
pub mod Snapshots
pub mod Forks
pub mod Transcript
pub mod Persisted
pub mod RoundTrip
use tiny_qwen_coder.Prelude.{
  ℕ, zero, suc, ◌≡◌, Bool, true, false, not, ◌&&◌, ◌||◌, List, [], ◌∷◌, all, null, length, leb, ltb,
  if◌then◌else◌, arith, ◌↔◌,
}
use tiny_qwen_coder.Prelude.Eq.{Eq, ◌==◌, nat_eq, list_eq}
use tiny_qwen_coder.Prelude.Int.{ℤ, pos, negsuc, is_negative, int_eq, int_ltb}
use tiny_qwen_coder.Prelude.Result.{Result, ok, err, ◌>>◌, raise_if}
use tiny_qwen_coder.TextNormalization.{Text}
use tiny_qwen_coder.Identities.{BaseModelIdentity, is_lower_hex}
use tiny_qwen_coder.Data.Records.{is_space, is_blank}

-- The three exception classes; the plain one by its message.
pub data TokenLedgerError : Type 0 where
  bad_digest : TokenLedgerError
  compaction_unsupported : TokenLedgerError
  bad_segment : TokenLedgerError
  bad_index : TokenLedgerError
  no_tokens : TokenLedgerError
  negative_token : TokenLedgerError
  no_segments : TokenLedgerError
  segment_gap : TokenLedgerError
  segment_too_long : TokenLedgerError
  uncovered_tokens : TokenLedgerError
  bad_schema_version : TokenLedgerError
  untrimmed_session_id : TokenLedgerError
  bad_counts : TokenLedgerError
  bad_prompt_index : TokenLedgerError
  bad_initial_prompt : TokenLedgerError
  later_initial_source : TokenLedgerError
  bad_output_index : TokenLedgerError
  inconsistent_state : TokenLedgerError
  initial_source : TokenLedgerError
  state_drifted : TokenLedgerError
  index_error : TokenLedgerError
  not_json not_object not_list bad_keys : TokenLedgerError
  not_string not_integer not_boolean : TokenLedgerError
  unknown_state unknown_source unknown_kind bad_base_model : TokenLedgerError
  wrong_state : TokenLedgerError
  history_fork : TokenLedgerError

pub data PromptAppendSource : Type 0 where
  initial user tool : PromptAppendSource

unfoldable pub is_initial : PromptAppendSource → Bool
is_initial initial = true
is_initial _ = false

pub data AssistantSegmentKind : Type 0 where
  text reasoning action : AssistantSegmentKind

pub data TokenLedgerState : Type 0 where
  awaiting_output awaiting_prompt_append : TokenLedgerState

unfoldable pub state_beq : TokenLedgerState → TokenLedgerState → Bool
state_beq awaiting_output awaiting_output = true
state_beq awaiting_prompt_append awaiting_prompt_append = true
state_beq _ _ = false

-- `^[0-9a-f]{64}$`, matched in full.
unfoldable pub sha : Text → Result TokenLedgerError (Unit {0})
sha t = raise_if (not (length t == 64 && all is_lower_hex t)) bad_digest

pub record LedgerIdentity : Type 0 where
  pub base_model : BaseModelIdentity
  pub chat_template_sha256 : Text
  pub leaf_lite_contract_sha256 : Text
  pub enable_thinking : Bool
  pub compaction_enabled : Bool

unfoldable pub check_identity : LedgerIdentity → Result TokenLedgerError (Unit {0})
unfolding sha
check_identity i =
    sha i.chat_template_sha256
    >> (sha i.leaf_lite_contract_sha256 >> raise_if i.compaction_enabled compaction_unsupported)

pub record AssistantTokenSegment : Type 0 where
  pub kind : AssistantSegmentKind
  pub start : ℤ
  pub end : ℤ

unfoldable pub check_segment : AssistantTokenSegment → Result TokenLedgerError (Unit {0})
unfolding int_ltb
check_segment s = raise_if (is_negative s.start || not (int_ltb s.start s.end)) bad_segment

unfoldable pub check_index : ℤ → Result TokenLedgerError (Unit {0})
check_index n = raise_if (is_negative n) bad_index

-- `_tokens`, and `_token_tuple` of a sequence of integers.
unfoldable pub check_tokens : List ℤ → Result TokenLedgerError (Unit {0})
check_tokens ids =
    raise_if (null ids) no_tokens
    >> raise_if (not (all (λ t. not (is_negative t)) ids)) negative_token

pub record PromptTokenRecord : Type 0 where
  pub turn_index : ℤ
  pub source : PromptAppendSource
  pub prompt_ids : List ℤ
  pub appended_ids : List ℤ

unfoldable pub check_prompt : PromptTokenRecord → Result TokenLedgerError (Unit {0})
unfolding check_index check_tokens
check_prompt p =
    check_index p.turn_index >> (check_tokens p.prompt_ids >> check_tokens p.appended_ids)

unfoldable pub segments_from :
    ℕ → ℤ → List AssistantTokenSegment → Result TokenLedgerError (Unit {0})
unfolding int_ltb
segments_from count position [] = raise_if (not (position == pos count)) uncovered_tokens
segments_from count position (s ∷ segments) =
    raise_if (not (s.start == position)) segment_gap
    >> (raise_if (int_ltb (pos count) s.end) segment_too_long >> segments_from count s.end segments)

unfoldable pub check_segments :
    List ℤ → List AssistantTokenSegment → Result TokenLedgerError (Unit {0})
unfolding segments_from
check_segments output_ids segments =
    raise_if (null segments) no_segments >> segments_from (length output_ids) (pos 0) segments

pub record AssistantOutputRecord : Type 0 where
  pub turn_index : ℤ
  pub output_ids : List ℤ
  pub segments : List AssistantTokenSegment

unfoldable pub check_output : AssistantOutputRecord → Result TokenLedgerError (Unit {0})
unfolding check_index check_tokens check_segments
check_output o =
    check_index o.turn_index
    >> (check_tokens o.output_ids >> check_segments o.output_ids o.segments)

-- `str.strip`, from the left and on both sides.
abbrev pub strip_left : Text → Text
unfolding is_space
strip_left [] = []
strip_left (c ∷ cs) = let rest = strip_left cs in if is_space c then rest else c ∷ cs

unfoldable pub strip_right : Text → Text
unfolding is_space is_blank
strip_right [] = []
strip_right (c ∷ cs) = let rest = strip_right cs in if is_blank (c ∷ cs) then [] else c ∷ rest

unfoldable pub check_trimmed : Text → Result TokenLedgerError (Unit {0})
unfolding strip_right
check_trimmed t = raise_if (null t || not (t == strip_right (strip_left t))) untrimmed_session_id
