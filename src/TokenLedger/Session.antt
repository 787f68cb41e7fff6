-- ===== src/TokenLedger/Session.antt =====
-- The class `ExactQwen35TokenLedger`: its lists, and its operations as functions that return the
-- record with the ledger after it. The state is computed from the two lengths, as the property is.
use tiny_qwen_coder.Prelude.{
  not, ◌||◌, List, [], ◌∷◌, ◌++◌, length, take, drop, last?, leb, Option, none, some, if◌then◌else◌,
}
use tiny_qwen_coder.Prelude.Eq.{◌==◌, nat_eq, list_eq}
use tiny_qwen_coder.Prelude.Int.{ℤ, pos, int_eq}
use tiny_qwen_coder.Prelude.Result.{Result, ok, err, ◌>>=◌, ◌>>◌, raise_if}
use tiny_qwen_coder.TextNormalization.{Text}
use tiny_qwen_coder.TokenLedger.{
  TokenLedgerError, initial_source, index_error, wrong_state, history_fork, PromptAppendSource,
  initial, is_initial, text, TokenLedgerState, awaiting_output, awaiting_prompt_append, state_beq,
  LedgerIdentity, AssistantTokenSegment, check_segment, check_tokens, PromptTokenRecord,
  check_prompt, AssistantOutputRecord, check_output, check_trimmed,
}

pub record Ledger : Type 0 where
  pub session_id : Text
  pub identity : LedgerIdentity
  pub prompts : List PromptTokenRecord
  pub outputs : List AssistantOutputRecord

abbrev pub expected_state : List PromptTokenRecord → List AssistantOutputRecord → TokenLedgerState
expected_state prompts outputs =
    if length outputs == length prompts then awaiting_prompt_append else awaiting_output

unfoldable pub ledger_state : Ledger → TokenLedgerState
ledger_state l = expected_state l.prompts l.outputs

abbrev pub first_prompt : List ℤ → PromptTokenRecord
first_prompt ids = record {
  turn_index = pos 0;
  source = initial;
  prompt_ids = ids;
  appended_ids = ids;
}

abbrev pub whole_output : List ℤ → AssistantTokenSegment
whole_output ids = record { kind = text; start = pos 0; end = pos (length ids) }

abbrev pub next_output : Ledger → List ℤ → List AssistantTokenSegment → AssistantOutputRecord
next_output l ids segments = record {
  turn_index = pos (length l.outputs);
  output_ids = ids;
  segments = segments;
}

abbrev pub next_prompt : Ledger → PromptAppendSource → List ℤ → List ℤ → PromptTokenRecord
next_prompt l source prefix delta = record {
  turn_index = pos (length l.prompts);
  source = source;
  prompt_ids = prefix ++ delta;
  appended_ids = delta;
}

-- The constructor of the class.
unfoldable pub new_ledger : Text → LedgerIdentity → List ℤ → Result TokenLedgerError Ledger
unfolding check_trimmed check_tokens check_prompt
new_ledger session_id identity initial_prompt_ids =
    check_trimmed session_id
    >> (check_tokens initial_prompt_ids
        >> (check_prompt (first_prompt initial_prompt_ids)
            >> ok (record {
              session_id = session_id;
              identity = identity;
              prompts = first_prompt initial_prompt_ids ∷ [];
              outputs = [];
            })))

-- The segments that the caller gave, or one text segment over the whole output.
unfoldable pub exact_segments :
    List ℤ
    → Option (List AssistantTokenSegment)
    → Result TokenLedgerError (List AssistantTokenSegment)
unfolding check_segment
exact_segments exact (some segments) = ok segments
exact_segments exact none = check_segment (whole_output exact) >> ok (whole_output exact ∷ [])

unfoldable pub record_assistant_output :
    Ledger
    → List ℤ
    → Option (List AssistantTokenSegment)
    → Result TokenLedgerError (AssistantOutputRecord × Ledger)
unfolding ledger_state state_beq check_tokens exact_segments check_output
record_assistant_output l output_ids segments =
    raise_if (not (state_beq (ledger_state l) awaiting_output)) wrong_state
    >> (check_tokens output_ids
        >> (exact_segments output_ids segments >>= λ exact.
            let output = next_output l output_ids exact in
            check_output output >> ok (output, record l { outputs = l.outputs ++ (output ∷ []) })))

unfoldable pub require_append : Ledger → PromptAppendSource → Result TokenLedgerError (Unit {0})
unfolding ledger_state state_beq is_initial
require_append l source =
    raise_if (not (state_beq (ledger_state l) awaiting_prompt_append)) wrong_state
    >> raise_if (is_initial source) initial_source

-- `self._prompts[-1].prompt_ids + self._outputs[-1].output_ids`.
unfoldable pub history :
    Option PromptTokenRecord → Option AssistantOutputRecord → Result TokenLedgerError (List ℤ)
history (some p) (some o) = ok (p.prompt_ids ++ o.output_ids)
history _ _ = err index_error

unfoldable pub append_prompt_delta :
    Ledger → List ℤ → PromptAppendSource → Result TokenLedgerError (PromptTokenRecord × Ledger)
unfolding require_append check_tokens history check_prompt
append_prompt_delta l delta source =
    require_append l source
    >> (check_tokens delta
        >> (history (last? l.prompts) (last? l.outputs) >>= λ prefix.
            let prompt = next_prompt l source prefix delta in
            check_prompt prompt >> ok (prompt, record l { prompts = l.prompts ++ (prompt ∷ []) })))

unfoldable pub adopt_verified_next_prompt :
    Ledger → List ℤ → PromptAppendSource → Result TokenLedgerError (PromptTokenRecord × Ledger)
unfolding require_append check_tokens history append_prompt_delta
adopt_verified_next_prompt l candidate source =
    require_append l source
    >> (check_tokens candidate
        >> (history (last? l.prompts) (last? l.outputs) >>= λ prefix.
            raise_if
              (leb (length candidate) (length prefix)
                || not (take (length prefix) candidate == prefix))
              history_fork
            >> append_prompt_delta l (drop (length prefix) candidate) source))
