-- ===== src/TokenLedger/Chain.antt =====
-- The snapshot of a ledger, and the check `_chain` of its records.
use tiny_qwen_coder.Prelude.{ℕ, suc, not, ◌||◌, List, [], ◌∷◌, ◌++◌, length}
use tiny_qwen_coder.Prelude.Eq.{◌==◌, nat_eq, list_eq}
use tiny_qwen_coder.Prelude.Int.{ℤ, pos, int_eq}
use tiny_qwen_coder.Prelude.Result.{Result, ok, err, ◌>>=◌, ◌>>◌, raise_if}
use tiny_qwen_coder.TextNormalization.{Text}
use tiny_qwen_coder.TokenLedger.{
  TokenLedgerError, bad_schema_version, bad_counts, bad_prompt_index, bad_initial_prompt,
  later_initial_source, bad_output_index, inconsistent_state, state_drifted, index_error,
  history_fork, is_initial, TokenLedgerState, state_beq, LedgerIdentity, PromptTokenRecord,
  AssistantOutputRecord, check_trimmed,
}
use tiny_qwen_coder.TokenLedger.Session.{Ledger, expected_state, ledger_state, new_ledger}

pub record TokenLedgerSnapshot : Type 0 where
  pub schema_version : ℤ
  pub session_id : Text
  pub identity : LedgerIdentity
  pub prompts : List PromptTokenRecord
  pub outputs : List AssistantOutputRecord
  pub state : TokenLedgerState

-- The loop's body for the first prompt and for a later one.
unfoldable pub check_first_prompt : PromptTokenRecord → Result TokenLedgerError (Unit {0})
unfolding is_initial
check_first_prompt p =
    raise_if (not (p.turn_index == pos 0)) bad_prompt_index
    >> raise_if (not (is_initial p.source) || not (p.prompt_ids == p.appended_ids))
        bad_initial_prompt

unfoldable pub check_next_prompt :
    ℕ
    → PromptTokenRecord
    → AssistantOutputRecord
    → PromptTokenRecord
    → Result TokenLedgerError (Unit {0})
unfolding is_initial
check_next_prompt index previous output p =
    raise_if (not (p.turn_index == pos index)) bad_prompt_index
    >> (raise_if (is_initial p.source) later_initial_source
        >> raise_if
            (not (p.prompt_ids == (previous.prompt_ids ++ output.output_ids) ++ p.appended_ids))
            history_fork)

-- The prompts after `previous`, the first of them at `index`, with the outputs from that of
-- `previous` on. A missing output is Python's IndexError.
unfoldable pub check_prompts :
    ℕ
    → PromptTokenRecord
    → List PromptTokenRecord
    → List AssistantOutputRecord
    → Result TokenLedgerError (Unit {0})
unfolding check_next_prompt
check_prompts index previous [] outputs = ok tt
check_prompts index previous (p ∷ prompts) [] = err index_error
check_prompts index previous (p ∷ prompts) (o ∷ outputs) =
    check_next_prompt index previous o p >> check_prompts (suc index) p prompts outputs

unfoldable pub check_outputs : ℕ → List AssistantOutputRecord → Result TokenLedgerError (Unit {0})
check_outputs index [] = ok tt
check_outputs index (o ∷ outputs) =
    raise_if (not (o.turn_index == pos index)) bad_output_index >> check_outputs (suc index) outputs

unfoldable pub check_chain :
    List PromptTokenRecord
    → List AssistantOutputRecord
    → TokenLedgerState
    → Result TokenLedgerError (Unit {0})
unfolding check_first_prompt check_prompts check_outputs state_beq
check_chain [] outputs state = err bad_counts
check_chain (p ∷ prompts) outputs state =
    raise_if (not (length outputs == length prompts || length outputs == suc (length prompts)))
      bad_counts
    >> (check_first_prompt p
        >> (check_prompts 1 p prompts outputs
            >> (check_outputs 0 outputs
                >> raise_if (not (state_beq state (expected_state (p ∷ prompts) outputs)))
                    inconsistent_state)))

unfoldable pub check_snapshot : TokenLedgerSnapshot → Result TokenLedgerError (Unit {0})
unfolding check_trimmed check_chain
check_snapshot s =
    raise_if (not (s.schema_version == pos 1)) bad_schema_version
    >> (check_trimmed s.session_id >> check_chain s.prompts s.outputs s.state)

unfoldable pub snapshot : Ledger → Result TokenLedgerError TokenLedgerSnapshot
unfolding check_snapshot ledger_state
snapshot l =
    let s : TokenLedgerSnapshot = record {
      schema_version = pos 1;
      session_id = l.session_id;
      identity = l.identity;
      prompts = l.prompts;
      outputs = l.outputs;
      state = ledger_state l;
    } in
    check_snapshot s >> ok s

-- `from_snapshot` builds a ledger from the first prompt, then replaces its lists.
unfoldable pub restore :
    List PromptTokenRecord → TokenLedgerSnapshot → Result TokenLedgerError Ledger
unfolding new_ledger ledger_state state_beq
restore [] s = err index_error
restore (p ∷ rest) s = new_ledger s.session_id s.identity p.prompt_ids >>= λ fresh.
    let restored : Ledger = record fresh { prompts = s.prompts; outputs = s.outputs } in
    raise_if (not (state_beq (ledger_state restored) s.state)) state_drifted >> ok restored

unfoldable pub from_snapshot : TokenLedgerSnapshot → Result TokenLedgerError Ledger
unfolding restore
from_snapshot s = restore s.prompts s
