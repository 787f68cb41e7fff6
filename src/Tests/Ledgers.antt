-- ===== src/Tests/Ledgers.antt =====
-- A ledger with one output and one tool observation, by its constructor and its operations.
use tiny_qwen_coder.Prelude.{
  ◌≡◌, refl, false, List, [], ◌∷◌, ◌++◌, replicate, last?, none, map, ◌↔◌, arith,
}
use tiny_qwen_coder.Prelude.Eq.{list_beq}
use tiny_qwen_coder.Prelude.Int.{ℤ, pos}
use tiny_qwen_coder.Prelude.Result.{ok, err}
use tiny_qwen_coder.Data.Deduplication.Payload.{codes}
use tiny_qwen_coder.TokenLedger.{
  LedgerIdentity, AssistantTokenSegment, PromptTokenRecord, text, action, tool, initial,
  check_identity, check_segments, check_segment, history_fork, initial_source, wrong_state,
}
use tiny_qwen_coder.TokenLedger.Session.{
  Ledger, new_ledger, record_assistant_output, append_prompt_delta, adopt_verified_next_prompt,
  first_prompt, next_output, next_prompt, whole_output, history,
}
use tiny_qwen_coder.TokenLedger.Chain.{TokenLedgerSnapshot, snapshot, from_snapshot}
use tiny_qwen_coder.TokenLedger.Preserved.{Reachable, started, recorded, appended}
use tiny_qwen_coder.TokenLedger.Snapshots.{from_snapshot-snapshot}
use tiny_qwen_coder.TokenLedger.Forks.{adopt_verified_next_prompt_iff}
use tiny_qwen_coder.TokenLedger.Transcript.{transcript, current_prompt-transcript}
use tiny_qwen_coder.TokenLedger.Segments.{covering, check_segments-covering}

abbrev pub sample_identity : LedgerIdentity
sample_identity = record {
  base_model = record {
    repository = codes "qwen";
    revision = replicate 40 b'0';
    tokenizer_repository = codes "qwen";
    tokenizer_revision = replicate 40 b'0';
  };
  chat_template_sha256 = replicate 64 b'a';
  leaf_lite_contract_sha256 = replicate 64 b'0';
  enable_thinking = false;
  compaction_enabled = false;
}

sample_identity_accepted : check_identity sample_identity ≡ ok tt
unfolding check_identity
sample_identity_accepted = refl

abbrev fresh : Ledger
fresh = record {
  session_id = codes "s";
  identity = sample_identity;
  prompts = first_prompt (pos 1 ∷ pos 2 ∷ []) ∷ [];
  outputs = [];
}

abbrev pub answered : Ledger
answered = record fresh {
  outputs = next_output fresh (pos 3 ∷ pos 4 ∷ []) (whole_output (pos 3 ∷ pos 4 ∷ []) ∷ []) ∷ [];
}

abbrev observed_prompt : PromptTokenRecord
observed_prompt = next_prompt answered tool (pos 1 ∷ pos 2 ∷ pos 3 ∷ pos 4 ∷ []) (pos 5 ∷ [])

abbrev pub observed : Ledger
observed = record answered { prompts = first_prompt (pos 1 ∷ pos 2 ∷ []) ∷ observed_prompt ∷ [] }

fresh-new : new_ledger (codes "s") sample_identity (pos 1 ∷ pos 2 ∷ []) ≡ ok fresh
unfolding new_ledger list_beq
fresh-new = refl

answered-record :
    record_assistant_output fresh (pos 3 ∷ pos 4 ∷ []) none
    ≡ ok (next_output fresh (pos 3 ∷ pos 4 ∷ []) (whole_output (pos 3 ∷ pos 4 ∷ []) ∷ []), answered)
unfolding record_assistant_output
answered-record = refl

observed-append : append_prompt_delta answered (pos 5 ∷ []) tool ≡ ok (observed_prompt, observed)
unfolding append_prompt_delta
observed-append = refl

-- Operations out of turn, a changed history and a second initial prompt are refused.
record-twice : record_assistant_output answered (pos 7 ∷ []) none ≡ err wrong_state
unfolding record_assistant_output
record-twice = refl

adopt-fork :
    adopt_verified_next_prompt answered (map pos (1 ∷ 2 ∷ 3 ∷ 9 ∷ 5 ∷ [])) tool ≡ err history_fork
unfolding adopt_verified_next_prompt list_beq
adopt-fork = refl

append-initial : append_prompt_delta answered (pos 5 ∷ []) initial ≡ err initial_source
unfolding append_prompt_delta
append-initial = refl

pub answered-Reachable : Reachable answered
answered-Reachable =
    recorded fresh (next_output fresh (pos 3 ∷ pos 4 ∷ []) (whole_output (pos 3 ∷ pos 4 ∷ []) ∷ []))
      (pos 3 ∷ pos 4 ∷ []) none (started (codes "s") sample_identity (pos 1 ∷ pos 2 ∷ []) fresh-new)
      answered-record

abbrev observed-Reachable : Reachable observed
observed-Reachable =
    appended answered observed_prompt (pos 5 ∷ []) tool answered-Reachable observed-append

from_snapshot-snapshot_example :
    (s : TokenLedgerSnapshot) × ((snapshot observed ≡ ok s) × (from_snapshot s ≡ ok observed))
from_snapshot-snapshot_example = from_snapshot-snapshot observed observed-Reachable

current_prompt-transcript_example :
    map pos (1 ∷ 2 ∷ 3 ∷ 4 ∷ 5 ∷ []) ≡ transcript observed.prompts observed.outputs
current_prompt-transcript_example =
    current_prompt-transcript observed observed_prompt observed-Reachable refl

answered-history :
    history (last? answered.prompts) (last? answered.outputs) ≡ ok (map pos (1 ∷ 2 ∷ 3 ∷ 4 ∷ []))
unfolding history
answered-history = refl

adopt_verified_next_prompt_iff_example :
    (adopt_verified_next_prompt answered (map pos (1 ∷ 2 ∷ 3 ∷ 4 ∷ 5 ∷ [])) tool
      ≡ ok (observed_prompt, observed))
    ↔ ((delta : List ℤ) × ((map pos (1 ∷ 2 ∷ 3 ∷ 4 ∷ 5 ∷ [])
            ≡ map pos (1 ∷ 2 ∷ 3 ∷ 4 ∷ []) ++ delta)
          × (append_prompt_delta answered delta tool ≡ ok (observed_prompt, observed))))
adopt_verified_next_prompt_iff_example =
    adopt_verified_next_prompt_iff answered (map pos (1 ∷ 2 ∷ 3 ∷ 4 ∷ 5 ∷ []))
      (map pos (1 ∷ 2 ∷ 3 ∷ 4 ∷ [])) tool (observed_prompt, observed) answered-history

abbrev two_segments : List AssistantTokenSegment
two_segments =
    record { kind = text; start = pos 0; end = pos 2 }
    ∷ record { kind = action; start = pos 2; end = pos 3 }
    ∷ []

two_segments_accepted : check_segments (map pos (7 ∷ 8 ∷ 9 ∷ [])) two_segments ≡ ok tt
unfolding check_segments
two_segments_accepted = refl

segment_accepted :
    (check_segment (record { kind = text; start = pos 0; end = pos 2 }) ≡ ok tt)
    × ((check_segment (record { kind = action; start = pos 2; end = pos 3 }) ≡ ok tt) × Unit {0})
unfolding check_segment
segment_accepted = (refl, (refl, tt))

check_segments-covering_example : covering 2 two_segments ≡ 1
check_segments-covering_example =
    check_segments-covering (map pos (7 ∷ 8 ∷ 9 ∷ [])) two_segments 2 two_segments_accepted
      segment_accepted (omega arith)
