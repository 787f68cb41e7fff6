-- ===== src/TokenLedger/Snapshots.antt =====
-- A ledger survives being taken as a snapshot and restored.
use tiny_qwen_coder.Prelude.{◌≡◌, true, List, [], ◌∷◌, arith, All}
use tiny_qwen_coder.Prelude.Int.{pos}
use tiny_qwen_coder.Prelude.Result.{ok, ◌>>◌, >>-ok}
use tiny_qwen_coder.TokenLedger.{
  TokenLedgerState, state_beq, PromptTokenRecord, check_prompt, check_tokens, check_index,
  check_trimmed,
}
use tiny_qwen_coder.TokenLedger.Session.{
  Ledger, expected_state, ledger_state, new_ledger, first_prompt,
}
use tiny_qwen_coder.TokenLedger.Chain.{
  TokenLedgerSnapshot, check_chain, check_snapshot, snapshot, restore, from_snapshot,
}
use tiny_qwen_coder.TokenLedger.Preserved.{
  ValidPrompt, IsConsistent, Reachable, Reachable→IsConsistent,
}

abbrev pub snapshot_of : Ledger → TokenLedgerSnapshot
snapshot_of l = record {
  schema_version = pos 1;
  session_id = l.session_id;
  identity = l.identity;
  prompts = l.prompts;
  outputs = l.outputs;
  state = ledger_state l;
}

state_beq_refl : (s : TokenLedgerState) → state_beq s s ≡ true
unfolding state_beq
state_beq_refl s = ground arith

pub snapshot-ok : (l : Ledger) → IsConsistent l → snapshot l ≡ ok (snapshot_of l)
unfolding snapshot check_snapshot
snapshot-ok l h = rw (h.session, h.chain)

-- A valid prompt can be the first of a ledger.
new_ledger-ok :
    (l : Ledger) (p : PromptTokenRecord)
    → check_trimmed l.session_id ≡ ok tt
    → ValidPrompt p
    → new_ledger l.session_id l.identity p.prompt_ids
      ≡ ok (record l { prompts = first_prompt p.prompt_ids ∷ []; outputs = [] })
unfolding new_ledger check_prompt check_index
new_ledger-ok l p h v =
    let a =
      >>-ok (check_index p.turn_index) (check_tokens p.prompt_ids >> check_tokens p.appended_ids) tt
        v in
    let b = >>-ok (check_tokens p.prompt_ids) (check_tokens p.appended_ids) tt a.1 in rw (h, b.0)

restore-ok :
    (l : Ledger) (ps : List PromptTokenRecord)
    → IsConsistent l
    → All ValidPrompt ps
    → check_chain ps l.outputs (expected_state ps l.outputs) ≡ ok tt
    → restore ps (snapshot_of l) ≡ ok l
unfolding restore check_chain
restore-ok l [] h v c = ground arith
restore-ok l (p ∷ ps) h v c = rw (new_ledger-ok l p h.session v.0, state_beq_refl (ledger_state l))

-- A ledger that the constructor and the operations gave can be taken as a snapshot, and restoring
-- the snapshot gives the same ledger.
pub from_snapshot-snapshot :
    (l : Ledger)
    → Reachable l
    → (s : TokenLedgerSnapshot) × ((snapshot l ≡ ok s) × (from_snapshot s ≡ ok l))
unfolding from_snapshot ledger_state
from_snapshot-snapshot l r =
    let h = Reachable→IsConsistent l r in
    (snapshot_of l, (snapshot-ok l h, restore-ok l l.prompts h h.prompts h.chain))
