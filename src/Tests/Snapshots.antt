-- ===== src/Tests/Snapshots.antt =====
-- The persisted form of the ledger of Ledgers. The stand-in for `json.loads` knows one text.
use tiny_qwen_coder.Prelude.{◌≡◌, refl, [], ◌∷◌, Option, some}
use tiny_qwen_coder.Prelude.Eq.{list_beq}
use tiny_qwen_coder.Prelude.Int.{pos}
use tiny_qwen_coder.Prelude.Result.{ok, err}
use tiny_qwen_coder.TextNormalization.{Text}
use tiny_qwen_coder.Data.Deduplication.Payload.{codes}
use tiny_qwen_coder.Identities.{check_base_model}
use tiny_qwen_coder.Json.{Json, members, object, integer}
use tiny_qwen_coder.TokenLedger.{
  awaiting_output, bad_keys, check_identity, check_prompt, check_output, check_segment,
}
use tiny_qwen_coder.TokenLedger.Chain.{TokenLedgerSnapshot, check_snapshot}
use tiny_qwen_coder.TokenLedger.Persisted.{
  snapshot_payload, snapshot_of_json, token_ledger_snapshot_json, token_ledger_snapshot_from_json,
}
use tiny_qwen_coder.TokenLedger.RoundTrip.{
  IsConstructed, token_ledger_snapshot_from_json-token_ledger_snapshot_json,
}
use tiny_qwen_coder.Tests.Ledgers.{observed}

abbrev pub observed_snapshot : TokenLedgerSnapshot
observed_snapshot = record {
  schema_version = pos 1;
  session_id = observed.session_id;
  identity = observed.identity;
  prompts = observed.prompts;
  outputs = observed.outputs;
  state = awaiting_output;
}

observed_snapshot-IsConstructed : IsConstructed observed_snapshot
unfolding check_base_model check_identity check_prompt check_output check_segment check_snapshot
    list_beq
observed_snapshot-IsConstructed = record {
  base_model = refl;
  identity = refl;
  prompts = (refl, (refl, tt));
  outputs = (refl, tt);
  segments = ((refl, tt), tt);
  whole = refl;
}

abbrev dumps : Json → Text
dumps j = codes "{}"

abbrev loads : Text → Option Json
loads t = some (snapshot_payload observed_snapshot)

missing_keys :
    snapshot_of_json (object (members ((codes "schema_version", integer (pos 1)) ∷ [])))
    ≡ err bad_keys
unfolding snapshot_of_json list_beq
missing_keys = refl

token_ledger_snapshot_from_json-token_ledger_snapshot_json_example :
    token_ledger_snapshot_from_json dumps loads
      (token_ledger_snapshot_json dumps loads observed_snapshot)
    ≡ ok observed_snapshot
token_ledger_snapshot_from_json-token_ledger_snapshot_json_example =
    token_ledger_snapshot_from_json-token_ledger_snapshot_json dumps loads observed_snapshot refl
      observed_snapshot-IsConstructed
