-- ===== src/TrajectoryAlignment/Derived.antt =====
-- `_derive_alignment`: the training arrays of a ledger. `dumps` and `sha256` stand for `json.dumps`
-- and for the hexadecimal SHA-256 of an ASCII text.
use tiny_qwen_coder.Prelude.{
  ℕ, suc, ◌+◌, ◌-◌, min, Bool, true, false, not, ◌||◌, List, [], ◌∷◌, ◌++◌, null, length, take,
  drop, replicate, last?, ltb, Option, some, if◌then◌else◌,
}
use tiny_qwen_coder.Prelude.Eq.{◌==◌, nat_eq, list_eq}
use tiny_qwen_coder.Prelude.Int.{ℤ, pos, negsuc, int_eq, ◌+ℤ◌}
use tiny_qwen_coder.Prelude.Result.{Result, ok, err, ◌>>=◌, ◌>>◌, raise_if}
use tiny_qwen_coder.TextNormalization.{Text}
use tiny_qwen_coder.Json.{Json}
use tiny_qwen_coder.TokenLedger.{
  TokenLedgerError, awaiting_prompt_append, state_beq, AssistantTokenSegment, PromptTokenRecord,
  AssistantOutputRecord, check_tokens,
}
use tiny_qwen_coder.TokenLedger.Chain.{TokenLedgerSnapshot}
use tiny_qwen_coder.TokenLedger.Persisted.{token_values}
use tiny_qwen_coder.TrajectoryAlignment.{
  TrajectoryAlignmentError, missing_output, incomplete_ledger, index_error, zip_lengths,
  mask_recovery, bad_tokens, zero_action, ActionTurnBoundary, check_turn, AlignedActionSegment,
  check_aligned_segment,
}

-- The arrays that the function returns, and those that its loop extends.
pub record TrainingArrays : Type 0 where
  pub input_ids : List ℤ
  pub action_token_ids : List ℤ
  pub action_mask : List Bool
  pub turns : List ActionTurnBoundary
  pub segments : List AlignedActionSegment

pub record Derivation : Type 0 where
  pub action_ids : List ℤ
  pub mask : List Bool
  pub turns : List ActionTurnBoundary
  pub segments : List AlignedActionSegment
  pub action_cursor : ℕ

-- A bound of a slice: a negative one counts from the end.
abbrev slice_bound : ℕ → ℤ → ℕ
slice_bound count (pos n) = min n count
slice_bound count (negsuc n) = count - suc n

-- `xs[start:end]`.
abbrev pub slice {ℓ} : {A : Type ℓ} → List A → ℤ → ℤ → List A
slice xs start end =
    let from = slice_bound (length xs) start in
    take (slice_bound (length xs) end - from) (drop from xs)

-- The tokens that the mask selects; `strict=True` refuses lists of two lengths.
unfoldable pub selected : List ℤ → List Bool → Result TrajectoryAlignmentError (List ℤ)
selected [] [] = ok []
selected (t ∷ ts) (b ∷ bs) = selected ts bs >>= λ rest. ok (if b then t ∷ rest else rest)
selected _ _ = err zip_lengths

-- `mask[start:start + n] = [True] * n`.
abbrev pub mark : ℕ → ℕ → List Bool → List Bool
mark start n mask = take start mask ++ (replicate n true ++ drop (start + n) mask)

-- `token_ids_sha256` of pvrl/token_ledger.py, whose errors are not caught.
abbrev checked_digest :
    Result TokenLedgerError (Unit {0}) → Text → Result TrajectoryAlignmentError Text
checked_digest (ok done) digest = ok digest
checked_digest (err error) digest = err bad_tokens

abbrev pub no_turns : ℕ → Derivation
no_turns count = record {
  action_ids = [];
  mask = replicate count false;
  turns = [];
  segments = [];
  action_cursor = 0;
}

-- `ledger.prompts[-1].prompt_ids + ledger.outputs[-1].output_ids`, after the test of the lengths.
unfoldable pub full_input :
    Option PromptTokenRecord
    → Option AssistantOutputRecord
    → Result TrajectoryAlignmentError (List ℤ)
full_input (some p) (some o) = ok (p.prompt_ids ++ o.output_ids)
full_input _ _ = err index_error

unfoldable pub finish : List ℤ → Derivation → Result TrajectoryAlignmentError TrainingArrays
unfolding selected
finish input_ids d = do
  raise_if (null d.action_ids) zero_action
  masked ← selected input_ids d.mask
  raise_if (not (masked == d.action_ids)) mask_recovery
  ok (record {
    input_ids = input_ids;
    action_token_ids = d.action_ids;
    action_mask = d.mask;
    turns = d.turns;
    segments = d.segments;
  })

module _ (dumps : Json → Text) (sha256 : Text → Text) where
  unfoldable pub token_ids_sha256 : List ℤ → Result TrajectoryAlignmentError Text
  unfolding check_tokens
  token_ids_sha256 ids = checked_digest (check_tokens ids) (sha256 (dumps (token_values ids)))

  unfoldable pub aligned_segment :
      ℕ
      → ℕ
      → ℕ
      → ℕ
      → List ℤ
      → AssistantTokenSegment
      → Result TrajectoryAlignmentError AlignedActionSegment
  unfolding token_ids_sha256 check_aligned_segment
  aligned_segment turn_index segment_index input_start action_start output_ids s = do
    digest ← token_ids_sha256 (slice output_ids s.start s.end)
    let aligned : AlignedActionSegment = record {
      turn_index = pos turn_index;
      segment_index = pos segment_index;
      kind = s.kind;
      input_start = pos input_start +ℤ s.start;
      input_end = pos input_start +ℤ s.end;
      action_start = pos action_start +ℤ s.start;
      action_end = pos action_start +ℤ s.end;
      token_ids_sha256 = digest;
    }
    check_aligned_segment aligned
    ok aligned

  -- The inner loop, from the segment at an index on.
  unfoldable pub aligned_segments :
      ℕ
      → ℕ
      → ℕ
      → ℕ
      → List ℤ
      → List AssistantTokenSegment
      → Result TrajectoryAlignmentError (List AlignedActionSegment)
  unfolding aligned_segment
  aligned_segments turn_index index input_start action_start output_ids [] = ok []
  aligned_segments turn_index index input_start action_start output_ids (s ∷ segments) =
      aligned_segment turn_index index input_start action_start output_ids s >>= λ aligned.
      aligned_segments turn_index (suc index) input_start action_start output_ids segments
      >>= λ rest. ok (aligned ∷ rest)

  unfoldable pub turn_boundary :
      ℕ
      → ℕ
      → PromptTokenRecord
      → AssistantOutputRecord
      → Result TrajectoryAlignmentError ActionTurnBoundary
  unfolding token_ids_sha256 check_turn
  turn_boundary turn_index action_cursor prompt output = do
    prompt_digest ← token_ids_sha256 prompt.prompt_ids
    output_digest ← token_ids_sha256 output.output_ids
    let turn : ActionTurnBoundary = record {
      turn_index = pos turn_index;
      input_start = pos (length prompt.prompt_ids);
      input_end = pos (length prompt.prompt_ids + length output.output_ids);
      action_start = pos action_cursor;
      action_end = pos (action_cursor + length output.output_ids);
      prompt_ids_sha256 = prompt_digest;
      output_ids_sha256 = output_digest;
    }
    check_turn turn
    ok turn

  -- The loop's body.
  unfoldable pub derive_turn :
      List ℤ
      → ℕ
      → PromptTokenRecord
      → AssistantOutputRecord
      → Derivation
      → Result TrajectoryAlignmentError Derivation
  unfolding turn_boundary aligned_segments
  derive_turn input_ids turn_index prompt output d = do
    let start : ℕ = length prompt.prompt_ids
    let count : ℕ = length output.output_ids
    raise_if
        (ltb (length input_ids) (start + count)
          || not (take count (drop start input_ids) == output.output_ids))
        missing_output
    turn ← turn_boundary turn_index d.action_cursor prompt output
    segments ← aligned_segments turn_index 0 start d.action_cursor output.output_ids output.segments
    ok (record {
      action_ids = d.action_ids ++ output.output_ids;
      mask = mark start count d.mask;
      turns = d.turns ++ (turn ∷ []);
      segments = d.segments ++ segments;
      action_cursor = d.action_cursor + count;
    })

  unfoldable pub derive_turns :
      List ℤ
      → ℕ
      → List PromptTokenRecord
      → List AssistantOutputRecord
      → Derivation
      → Result TrajectoryAlignmentError Derivation
  unfolding derive_turn
  derive_turns input_ids turn_index [] [] d = ok d
  derive_turns input_ids turn_index (p ∷ prompts) (o ∷ outputs) d =
      derive_turn input_ids turn_index p o d >>= λ next.
      derive_turns input_ids (suc turn_index) prompts outputs next
  derive_turns input_ids turn_index _ _ d = err zip_lengths

  unfoldable pub derive_alignment :
      TokenLedgerSnapshot → Result TrajectoryAlignmentError TrainingArrays
  unfolding state_beq full_input derive_turns finish
  derive_alignment ledger = do
    raise_if (not (state_beq ledger.state awaiting_prompt_append) || null ledger.outputs)
        zero_action
    raise_if (not (length ledger.prompts == length ledger.outputs)) incomplete_ledger
    input_ids ← full_input (last? ledger.prompts) (last? ledger.outputs)
    derived ← derive_turns input_ids 0 ledger.prompts ledger.outputs (no_turns (length input_ids))
    finish input_ids derived
