-- ===== src/LossMasking.antt =====
-- src/tiny_qwen_coder/training/loss_masking.py: the loss mask of a chat example. `tokenize ms g` is
-- what the tokenizer's chat template gives for the messages `ms` under the template that is used
-- throughout, `g` telling whether a generation prompt is added. `check_x` is the `__post_init__` of
-- the class `X`.
pub mod Spans
pub mod Report
pub mod Built
pub mod Completion
use tiny_qwen_coder.Prelude.{
  ℕ, suc, ◌+◌, ◌-◌, ◌≡◌, Bool, true, false, not, ◌&&◌, ◌||◌, List, [], ◌∷◌, ◌++◌, map, null, length,
  take, init, last?, any, replicate, Option, none, some, ltb, leb, if◌then◌else◌,
}
use tiny_qwen_coder.Prelude.Eq.{◌==◌, list_eq, nat_eq, option_eq}
use tiny_qwen_coder.Prelude.Int.{ℤ, pos, negsuc, is_negative, int_eq, int_ltb}
use tiny_qwen_coder.Prelude.Result.{Result, ok, err, ◌>>◌, ◌>>=◌, raise_if}
use tiny_qwen_coder.TextNormalization.{Text}
use tiny_qwen_coder.Data.Records.{MessageRole, assistant, role_beq, role_eq, is_blank}

pub data LossMaskStrategy : Type 0 where
  trl_assistant_only completion_only : LossMaskStrategy

pub data LossMaskingError : Type 0 where
  empty_content bad_span negative_index negative_token_id : LossMaskingError
  no_token different_lengths nothing_selected no_messages : LossMaskingError
  mask_length bad_mask_value no_template bad_schema_version bad_report_counts : LossMaskingError
  no_final_assistant no_assistant_tokens unstable_boundary : LossMaskingError

pub record ChatMessage : Type 0 where
  pub role : MessageRole
  pub content : Text

unfoldable pub check_chat_message : ChatMessage → Result LossMaskingError (Unit {0})
unfolding is_blank
check_chat_message m = raise_if (is_blank m.content) empty_content

pub record LossMaskSpan : Type 0 where
  pub start : ℕ
  pub end : ℕ

-- A span that `_loss_spans` makes starts and ends at an index, which is not negative.
unfoldable pub check_span : LossMaskSpan → Result LossMaskingError (Unit {0})
check_span s = raise_if (leb s.end s.start) bad_span

pub record LossMaskToken : Type 0 where
  pub index : ℕ
  pub token_id : ℤ
  pub token_text : Text
  pub receives_loss : Bool

unfoldable pub check_token : LossMaskToken → Result LossMaskingError (Unit {0})
check_token t = raise_if (is_negative t.token_id) negative_token_id

pub record TokenizedLossExample : Type 0 where
  pub input_ids : List ℤ
  pub loss_mask : List Bool
  pub strategy : LossMaskStrategy

unfoldable pub check_example : TokenizedLossExample → Result LossMaskingError (Unit {0})
check_example e =
    raise_if (null e.input_ids) no_token
    >> (raise_if (not (length e.input_ids == length e.loss_mask)) different_lengths
        >> raise_if (not (any (λ b. b) e.loss_mask)) nothing_selected)

-- `labels`, where the two lists have one length.
unfoldable pub labels_of : ℤ → List ℤ → List Bool → List ℤ
labels_of ignore_index (t ∷ ids) (b ∷ mask) =
    (if b then t else ignore_index) ∷ labels_of ignore_index ids mask
labels_of ignore_index [] mask = []
labels_of ignore_index (t ∷ ids) [] = []

unfoldable pub labels : TokenizedLossExample → List ℤ
unfolding labels_of
labels e = labels_of (negsuc 99) e.input_ids e.loss_mask

-- The loop of `_loss_spans`, with its index and the start of the open span; the mask is followed by
-- one more False.
unfoldable pub spans_from : ℕ → Option ℕ → List Bool → Result LossMaskingError (List LossMaskSpan)
unfolding check_span
spans_from index none [] = ok []
spans_from index none (true ∷ mask) = spans_from (suc index) (some index) mask
spans_from index none (false ∷ mask) = spans_from (suc index) none mask
spans_from index (some start) (true ∷ mask) = spans_from (suc index) (some start) mask
spans_from index (some start) (false ∷ mask) =
    let span : LossMaskSpan = record { start = start; end = index } in
    check_span span >> (spans_from (suc index) none mask >>= λ spans. ok (span ∷ spans))
spans_from index (some start) [] = ok []

unfoldable pub loss_spans : List Bool → Result LossMaskingError (List LossMaskSpan)
unfolding spans_from
loss_spans mask = spans_from 0 none (mask ++ (false ∷ []))

module _ (tokenize : List ChatMessage → Bool → Result LossMaskingError (List ℤ)) where
  abbrev pub ends_with_assistant : Option ChatMessage → Bool
  unfolding role_beq
  ends_with_assistant none = false
  ends_with_assistant (some m) = m.role == assistant

  -- `_tokenize_chat`, which refuses an empty conversation.
  unfoldable pub tokenize_chat : List ChatMessage → Bool → Result LossMaskingError (List ℤ)
  tokenize_chat messages add_generation_prompt =
      raise_if (null messages) no_messages >> tokenize messages add_generation_prompt

  abbrev pub completion_example : List ℤ → List ℤ → TokenizedLossExample
  completion_example prompt_ids completed_ids = record {
    input_ids = completed_ids;
    loss_mask =
        replicate (length prompt_ids) false
        ++ replicate (length completed_ids - length prompt_ids) true;
    strategy = completion_only;
  }

  unfoldable pub completion_only_fallback :
      List ChatMessage → Result LossMaskingError TokenizedLossExample
  unfolding role_beq tokenize_chat check_example
  completion_only_fallback messages =
      raise_if (ltb (length messages) 2 || not (ends_with_assistant (last? messages)))
        no_final_assistant
      >> (tokenize_chat (init messages) true >>= λ prompt_ids.
          tokenize_chat messages false >>= λ completed_ids.
          raise_if (leb (length completed_ids) (length prompt_ids)) no_assistant_tokens
          >> (raise_if (not (take (length prompt_ids) completed_ids == prompt_ids))
                unstable_boundary
              >> (check_example (completion_example prompt_ids completed_ids)
                  >> ok (completion_example prompt_ids completed_ids))))
