-- ===== src/LossMasking/Report.antt =====
-- `build_chat_loss_mask_report`. The record Tokenizer holds what the tokenizer and TRL give: the
-- template, none when it is absent or empty; the token ids and the assistant mask of a conversation
-- under a template; TRL's training template, none when there is none or the call raises.
use tiny_qwen_coder.Prelude.{
  ℕ, suc, ◌+◌, ◌-◌, Bool, false, not, ◌&&◌, ◌||◌, List, [], ◌∷◌, map, null, length, all, Option,
  none, some, ltb, if◌then◌else◌,
}
use tiny_qwen_coder.Prelude.Eq.{◌==◌, nat_eq}
use tiny_qwen_coder.Prelude.Int.{ℤ, pos, int_eq}
use tiny_qwen_coder.Prelude.Result.{Result, ok, err, ◌>>◌, ◌>>=◌, raise_if}
use tiny_qwen_coder.TextNormalization.{Text}
use tiny_qwen_coder.LossMasking.{
  LossMaskingError, different_lengths, no_template, mask_length, bad_mask_value, no_messages,
  bad_schema_version, bad_report_counts, LossMaskStrategy, trl_assistant_only, ChatMessage,
  LossMaskSpan, LossMaskToken, check_token, TokenizedLossExample, check_example,
  completion_only_fallback,
}

pub record Tokenizer : Type 0 where
  pub chat_template : Option Text
  pub tokenizer_class : Text
  pub trl_version : Text
  pub sha256 : Text → Text
  pub tokenize : Text → List ChatMessage → Bool → List ℤ
  pub encode : Text → List ChatMessage → List ℤ × List ℤ
  pub decode : List ℤ → Text
  pub training_template : Option Text
  pub has_generation_markers : Text → Bool
  pub is_stop_token_trained : Text → Bool

pub record InspectionTarget : Type 0 where
  pub tokenizer_repository : Text
  pub tokenizer_revision : Text

pub record ChatLossMaskReport : Type 0 where
  pub schema_version : ℕ
  pub tokenizer_repository : Text
  pub tokenizer_revision : Text
  pub tokenizer_class : Text
  pub trl_version : Text
  pub checkpoint_chat_template_sha256 : Text
  pub checkpoint_has_generation_markers : Bool
  pub checkpoint_assistant_token_count : ℕ
  pub trl_training_template_sha256 : Option Text
  pub trl_training_template_has_generation_markers : Bool
  pub trl_assistant_token_count : ℕ
  pub trl_stop_token_trained : Bool
  pub strategy : LossMaskStrategy
  pub token_count : ℕ
  pub loss_token_count : ℕ
  pub ignored_token_count : ℕ
  pub loss_spans_of : List LossMaskSpan
  pub loss_text : Text
  pub tokens : List LossMaskToken

-- `sum` of a sequence of Booleans.
abbrev pub count_true : List Bool → ℕ
count_true [] = 0
count_true (b ∷ mask) = (if b then 1 else 0) + count_true mask

unfoldable pub check_mask_report : ChatLossMaskReport → Result LossMaskingError (Unit {0})
check_mask_report r =
    raise_if (not (r.schema_version == 1)) bad_schema_version
    >> (raise_if (not (r.token_count == length r.tokens)) bad_report_counts
        >> (raise_if (not (r.loss_token_count == count_true (map (λ t. t.receives_loss) r.tokens)))
              bad_report_counts
            >> (raise_if (not (r.ignored_token_count == r.token_count - r.loss_token_count))
                  bad_report_counts
                >> raise_if (not (ltb 0 r.loss_token_count)) bad_report_counts)))

unfoldable pub require_template : Tokenizer → Result LossMaskingError Text
require_template t = elim t.chat_template [ none ↦ err no_template | some template ↦ ok template ]

unfoldable pub assistant_mask :
    Tokenizer → List ChatMessage → Text → Result LossMaskingError (List ℤ × List Bool)
assistant_mask t messages template =
    let (ids, mask) = t.encode template messages in
    raise_if (null messages) no_messages
    >> (raise_if (not (length ids == length mask)) mask_length
        >> (raise_if (not (all (λ v. v == pos 0 || v == pos 1) mask)) bad_mask_value
            >> ok (ids, map (λ v. not (v == pos 0)) mask)))

-- What TRL's own mask gives: the count, whether the stop token is trained, and the example.
pub record TrlMask : Type 0 where
  pub assistant_count : ℕ
  pub stop_token_trained : Bool
  pub tokenized : Option TokenizedLossExample

unfoldable pub trl_example :
    List ℤ → List Bool → Bool → Result LossMaskingError (Option TokenizedLossExample)
unfolding check_example
trl_example ids mask usable =
    let e : TokenizedLossExample = record {
      input_ids = ids;
      loss_mask = mask;
      strategy = trl_assistant_only;
    } in
    if usable then check_example e >> ok (some e) else ok none

unfoldable pub trl_mask : Tokenizer → List ChatMessage → Text → Result LossMaskingError TrlMask
unfolding assistant_mask trl_example
trl_mask t messages template =
    let trained = t.is_stop_token_trained template in
    if t.has_generation_markers template
    then (assistant_mask t messages template >>= λ encoded.
        trl_example encoded.0 encoded.1 (ltb 0 (count_true encoded.1) && trained) >>= λ tokenized.
        ok (record {
          assistant_count = count_true encoded.1;
          stop_token_trained = trained;
          tokenized = tokenized;
        }))
    else ok (record { assistant_count = 0; stop_token_trained = false; tokenized = none })

unfoldable pub chosen_example :
    Tokenizer
    → List ChatMessage
    → Text
    → Option TokenizedLossExample
    → Result LossMaskingError TokenizedLossExample
unfolding completion_only_fallback
chosen_example t messages template (some e) = ok e
chosen_example t messages template none =
    completion_only_fallback (λ ms add. ok (t.tokenize template ms add)) messages

abbrev pub loss_token : Tokenizer → ℕ → ℤ → Bool → LossMaskToken
loss_token t index i b = record {
  index = index;
  token_id = i;
  token_text = t.decode (i ∷ []);
  receives_loss = b;
}

-- The tokens, each with its own text, and the ids that receive loss, by a strict `zip`.
unfoldable pub tokens_from :
    Tokenizer → ℕ → List ℤ → List Bool → Result LossMaskingError (List LossMaskToken)
unfolding check_token
tokens_from t index (i ∷ ids) (b ∷ mask) =
    check_token (loss_token t index i b)
    >> (tokens_from t (suc index) ids mask >>= λ tokens. ok (loss_token t index i b ∷ tokens))
tokens_from t index [] mask = ok []
tokens_from t index (i ∷ ids) [] = err different_lengths

unfoldable pub selected_ids : List ℤ → List Bool → Result LossMaskingError (List ℤ)
selected_ids [] [] = ok []
selected_ids (i ∷ ids) (b ∷ mask) =
    selected_ids ids mask >>= λ rest. ok (if b then i ∷ rest else rest)
selected_ids [] (b ∷ mask) = err different_lengths
selected_ids (i ∷ ids) [] = err different_lengths
