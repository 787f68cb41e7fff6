-- ===== src/Tests/Texts.antt =====
-- Text normalisation at small texts.
use tiny_qwen_coder.Prelude.{◌≡◌, ◌↔◌, refl, [], ◌∷◌, some, none, false, arith}
use tiny_qwen_coder.TextNormalization.{
  bom, cr, lf, utf8_encodable, remove_prefix, replace_crlf, replace_cr, normalize_training_text,
}
use tiny_qwen_coder.TextNormalization.Idempotence.{
  starts_with_bom, normalize_training_text_idempotent_iff,
}
use tiny_qwen_coder.TextNormalization.LineEndings.{
  Lines, line_feed, carriage_return, both, render, render_lf, normalize_training_text-render,
}
use tiny_qwen_coder.Data.Deduplication.Payload.{codes}

normalized_mixed :
    normalize_training_text (bom ∷ b'a' ∷ cr ∷ cr ∷ lf ∷ b'b' ∷ lf ∷ [])
    ≡ some (b'a' ∷ lf ∷ lf ∷ b'b' ∷ lf ∷ [])
unfolding normalize_training_text utf8_encodable remove_prefix replace_crlf replace_cr
normalized_mixed = refl

normalized_surrogate : normalize_training_text (0xd800 ∷ []) ≡ none
unfolding normalize_training_text utf8_encodable
normalized_surrogate = refl

abbrev document : Lines
document = (codes "a", both) ∷ (codes "b", carriage_return) ∷ (codes "c", line_feed) ∷ []

normalize_training_text-render_example :
    (normalize_training_text (render document (codes "d")) ≡ some (render_lf document (codes "d")))
    × (normalize_training_text (bom ∷ render document (codes "d"))
        ≡ some (render_lf document (codes "d")))
unfolding render utf8_encodable
normalize_training_text-render_example =
    normalize_training_text-render document (codes "d") (omega arith) (omega arith) (omega arith)
      refl refl

normalize_training_text_idempotent_iff_example :
    (normalize_training_text (bom ∷ codes "x") ≡ some (remove_prefix (bom ∷ codes "x")))
    × ((normalize_training_text (bom ∷ codes "x") ≡ some (bom ∷ codes "x"))
        ↔ (starts_with_bom (bom ∷ codes "x") ≡ false))
unfolding normalize_training_text utf8_encodable remove_prefix replace_crlf replace_cr
normalize_training_text_idempotent_iff_example =
    normalize_training_text_idempotent_iff (bom ∷ bom ∷ codes "x") (bom ∷ codes "x") refl
