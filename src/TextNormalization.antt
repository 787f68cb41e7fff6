-- ===== src/TextNormalization.antt =====
-- src/tiny_qwen_coder/text_normalization.py: a text is the list of its code points, surrogates
-- included, since a Python string may hold them.
pub mod LineEndings
pub mod Idempotence
use tiny_qwen_coder.Prelude.{
  ℕ, Bool, true, false, not, ◌&&◌, List, [], ◌∷◌, Option, none, some, all, leb, if◌then◌else◌,
}
use tiny_qwen_coder.Prelude.Eq.{◌==◌, nat_eq}

abbrev pub Text : Type 0
Text = List ℕ

abbrev pub bom : ℕ
bom = 0xfeff

abbrev pub cr : ℕ
cr = 13

abbrev pub lf : ℕ
lf = 10

-- `text.encode("utf-8", errors="strict")` raises on exactly the surrogate code points.
abbrev pub is_surrogate : ℕ → Bool
is_surrogate c = leb 0xd800 c && leb c 0xdfff

unfoldable pub utf8_encodable : Text → Bool
utf8_encodable t = all (λ c. not (is_surrogate c)) t

unfoldable pub remove_prefix : Text → Text
remove_prefix [] = []
remove_prefix (c ∷ rest) = if c == bom then rest else c ∷ rest

-- `.replace("\r\n", "\n")`, from the left and without overlap.
unfoldable pub replace_crlf : Text → Text
replace_crlf [] = []
replace_crlf (c ∷ []) = c ∷ []
replace_crlf (c ∷ d ∷ rest) = elim (c == cr && d == lf) [
  | true ↦ lf ∷ replace_crlf rest
  | false ↦ c ∷ replace_crlf (d ∷ rest)
]

-- `.replace("\r", "\n")`
unfoldable pub replace_cr : Text → Text
replace_cr [] = []
replace_cr (c ∷ rest) = (if c == cr then lf else c) ∷ replace_cr rest

-- `none` is the UnicodeEncodeError.
unfoldable pub normalize_training_text : Text → Option Text
normalize_training_text t =
    if utf8_encodable t then some (replace_cr (replace_crlf (remove_prefix t))) else none
