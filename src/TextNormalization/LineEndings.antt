-- ===== src/TextNormalization/LineEndings.antt =====
-- Line endings: a document as lines with one of the three endings each, and the two replacements of
-- data/text_normalization.py on its text.
use tiny_qwen_coder.Prelude.{
  ◌≡◌, ◌≢◌, refl, Bool, true, false, List, [], ◌∷◌, ◌++◌, some, All, arith, ap, ◌∙◌,
}
use tiny_qwen_coder.Prelude.Eq.{◌==◌, nat_eq}
use tiny_qwen_coder.TextNormalization.Idempotence.{
  HasNoCr, starts_with_bom, replace_crlf_fixed, replace_cr_fixed, remove_prefix_fixed_iff,
}
use tiny_qwen_coder.TextNormalization.{
  Text, bom, cr, lf, utf8_encodable, remove_prefix, replace_crlf, replace_cr,
  normalize_training_text,
}

pub data Ending : Type 0 where
  line_feed carriage_return both : Ending

-- The ended lines of a document, and what follows the last line end.
abbrev pub Lines : Type 0
Lines = List (Text × Ending)

abbrev pub ending_text : Ending → Text
ending_text line_feed = lf ∷ []
ending_text carriage_return = cr ∷ []
ending_text both = cr ∷ lf ∷ []

unfoldable pub render : Lines → Text → Text
render [] rest = rest
render ((line, e) ∷ lines) rest = line ++ (ending_text e ++ render lines rest)

-- The same lines, each ended by a line feed.
unfoldable pub render_lf : Lines → Text → Text
render_lf [] rest = rest
render_lf ((line, e) ∷ lines) rest = line ++ (lf ∷ render_lf lines rest)

abbrev pub IsLine : Text → Type 0
IsLine = All (λ c. (c ≢ cr) × (c ≢ lf))

-- A carriage return that ends a line stands before no line feed: those two would be one ending.
abbrev pub IsSeparate : Ending → Lines → Type 0
IsSeparate carriage_return (([], line_feed) ∷ lines) = ⊥
IsSeparate _ _ = Unit

abbrev pub AllSeparate : Lines → Type 0
AllSeparate [] = Unit
AllSeparate ((l, e) ∷ lines) = IsSeparate e lines × AllSeparate lines

abbrev pub AllLines : Lines → Type 0
AllLines = All (λ p. IsLine p.0)

abbrev starts_with_lf : Text → Bool
starts_with_lf [] = false
starts_with_lf (c ∷ t) = c == lf

crlf-line : (line t : Text) → IsLine line → replace_crlf (line ++ t) ≡ line ++ replace_crlf t
unfolding replace_crlf
crlf-line [] t h = refl
crlf-line (c ∷ []) [] h = refl
crlf-line (c ∷ []) (d ∷ t) h = ground arith
crlf-line (c ∷ d ∷ line) t h = ground (arith, crlf-line (d ∷ line) t h.1)

cr-line : (line t : Text) → IsLine line → replace_cr (line ++ t) ≡ line ++ replace_cr t
unfolding replace_cr
cr-line [] t h = refl
cr-line (c ∷ line) t h = ground (arith, cr-line line t h.1)

crlf-cr : (t : Text) → starts_with_lf t ≡ false → replace_crlf (cr ∷ t) ≡ cr ∷ replace_crlf t
unfolding replace_crlf
crlf-cr [] h = refl
crlf-cr (c ∷ t) h = ground arith

crlf-both : (t : Text) → replace_crlf (cr ∷ lf ∷ t) ≡ lf ∷ replace_crlf t
unfolding replace_crlf
crlf-both t = refl

crlf-lf : (t : Text) → replace_crlf (lf ∷ t) ≡ lf ∷ replace_crlf t
unfolding replace_crlf
crlf-lf [] = refl
crlf-lf (c ∷ t) = refl

starts_with_lf-line :
    (line t : Text) → IsLine line → starts_with_lf t ≡ false → starts_with_lf (line ++ t) ≡ false
starts_with_lf-line [] t h e = e
starts_with_lf-line (c ∷ line) t h e = ground arith

starts_with_lf-render :
    (lines : Lines) (rest : Text)
    → IsSeparate carriage_return lines
    → AllLines lines
    → IsLine rest
    → starts_with_lf (render lines rest) ≡ false
unfolding render
starts_with_lf-render [] [] h ls r = refl
starts_with_lf-render [] (c ∷ rest) h ls r = ground arith
starts_with_lf-render (([], line_feed) ∷ lines) rest h ls r = absurd h
starts_with_lf-render (([], carriage_return) ∷ lines) rest h ls r = refl
starts_with_lf-render (([], both) ∷ lines) rest h ls r = refl
starts_with_lf-render ((c ∷ line, e) ∷ lines) rest h ls r = ground arith

IsLine-HasNoCr : (l : Text) → IsLine l → HasNoCr l
IsLine-HasNoCr [] h = tt
IsLine-HasNoCr (c ∷ l) h = (h.0.0, IsLine-HasNoCr l h.1)

-- The two replacements over one line and its ending, given what follows.
module _ (l t : Text) (line : IsLine l) where
  replace-line : replace_cr (replace_crlf (l ++ t)) ≡ l ++ replace_cr (replace_crlf t)
  replace-line = rw (crlf-line l t line) (cr-line l (replace_crlf t) line)

  replace-lf : replace_cr (replace_crlf (l ++ (lf ∷ t))) ≡ l ++ (lf ∷ replace_cr (replace_crlf t))
  replace-lf =
      rw (crlf-line l (lf ∷ t) line, crlf-lf t)
        (cr-line l (lf ∷ replace_crlf t) line ∙ unfold replace_cr in refl)

  replace-cr :
      starts_with_lf t ≡ false
      → replace_cr (replace_crlf (l ++ (cr ∷ t))) ≡ l ++ (lf ∷ replace_cr (replace_crlf t))
  replace-cr e =
      rw (crlf-line l (cr ∷ t) line, crlf-cr t e)
        (cr-line l (cr ∷ replace_crlf t) line ∙ unfold replace_cr in refl)

  replace-both :
      replace_cr (replace_crlf (l ++ (cr ∷ lf ∷ t))) ≡ l ++ (lf ∷ replace_cr (replace_crlf t))
  replace-both =
      rw (crlf-line l (cr ∷ lf ∷ t) line, crlf-both t)
        (cr-line l (lf ∷ replace_crlf t) line ∙ unfold replace_cr in refl)

replace-render :
    (lines : Lines) (rest : Text)
    → AllLines lines
    → IsLine rest
    → AllSeparate lines
    → replace_cr (replace_crlf (render lines rest)) ≡ render_lf lines rest
unfolding render render_lf
replace-render [] rest ls r n =
    let clean = IsLine-HasNoCr rest r in
    rw (replace_crlf_fixed rest clean) (replace_cr_fixed rest clean)
replace-render ((l, line_feed) ∷ lines) rest ls r n =
    rw (replace-lf l (render lines rest) ls.0, replace-render lines rest ls.1 r n.1)
replace-render ((l, carriage_return) ∷ lines) rest ls r n = rw (
  replace-cr l (render lines rest) ls.0 (starts_with_lf-render lines rest n.0 ls.1 r),
  replace-render lines rest ls.1 r n.1,
)
replace-render ((l, both) ∷ lines) rest ls r n =
    rw (replace-both l (render lines rest) ls.0, replace-render lines rest ls.1 r n.1)

pub normalize_plain :
    (t : Text)
    → utf8_encodable t ≡ true
    → starts_with_bom t ≡ false
    → normalize_training_text t ≡ some (replace_cr (replace_crlf t))
unfolding normalize_training_text
normalize_plain t enc plain = rw (enc, (remove_prefix_fixed_iff t).1 plain)

pub normalize_bom :
    (t : Text)
    → utf8_encodable t ≡ true
    → normalize_training_text (bom ∷ t) ≡ some (replace_cr (replace_crlf t))
unfolding normalize_training_text utf8_encodable remove_prefix
normalize_bom t enc = rw enc

-- Whichever endings the lines of a document have, among line feed, carriage return and both, the
-- normalisation of its text, with or without a byte-order mark before it, is the document with
-- line feeds, provided that the document has no surrogates and does not itself start with a
-- byte-order mark, and that no line that a carriage return ends is followed by an empty line that a
-- line feed ends.
pub normalize_training_text-render :
    (lines : Lines) (rest : Text)
    → AllLines lines
    → IsLine rest
    → AllSeparate lines
    → starts_with_bom (render lines rest) ≡ false
    → utf8_encodable (render lines rest) ≡ true
    → (normalize_training_text (render lines rest) ≡ some (render_lf lines rest))
      × (normalize_training_text (bom ∷ render lines rest) ≡ some (render_lf lines rest))
normalize_training_text-render lines rest ls r n plain enc =
    let same = ap some (replace-render lines rest ls r n) in
    (
      normalize_plain (render lines rest) enc plain ∙ same,
      normalize_bom (render lines rest) enc ∙ same,
    )
