-- ===== src/TextNormalization/Idempotence.antt =====
-- What a normalised text looks like, and when normalising it again changes nothing.
use tiny_qwen_coder.Prelude.{
  length, ◌∙◌, ◌≡◌, ◌≢◌, refl, Bool, true, false, [], ◌∷◌, some, All, arith, ◌↔◌, Bool-cases, inl,
  inr, ap,
}
use tiny_qwen_coder.Prelude.Eq.{◌==◌, nat_eq}
use tiny_qwen_coder.TextNormalization.{
  Text, bom, cr, utf8_encodable, remove_prefix, replace_crlf, replace_cr, normalize_training_text,
}

abbrev pub HasNoCr : Text → Type 0
HasNoCr = All (λ c. c ≢ cr)

abbrev pub starts_with_bom : Text → Bool
starts_with_bom [] = false
starts_with_bom (c ∷ t) = c == bom

replace_cr-HasNoCr : (t : Text) → HasNoCr (replace_cr t)
unfolding replace_cr
replace_cr-HasNoCr [] = tt
replace_cr-HasNoCr (c ∷ t) = (ground arith, replace_cr-HasNoCr t)

replace_cr-encodable : (t : Text) → utf8_encodable t ≡ true → utf8_encodable (replace_cr t) ≡ true
unfolding replace_cr utf8_encodable
replace_cr-encodable [] h = refl
replace_cr-encodable (c ∷ t) h = ground (arith, replace_cr-encodable t)

replace_crlf-encodable :
    (t : Text) → utf8_encodable t ≡ true → utf8_encodable (replace_crlf t) ≡ true
unfolding replace_crlf utf8_encodable
replace_crlf-encodable [] h = refl
replace_crlf-encodable (c ∷ []) h = h
replace_crlf-encodable (c ∷ d ∷ t) h =
    ground (arith, replace_crlf-encodable t, replace_crlf-encodable (d ∷ t))

remove_prefix-encodable :
    (t : Text) → utf8_encodable t ≡ true → utf8_encodable (remove_prefix t) ≡ true
unfolding remove_prefix utf8_encodable
remove_prefix-encodable [] h = refl
remove_prefix-encodable (c ∷ t) h = ground arith

remove_prefix-HasNoCr : (t : Text) → HasNoCr t → HasNoCr (remove_prefix t)
unfolding remove_prefix
remove_prefix-HasNoCr [] h = h
remove_prefix-HasNoCr (c ∷ t) h = elim (Bool-cases (c == bom)) [ inl e ↦ rw e h.1 | inr e ↦ rw e h ]

pub replace_crlf_fixed : (t : Text) → HasNoCr t → replace_crlf t ≡ t
unfolding replace_crlf
replace_crlf_fixed [] h = refl
replace_crlf_fixed (c ∷ []) h = refl
replace_crlf_fixed (c ∷ d ∷ t) h = ground (arith, replace_crlf_fixed (d ∷ t) h.1)

pub replace_cr_fixed : (t : Text) → HasNoCr t → replace_cr t ≡ t
unfolding replace_cr
replace_cr_fixed [] h = refl
replace_cr_fixed (c ∷ t) h = ground (arith, replace_cr_fixed t h.1)

-- A successful normalisation returns a text with no carriage return, which encodes again.
pub normalize_training_text-clean :
    (t u : Text) → normalize_training_text t ≡ some u → HasNoCr u × (utf8_encodable u ≡ true)
unfolding normalize_training_text
normalize_training_text-clean t u h = elim (Bool-cases (utf8_encodable t)) [
  | inl e ↦
      let s = replace_crlf (remove_prefix t) in
      let same : replace_cr s ≡ u = ground arith in
      let enc = replace_crlf-encodable (remove_prefix t) (remove_prefix-encodable t e) in
      (rw same at (replace_cr-HasNoCr s), rw same at (replace_cr-encodable s enc))
  | inr e ↦ absurd (ground arith)
]

renormalize :
    (u : Text)
    → HasNoCr u
    → utf8_encodable u ≡ true
    → normalize_training_text u ≡ some (remove_prefix u)
unfolding normalize_training_text
renormalize u no_cr enc =
    let rest_clean = remove_prefix-HasNoCr u no_cr in
    rw (enc, replace_crlf_fixed (remove_prefix u) rest_clean)
      (ap some (replace_cr_fixed (remove_prefix u) rest_clean))

pub remove_prefix_fixed_iff : (u : Text) → (remove_prefix u ≡ u) ↔ (starts_with_bom u ≡ false)
unfolding remove_prefix
remove_prefix_fixed_iff [] = (λ _. refl, λ _. refl)
remove_prefix_fixed_iff (c ∷ t) = (λ e. ground (arith, ap (λ l. length l) e), λ e. ground arith)

-- A text that normalisation returned is returned unchanged by a second normalisation exactly when
-- it does not start with another byte-order mark, and loses that one mark otherwise.
pub normalize_training_text_idempotent_iff :
    (t u : Text)
    → normalize_training_text t ≡ some u
    → (normalize_training_text u ≡ some (remove_prefix u))
      × ((normalize_training_text u ≡ some u) ↔ (starts_with_bom u ≡ false))
normalize_training_text_idempotent_iff t u h =
    let (no_cr, enc) = normalize_training_text-clean t u h in
    let again = renormalize u no_cr enc in
    (
      again,
      (
        λ same. (remove_prefix_fixed_iff u).0 (cc (again, same)),
        λ plain. again ∙ ap some ((remove_prefix_fixed_iff u).1 plain),
      ),
    )
