-- ===== src/ToolContract/Bounded.antt =====
-- A created result fits into the contract's bytes and survives its JSON form.
use tiny_qwen_coder.Prelude.{
  ℕ, ◌+◌, ◌-◌, ◌≡◌, ◌≤◌, ◌<◌, refl, ap, sym, subst, ◌∙◌, Bool, true, false, not, ◌&&◌, [], ◌∷◌,
  ◌++◌, length, ltb, leb, arith, append_assoc, length-append, Bool-cases, inl, inr,
  drop-length-append,
}
use tiny_qwen_coder.Prelude.Eq.{nat_eq, list_eq, ==_refl}
use tiny_qwen_coder.Prelude.Int.{int_eq}
use tiny_qwen_coder.Prelude.Result.{ok, raise_if, >>-ok, >>=-ok, raise_if-ok, ok-value}
use tiny_qwen_coder.TextNormalization.{Text, utf8_encodable}
use tiny_qwen_coder.Utf8.{encode_one, encode}
use tiny_qwen_coder.Utf8.Prefix.{fitting, encode-fitting-le, decode_ignore-take-encode}
use tiny_qwen_coder.ToolContract.{
  tool_eq, LeafLiteToolContract, byte_length, check_contract, bad_schema_version,
  untrimmed_contract_id, bad_tool_names, bad_limit, default_beyond_maximum, marker_too_long,
}
use tiny_qwen_coder.ToolContract.Results.{truncate, ends_with}

encode-append : (s t : Text) → encode (s ++ t) ≡ encode s ++ encode t
unfolding encode
encode-append [] t = refl
encode-append (c ∷ s) t =
    ap (λ r. encode_one c ++ r) (encode-append s t)
    ∙ sym (append_assoc (encode_one c) (encode s) (encode t))

utf8-append :
    (s t : Text)
    → utf8_encodable s ≡ true
    → utf8_encodable t ≡ true
    → utf8_encodable (s ++ t) ≡ true
unfolding utf8_encodable
utf8-append [] t h k = k
utf8-append (c ∷ s) t h k = ground (arith, utf8-append s t)

utf8-fitting : (n : ℕ) (t : Text) → utf8_encodable t ≡ true → utf8_encodable (fitting n t) ≡ true
unfolding utf8_encodable fitting
utf8-fitting n [] h = refl
utf8-fitting n (c ∷ t) h = ground (arith, utf8-fitting (n - length (encode_one c)) t)

leb-lt : (a b : ℕ) → leb a b ≡ false → b < a
leb-lt a b h = ground arith

ltb-le : (a b : ℕ) → ltb a b ≡ false → b ≤ a
ltb-le a b h = ground arith

le→leb : (a b : ℕ) → a ≤ b → leb a b ≡ true
le→leb a b h = ground arith

add-sub : (a b : ℕ) → a + b - b ≡ a
add-sub a b = omega arith

ends_with-append : (s marker : Text) → ends_with (s ++ marker) marker ≡ true
unfolding ends_with
ends_with-append s marker = rw (
  length-append s marker,
  le→leb (length marker) (length s + length marker) (omega arith),
  add-sub (length s) (length marker),
  drop-length-append s marker,
  ==_refl marker,
)

-- The bytes of a text that can be encoded.
pub record Sized (t : Text) (n : ℕ) : Type 0 where
  pub encodable : utf8_encodable t ≡ true
  pub size : n ≡ length (encode t)

pub byte_length-Sized : (t : Text) (n : ℕ) → byte_length t ≡ ok n → Sized t n
unfolding byte_length
byte_length-Sized t n h = elim (Bool-cases (utf8_encodable t)) [
  | inl e ↦ record { encodable = e; size = sym (ok-value _ _ (rw e at h)) }
  | inr e ↦ absurd (ground arith)
]

-- The marker of a contract that has passed its check.
marker-Fits :
    (c : LeafLiteToolContract)
    → check_contract c ≡ ok tt
    → (n : ℕ) × ((byte_length c.truncation_marker ≡ ok n) × (n < c.max_output_bytes))
unfolding check_contract
marker-Fits c h =
    let a = >>-ok (raise_if _ bad_schema_version) _ _ h in
    let b = >>-ok (raise_if _ untrimmed_contract_id) _ _ a.1 in
    let d = >>-ok (raise_if _ bad_tool_names) _ _ b.1 in
    let e = >>-ok (raise_if _ bad_limit) _ _ d.1 in
    let f = >>-ok (raise_if _ default_beyond_maximum) _ _ e.1 in
    let g = >>-ok (raise_if _ marker_too_long) _ _ f.1 in
    let n = >>=-ok (byte_length c.truncation_marker) _ _ g.1 in
    (n.0, (n.1.0, leb-lt _ _ (raise_if-ok _ marker_too_long n.1.1)))

-- All of the output, or the code points that fit whole before the marker, and the marker.
pub record Cut (c : LeafLiteToolContract) (output shown : Text) : Type 0 where
  pub budget : ℕ
  pub full : budget + length (encode c.truncation_marker) ≡ c.max_output_bytes
  pub prefix : shown ≡ fitting budget output ++ c.truncation_marker

pub data Shown (c : LeafLiteToolContract) (output shown : Text) (truncated : Bool) : Type 0 where
  whole : truncated ≡ false → shown ≡ output → Shown c output shown truncated
  cut : truncated ≡ true → Cut c output shown → Shown c output shown truncated

pub record Good (c : LeafLiteToolContract) (output : Text) (shown : Text × Bool) : Type 0 where
  pub keeps : Shown c output shown.0 shown.1
  pub encodable : utf8_encodable shown.0 ≡ true
  pub within : length (encode shown.0) ≤ c.max_output_bytes
  pub marked : (shown.1 && not (ends_with shown.0 c.truncation_marker)) ≡ false

cut-Good :
    (c : LeafLiteToolContract) (output : Text) (n : ℕ)
    → Sized c.truncation_marker n
    → n < c.max_output_bytes
    → utf8_encodable output ≡ true
    → Good c output (fitting (c.max_output_bytes - n) output ++ c.truncation_marker, true)
cut-Good c output n s lt h =
    let budget : ℕ = c.max_output_bytes - n in
    record {
      keeps =
          cut refl (record { budget = budget; full = omega (arith, s.size, lt); prefix = refl });
      encodable =
          utf8-append (fitting budget output) c.truncation_marker (utf8-fitting budget output h)
            s.encodable;
      within =
          rw
            (
              encode-append (fitting budget output) c.truncation_marker,
              length-append (encode (fitting budget output)) (encode c.truncation_marker),
            )
            (omega (arith, encode-fitting-le budget output, s.size, lt));
      marked = ap not (ends_with-append (fitting budget output) c.truncation_marker);
    }

pub truncate-Good :
    (c : LeafLiteToolContract) (output : Text) (size : ℕ) (shown : Text × Bool)
    → check_contract c ≡ ok tt
    → Sized output size
    → truncate c output size ≡ ok shown
    → Good c output shown
unfolding truncate
truncate-Good c output size shown k s h = elim (Bool-cases (ltb c.max_output_bytes size)) [
  | inl e ↦
      let m = marker-Fits c k in
      subst (Good c output)
        (ok-value _ _
          ((rw (e, m.1.0, decode_ignore-take-encode (c.max_output_bytes - m.0) output) at h)))
        (cut-Good c output m.0 (byte_length-Sized _ _ m.1.0) m.1.1 s.encodable)
  | inr e ↦ subst (Good c output) (ok-value _ _ (rw e at h)) (record {
    keeps = whole refl refl;
    encodable = s.encodable;
    within = omega (arith, s.size, ltb-le _ _ e);
    marked = refl;
  })
]
