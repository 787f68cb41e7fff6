-- ===== src/Utf8/Prefix.antt =====
-- A cut through encoded text keeps the code points before it.
use tiny_qwen_coder.Prelude.{
  ℕ, zero, suc, ◌+◌, ◌-◌, ◌/◌, ◌%◌, ◌≡◌, ◌≤◌, ◌<◌, refl, ap, leb→le, ◌∙◌, false, List, [], ◌∷◌,
  ◌++◌, take, ltb, leb, lt→ltb, ltb→lt, length, length-append, if◌then◌else◌, arith, inl, inr,
  Bool-cases,
}
use tiny_qwen_coder.TextNormalization.{Text}
use tiny_qwen_coder.Utf8.{encode_one, encode, idle, decode_ignore}

le→ltb : (a b : ℕ) → a ≤ b → ltb b a ≡ false
le→ltb a b h = ground arith

ltb→le : (b a : ℕ) → ltb b a ≡ false → a ≤ b
ltb→le b a h = ground arith

-- The whole code points of a text that fit into a number of bytes.
unfoldable pub fitting : ℕ → Text → Text
unfolding encode_one
fitting n [] = []
fitting n (c ∷ t) =
    let rest = fitting (n - length (encode_one c)) t in
    if leb (length (encode_one c)) n then c ∷ rest else []

pub encode-fitting-le : (n : ℕ) (t : Text) → length (encode (fitting n t)) ≤ n
unfolding encode fitting
encode-fitting-le n [] = omega arith
encode-fitting-le n (c ∷ t) = elim (Bool-cases (leb (length (encode_one c)) n)) [
  | inl e ↦
      rw (e, length-append (encode_one c) (encode (fitting (n - length (encode_one c)) t)))
        (ground (arith, encode-fitting-le (n - length (encode_one c)) t))
  | inr e ↦ rw e (omega arith)
]

-- The first byte of a code point.
module _ (b : ℕ) (rest : List ℕ) where
  lead-ascii : b < 0x80 → decode_ignore idle (b ∷ rest) ≡ b ∷ decode_ignore idle rest
  unfolding decode_ignore
  lead-ascii h = rw (lt→ltb b 0x80 h)

  lead-two :
      0x80 ≤ b
      → b < 0xe0
      → decode_ignore idle (b ∷ rest) ≡ decode_ignore (record { missing = 1; bits = b - 0xc0 }) rest
  unfolding decode_ignore
  lead-two h k = rw (le→ltb 0x80 b h, lt→ltb b 0xe0 k)

  lead-three :
      0xe0 ≤ b
      → b < 0xf0
      → decode_ignore idle (b ∷ rest) ≡ decode_ignore (record { missing = 2; bits = b - 0xe0 }) rest
  unfolding decode_ignore
  lead-three h k = rw (le→ltb 0x80 b (omega (arith, h)), le→ltb 0xe0 b h, lt→ltb b 0xf0 k)

  lead-four :
      0xf0 ≤ b
      → decode_ignore idle (b ∷ rest) ≡ decode_ignore (record { missing = 3; bits = b - 0xf0 }) rest
  unfolding decode_ignore
  lead-four h =
      rw (le→ltb 0x80 b (omega (arith, h)), le→ltb 0xe0 b (omega (arith, h)), le→ltb 0xf0 b h)

-- Whole code points of one, two, three and four bytes.
module _ (c : ℕ) (rest : List ℕ) where
  whole-two :
      0x80 ≤ c
      → c < 0x800
      → decode_ignore idle ((0xc0 + c / 64) ∷ (0x80 + c % 64) ∷ rest) ≡ c ∷ decode_ignore idle rest
  unfolding decode_ignore
  whole-two h k =
      lead-two (0xc0 + c / 64) ((0x80 + c % 64) ∷ rest) (omega arith) (omega (arith, k))
      ∙ ap (λ x. x ∷ decode_ignore idle rest) (omega (arith, h, k))

  whole-three :
      0x800 ≤ c
      → c < 0x10000
      → decode_ignore idle ((0xe0 + c / 4096) ∷ (0x80 + c / 64 % 64) ∷ (0x80 + c % 64) ∷ rest)
        ≡ c ∷ decode_ignore idle rest
  unfolding decode_ignore
  whole-three h k =
      lead-three (0xe0 + c / 4096) ((0x80 + c / 64 % 64) ∷ (0x80 + c % 64) ∷ rest) (omega arith)
        (omega (arith, k))
      ∙ ap (λ x. x ∷ decode_ignore idle rest) (omega (arith, h, k))

  whole-four :
      0x10000 ≤ c
      → decode_ignore idle (
          (0xf0 + c / 262144)
          ∷ (0x80 + c / 4096 % 64)
          ∷ (0x80 + c / 64 % 64)
          ∷ (0x80 + c % 64)
          ∷ rest)
        ≡ c ∷ decode_ignore idle rest
  unfolding decode_ignore
  whole-four h =
      lead-four (0xf0 + c / 262144)
        ((0x80 + c / 4096 % 64) ∷ (0x80 + c / 64 % 64) ∷ (0x80 + c % 64) ∷ rest) (omega arith)
      ∙ ap (λ x. x ∷ decode_ignore idle rest) (omega (arith, h))

  decode-whole : decode_ignore idle (encode_one c ++ rest) ≡ c ∷ decode_ignore idle rest
  unfolding encode_one
  decode-whole = elim (Bool-cases (ltb c 0x80)) [
    | inl a ↦ rw a (lead-ascii c rest (ltb→lt c 0x80 a))
    | inr a ↦ elim (Bool-cases (ltb c 0x800)) [
      | inl b ↦ rw (a, b) (whole-two (ltb→le c 0x80 a) (ltb→lt c 0x800 b))
      | inr b ↦ elim (Bool-cases (ltb c 0x10000)) [
        | inl d ↦ rw (a, b, d) (whole-three (ltb→le c 0x800 b) (ltb→lt c 0x10000 d))
        | inr d ↦ rw (a, b, d) (whole-four (ltb→le c 0x10000 d))
      ]
    ]
  ]

cut-one : (n a : ℕ) → n < 1 → decode_ignore idle (take n (a ∷ [])) ≡ []
unfolding decode_ignore
cut-one zero a h = refl
cut-one (suc n) a h = absurd (omega (arith, h))

cut-two :
    (n a b : ℕ) → n < 2 → a < 32 → decode_ignore idle (take n ((0xc0 + a) ∷ (0x80 + b) ∷ [])) ≡ []
unfolding decode_ignore
cut-two zero a b h k = refl
cut-two (suc zero) a b h k = lead-two (0xc0 + a) [] (omega arith) (omega (arith, k))
cut-two (suc (suc n)) a b h k = absurd (omega (arith, h))

cut-three :
    (n a b d : ℕ)
    → n < 3
    → a < 16
    → decode_ignore idle (take n ((0xe0 + a) ∷ (0x80 + b) ∷ (0x80 + d) ∷ [])) ≡ []
unfolding decode_ignore
cut-three zero a b d h k = refl
cut-three (suc zero) a b d h k = lead-three (0xe0 + a) [] (omega arith) (omega (arith, k))
cut-three (suc (suc zero)) a b d h k =
    lead-three (0xe0 + a) ((0x80 + b) ∷ []) (omega arith) (omega (arith, k))
cut-three (suc (suc (suc n))) a b d h k = absurd (omega (arith, h))

cut-four :
    (n a b d e : ℕ)
    → n < 4
    → decode_ignore idle (take n ((0xf0 + a) ∷ (0x80 + b) ∷ (0x80 + d) ∷ (0x80 + e) ∷ [])) ≡ []
unfolding decode_ignore
cut-four zero a b d e h = refl
cut-four (suc zero) a b d e h = lead-four (0xf0 + a) [] (omega arith)
cut-four (suc (suc zero)) a b d e h = lead-four (0xf0 + a) ((0x80 + b) ∷ []) (omega arith)
cut-four (suc (suc (suc zero))) a b d e h =
    lead-four (0xf0 + a) ((0x80 + b) ∷ (0x80 + d) ∷ []) (omega arith)
cut-four (suc (suc (suc (suc n)))) a b d e h = absurd (omega (arith, h))

-- A code point whose last bytes are missing.
decode-cut : (n c : ℕ) → n < length (encode_one c) → decode_ignore idle (take n (encode_one c)) ≡ []
unfolding encode_one decode_ignore
decode-cut n c h = elim (Bool-cases (ltb c 0x80)) [
  | inl a ↦ rw a (cut-one n c (rw a at h))
  | inr a ↦ elim (Bool-cases (ltb c 0x800)) [
    | inl b ↦
        rw (a, b) (cut-two n (c / 64) (c % 64) (rw (a, b) at h) (omega (arith, ltb→lt c 0x800 b)))
    | inr b ↦ elim (Bool-cases (ltb c 0x10000)) [
      | inl d ↦
          rw (a, b, d)
            (cut-three n (c / 4096) (c / 64 % 64) (c % 64) (rw (a, b, d) at h)
              (omega (arith, ltb→lt c 0x10000 d)))
      | inr d ↦
          rw (a, b, d)
            (cut-four n (c / 262144) (c / 4096 % 64) (c / 64 % 64) (c % 64) (rw (a, b, d) at h))
    ]
  ]
]

take-within : (n : ℕ) (xs ys : List ℕ) → n < length xs → take n (xs ++ ys) ≡ take n xs
take-within zero xs ys h = refl
take-within (suc n) [] ys h = absurd (omega (arith, h))
take-within (suc n) (x ∷ xs) ys h = ap (λ t. x ∷ t) (take-within n xs ys (omega (arith, h)))

take-beyond :
    (n : ℕ) (xs ys : List ℕ) → length xs ≤ n → take n (xs ++ ys) ≡ xs ++ take (n - length xs) ys
take-beyond n [] ys h = ap (λ m. take m ys) (omega arith)
take-beyond zero (x ∷ xs) ys h = absurd (omega (arith, h))
take-beyond (suc n) (x ∷ xs) ys h =
    ap (λ t. x ∷ t)
      (take-beyond n xs ys (omega (arith, h)) ∙ ap (λ m. xs ++ take m ys) (omega arith))

decode-nil : decode_ignore idle [] ≡ []
unfolding decode_ignore
decode-nil = refl

-- Decoding the first bytes of an encoded text gives the code points that fit into them whole.
pub decode_ignore-take-encode :
    (n : ℕ) (t : Text) → decode_ignore idle (take n (encode t)) ≡ fitting n t
unfolding encode fitting
decode_ignore-take-encode zero [] = decode-nil
decode_ignore-take-encode (suc n) [] = decode-nil
decode_ignore-take-encode n (c ∷ t) = elim (Bool-cases (leb (length (encode_one c)) n)) [
  | inl e ↦
      rw (e, take-beyond n (encode_one c) (encode t) (leb→le _ _ e))
        (decode-whole c (take (n - length (encode_one c)) (encode t))
          ∙ ap (λ x. c ∷ x) (decode_ignore-take-encode (n - length (encode_one c)) t))
  | inr e ↦
      rw (e, take-within n (encode_one c) (encode t) (ground arith)) (decode-cut n c (ground arith))
]
