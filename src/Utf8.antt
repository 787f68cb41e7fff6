-- ===== src/Utf8.antt =====
-- `text.encode()` and the decoding of a cut-off prefix with `errors="ignore"`, byte by byte.
pub mod Prefix
use tiny_qwen_coder.Prelude.{
  ℕ, zero, suc, ◌+◌, ◌-◌, ◌*◌, ◌/◌, ◌%◌, ◌≡◌, Bool, true, false, List, [], ◌∷◌, ◌++◌, Option, none,
  some, ltb, length, if◌then◌else◌,
}
use tiny_qwen_coder.Prelude.Eq.{◌==◌, nat_eq}
use tiny_qwen_coder.TextNormalization.{Text}

-- The bytes of one code point that is no surrogate.
unfoldable pub encode_one : ℕ → List ℕ
encode_one c =
    if ltb c 0x80
    then c ∷ []
    else if ltb c 0x800
    then (0xc0 + c / 64) ∷ (0x80 + c % 64) ∷ []
    else if ltb c 0x10000
    then (0xe0 + c / 4096) ∷ (0x80 + c / 64 % 64) ∷ (0x80 + c % 64) ∷ []
    else (0xf0 + c / 262144) ∷ (0x80 + c / 4096 % 64) ∷ (0x80 + c / 64 % 64) ∷ (0x80 + c % 64) ∷ []

unfoldable pub encode : Text → List ℕ
unfolding encode_one
encode [] = []
encode (c ∷ t) = encode_one c ++ encode t

-- The decoder's state: how many bytes the code point still lacks, and its bits so far.
pub record Pending : Type 0 where
  pub missing : ℕ
  pub bits : ℕ

abbrev pub idle : Pending
idle = record { missing = 0; bits = 0 }

abbrev lead : ℕ → Pending × Option ℕ
lead b =
    if ltb b 0x80
    then (idle, some b)
    else if ltb b 0xe0
    then (record { missing = 1; bits = b - 0xc0 }, none)
    else if ltb b 0xf0
    then (record { missing = 2; bits = b - 0xe0 }, none)
    else (record { missing = 3; bits = b - 0xf0 }, none)

abbrev follow : ℕ → ℕ → ℕ → Pending × Option ℕ
follow zero bits b = lead b
follow (suc zero) bits b = (idle, some (bits * 64 + (b - 0x80)))
follow (suc (suc n)) bits b = (record { missing = suc n; bits = bits * 64 + (b - 0x80) }, none)

abbrev emit : Option ℕ → Text → Text
emit none t = t
emit (some c) t = c ∷ t

-- Over a prefix of encoded text every byte but the last code point's is in its place; a code point
-- whose bytes are cut off is left out.
unfoldable pub decode_ignore : Pending → List ℕ → Text
decode_ignore p [] = []
decode_ignore p (b ∷ bytes) =
    let step = follow p.missing p.bits b in emit step.1 (decode_ignore step.0 bytes)
