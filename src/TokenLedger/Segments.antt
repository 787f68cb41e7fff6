-- ===== src/TokenLedger/Segments.antt =====
-- The segments of an accepted output divide its tokens.
use tiny_qwen_coder.Prelude.{
  ℕ, ◌+◌, ◌≡◌, ◌<◌, ◌≤◌, refl, subst, Bool, true, false, not, ◌&&◌, List, [], ◌∷◌, length, ltb, leb,
  if◌then◌else◌, All, arith, null,
}
use tiny_qwen_coder.Prelude.Eq.{◌==◌}
use tiny_qwen_coder.Prelude.Int.{ℤ, pos, negsuc, int_eq, int_ltb}
use tiny_qwen_coder.Prelude.Result.{ok, raise_if, >>-ok, raise_if-ok}
use tiny_qwen_coder.TokenLedger.{
  AssistantTokenSegment, check_segment, segments_from, check_segments, no_segments, segment_gap,
  segment_too_long,
}

-- Whether a segment holds the token at an index, and how many segments do.
unfoldable pub covers : ℕ → AssistantTokenSegment → Bool
unfolding int_ltb
covers i s = not (int_ltb (pos i) s.start) && int_ltb (pos i) s.end

unfoldable pub covering : ℕ → List AssistantTokenSegment → ℕ
unfolding covers
covering i [] = 0
covering i (s ∷ segments) = (if covers i s then 1 else 0) + covering i segments

abbrev pub ValidSegment : AssistantTokenSegment → Type 0
ValidSegment s = check_segment s ≡ ok tt

-- An accepted segment ends at a natural number after its start.
pub segment_range :
    (i n a : ℕ) (start end : ℤ)
    → (start == pos a) ≡ true
    → int_ltb (pos n) end ≡ false
    → int_ltb start end ≡ true
    → (b : ℕ) × ((end ≡ pos b)
        × ((a < b)
            × ((b ≤ n)
                × ((not (int_ltb (pos i) start) && int_ltb (pos i) end) ≡ (leb a i && ltb i b)))))
unfolding int_ltb
segment_range i n a (pos s) (pos b) h k v =
    (b, (refl, (ground arith, (ground arith, ground arith))))
segment_range i n a (pos s) (negsuc b) h k v = absurd (ground arith)
segment_range i n a (negsuc s) end h k v = absurd (ground arith)

pub valid_range : (s : AssistantTokenSegment) → ValidSegment s → int_ltb s.start s.end ≡ true
unfolding check_segment
valid_range s v = ground (arith, raise_if-ok _ _ v)

covers_lem :
    (i : ℕ) (s : AssistantTokenSegment)
    → covers i s ≡ (not (int_ltb (pos i) s.start) && int_ltb (pos i) s.end)
unfolding covers
covers_lem i s = refl

shares :
    (i n a b : ℕ)
    → a < b
    → b ≤ n
    → (if leb a i && ltb i b then 1 else 0) + (if leb b i && ltb i n then 1 else 0)
      ≡ (if leb a i && ltb i n then 1 else 0)
shares i n a b h k = ground arith

segments-covering :
    (i n a : ℕ) (segments : List AssistantTokenSegment)
    → segments_from n (pos a) segments ≡ ok tt
    → All ValidSegment segments
    → covering i segments ≡ (if leb a i && ltb i n then 1 else 0)
unfolding segments_from covering
segments-covering i n a [] h v = ground arith
segments-covering i n a (s ∷ segments) h v =
    let start = >>-ok (raise_if (not (s.start == pos a)) segment_gap) _ _ h in
    let end = >>-ok (raise_if (int_ltb (pos n) s.end) segment_too_long) _ _ start.1 in
    let valid = valid_range s v.0 in
    let range =
      segment_range i n a s.start s.end (ground (arith, raise_if-ok _ _ start.0))
        (raise_if-ok _ _ end.0) valid in
    let rest =
      segments-covering i n range.0 segments
        (subst (λ e. segments_from n e segments ≡ ok tt) range.1.0 end.1) v.1 in
    let (lt, (le, here)) = range.1.1 in rw (covers_lem i s, here, rest) (shares i n a range.0 lt le)

-- When the segments of an output pass their own check and the check against the output, every token
-- of the output is in exactly one of them.
pub check_segments-covering :
    (output_ids : List ℤ) (segments : List AssistantTokenSegment) (i : ℕ)
    → check_segments output_ids segments ≡ ok tt
    → All ValidSegment segments
    → i < length output_ids
    → covering i segments ≡ 1
unfolding check_segments
check_segments-covering output_ids segments i h v lt =
    let a = >>-ok (raise_if (null segments) no_segments) _ _ h in
    ground (arith, segments-covering i (length output_ids) 0 segments a.1 v)
