-- ===== src/TrajectoryAlignment/Spans.antt =====
-- The spans of a turn and of its segments are accepted.
use tiny_qwen_coder.Prelude.{
  ℕ, zero, suc, ◌+◌, ◌-◌, ◌<◌, ◌≤◌, min, ◌≡◌, refl, true, false, not, Bool, not-false, List, [],
  ◌∷◌, length, take, drop, all, null, All, ◌||◌, ltb, arith, subst,
}
use tiny_qwen_coder.Prelude.Eq.{◌==◌, nat_eq, eq_of_==}
use tiny_qwen_coder.Prelude.Int.{ℤ, pos, is_negative, int_eq, int_ltb, ◌-ℤ◌, ◌+ℤ◌}
use tiny_qwen_coder.Prelude.Result.{ok, ◌>>◌, raise_if, >>-ok, raise_if-ok}
use tiny_qwen_coder.TextNormalization.{Text}
use tiny_qwen_coder.Json.{Json}
use tiny_qwen_coder.TokenLedger.{
  AssistantTokenSegment, PromptTokenRecord, AssistantOutputRecord, check_tokens, no_tokens,
  segments_from, segment_gap, segment_too_long,
}
use tiny_qwen_coder.TokenLedger.Persisted.{token_values}
use tiny_qwen_coder.TokenLedger.Segments.{ValidSegment, segment_range, valid_range}
use tiny_qwen_coder.TrajectoryAlignment.{
  is_sha256, sha, ActionTurnBoundary, check_turn, empty_turn, turn_lengths, AlignedActionSegment,
  check_aligned_segment, non_negative, all_non_negative,
}
use tiny_qwen_coder.TrajectoryAlignment.Derived.{
  slice, token_ids_sha256, aligned_segment, aligned_segments, turn_boundary,
}

all-take {ℓ} :
    {A : Type ℓ} (p : A → Bool) (n : ℕ) (xs : List A) → all p xs ≡ true → all p (take n xs) ≡ true
all-take p zero xs h = refl
all-take p (suc n) [] h = refl
all-take p (suc n) (x ∷ xs) h = ground (arith, all-take p n xs)

all-drop {ℓ} :
    {A : Type ℓ} (p : A → Bool) (n : ℕ) (xs : List A) → all p xs ≡ true → all p (drop n xs) ≡ true
all-drop p zero xs h = h
all-drop p (suc n) [] h = refl
all-drop p (suc n) (x ∷ xs) h = all-drop p n xs (ground arith)

part-nonempty {ℓ} :
    {A : Type ℓ} (n a : ℕ) (xs : List A) → 0 < n → a < length xs → null (take n (drop a xs)) ≡ false
part-nonempty zero a xs h k = absurd (omega (arith, h))
part-nonempty (suc n) a [] h k = absurd (omega (arith, k))
part-nonempty (suc n) zero (x ∷ xs) h k = refl
part-nonempty (suc n) (suc a) (x ∷ xs) h k = part-nonempty (suc n) a xs h (omega (arith, k))

-- A part of checked tokens is checked.
tokens-slice :
    (ids : List ℤ) (a b : ℕ)
    → check_tokens ids ≡ ok tt
    → a < b
    → b ≤ length ids
    → check_tokens (slice ids (pos a) (pos b)) ≡ ok tt
unfolding check_tokens
tokens-slice ids a b h lt le =
    let s = >>-ok (raise_if (null ids) no_tokens) _ _ h in
    let nonneg = not-false (all (λ t. not (is_negative t)) ids) (raise_if-ok _ _ s.1) in
    let from = min a (length ids) in
    let count = min b (length ids) - from in
    rw (
      part-nonempty count from ids (omega (arith, lt, le)) (omega (arith, lt, le)),
      all-take (λ t. not (is_negative t)) count (drop from ids)
          (all-drop (λ t. not (is_negative t)) from ids nonneg),
    )

same_span :
    (i j a b : ℕ) → a < b → (pos (i + b) -ℤ pos (i + a) == pos (j + b) -ℤ pos (j + a)) ≡ true
same_span i j a b h = ground arith

turn_span :
    (i j n : ℕ)
    → 0 < n
    → (raise_if (not (ltb i (i + n)) || not (ltb j (j + n))) empty_turn
        >> (raise_if (not (pos (i + n) -ℤ pos i == pos (j + n) -ℤ pos j)) turn_lengths >> ok tt))
      ≡ ok (tt {0})
turn_span i j n h = ground arith

module _ (dumps : Json → Text) (sha256 : Text → Text) where
  -- The segments as they are aligned, without the checks.
  unfoldable pub described_segment :
      ℕ → ℕ → ℕ → ℕ → List ℤ → AssistantTokenSegment → AlignedActionSegment
  described_segment turn_index segment_index input_start action_start ids s = record {
    turn_index = pos turn_index;
    segment_index = pos segment_index;
    kind = s.kind;
    input_start = pos input_start +ℤ s.start;
    input_end = pos input_start +ℤ s.end;
    action_start = pos action_start +ℤ s.start;
    action_end = pos action_start +ℤ s.end;
    token_ids_sha256 = sha256 (dumps (token_values (slice ids s.start s.end)));
  }

  unfoldable pub described_segments :
      ℕ → ℕ → ℕ → ℕ → List ℤ → List AssistantTokenSegment → List AlignedActionSegment
  unfolding described_segment
  described_segments turn_index index input_start action_start ids [] = []
  described_segments turn_index index input_start action_start ids (s ∷ segments) =
      described_segment turn_index index input_start action_start ids s
      ∷ described_segments turn_index (suc index) input_start action_start ids segments

  unfoldable pub described_turn :
      ℕ → ℕ → PromptTokenRecord → AssistantOutputRecord → ActionTurnBoundary
  described_turn turn_index action_cursor p o = record {
    turn_index = pos turn_index;
    input_start = pos (length p.prompt_ids);
    input_end = pos (length p.prompt_ids + length o.output_ids);
    action_start = pos action_cursor;
    action_end = pos (action_cursor + length o.output_ids);
    prompt_ids_sha256 = sha256 (dumps (token_values p.prompt_ids));
    output_ids_sha256 = sha256 (dumps (token_values o.output_ids));
  }

  module _ (hex : (t : Text) → is_sha256 (sha256 t) ≡ true) where
    pub digest-ok :
        (ids : List ℤ)
        → check_tokens ids ≡ ok tt
        → token_ids_sha256 dumps sha256 ids ≡ ok (sha256 (dumps (token_values ids)))
    unfolding token_ids_sha256
    digest-ok ids h = rw h

    pub sha-ok : (t : Text) → sha (sha256 t) ≡ ok tt
    unfolding sha
    sha-ok t = rw (hex t)

    described_segment-ok :
        (turn index ist ast : ℕ) (ids : List ℤ) (s : AssistantTokenSegment) (a b : ℕ)
        → s.start ≡ pos a
        → s.end ≡ pos b
        → a < b
        → check_aligned_segment (described_segment turn index ist ast ids s) ≡ ok tt
    unfolding described_segment check_aligned_segment all_non_negative non_negative int_ltb
    described_segment-ok turn index ist ast ids s a b ea eb h =
        rw
          (
            ea,
            eb,
            same_span ist ast a b h,
            sha-ok (dumps (token_values (slice ids (pos a) (pos b)))),
          )
          (ground arith)

    aligned_segment-described :
        (turn index ist ast : ℕ) (ids : List ℤ) (s : AssistantTokenSegment) (a b : ℕ)
        → s.start ≡ pos a
        → s.end ≡ pos b
        → a < b
        → b ≤ length ids
        → check_tokens ids ≡ ok tt
        → aligned_segment dumps sha256 turn index ist ast ids s
          ≡ ok (described_segment turn index ist ast ids s)
    unfolding aligned_segment described_segment
    aligned_segment-described turn index ist ast ids s a b ea eb h le k =
        let digest =
          digest-ok (slice ids s.start s.end) (rw (ea, eb) (tokens-slice ids a b k h le)) in
        rw (digest, described_segment-ok turn index ist ast ids s a b ea eb h)

    pub aligned_segments-described :
        (turn index ist ast a : ℕ) (ids : List ℤ) (segments : List AssistantTokenSegment)
        → segments_from (length ids) (pos a) segments ≡ ok tt
        → All ValidSegment segments
        → check_tokens ids ≡ ok tt
        → aligned_segments dumps sha256 turn index ist ast ids segments
          ≡ ok (described_segments turn index ist ast ids segments)
    unfolding aligned_segments described_segments segments_from
    aligned_segments-described turn index ist ast a ids [] h v k = refl
    aligned_segments-described turn index ist ast a ids (s ∷ segments) h v k =
        let start = >>-ok (raise_if (not (s.start == pos a)) segment_gap) _ _ h in
        let end =
          >>-ok (raise_if (int_ltb (pos (length ids)) s.end) segment_too_long) _ _ start.1 in
        let at = not-false (s.start == pos a) (raise_if-ok _ _ start.0) in
        let range =
          segment_range 0 (length ids) a s.start s.end at (raise_if-ok _ _ end.0)
            (valid_range s v.0) in
        let (lt, (le, here)) = range.1.1 in
        let rest =
          aligned_segments-described turn (suc index) ist ast range.0 ids segments
            (subst (λ e. segments_from (length ids) e segments ≡ ok tt) range.1.0 end.1) v.1 k in
        let first =
          aligned_segment-described turn index ist ast ids s a range.0 (eq_of_== s.start (pos a) at)
            range.1.0 lt le k in
        rw (first, rest)

    pub tokens-nonempty : (ids : List ℤ) → check_tokens ids ≡ ok tt → 0 < length ids
    unfolding check_tokens
    tokens-nonempty [] h = ground arith
    tokens-nonempty (t ∷ ids) h = omega arith

    described_turn-ok :
        (turn cursor : ℕ) (p : PromptTokenRecord) (o : AssistantOutputRecord)
        → 0 < length o.output_ids
        → check_turn (described_turn turn cursor p o) ≡ ok tt
    unfolding described_turn check_turn all_non_negative non_negative int_ltb
    described_turn-ok turn cursor p o h =
        rw (sha-ok (dumps (token_values p.prompt_ids)), sha-ok (dumps (token_values o.output_ids)))
          (turn_span (length p.prompt_ids) cursor (length o.output_ids) h)

    pub turn_boundary-described :
        (turn cursor : ℕ) (p : PromptTokenRecord) (o : AssistantOutputRecord)
        → check_tokens p.prompt_ids ≡ ok tt
        → check_tokens o.output_ids ≡ ok tt
        → turn_boundary dumps sha256 turn cursor p o ≡ ok (described_turn turn cursor p o)
    unfolding turn_boundary described_turn
    turn_boundary-described turn cursor p o h k = rw (
      digest-ok p.prompt_ids h,
      digest-ok o.output_ids k,
      described_turn-ok turn cursor p o (tokens-nonempty o.output_ids k),
    )
