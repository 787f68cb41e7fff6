-- ===== src/TrajectoryAlignment/Turns.antt =====
-- One turn of the loop, as it extends the arrays.
use tiny_qwen_coder.Prelude.{
  ℕ, ◌+◌, ◌≡◌, sym, Bool, true, false, not, ◌||◌, List, [], ◌∷◌, ◌++◌, length, replicate, null,
  take, drop, ltb, All, arith, append_assoc, length-append, take-length-append, drop-length-append,
}
use tiny_qwen_coder.Prelude.Eq.{◌==◌, ==_refl, nat_eq, list_eq}
use tiny_qwen_coder.Prelude.Int.{ℤ, pos, int_eq}
use tiny_qwen_coder.Prelude.Result.{ok, raise_if, >>-ok}
use tiny_qwen_coder.TextNormalization.{Text}
use tiny_qwen_coder.Json.{Json}
use tiny_qwen_coder.TokenLedger.{
  PromptTokenRecord, AssistantOutputRecord, check_tokens, check_index, check_prompt, check_output,
  check_segments, segments_from, no_segments,
}
use tiny_qwen_coder.TokenLedger.Preserved.{ValidPrompt, ValidOutput}
use tiny_qwen_coder.TokenLedger.Segments.{ValidSegment}
use tiny_qwen_coder.TrajectoryAlignment.{is_sha256, ActionTurnBoundary, AlignedActionSegment}
use tiny_qwen_coder.TrajectoryAlignment.Derived.{Derivation, mark, derive_turn}
use tiny_qwen_coder.TrajectoryAlignment.Described.{mark-lem}
use tiny_qwen_coder.TrajectoryAlignment.Spans.{
  described_turn, described_segments, turn_boundary-described, aligned_segments-described,
}

abbrev pub grow :
    Derivation
    → List ℤ
    → List Bool
    → List ActionTurnBoundary
    → List AlignedActionSegment
    → ℕ
    → Derivation
grow d actions mask turns segments count = record {
  action_ids = d.action_ids ++ actions;
  mask = mask;
  turns = d.turns ++ turns;
  segments = d.segments ++ segments;
  action_cursor = d.action_cursor + count;
}

pub grow-grow :
    (d : Derivation) (a b : List ℤ) (m n : List Bool) (t u : List ActionTurnBoundary)
    (s v : List AlignedActionSegment) (i j : ℕ)
    → grow (grow d a m t s i) b n u v j ≡ grow d (a ++ b) n (t ++ u) (s ++ v) (i + j)
grow-grow d a b m n t u s v i j =
    let cursor : (d.action_cursor + i) + j ≡ d.action_cursor + (i + j) = omega arith in
    rw
      (append_assoc d.action_ids a b, append_assoc d.turns t u, append_assoc d.segments s v, cursor)

middle : (p o c : List ℤ) → take (length o) (drop (length p) ((p ++ o) ++ c)) ≡ o
middle p o c = rw (append_assoc p o c, drop-length-append p (o ++ c), take-length-append o c)

is_present :
    (p o c : List ℤ)
    → (ltb (length ((p ++ o) ++ c)) (length p + length o)
        || not (take (length o) (drop (length p) ((p ++ o) ++ c)) == o))
      ≡ false
is_present p o c =
    rw (middle p o c, ==_refl o, length-append (p ++ o) c, length-append p o) (ground arith)

-- What the checks of the records give a turn.
pub record TurnParts (p : PromptTokenRecord) (o : AssistantOutputRecord) : Type 0 where
  pub prompt : check_tokens p.prompt_ids ≡ ok tt
  pub output : check_tokens o.output_ids ≡ ok tt
  pub segments : segments_from (length o.output_ids) (pos 0) o.segments ≡ ok tt

pub Valid→TurnParts :
    (p : PromptTokenRecord) (o : AssistantOutputRecord)
    → ValidPrompt p
    → ValidOutput o
    → TurnParts p o
unfolding check_prompt check_output check_segments
Valid→TurnParts p o h k =
    let a = >>-ok (check_index p.turn_index) _ _ h in
    let b = >>-ok (check_tokens p.prompt_ids) _ _ a.1 in
    let c = >>-ok (check_index o.turn_index) _ _ k in
    let d = >>-ok (check_tokens o.output_ids) _ _ c.1 in
    let e = >>-ok (raise_if (null o.segments) no_segments) _ _ d.1 in
    record { prompt = b.0; output = d.0; segments = e.1 }

module _ (dumps : Json → Text) (sha256 : Text → Text)
    (hex : (t : Text) → is_sha256 (sha256 t) ≡ true) where
  pub derive_turn-grow :
      (index : ℕ) (p : PromptTokenRecord) (o : AssistantOutputRecord) (c : List ℤ) (d : Derivation)
      (m : List Bool)
      → TurnParts p o
      → All ValidSegment o.segments
      → length m ≡ length p.prompt_ids
      → d.mask ≡ m ++ replicate (length o.output_ids + length c) false
      → derive_turn dumps sha256 ((p.prompt_ids ++ o.output_ids) ++ c) index p o d
        ≡ ok (
            grow d o.output_ids
              (m ++ (replicate (length o.output_ids) true ++ replicate (length c) false))
              (described_turn dumps sha256 index d.action_cursor p o ∷ [])
              (described_segments dumps sha256 index 0
                (length p.prompt_ids)
                d.action_cursor
                o.output_ids
                o.segments)
              (length o.output_ids))
  unfolding derive_turn
  derive_turn-grow index p o c d m parts v e em =
      let marked : mark (length p.prompt_ids) (length o.output_ids) d.mask
          ≡ m ++ (replicate (length o.output_ids) true ++ replicate (length c) false) =
        rw (em, sym e) (mark-lem m (length o.output_ids) (length c)) in
      rw (
        is_present p.prompt_ids o.output_ids c,
        turn_boundary-described dumps sha256 hex index d.action_cursor p o parts.prompt
            parts.output,
        aligned_segments-described dumps sha256 hex index 0 (length p.prompt_ids) d.action_cursor 0
            o.output_ids o.segments parts.segments v parts.output,
        marked,
      )
