-- ===== src/TrajectoryAlignment/Run.antt =====
-- The whole loop over the turns of a ledger.
use tiny_qwen_coder.Prelude.{
  ℕ, zero, suc, ◌+◌, ◌≡◌, refl, ap, ◌∙◌, Bool, true, false, List, [], ◌∷◌, ◌++◌, length, replicate,
  All, arith, append_assoc, append-nil, length-append,
}
use tiny_qwen_coder.Prelude.Int.{ℤ}
use tiny_qwen_coder.Prelude.Result.{ok, >>-ok}
use tiny_qwen_coder.TextNormalization.{Text}
use tiny_qwen_coder.Json.{Json}
use tiny_qwen_coder.TokenLedger.{PromptTokenRecord, AssistantOutputRecord}
use tiny_qwen_coder.TokenLedger.Chain.{check_next_prompt, check_prompts}
use tiny_qwen_coder.TokenLedger.Preserved.{ValidPrompt, ValidOutput}
use tiny_qwen_coder.TokenLedger.Segments.{ValidSegment}
use tiny_qwen_coder.TokenLedger.Transcript.{next_prompt-ids}
use tiny_qwen_coder.TrajectoryAlignment.{is_sha256, ActionTurnBoundary, AlignedActionSegment}
use tiny_qwen_coder.TrajectoryAlignment.Derived.{Derivation, derive_turn, derive_turns}
use tiny_qwen_coder.TrajectoryAlignment.Described.{content, output_marks, output_tokens}
use tiny_qwen_coder.TrajectoryAlignment.Spans.{described_turn, described_segments}
use tiny_qwen_coder.TrajectoryAlignment.Turns.{grow, grow-grow, Valid→TurnParts, derive_turn-grow}
use tiny_qwen_coder.TrajectoryAlignment.Input.{content-next}

pub replicate-add {ℓ} :
    {A : Type ℓ} (a : A) (n r : ℕ) → replicate n a ++ replicate r a ≡ replicate (n + r) a
replicate-add a zero r = ap (λ k. replicate k a) (omega arith)
replicate-add a (suc n) r =
    ap (λ t. a ∷ t) (replicate-add a n r)
    ∙ ap (λ k. replicate k a) {x = suc (n + r)} {y = suc n + r} (omega arith)

pub length-replicate {ℓ} : {A : Type ℓ} (a : A) (n : ℕ) → length (replicate n a) ≡ n
length-replicate a zero = refl
length-replicate a (suc n) = ap suc (length-replicate a n)

abbrev pub AllSegments : List AssistantOutputRecord → Type 0
AllSegments outputs = All (λ o. All ValidSegment o.segments) outputs

-- The mask before the next turn, cut where the prompt of that turn ends.
next_mask :
    (m : List Bool) (o d b c : ℕ)
    → m ++ (replicate o true ++ replicate (d + (b + c)) false)
      ≡ (m ++ (replicate o true ++ replicate d false)) ++ replicate (b + c) false
next_mask m o d b c = rw (
  append_assoc m (replicate o true ++ replicate d false) (replicate (b + c) false),
  append_assoc (replicate o true) (replicate d false) (replicate (b + c) false),
  replicate-add false d (b + c),
)

final_mask :
    (m : List Bool) (o d b : ℕ) (rest : List Bool)
    → (m ++ (replicate o true ++ replicate d false)) ++ (replicate b true ++ rest)
      ≡ m ++ (replicate o true ++ (replicate d false ++ (replicate b true ++ rest)))
final_mask m o d b rest = rw (
  append_assoc m (replicate o true ++ replicate d false) (replicate b true ++ rest),
  append_assoc (replicate o true) (replicate d false) (replicate b true ++ rest),
)

next_mask-length :
    (m : List Bool) (p o delta next : List ℤ)
    → length m ≡ length p
    → next ≡ (p ++ o) ++ delta
    → length (m ++ (replicate (length o) true ++ replicate (length delta) false)) ≡ length next
next_mask-length m p o delta next e h =
    rw
      (
        h,
        length-append m (replicate (length o) true ++ replicate (length delta) false),
        length-append (replicate (length o) true) (replicate (length delta) false),
        length-replicate true (length o),
        length-replicate false (length delta),
        length-append (p ++ o) delta,
        length-append p o,
        e,
      )
      (omega arith)

content-length :
    (p : PromptTokenRecord) (b : AssistantOutputRecord) (ps : List PromptTokenRecord)
    (os : List AssistantOutputRecord)
    → length (content (p ∷ ps) (b ∷ os))
      ≡ length p.appended_ids + (length b.output_ids + length (content ps os))
unfolding content
content-length p b ps os = rw (
  length-append p.appended_ids (b.output_ids ++ content ps os),
  length-append b.output_ids (content ps os),
)

module _ (dumps : Json → Text) (sha256 : Text → Text) where
  -- The turns and the segments, each turn with where its actions start.
  unfoldable pub described_turns :
      ℕ → ℕ → List PromptTokenRecord → List AssistantOutputRecord → List ActionTurnBoundary
  unfolding described_turn
  described_turns index cursor (p ∷ ps) (o ∷ os) =
      described_turn dumps sha256 index cursor p o
      ∷ described_turns (suc index) (cursor + length o.output_ids) ps os
  described_turns index cursor _ _ = []

  unfoldable pub all_described_segments :
      ℕ → ℕ → List PromptTokenRecord → List AssistantOutputRecord → List AlignedActionSegment
  unfolding described_segments
  all_described_segments index cursor (p ∷ ps) (o ∷ os) =
      described_segments dumps sha256 index 0 (length p.prompt_ids) cursor o.output_ids o.segments
      ++ all_described_segments (suc index) (cursor + length o.output_ids) ps os
  all_described_segments index cursor _ _ = []

  derive_turns-step :
      (input : List ℤ) (index : ℕ) (q : PromptTokenRecord) (o : AssistantOutputRecord)
      (ps : List PromptTokenRecord) (os : List AssistantOutputRecord) (d next : Derivation)
      → derive_turn dumps sha256 input index q o d ≡ ok next
      → derive_turns dumps sha256 input index (q ∷ ps) (o ∷ os) d
        ≡ derive_turns dumps sha256 input (suc index) ps os next
  unfolding derive_turns
  derive_turns-step input index q o ps os d next h = rw h

  derive_turns-end :
      (input : List ℤ) (index : ℕ) (d : Derivation)
      → derive_turns dumps sha256 input index [] [] d ≡ ok d
  unfolding derive_turns
  derive_turns-end input index d = refl

  module _ (hex : (t : Text) → is_sha256 (sha256 t) ≡ true) where
    abbrev pub finished :
        ℕ
        → PromptTokenRecord
        → AssistantOutputRecord
        → List PromptTokenRecord
        → List AssistantOutputRecord
        → Derivation
        → List Bool
        → Derivation
    finished index q o ps os d m =
        grow d (output_tokens (o ∷ os))
          (m ++ (replicate (length o.output_ids) true ++ output_marks ps os))
          (described_turns index d.action_cursor (q ∷ ps) (o ∷ os))
          (all_described_segments index d.action_cursor (q ∷ ps) (o ∷ os))
          (length (output_tokens (o ∷ os)))

    pub derive_turns-finished :
        (i index : ℕ) (q : PromptTokenRecord) (o : AssistantOutputRecord)
        (ps : List PromptTokenRecord) (os : List AssistantOutputRecord) (d : Derivation)
        (m : List Bool)
        → check_prompts i q ps (o ∷ os) ≡ ok tt
        → length ps ≡ length os
        → All ValidPrompt (q ∷ ps)
        → All ValidOutput (o ∷ os)
        → AllSegments (o ∷ os)
        → length m ≡ length q.prompt_ids
        → d.mask ≡ m ++ replicate (length o.output_ids + length (content ps os)) false
        → derive_turns dumps sha256
            ((q.prompt_ids ++ o.output_ids) ++ content ps os)
            index
            (q ∷ ps)
            (o ∷ os)
            d
          ≡ ok (finished index q o ps os d m)
    unfolding check_prompts content output_marks output_tokens described_turns
        all_described_segments
    derive_turns-finished i index q o [] [] d m h e vp vo vs em ed =
        let step =
          derive_turn-grow dumps sha256 hex index q o [] d m (Valid→TurnParts q o vp.0 vo.0) vs.0 em
            ed in
        derive_turns-step _ index q o [] [] d _ step
        ∙ (derive_turns-end _ (suc index) _
            ∙ rw (
              append-nil o.output_ids,
              append-nil (
                  described_segments dumps sha256 index 0 (length q.prompt_ids) d.action_cursor
                    o.output_ids o.segments),
            ))
    derive_turns-finished i index q o [] (b ∷ os) d m h e vp vo vs em ed = absurd (omega (arith, e))
    derive_turns-finished i index q o (p ∷ ps) [] d m h e vp vo vs em ed = absurd (omega (arith, e))
    derive_turns-finished i index q o (p ∷ ps) (b ∷ os) d m h e vp vo vs em ed =
        let s = >>-ok (check_next_prompt i q o p) (check_prompts (suc i) p ps (b ∷ os)) tt h in
        let n = length o.output_ids in
        let k = length p.appended_ids in
        let m1 = m ++ (replicate n true ++ replicate k false) in
        let c = content (p ∷ ps) (b ∷ os) in
        let step =
          derive_turn-grow dumps sha256 hex index q o c d m (Valid→TurnParts q o vp.0 vo.0) vs.0 em
            ed in
        let turn = described_turn dumps sha256 index d.action_cursor q o ∷ [] in
        let segments =
          described_segments dumps sha256 index 0 (length q.prompt_ids) d.action_cursor o.output_ids
            o.segments in
        let next =
          grow d o.output_ids (m ++ (replicate n true ++ replicate (length c) false)) turn segments
            n in
        let cut : next.mask ≡ m1 ++ replicate (length b.output_ids + length (content ps os)) false =
          rw (content-length p b ps os)
            (next_mask m n k (length b.output_ids) (length (content ps os))) in
        let rest =
          derive_turns-finished (suc i) (suc index) p b ps os next m1 s.1 (omega (arith, e)) vp.1
            vo.1 vs.1
            (next_mask-length m q.prompt_ids o.output_ids p.appended_ids p.prompt_ids em
              (next_prompt-ids i q p o s.0))
            cut in
        derive_turns-step _ index q o (p ∷ ps) (b ∷ os) d next step
        ∙ (ap (λ input. derive_turns dumps sha256 input (suc index) (p ∷ ps) (b ∷ os) next)
              (content-next i q p o b ps os s.0)
            ∙ (rest
                ∙ ap (λ t. ok t)
                    (grow-grow d o.output_ids (output_tokens (b ∷ os)) next.mask _ turn _ segments _
                        n _
                      ∙ rw (
                        final_mask m n k (length b.output_ids) (output_marks ps os),
                        length-append o.output_ids (output_tokens (b ∷ os)),
                      ))))
