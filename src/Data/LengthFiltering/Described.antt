-- ===== src/Data/LengthFiltering/Described.antt =====
-- What the loop of the length filter leaves, without its state.
use native.Mathlib.Decide.{dec_lt}
use tiny_qwen_coder.Prelude.{
  ℕ, ◌+◌, ◌<◌, ◌≤◌, ◌≡◌, subst, refl, sym, ap, ◌∙◌, false, List, [], ◌∷◌, ◌++◌, map, Option, none,
  some, null, length, All, append_assoc, append-nil, if◌then◌else◌, arith,
}
use tiny_qwen_coder.Prelude.Eq.{◌==◌}
use tiny_qwen_coder.Prelude.Int.{ℤ}
use tiny_qwen_coder.Prelude.Result.{ok}
use tiny_qwen_coder.TextNormalization.{Text}
use tiny_qwen_coder.Data.Records.{NormalizedTrainingRecord}
use tiny_qwen_coder.Data.Deduplication.Payload.{role_name}
use tiny_qwen_coder.Data.LengthFiltering.{
  LengthRejectionReason, length_reason_eq, LengthFilterConfig, AcceptedTokenLength,
  check_accepted_length, too_short, too_long, LengthRejectedTrainingRecord, check_length_rejected,
}
use tiny_qwen_coder.Data.LengthFiltering.Run.{
  Tokenizer, require_chat_template, tokenize_training_record, LengthFilterState, length_reason,
  length_rejected, place_length, length_step, length_loop,
}

-- What one record adds to the lists, given the reason against it.
abbrev pub add_kept {ℓ} : {A : Type ℓ} → A → Option LengthRejectionReason → List A → List A
add_kept a none rest = a ∷ rest
add_kept a (some reason) rest = rest

abbrev pub add_dropped :
    (LengthRejectionReason → LengthRejectedTrainingRecord)
    → Option LengthRejectionReason
    → List LengthRejectedTrainingRecord
    → List LengthRejectedTrainingRecord
add_dropped rejected none rest = rest
add_dropped rejected (some reason) rest = rejected reason ∷ rest

-- How many rejected records show a reason.
unfoldable pub count_dropped : LengthRejectionReason → List LengthRejectedTrainingRecord → ℕ
count_dropped reason [] = 0
count_dropped reason (r ∷ rs) = (if r.reason == reason then 1 else 0) + count_dropped reason rs

module _ (t : Tokenizer) (template : Text) (c : LengthFilterConfig) where
  -- The tokens of the roles and contents of a record.
  abbrev pub tokens_of : NormalizedTrainingRecord → List ℤ
  tokens_of r = t.apply_chat_template (map (λ m. (role_name m.role, m.content)) r.messages) template

  abbrev pub rejection :
      ℕ → NormalizedTrainingRecord → LengthRejectionReason → LengthRejectedTrainingRecord
  rejection i r reason = record {
    input_index = i;
    language = r.language;
    source_id = r.provenance.source_id;
    source_record_id = r.provenance.record_id;
    token_count = length (tokens_of r);
    reason = reason;
  }

  -- How the records from an index on fall apart by the numbers of their tokens: those within both
  -- bounds, with their indices and lengths, and those below the lower or above the upper bound.
  pub data IsSplit
      : ℕ
        → List NormalizedTrainingRecord
        → List NormalizedTrainingRecord
        → List AcceptedTokenLength
        → List LengthRejectedTrainingRecord
        → Type 0 where
    none_left : (i : ℕ) → IsSplit i [] [] [] []
    within :
        {i : ℕ} {rs ks : List NormalizedTrainingRecord} {ls : List AcceptedTokenLength}
        {ds : List LengthRejectedTrainingRecord} (r : NormalizedTrainingRecord)
        → c.min_tokens ≤ length (tokens_of r)
        → length (tokens_of r) ≤ c.max_tokens
        → IsSplit (i + 1) rs ks ls ds
        → IsSplit i
            (r ∷ rs)
            (r ∷ ks)
            (record { input_index = i; token_count = length (tokens_of r) } ∷ ls)
            ds
    below_minimum :
        {i : ℕ} {rs ks : List NormalizedTrainingRecord} {ls : List AcceptedTokenLength}
        {ds : List LengthRejectedTrainingRecord} (r : NormalizedTrainingRecord)
        → length (tokens_of r) < c.min_tokens
        → IsSplit (i + 1) rs ks ls ds
        → IsSplit i (r ∷ rs) ks ls (rejection i r too_short ∷ ds)
    above_maximum :
        {i : ℕ} {rs ks : List NormalizedTrainingRecord} {ls : List AcceptedTokenLength}
        {ds : List LengthRejectedTrainingRecord} (r : NormalizedTrainingRecord)
        → c.min_tokens ≤ length (tokens_of r)
        → c.max_tokens < length (tokens_of r)
        → IsSplit (i + 1) rs ks ls ds
        → IsSplit i (r ∷ rs) ks ls (rejection i r too_long ∷ ds)

  abbrev pub reason_of : NormalizedTrainingRecord → Option LengthRejectionReason
  reason_of r = length_reason c (length (tokens_of r))

  -- What the tests of the loop make of the records; `kept-IsSplit` says what that is.
  unfoldable pub kept : List NormalizedTrainingRecord → List NormalizedTrainingRecord
  kept [] = []
  kept (r ∷ rs) = add_kept r (reason_of r) (kept rs)

  unfoldable pub kept_lengths : ℕ → List NormalizedTrainingRecord → List AcceptedTokenLength
  kept_lengths i [] = []
  kept_lengths i (r ∷ rs) =
      add_kept (record { input_index = i; token_count = length (tokens_of r) }) (reason_of r)
        (kept_lengths (i + 1) rs)

  unfoldable pub dropped : ℕ → List NormalizedTrainingRecord → List LengthRejectedTrainingRecord
  dropped i [] = []
  dropped i (r ∷ rs) =
      add_dropped (length_rejected i r (length (tokens_of r))) (reason_of r) (dropped (i + 1) rs)

  abbrev pub measured : List NormalizedTrainingRecord → List ℕ
  measured rs = map (λ r. length (tokens_of r)) rs

  pub record IsDescribed (i : ℕ) (rs : List NormalizedTrainingRecord)
      (before after : LengthFilterState) : Type 0 where
    pub accepted : after.accepted ≡ before.accepted ++ kept rs
    pub accepted_lengths : after.accepted_lengths ≡ before.accepted_lengths ++ kept_lengths i rs
    pub rejected : after.rejected ≡ before.rejected ++ dropped i rs
    pub counts :
        (reason : LengthRejectionReason)
        → after.counts reason ≡ before.counts reason + count_dropped reason (dropped i rs)
    pub all_lengths : after.all_lengths ≡ before.all_lengths ++ measured rs

  -- The state after one record, without the checks.
  abbrev placed :
      ℕ
      → NormalizedTrainingRecord
      → ℕ
      → Option LengthRejectionReason
      → LengthFilterState
      → LengthFilterState
  placed i r n none s = record s {
    accepted = s.accepted ++ (r ∷ []);
    accepted_lengths = s.accepted_lengths ++ (record { input_index = i; token_count = n } ∷ []);
  }
  placed i r n (some reason) s = record s {
    rejected = s.rejected ++ (length_rejected i r n reason ∷ []);
    counts = λ x. if reason == x then s.counts x + 1 else s.counts x;
  }

  place_length-placed :
      (i : ℕ) (r : NormalizedTrainingRecord) (n : ℕ) (o : Option LengthRejectionReason)
      (s : LengthFilterState)
      → 0 < n
      → place_length i r n o s ≡ ok (placed i r n o s)
  unfolding place_length check_accepted_length check_length_rejected
  place_length-placed i r n none s h = ground arith
  place_length-placed i r n (some reason) s h = ground arith

  nonempty : (ids : List ℤ) → null ids ≡ false → 0 < length ids
  nonempty [] h = ground arith
  nonempty (x ∷ ids) h = omega arith

  abbrev next_state : ℕ → NormalizedTrainingRecord → LengthFilterState → LengthFilterState
  next_state i r s =
      placed i r (length (tokens_of r)) (reason_of r)
        (record s { all_lengths = s.all_lengths ++ (length (tokens_of r) ∷ []) })

  length_step-next :
      (i : ℕ) (r : NormalizedTrainingRecord) (s : LengthFilterState)
      → require_chat_template t.chat_template ≡ ok template
      → null (tokens_of r) ≡ false
      → length_step t c i r s ≡ ok (next_state i r s)
  unfolding length_step tokenize_training_record
  length_step-next i r s e h =
      rw (e, h)
        (place_length-placed i r (length (tokens_of r)) (reason_of r) _ (nonempty (tokens_of r) h))

  module _ (i n : ℕ) (r : NormalizedTrainingRecord) (s : LengthFilterState) where
    placed-accepted :
        (o : Option LengthRejectionReason) (rest : List NormalizedTrainingRecord)
        → (placed i r n o s).accepted ++ rest ≡ s.accepted ++ add_kept r o rest
    placed-accepted none rest = append_assoc s.accepted (r ∷ []) rest
    placed-accepted (some reason) rest = refl

    placed-accepted_lengths :
        (o : Option LengthRejectionReason) (rest : List AcceptedTokenLength)
        → (placed i r n o s).accepted_lengths ++ rest
          ≡ s.accepted_lengths ++ add_kept (record { input_index = i; token_count = n }) o rest
    placed-accepted_lengths none rest = append_assoc s.accepted_lengths (_ ∷ []) rest
    placed-accepted_lengths (some reason) rest = refl

    placed-rejected :
        (o : Option LengthRejectionReason) (rest : List LengthRejectedTrainingRecord)
        → (placed i r n o s).rejected ++ rest
          ≡ s.rejected ++ add_dropped (length_rejected i r n) o rest
    placed-rejected none rest = refl
    placed-rejected (some reason) rest = append_assoc s.rejected (_ ∷ []) rest

    placed-counts :
        (o : Option LengthRejectionReason) (rest : List LengthRejectedTrainingRecord)
        (x : LengthRejectionReason)
        → (placed i r n o s).counts x + count_dropped x rest
          ≡ s.counts x + count_dropped x (add_dropped (length_rejected i r n) o rest)
    unfolding count_dropped
    placed-counts none rest x = refl
    placed-counts (some reason) rest x = ground arith

    placed-all_lengths :
        (o : Option LengthRejectionReason) → (placed i r n o s).all_lengths ≡ s.all_lengths
    placed-all_lengths none = refl
    placed-all_lengths (some reason) = refl

  loop-step :
      (i : ℕ) (r : NormalizedTrainingRecord) (rs : List NormalizedTrainingRecord)
      (s : LengthFilterState)
      → length_step t c i r s ≡ ok (next_state i r s)
      → length_loop t c i (r ∷ rs) s ≡ length_loop t c (i + 1) rs (next_state i r s)
  unfolding length_loop
  loop-step i r rs s h = rw h

  step-IsDescribed :
      (i : ℕ) (r : NormalizedTrainingRecord) (rs : List NormalizedTrainingRecord)
      (s after : LengthFilterState)
      → IsDescribed (i + 1) rs (next_state i r s) after
      → IsDescribed i (r ∷ rs) s after
  unfolding kept kept_lengths dropped
  step-IsDescribed i r rs s after d =
      let n = length (tokens_of r) in
      let o = reason_of r in
      let s1 = record s { all_lengths = s.all_lengths ++ (n ∷ []) } in
      record {
        accepted = d.accepted ∙ placed-accepted i n r s1 o (kept rs);
        accepted_lengths =
            d.accepted_lengths ∙ placed-accepted_lengths i n r s1 o (kept_lengths (i + 1) rs);
        rejected = d.rejected ∙ placed-rejected i n r s1 o (dropped (i + 1) rs);
        counts = λ x. d.counts x ∙ placed-counts i n r s1 o (dropped (i + 1) rs) x;
        all_lengths =
            d.all_lengths
            ∙ (ap (λ l. l ++ measured rs) (placed-all_lengths i n r s1 o)
                ∙ append_assoc s.all_lengths (n ∷ []) (measured rs));
      }

  pub loop-IsDescribed :
      (i : ℕ) (rs : List NormalizedTrainingRecord) (s : LengthFilterState)
      → require_chat_template t.chat_template ≡ ok template
      → All (λ r. null (tokens_of r) ≡ false) rs
      → (after : LengthFilterState) × ((length_loop t c i rs s ≡ ok after)
          × IsDescribed i rs s after)
  unfolding length_loop kept kept_lengths dropped count_dropped
  loop-IsDescribed i [] s e h = (
    s,
    (
      refl,
      record {
        accepted = sym (append-nil s.accepted);
        accepted_lengths = sym (append-nil s.accepted_lengths);
        rejected = sym (append-nil s.rejected);
        counts = λ x. omega arith;
        all_lengths = sym (append-nil s.all_lengths);
      },
    ),
  )
  loop-IsDescribed i (r ∷ rs) s e h =
      let rest = loop-IsDescribed (i + 1) rs (next_state i r s) e h.1 in
      (
        rest.0,
        (
          loop-step i r rs s (length_step-next i r s e h.0) ∙ rest.1.0,
          step-IsDescribed i r rs s rest.0 rest.1.1,
        ),
      )

  -- What the tests of the code say of a number of tokens.
  data Verdict (n : ℕ) : Option LengthRejectionReason → Type 0 where
    inside : c.min_tokens ≤ n → n ≤ c.max_tokens → Verdict n none
    too_few : n < c.min_tokens → Verdict n (some too_short)
    too_many : c.min_tokens ≤ n → c.max_tokens < n → Verdict n (some too_long)

  length_reason-Verdict : (n : ℕ) → Verdict n (length_reason c n)
  length_reason-Verdict n = elim (dec_lt n c.min_tokens) [
    | yes low ↦ subst (Verdict n) (ground arith) (too_few low)
    | no high ↦ elim (dec_lt c.max_tokens n) [
      | yes above ↦ subst (Verdict n) (ground arith) (too_many (omega arith) above)
      | no at_most ↦ subst (Verdict n) (ground arith) (inside (omega arith) (omega arith))
    ]
  ]

  Verdict-IsSplit :
      {i : ℕ} {rs ks : List NormalizedTrainingRecord} {ls : List AcceptedTokenLength}
      {ds : List LengthRejectedTrainingRecord} (r : NormalizedTrainingRecord)
      {o : Option LengthRejectionReason}
      → Verdict (length (tokens_of r)) o
      → IsSplit (i + 1) rs ks ls ds
      → IsSplit i
          (r ∷ rs)
          (add_kept r o ks)
          (add_kept (record { input_index = i; token_count = length (tokens_of r) }) o ls)
          (add_dropped (length_rejected i r (length (tokens_of r))) o ds)
  Verdict-IsSplit r (inside low high) s = within r low high s
  Verdict-IsSplit r (too_few low) s = below_minimum r low s
  Verdict-IsSplit r (too_many low high) s = above_maximum r low high s

  pub kept-IsSplit :
      (i : ℕ) (rs : List NormalizedTrainingRecord)
      → IsSplit i rs (kept rs) (kept_lengths i rs) (dropped i rs)
  unfolding kept kept_lengths dropped
  kept-IsSplit i [] = none_left i
  kept-IsSplit i (r ∷ rs) =
      Verdict-IsSplit r (length_reason-Verdict (length (tokens_of r))) (kept-IsSplit (i + 1) rs)
