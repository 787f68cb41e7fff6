-- ===== src/TrajectoryAlignment/Evidence.antt =====
-- Which log probabilities can be bound to an aligned trajectory.
use tiny_qwen_coder.Prelude.{
  ◌≡◌, ◌↔◌, refl, sym, ◌∙◌, Bool, true, false, not, ◌||◌, List, [], ◌∷◌, ◌++◌, all, null, length,
  All, some, arith, not-false,
}
use tiny_qwen_coder.Prelude.Eq.{◌==◌, ==_refl, nat_eq, list_eq}
use tiny_qwen_coder.Prelude.Int.{ℤ, is_negative}
use tiny_qwen_coder.Prelude.Result.{ok, ◌>>◌, raise_if, >>-ok, raise_if-ok, ok-value}
use tiny_qwen_coder.TextNormalization.{Text}
use tiny_qwen_coder.Json.{Json}
use tiny_qwen_coder.TokenLedger.{
  awaiting_prompt_append, state_beq, AssistantOutputRecord, check_tokens, check_output, check_index,
  no_tokens,
}
use tiny_qwen_coder.TokenLedger.Session.{Ledger, ledger_state}
use tiny_qwen_coder.TokenLedger.Chain.{TokenLedgerSnapshot, snapshot}
use tiny_qwen_coder.TokenLedger.Persisted.{token_values}
use tiny_qwen_coder.TokenLedger.Preserved.{ValidOutput, Reachable, Reachable→IsConsistent}
use tiny_qwen_coder.TrajectoryAlignment.{
  is_sha256, sha, RolloutPolicyIdentity, bad_log_prob, log_prob_count,
}
use tiny_qwen_coder.TrajectoryAlignment.Described.{output_tokens}
use tiny_qwen_coder.TrajectoryAlignment.Bound.{
  trajectory_id, policy_sha256, RolloutLogProbEvidence, AlignedRolloutTrajectory, check_log_probs,
  check_evidence, check_aligned, check_bound, bind_rollout_log_probs,
}
use tiny_qwen_coder.TrajectoryAlignment.Spans.{sha-ok, digest-ok}
use tiny_qwen_coder.TrajectoryAlignment.Run.{AllSegments}
use tiny_qwen_coder.TrajectoryAlignment.Completed.{described_arrays, actions_nonempty}
use tiny_qwen_coder.TrajectoryAlignment.Aligned.{described_trajectory, described-check_aligned}

abbrev is_token : ℤ → Bool
is_token t = not (is_negative t)

all-append {ℓ} :
    {A : Type ℓ} (p : A → Bool) (xs ys : List A)
    → all p xs ≡ true
    → all p ys ≡ true
    → all p (xs ++ ys) ≡ true
all-append p [] ys h k = k
all-append p (x ∷ xs) ys h k = ground (arith, all-append p xs ys)

output-tokens : (o : AssistantOutputRecord) → ValidOutput o → all is_token o.output_ids ≡ true
unfolding check_output check_tokens
output-tokens o v =
    let a = >>-ok (check_index o.turn_index) _ _ v in
    let b = >>-ok (check_tokens o.output_ids) _ _ a.1 in
    let c = >>-ok (raise_if (null o.output_ids) no_tokens) _ _ b.0 in
    not-false (all is_token o.output_ids) (raise_if-ok _ _ c.1)

all-output_tokens :
    (os : List AssistantOutputRecord) → All ValidOutput os → all is_token (output_tokens os) ≡ true
unfolding output_tokens
all-output_tokens [] v = refl
all-output_tokens (o ∷ os) v =
    all-append is_token o.output_ids (output_tokens os) (output-tokens o v.0)
      (all-output_tokens os v.1)

nonempty_tokens :
    (ids : List ℤ) → null ids ≡ false → all is_token ids ≡ true → check_tokens ids ≡ ok tt
unfolding check_tokens
nonempty_tokens ids h k = rw (h, k)

null-length {ℓ κ} :
    {A : Type ℓ} {B : Type κ} (xs : List A) (ys : List B)
    → length xs ≡ length ys
    → null ys ≡ false
    → null xs ≡ false
null-length [] (y ∷ ys) h k = absurd (omega (arith, h))
null-length (x ∷ xs) ys h k = refl
null-length [] [] h k = k

module _ (Float : Type 0) (is_finite is_positive : Float → Bool) where
  -- A finite float that is not above zero.
  abbrev pub IsLogProb : Float → Type 0
  IsLogProb x = (is_finite x ≡ true) × (is_positive x ≡ false)

  check_log_probs_iff :
      (xs : List Float)
      → (check_log_probs Float is_finite is_positive xs ≡ ok tt) ↔ All IsLogProb xs
  unfolding check_log_probs
  check_log_probs_iff [] = (λ h. tt, λ h. refl)
  check_log_probs_iff (x ∷ xs) = (
    λ h.
        let a = >>-ok (raise_if (not (is_finite x) || is_positive x) bad_log_prob) _ _ h in
        let b = raise_if-ok _ _ a.0 in
        ((ground arith, ground arith), (check_log_probs_iff xs).0 a.1),
    λ h. rw (h.0.0, h.0.1) ((check_log_probs_iff xs).1 h.1),
  )

  module _ (dumps : Json → Text) (sha256 : Text → Text) where
    abbrev pub exact_evidence :
        AlignedRolloutTrajectory Float → List Float → RolloutLogProbEvidence Float
    exact_evidence a xs = record {
      trajectory_id = trajectory_id dumps sha256 a.ledger a.policy;
      policy_sha256 = policy_sha256 dumps sha256 a.policy;
      action_token_ids_sha256 = sha256 (dumps (token_values a.arrays.action_token_ids));
      log_probs = xs;
    }

    abbrev pub with_log_probs :
        AlignedRolloutTrajectory Float → List Float → AlignedRolloutTrajectory Float
    with_log_probs a xs = record a { rollout_log_probs = some (exact_evidence a xs) }

    module _ (hex : (t : Text) → is_sha256 (sha256 t) ≡ true) where
      sha-trajectory_id :
          (s : TokenLedgerSnapshot) (policy : RolloutPolicyIdentity)
          → sha (trajectory_id dumps sha256 s policy) ≡ ok tt
      unfolding trajectory_id
      sha-trajectory_id s policy = sha-ok dumps sha256 hex _

      sha-policy_sha256 :
          (policy : RolloutPolicyIdentity) → sha (policy_sha256 dumps sha256 policy) ≡ ok tt
      unfolding policy_sha256
      sha-policy_sha256 policy = sha-ok dumps sha256 hex _

      check_evidence-exact :
          (a : AlignedRolloutTrajectory Float) (xs : List Float)
          → null xs ≡ false
          → check_evidence Float is_finite is_positive (exact_evidence a xs)
            ≡ check_log_probs Float is_finite is_positive xs
      unfolding check_evidence
      check_evidence-exact a xs n = rw (
        sha-trajectory_id a.ledger a.policy,
        sha-policy_sha256 a.policy,
        sha-ok dumps sha256 hex (dumps (token_values a.arrays.action_token_ids)),
        n,
      )

      check_bound-exact :
          (a : AlignedRolloutTrajectory Float) (xs : List Float)
          → check_tokens a.arrays.action_token_ids ≡ ok tt
          → length xs ≡ length a.arrays.action_token_ids
          → check_bound dumps sha256 Float (with_log_probs a xs) (some (exact_evidence a xs))
            ≡ ok tt
      unfolding check_bound
      check_bound-exact a xs k e = rw (
        ==_refl (trajectory_id dumps sha256 a.ledger a.policy),
        ==_refl (policy_sha256 dumps sha256 a.policy),
        digest-ok dumps sha256 hex a.arrays.action_token_ids k,
        ==_refl (sha256 (dumps (token_values a.arrays.action_token_ids))),
        e,
        ==_refl (length a.arrays.action_token_ids),
      )

      -- The calls of the function, when the trajectory's own check comes down to the last test.
      bind-steps :
          (a : AlignedRolloutTrajectory Float) (xs : List Float)
          → check_tokens a.arrays.action_token_ids ≡ ok tt
          → null a.arrays.action_token_ids ≡ false
          → check_aligned dumps sha256 Float (with_log_probs a xs)
            ≡ check_bound dumps sha256 Float (with_log_probs a xs) (some (exact_evidence a xs))
          → length xs ≡ length a.arrays.action_token_ids
          → bind_rollout_log_probs dumps sha256 Float is_finite is_positive a xs
            ≡ (check_log_probs Float is_finite is_positive xs >> ok (with_log_probs a xs))
      unfolding bind_rollout_log_probs
      bind-steps a xs k n c e = rw (
        e,
        ==_refl (length a.arrays.action_token_ids),
        digest-ok dumps sha256 hex a.arrays.action_token_ids k,
        check_evidence-exact a xs (null-length xs a.arrays.action_token_ids e n),
        c,
        check_bound-exact a xs k e,
      )

      bind-length :
          (a b : AlignedRolloutTrajectory Float) (xs : List Float)
          → bind_rollout_log_probs dumps sha256 Float is_finite is_positive a xs ≡ ok b
          → length xs ≡ length a.arrays.action_token_ids
      unfolding bind_rollout_log_probs
      bind-length a b xs h =
          let s =
            >>-ok (raise_if (not (length xs == length a.arrays.action_token_ids)) log_prob_count) _
              _ h in
          ground (arith, raise_if-ok _ _ s.0)

      -- The outputs of a completed ledger are tokens, and not empty.
      actions_checked :
          (l : Ledger)
          → Reachable l
          → state_beq (ledger_state l) awaiting_prompt_append ≡ true
          → (null (output_tokens l.outputs) ≡ false)
            × (check_tokens (output_tokens l.outputs) ≡ ok tt)
      unfolding ledger_state
      actions_checked l r a =
          let w = Reachable→IsConsistent l r in
          let n =
            actions_nonempty dumps sha256 hex l.prompts l.outputs w.chain a w.prompts w.outputs in
          (n, nonempty_tokens (output_tokens l.outputs) n (all-output_tokens l.outputs w.outputs))

      -- To the alignment, under a policy with its base model, of a ledger that the constructor and the
      -- operations gave, that ends after an output and whose segments their own checks accept,
      -- exactly the log probabilities are bound that are one for each action token, finite and not
      -- above zero. The trajectory then holds them with the digests of its own identity, policy and
      -- action tokens. The digest function gives 64 hexadecimal digits.
      pub bind_rollout_log_probs_iff :
          (l : Ledger) (s : TokenLedgerSnapshot) (policy : RolloutPolicyIdentity) (xs : List Float)
          (b : AlignedRolloutTrajectory Float)
          → Reachable l
          → AllSegments l.outputs
          → state_beq (ledger_state l) awaiting_prompt_append ≡ true
          → policy.base_model ≡ l.identity.base_model
          → snapshot l ≡ ok s
          → (bind_rollout_log_probs dumps sha256 Float is_finite is_positive
                (described_trajectory dumps sha256 Float l s policy)
                xs
              ≡ ok b)
            ↔ ((length xs ≡ length (output_tokens l.outputs))
                × (All IsLogProb xs
                    × (b ≡ with_log_probs (described_trajectory dumps sha256 Float l s policy) xs)))
      unfolding described_arrays
      bind_rollout_log_probs_iff l s policy xs b r v st m h =
          let a = described_trajectory dumps sha256 Float l s policy in
          let (n, k) = actions_checked l r st in
          let checked =
            described-check_aligned dumps sha256 Float hex l s (with_log_probs a xs) r v st h m refl
              refl refl in
          let steps = bind-steps a xs k n checked in
          (
            λ g.
                let e = bind-length a b xs g in
                let c =
                  >>-ok (check_log_probs Float is_finite is_positive xs) _ _ (sym (steps e) ∙ g) in
                (e, ((check_log_probs_iff xs).0 c.0, sym (ok-value _ _ c.1))),
            λ (e, (c, eb)). steps e ∙ rw ((check_log_probs_iff xs).1 c, eb),
          )
