-- ===== src/LossMasking/Completion.antt =====
-- What the completion-only fallback trains on.
use tiny_qwen_coder.Prelude.{
  ℕ, ◌≡◌, ◌<◌, refl, sym, subst, ap, ◌∙◌, Bool, true, false, not, ◌||◌, List, [], ◌∷◌, ◌++◌, length,
  take, drop, init, last?, replicate, ltb, leb, arith, length-append, take-append-drop, length-drop,
}
use tiny_qwen_coder.Prelude.Eq.{◌==◌, eq_of_==, list_eq}
use tiny_qwen_coder.Prelude.Int.{ℤ, negsuc, int_eq}
use tiny_qwen_coder.Prelude.Result.{Result, ok, raise_if, >>-ok, >>=-ok, raise_if-ok, ok-value}
use tiny_qwen_coder.LossMasking.{
  LossMaskingError, no_final_assistant, no_assistant_tokens, unstable_boundary, ChatMessage,
  TokenizedLossExample, labels, labels_of, check_example, completion_example, ends_with_assistant,
  tokenize_chat, completion_only_fallback,
}

labels_of-boundary :
    (g : ℤ) (prompt completion : List ℤ)
    → labels_of g
        (prompt ++ completion)
        (replicate (length prompt) false ++ replicate (length completion) true)
      ≡ replicate (length prompt) g ++ completion
unfolding labels_of
labels_of-boundary g [] [] = refl
labels_of-boundary g [] (t ∷ completion) = ap (λ r. t ∷ r) (labels_of-boundary g [] completion)
labels_of-boundary g (t ∷ prompt) completion =
    ap (λ r. g ∷ r) (labels_of-boundary g prompt completion)

prefix-drop :
    (prompt ids : List ℤ)
    → not (take (length prompt) ids == prompt) ≡ false
    → prompt ++ drop (length prompt) ids ≡ ids
prefix-drop prompt ids same =
    let start = eq_of_== (take (length prompt) ids) prompt (ground arith) in
    ap (λ t. t ++ drop (length prompt) ids) (sym start) ∙ take-append-drop (length prompt) ids

leb-false : (a b : ℕ) → leb a b ≡ false → b < a
leb-false a b h = ground arith

-- A prompt and its completion, as the tokenizer gives them, and the labels of the example.
pub record Trained (tokenize : List ChatMessage → Bool → Result LossMaskingError (List ℤ))
    (messages : List ChatMessage) (e : TokenizedLossExample) : Type 0 where
  pub prompt : List ℤ
  pub completion : List ℤ
  pub prompted : tokenize_chat tokenize (init messages) true ≡ ok prompt
  pub completed : tokenize_chat tokenize messages false ≡ ok (prompt ++ completion)
  pub nonempty : 0 < length completion
  pub inputs : e.input_ids ≡ prompt ++ completion
  pub labelled : labels e ≡ replicate (length prompt) (negsuc 99) ++ completion

module _ (tokenize : List ChatMessage → Bool → Result LossMaskingError (List ℤ)) where
  example-Trained :
      (messages : List ChatMessage) (prompt completion : List ℤ)
      → tokenize_chat tokenize (init messages) true ≡ ok prompt
      → tokenize_chat tokenize messages false ≡ ok (prompt ++ completion)
      → 0 < length completion
      → Trained tokenize messages (completion_example tokenize prompt (prompt ++ completion))
  unfolding labels
  example-Trained messages prompt completion p c h = record {
    prompt = prompt;
    completion = completion;
    prompted = p;
    completed = c;
    nonempty = h;
    inputs = refl;
    labelled =
        ap
          (λ n.
            labels_of (negsuc 99) (prompt ++ completion)
              (replicate (length prompt) false ++ replicate n true))
          (omega (arith, length-append prompt completion))
        ∙ labels_of-boundary (negsuc 99) prompt completion;
  }

  accepted-Trained :
      (messages : List ChatMessage) (prompt ids : List ℤ)
      → tokenize_chat tokenize (init messages) true ≡ ok prompt
      → tokenize_chat tokenize messages false ≡ ok ids
      → leb (length ids) (length prompt) ≡ false
      → not (take (length prompt) ids == prompt) ≡ false
      → Trained tokenize messages (completion_example tokenize prompt ids)
  accepted-Trained messages prompt ids p c longer same =
      let whole = prefix-drop prompt ids same in
      subst (λ x. Trained tokenize messages (completion_example tokenize prompt x)) whole
        (example-Trained messages prompt (drop (length prompt) ids) p (c ∙ ap ok (sym whole)) (
          omega (
            arith,
            leb-false (length ids) (length prompt) longer,
            length-drop (length prompt) ids,
          )))

  -- When the fallback gives an example, the completed conversation is the prompt's tokens followed
  -- by one token or more, and the labels ignore exactly the prompt's tokens.
  pub completion_only_fallback-Trained :
      (messages : List ChatMessage) (e : TokenizedLossExample)
      → completion_only_fallback tokenize messages ≡ ok e
      → Trained tokenize messages e
  unfolding completion_only_fallback
  completion_only_fallback-Trained messages e h =
      let a =
        >>-ok
          (raise_if (ltb (length messages) 2 || not (ends_with_assistant tokenize (last? messages)))
            no_final_assistant)
          _ _ h in
      let b = >>=-ok (tokenize_chat tokenize (init messages) true) _ _ a.1 in
      let c = >>=-ok (tokenize_chat tokenize messages false) _ _ b.1.1 in
      let d = >>-ok (raise_if (leb (length c.0) (length b.0)) no_assistant_tokens) _ _ c.1.1 in
      let f = >>-ok (raise_if (not (take (length b.0) c.0 == b.0)) unstable_boundary) _ _ d.1 in
      let g = >>-ok (check_example (completion_example tokenize b.0 c.0)) _ _ f.1 in
      subst (Trained tokenize messages) (ok-value _ _ g.1)
        (accepted-Trained messages b.0 c.0 b.1.0 c.1.0 (raise_if-ok _ _ d.0) (raise_if-ok _ _ f.0))
