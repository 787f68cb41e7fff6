-- ===== src/Data/Filtering/Conversation.antt =====
-- The conversations that the filter accepts, as an inductive relation on the messages.
use tiny_qwen_coder.Prelude.{
  ◌≡◌, ◌↔◌, Bool, true, not, ◌&&◌, List, [], ◌∷◌, null, arith, Bool-cases, inl, inr, &&-split, sym,
  ◌∙◌, ◌≢◌,
}
use tiny_qwen_coder.Prelude.Eq.{◌==◌}
use tiny_qwen_coder.Data.Records.{
  system, user, assistant, role_beq, role_beq_iff, role_eq, TrainingMessage,
}
use tiny_qwen_coder.Data.Filtering.{
  roles_alternate, ends_with_assistant, conversation_is_well_formed,
}

-- Rounds of a user turn and the assistant's answer.
pub data Rounds : List TrainingMessage → Type 0 where
  last_round : (u a : TrainingMessage) → u.role ≡ user → a.role ≡ assistant → Rounds (u ∷ a ∷ [])
  round :
      (u a : TrainingMessage) {ms : List TrainingMessage}
      → u.role ≡ user
      → a.role ≡ assistant
      → Rounds ms
      → Rounds (u ∷ a ∷ ms)

-- Rounds, with at most one system message before them.
pub data Conversation : List TrainingMessage → Type 0 where
  plain : {ms : List TrainingMessage} → Rounds ms → Conversation ms
  with_system :
      (s : TrainingMessage) {ms : List TrainingMessage}
      → s.role ≡ system
      → Rounds ms
      → Conversation (s ∷ ms)

abbrev alternates : List TrainingMessage → Bool
alternates ms = not (null ms) && roles_alternate user ms && ends_with_assistant ms

alternates-round :
    (u a m : TrainingMessage) (ms : List TrainingMessage)
    → alternates (u ∷ a ∷ m ∷ ms) ≡ (u.role == user && (a.role == assistant && alternates (m ∷ ms)))
unfolding roles_alternate role_beq
alternates-round u a m ms = ground arith

alternates→Rounds : (ms : List TrainingMessage) → alternates ms ≡ true → Rounds ms
unfolding roles_alternate
alternates→Rounds [] h = absurd (ground arith)
alternates→Rounds (u ∷ []) h =
    absurd (ground (arith, role_beq_iff u.role user, role_beq_iff u.role assistant))
alternates→Rounds (u ∷ a ∷ []) h =
    last_round u a (ground (arith, role_beq_iff u.role user))
      (ground (arith, role_beq_iff a.role assistant))
alternates→Rounds (u ∷ a ∷ m ∷ ms) h =
    let (first, others) = &&-split (u.role == user) _ (sym (alternates-round u a m ms) ∙ h) in
    let (second, rest) = &&-split (a.role == assistant) _ others in
    round u a ((role_beq_iff u.role user).0 first) ((role_beq_iff a.role assistant).0 second)
      (alternates→Rounds (m ∷ ms) rest)

Rounds→alternates : {ms : List TrainingMessage} → Rounds ms → alternates ms ≡ true
unfolding roles_alternate role_beq
Rounds→alternates (last_round u a p q) = ground arith
Rounds→alternates (round u a {ms = []} p q r) = absurd (ground (arith, Rounds→alternates r))
Rounds→alternates (round u a {ms = m ∷ ms} p q r) =
    ground (arith, alternates-round u a m ms, Rounds→alternates r)

well_formed-system :
    (s : TrainingMessage) (ms : List TrainingMessage)
    → s.role ≡ system
    → conversation_is_well_formed (s ∷ ms) ≡ alternates ms
unfolding conversation_is_well_formed role_beq
well_formed-system s [] h = ground arith
well_formed-system s (m ∷ ms) h = ground arith

well_formed-other :
    (s : TrainingMessage) (ms : List TrainingMessage)
    → s.role ≢ system
    → conversation_is_well_formed (s ∷ ms) ≡ alternates (s ∷ ms)
unfolding conversation_is_well_formed
well_formed-other s ms h = ground (arith, role_beq_iff s.role system)

Rounds-starts_user :
    {s : TrainingMessage} {ms : List TrainingMessage} → Rounds (s ∷ ms) → s.role ≡ user
Rounds-starts_user (last_round u a p q) = p
Rounds-starts_user (round u a p q r) = p

well_formed→Conversation :
    (ms : List TrainingMessage) → conversation_is_well_formed ms ≡ true → Conversation ms
well_formed→Conversation [] h = absurd (unfold conversation_is_well_formed in cc h)
well_formed→Conversation (s ∷ ms) h = elim (Bool-cases (s.role == system)) [
  | inl e ↦
      let is_system = (role_beq_iff s.role system).0 e in
      with_system s is_system (alternates→Rounds ms (sym (well_formed-system s ms is_system) ∙ h))
  | inr e ↦ plain (
      alternates→Rounds (s ∷ ms)
        (sym (well_formed-other s ms (λ p. ground (arith, role_beq_iff s.role system))) ∙ h))
]

Conversation→well_formed :
    {ms : List TrainingMessage} → Conversation ms → conversation_is_well_formed ms ≡ true
Conversation→well_formed (plain {ms = []} r) =
    absurd (unfold roles_alternate in ground (arith, Rounds→alternates r))
Conversation→well_formed (plain {ms = s ∷ ms} r) =
    well_formed-other s ms (λ p. cc (p, Rounds-starts_user r)) ∙ Rounds→alternates r
Conversation→well_formed (with_system s {ms} p r) = well_formed-system s ms p ∙ Rounds→alternates r

-- The source's test on the messages accepts exactly the conversations: at most one system message,
-- then one round or more of a user message and an assistant message.
pub conversation_is_well_formed_iff :
    (ms : List TrainingMessage) → (conversation_is_well_formed ms ≡ true) ↔ Conversation ms
conversation_is_well_formed_iff ms = (well_formed→Conversation ms, Conversation→well_formed)
