-- ===== src/Data/Filtering/Accepted.antt =====
-- What is true of every record that the filter accepts.
use tiny_qwen_coder.Prelude.{
  subst, ◌≡◌, refl, true, false, List, [], ◌∷◌, Option, none, some, null, arith, Bool-cases, inl,
  inr, All, sym, ◌≢◌,
}
use tiny_qwen_coder.Prelude.Eq.{from_keys}
use tiny_qwen_coder.Prelude.Result.{ok}
use tiny_qwen_coder.TextNormalization.{Text, utf8_encodable, normalize_training_text}
use tiny_qwen_coder.TextNormalization.Idempotence.{HasNoCr, normalize_training_text-clean}
use tiny_qwen_coder.Data.Records.{
  system, user, assistant, role_beq, role_eq, TrainingMessage, is_blank, NormalizedTrainingRecord,
}
use tiny_qwen_coder.Data.Filtering.{
  reason_eq, has_blank, conversation_is_well_formed, content_rejection_reasons, unique_reasons,
  examine, normalize_messages, normalize_record_text, RequiredContentFilterReport,
  filter_required_content,
}
use tiny_qwen_coder.Data.Filtering.Conversation.{Conversation, conversation_is_well_formed_iff}
use tiny_qwen_coder.Data.Filtering.Report.{
  accepted_of, expected_report, filter_required_content-report,
}

-- A message's text is normal, and not blank if a user or the assistant speaks.
pub record IsUsable (m : TrainingMessage) : Type 0 where
  pub encodable : utf8_encodable m.content ≡ true
  pub no_cr : HasNoCr m.content
  pub spoken : m.role ≢ system → is_blank m.content ≡ false

pub record IsAcceptable (r : NormalizedTrainingRecord) : Type 0 where
  pub conversation : Conversation r.messages
  pub usable : All IsUsable r.messages

abbrev IsNormal : TrainingMessage → Type 0
IsNormal m = (utf8_encodable m.content ≡ true) × HasNoCr m.content

normalize_messages-cons :
    (m : TrainingMessage) (ms ns : List TrainingMessage)
    → normalize_messages (m ∷ ms) ≡ some ns
    → (c : Text) × (ms' : List TrainingMessage) × (normalize_training_text m.content ≡ some c)
      × (normalize_messages ms ≡ some ms')
      × (ns ≡ record m { content = c } ∷ ms')
unfolding normalize_messages
normalize_messages-cons m ms ns h = ground arith

normalize_messages-nil : (ns : List TrainingMessage) → normalize_messages [] ≡ some ns → [] ≡ ns
unfolding normalize_messages
normalize_messages-nil ns h = cc

normalize_messages-IsNormal :
    (ms ns : List TrainingMessage) → normalize_messages ms ≡ some ns → All IsNormal ns
normalize_messages-IsNormal [] ns h = subst (All IsNormal) (normalize_messages-nil ns h) tt
normalize_messages-IsNormal (m ∷ ms) ns h =
    let (c, ms', normal, rest, same) = normalize_messages-cons m ms ns h in
    let (no_cr, enc) = normalize_training_text-clean m.content c normal in
    subst (All IsNormal) (sym same) ((enc, no_cr), normalize_messages-IsNormal ms ms' rest)

IsUsable-of :
    (ms : List TrainingMessage)
    → All IsNormal ms
    → has_blank user ms ≡ false
    → has_blank assistant ms ≡ false
    → All IsUsable ms
unfolding role_beq
IsUsable-of [] n u a = tt
IsUsable-of (m ∷ ms) n u a = (
  record { encodable = n.0.0; no_cr = n.0.1; spoken = λ s. ground arith },
  IsUsable-of ms n.1 (ground arith) (ground arith),
)

reasons-nil :
    (n : NormalizedTrainingRecord)
    → null (from_keys [] (content_rejection_reasons n)) ≡ true
    → (conversation_is_well_formed n.messages ≡ true)
      × (has_blank user n.messages ≡ false)
      × (has_blank assistant n.messages ≡ false)
unfolding content_rejection_reasons from_keys
reasons-nil n h = ground arith

messages-normalize :
    (r n : NormalizedTrainingRecord)
    → normalize_record_text r ≡ some n
    → normalize_messages r.messages ≡ some n.messages
unfolding normalize_record_text
messages-normalize r n h = ground arith

unique_reasons-IsAcceptable :
    (r : NormalizedTrainingRecord) (o : Option NormalizedTrainingRecord)
    → normalize_record_text r ≡ o
    → null (unique_reasons r o).1 ≡ true
    → IsAcceptable (unique_reasons r o).0
unfolding unique_reasons
unique_reasons-IsAcceptable r none e h = absurd (unfold from_keys in cc h)
unique_reasons-IsAcceptable r (some n) e h =
    let (well_formed, no_user, no_assistant) = reasons-nil n h in
    record {
      conversation = (conversation_is_well_formed_iff n.messages).0 well_formed;
      usable =
          IsUsable-of n.messages
            (normalize_messages-IsNormal r.messages n.messages (messages-normalize r n e)) no_user
            no_assistant;
    }

examine-IsAcceptable :
    (r : NormalizedTrainingRecord) → null (examine r).1 ≡ true → IsAcceptable (examine r).0
unfolding examine
examine-IsAcceptable r h = unique_reasons-IsAcceptable r (normalize_record_text r) refl h

accepted_of-IsAcceptable : (rs : List NormalizedTrainingRecord) → All IsAcceptable (accepted_of rs)
unfolding accepted_of
accepted_of-IsAcceptable [] = tt
accepted_of-IsAcceptable (r ∷ rs) = elim (Bool-cases (null (examine r).1)) [
  | inl e ↦ rw e (examine-IsAcceptable r e, accepted_of-IsAcceptable rs)
  | inr e ↦ rw e (accepted_of-IsAcceptable rs)
]

-- Every record in the report's accepted records is a conversation, of messages whose texts encode
-- and hold no carriage return, and whose user and assistant messages are not blank.
pub filter_required_content-IsAcceptable :
    (rs : List NormalizedTrainingRecord) (report : RequiredContentFilterReport)
    → filter_required_content rs ≡ ok report
    → All IsAcceptable report.accepted_records
filter_required_content-IsAcceptable rs report h =
    let same : expected_report rs ≡ report = cc (h, filter_required_content-report rs) in
    subst (λ (t : RequiredContentFilterReport). All IsAcceptable t.accepted_records) same
      (accepted_of-IsAcceptable rs)
