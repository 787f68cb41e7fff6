-- ===== src/Data/Deduplication/RepeatedMarks.antt =====
-- Texts with repeated byte-order marks: the digest is taken of texts that were normalised more
-- often than those that are compared.
use tiny_qwen_coder.Prelude.{
  ◌≡◌, ◌≢◌, length, ap, ◌∙◌, true, false, List, [], ◌∷◌, none, some, arith,
}
use tiny_qwen_coder.Prelude.Eq.{nat_eq, list_eq, ==_refl, ==_of_ne, list_beq}
use tiny_qwen_coder.Prelude.Lookup.{lookup, insert}
use tiny_qwen_coder.Prelude.Result.{ok, err, ◌>>=◌}
use tiny_qwen_coder.TextNormalization.{
  Text, bom, utf8_encodable, replace_cr, replace_crlf, normalize_training_text,
}
use tiny_qwen_coder.TextNormalization.Idempotence.{
  HasNoCr, starts_with_bom, replace_cr_fixed, replace_crlf_fixed,
}
use tiny_qwen_coder.TextNormalization.LineEndings.{normalize_plain, normalize_bom}
use tiny_qwen_coder.Data.Records.{
  user, assistant, role_beq, TrainingMessage, message_beq, NormalizedTrainingRecord,
}
use tiny_qwen_coder.Data.Filtering.{normalize_messages, normalize_record_text}
use tiny_qwen_coder.Data.Deduplication.{
  RecordContentFingerprint, content_collision, is_sha256_digest, check_fingerprint,
  source_record_identity,
}
use tiny_qwen_coder.Data.Deduplication.Payload.{prompt_payload, response_payload, record_payload}
use tiny_qwen_coder.Data.Deduplication.Run.{
  initial, content_duplicate_of, source_duplicate_of, enter_source, place, dedup_step, prepare,
  normalized_record_fingerprint, normalized_prompt_sha256, normalized_response_sha256, dedup_from,
  deduplicate_exact_records,
}

-- A text that normalisation leaves as it is, also behind a byte-order mark that it removes.
pub record IsPlain (t : Text) : Type 0 where
  pub encodable : utf8_encodable t ≡ true
  pub no_cr : HasNoCr t
  pub unmarked : starts_with_bom t ≡ false

replace_plain : {t : Text} → HasNoCr t → replace_cr (replace_crlf t) ≡ t
replace_plain {t} h = rw (replace_crlf_fixed t h) (replace_cr_fixed t h)

normalize-plain : {t : Text} → IsPlain t → normalize_training_text t ≡ some t
normalize-plain {t} p = normalize_plain t p.encodable p.unmarked ∙ ap some (replace_plain p.no_cr)

normalize-marked : {t : Text} → IsPlain t → normalize_training_text (bom ∷ t) ≡ some t
normalize-marked {t} p = normalize_bom t p.encodable ∙ ap some (replace_plain p.no_cr)

encodable-marked : {t : Text} → IsPlain t → utf8_encodable (bom ∷ t) ≡ true
unfolding utf8_encodable
encodable-marked p = p.encodable

normalize-marked_twice :
    {t : Text} → IsPlain t → normalize_training_text (bom ∷ bom ∷ t) ≡ some (bom ∷ t)
normalize-marked_twice {t} p =
    normalize_bom (bom ∷ t) (encodable-marked p)
    ∙ ap some (replace_plain {t = bom ∷ t} (omega arith, p.no_cr))

abbrev conversation : Text → Text → List TrainingMessage
conversation prompt response =
    record { role = user; content = prompt } ∷ record { role = assistant; content = response } ∷ []

-- A record of one round.
abbrev pub with_texts : NormalizedTrainingRecord → Text → Text → NormalizedTrainingRecord
with_texts r prompt response = record r { messages = conversation prompt response }

normalize_record_text-with :
    (r : NormalizedTrainingRecord) (t' t a' a : Text)
    → normalize_training_text t' ≡ some t
    → normalize_training_text a' ≡ some a
    → normalize_record_text (with_texts r t' a') ≡ some (with_texts r t a)
unfolding normalize_record_text normalize_messages
normalize_record_text-with r t' t a' a p q = ground arith

bom∷-ne : (t : Text) → bom ∷ t ≢ t
bom∷-ne t e = absurd (omega (arith, ap (λ (s : Text). length s) e))

module _ (sha256 : Text → Text) (digests : (t : Text) → is_sha256_digest (sha256 t) ≡ true) where
  abbrev fingerprint_of : Text → Text → RecordContentFingerprint
  fingerprint_of t a =
      let p = sha256 (prompt_payload (record { role = user; content = t } ∷ [])) in
      let r = sha256 (response_payload a) in
      record { prompt_sha256 = p; response_sha256 = r; record_sha256 = sha256 (record_payload p r) }

  check_fingerprint-ok : (t a : Text) → check_fingerprint (fingerprint_of t a) ≡ ok tt
  unfolding check_fingerprint
  check_fingerprint-ok t a =
      let f = fingerprint_of t a in
      ground (
        arith,
        digests (prompt_payload (record { role = user; content = t } ∷ [])),
        digests (response_payload a),
        digests (record_payload f.prompt_sha256 f.response_sha256),
      )

  normalized_prompt-plain :
      (t : Text)
      → IsPlain t
      → normalized_prompt_sha256 sha256 (record { role = user; content = t } ∷ [])
        ≡ ok (sha256 (prompt_payload (record { role = user; content = t } ∷ [])))
  unfolding normalized_prompt_sha256 normalize_messages
  normalized_prompt-plain t p = ground (arith, normalize-plain p)

  normalized_response-plain :
      (a : Text)
      → IsPlain a
      → normalized_response_sha256 sha256 a ≡ ok (sha256 (response_payload a))
  unfolding normalized_response_sha256
  normalized_response-plain a p = rw (normalize-plain p)

  fingerprint_of-normal :
      (r : NormalizedTrainingRecord) (t' t a' a : Text)
      → normalize_training_text t' ≡ some t
      → normalize_training_text a' ≡ some a
      → IsPlain t
      → IsPlain a
      → normalized_record_fingerprint sha256 (with_texts r t' a') ≡ ok (fingerprint_of t a)
  unfolding normalized_record_fingerprint role_beq
  fingerprint_of-normal r t' t a' a p q pt pa = rw (normalize_record_text-with r t' t a' a p q) (
      ground (
        arith,
        normalized_prompt-plain t pt,
        normalized_response-plain a pa,
        check_fingerprint-ok t a,
      ))

  prepare-with :
      (r : NormalizedTrainingRecord) (t'' t' t a : Text)
      → normalize_training_text t'' ≡ some t'
      → normalize_training_text t' ≡ some t
      → IsPlain t
      → IsPlain a
      → prepare sha256 (with_texts r t'' a) ≡ ok (with_texts r t' a, fingerprint_of t a)
  unfolding prepare
  prepare-with r t'' t' t a p q pt pa =
      rw (normalize_record_text-with r t'' t' a a p (normalize-plain pa))
        (rw (fingerprint_of-normal r t' t a a q (normalize-plain pa) pt pa))

  -- The two steps of the loop on one fingerprint with two texts.
  second_step :
      (r : NormalizedTrainingRecord) (t a : Text)
      → r.provenance.record_id ≡ none
      → (do
        s ← dedup_step 0 (with_texts r (bom ∷ t) a, fingerprint_of t a) initial
        dedup_step 1 (with_texts r t a, fingerprint_of t a) s)
        ≡ err content_collision
  unfolding dedup_step content_duplicate_of source_duplicate_of source_record_identity place lookup
      insert enter_source list_beq message_beq role_beq
  second_step r t a e =
      let h = sha256 (
        record_payload (sha256 (prompt_payload (record { role = user; content = t } ∷ [])))
          (sha256 (response_payload a))) in
      ground (arith, ==_refl h, ==_of_ne (bom ∷ t) t (bom∷-ne t))

  -- Deduplication refuses two records without an upstream id, of one round each, of which the second
  -- has the prompt of the first without its two byte-order marks: it reports a collision of the
  -- digest, whatever function to 64 hexadecimal digits the digest is. The response and the rest of
  -- the prompt encode, have no carriage return and do not start with a byte-order mark.
  pub deduplicate_exact_records-repeated_marks :
      (r : NormalizedTrainingRecord) (t a : Text)
      → r.provenance.record_id ≡ none
      → IsPlain t
      → IsPlain a
      → deduplicate_exact_records sha256 (with_texts r (bom ∷ bom ∷ t) a ∷ with_texts r t a ∷ [])
        ≡ err content_collision
  unfolding deduplicate_exact_records dedup_from
  deduplicate_exact_records-repeated_marks r t a e pt pa =
      rw
        (
          prepare-with r (bom ∷ bom ∷ t) (bom ∷ t) t a (normalize-marked_twice pt)
              (normalize-marked pt) pt pa,
          prepare-with r t t t a (normalize-plain pt) (normalize-plain pt) pt pa,
        )
        (ground (arith, second_step r t a e))
