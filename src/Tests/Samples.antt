-- ===== src/Tests/Samples.antt =====
-- Small records, texts and a stand-in for the digest.
use tiny_qwen_coder.Prelude.{ℕ, ◌+◌, ◌%◌, List, [], ◌∷◌, Option, none, replicate}
use tiny_qwen_coder.TextNormalization.{Text}
use tiny_qwen_coder.Data.Records.{
  user, assistant, TrainingMessage, SourceProvenance, NormalizedTrainingRecord,
}
use tiny_qwen_coder.Data.Deduplication.Payload.{codes}

abbrev pub code_sum : Text → ℕ
code_sum [] = 0
code_sum (c ∷ t) = c + code_sum t

-- A digest that tells texts apart by the last digit of the sum of their code points.
abbrev pub sum_digest : Text → Text
sum_digest t = (b'0' + code_sum t % 10) ∷ replicate 63 b'a'

abbrev pub provenance : Option Text → SourceProvenance
provenance id = record {
  source_id = codes "olmo";
  revision = codes "r1";
  license = record { name = codes "odc-by"; url = none; attribution = none };
  split = none;
  record_id = id;
  url = none;
  source_metadata = [];
}

abbrev pub round_of : Text → Text → List TrainingMessage
round_of u a = record { role = user; content = u } ∷ record { role = assistant; content = a } ∷ []

abbrev pub sample : Option Text → Text → Text → NormalizedTrainingRecord
sample id u a = record {
  schema_version = 1;
  messages = round_of u a;
  language = codes "python";
  provenance = provenance id;
  validation = none;
}
