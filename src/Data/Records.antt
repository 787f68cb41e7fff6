-- ===== src/Data/Records.antt =====
-- src/tiny_qwen_coder/data/records.py: the normalised training record. `check_x` is the
-- `__post_init__` of the class `X`. A role outside the three is not representable.
use tiny_qwen_coder.Prelude.{
  ℕ, ◌≡◌, Bool, true, false, not, ◌&&◌, ◌||◌, List, [], ◌∷◌, map, Option, none, some, all, null,
  leb, if◌then◌else◌, arith, ◌↔◌,
}
use tiny_qwen_coder.Prelude.Eq.{Eq, ◌==◌, nat_eq, list_eq, option_eq, distinct}
use tiny_qwen_coder.Prelude.Result.{Result, ok, ◌>>◌, raise_if}
use tiny_qwen_coder.Prelude.Sort.{sorted, text_leb}
use tiny_qwen_coder.TextNormalization.{Text}

pub data MessageRole : Type 0 where
  system user assistant : MessageRole

unfoldable pub role_beq : MessageRole → MessageRole → Bool
role_beq system system = true
role_beq user user = true
role_beq assistant assistant = true
role_beq _ _ = false

pub role_beq_iff : (a b : MessageRole) → (role_beq a b ≡ true) ↔ (a ≡ b)
unfolding role_beq
role_beq_iff system b = ground arith
role_beq_iff user b = ground arith
role_beq_iff assistant b = ground arith

instance abbrev pub role_eq : Eq MessageRole
role_eq = record { equals = role_beq; equals_iff = role_beq_iff }

pub record TrainingMessage : Type 0 where
  pub role : MessageRole
  pub content : Text

unfoldable pub message_beq : TrainingMessage → TrainingMessage → Bool
message_beq a b = a.role == b.role && a.content == b.content

pub message_beq_iff : (a b : TrainingMessage) → (message_beq a b ≡ true) ↔ (a ≡ b)
unfolding message_beq
message_beq_iff a b =
    ground (arith, role_beq_iff a.role b.role, (list_eq {A = ℕ}).equals_iff a.content b.content)

instance abbrev pub message_eq : Eq TrainingMessage
message_eq = record { equals = message_beq; equals_iff = message_beq_iff }

pub record LicenseMetadata : Type 0 where
  pub name : Text
  pub url : Option Text
  pub attribution : Option Text

pub record SourceProvenance : Type 0 where
  pub source_id : Text
  pub revision : Text
  pub license : LicenseMetadata
  pub split : Option Text
  pub record_id : Option Text
  pub url : Option Text
  pub source_metadata : List (Text × Text)

pub record ValidationResult : Type 0 where
  pub validator_id : Text
  pub passed : Bool
  pub detail : Option Text

pub record ValidationMetadata : Type 0 where
  pub results : List ValidationResult

pub record NormalizedTrainingRecord : Type 0 where
  pub schema_version : ℕ
  pub messages : List TrainingMessage
  pub language : Text
  pub provenance : SourceProvenance
  pub validation : Option ValidationMetadata

pub data RecordError : Type 0 where
  empty_field : RecordError
  repeated_metadata_key unsorted_metadata : RecordError
  unstable_validator_id empty_validation repeated_validator_id : RecordError
  unsupported_schema_version unstable_language : RecordError

-- `str.isspace`, by which `str.strip` strips.
unfoldable pub is_space : ℕ → Bool
is_space c =
    leb 9 c && leb c 13
    || leb 28 c && leb c 32
    || c == 0x85
    || c == 0xa0
    || c == 0x1680
    || leb 0x2000 c && leb c 0x200a
    || c == 0x2028
    || c == 0x2029
    || c == 0x202f
    || c == 0x205f
    || c == 0x3000

-- `not value.strip()`
unfoldable pub is_blank : Text → Bool
unfolding is_space
is_blank t = all is_space t

unfoldable pub require_non_empty : Text → Result RecordError (Unit {0})
require_non_empty value = raise_if (is_blank value) empty_field

unfoldable pub require_optional_non_empty : Option Text → Result RecordError (Unit {0})
unfolding require_non_empty
require_optional_non_empty none = ok tt
require_optional_non_empty (some value) = require_non_empty value

unfoldable pub check_license_metadata : LicenseMetadata → Result RecordError (Unit {0})
unfolding require_optional_non_empty
check_license_metadata l = do
  require_non_empty l.name
  require_optional_non_empty l.url
  require_optional_non_empty l.attribution

unfoldable pub require_metadata_items : List (Text × Text) → Result RecordError (Unit {0})
unfolding require_non_empty
require_metadata_items [] = ok tt
require_metadata_items ((key, value) ∷ items) = do
  require_non_empty key
  require_non_empty value
  require_metadata_items items

-- The order of pairs of texts.
unfoldable pub item_leb : Text × Text → Text × Text → Bool
unfolding text_leb
item_leb (k, v) (j, w) = if k == j then text_leb v w else text_leb k j

unfoldable pub item_beq : Text × Text → Text × Text → Bool
item_beq (k, v) (j, w) = k == j && v == w

pub item_beq_iff : (a b : Text × Text) → (item_beq a b ≡ true) ↔ (a ≡ b)
unfolding item_beq
item_beq_iff (k, v) (j, w) =
    ground (arith, (list_eq {A = ℕ}).equals_iff k j, (list_eq {A = ℕ}).equals_iff v w)

instance abbrev pub item_eq : Eq (Text × Text)
item_eq = record { equals = item_beq; equals_iff = item_beq_iff }

unfoldable pub check_source_provenance : SourceProvenance → Result RecordError (Unit {0})
unfolding require_metadata_items require_optional_non_empty item_leb sorted
check_source_provenance p = do
  require_non_empty p.source_id
  require_non_empty p.revision
  require_optional_non_empty p.split
  require_optional_non_empty p.record_id
  require_optional_non_empty p.url
  require_metadata_items p.source_metadata
  raise_if (not (distinct (map (λ item. item.0) p.source_metadata))) repeated_metadata_key
  raise_if (not (sorted item_leb p.source_metadata == p.source_metadata)) unsorted_metadata

abbrev is_lower : ℕ → Bool
is_lower c = leb b'a' c && leb c b'z'

abbrev is_digit : ℕ → Bool
is_digit c = leb b'0' c && leb c b'9'

-- `^[a-z][a-z0-9_-]*$`, matched in full
unfoldable pub is_language_id : Text → Bool
is_language_id [] = false
is_language_id (c ∷ t) =
    is_lower c && all (λ d. is_lower d || is_digit d || d == b'_' || d == b'-') t

-- `^[a-z][a-z0-9_.-]*$`, matched in full
unfoldable pub is_component_id : Text → Bool
is_component_id [] = false
is_component_id (c ∷ t) =
    is_lower c && all (λ d. is_lower d || is_digit d || d == b'_' || d == b'.' || d == b'-') t

unfoldable pub check_validation_result : ValidationResult → Result RecordError (Unit {0})
unfolding is_component_id require_optional_non_empty
check_validation_result r = do
  raise_if (not (is_component_id r.validator_id)) unstable_validator_id
  require_optional_non_empty r.detail

unfoldable pub check_validation_metadata : ValidationMetadata → Result RecordError (Unit {0})
check_validation_metadata m = do
  raise_if (null m.results) empty_validation
  raise_if (not (distinct (map (λ r. r.validator_id) m.results))) repeated_validator_id

-- `ValidationMetadata.passed`
unfoldable pub validation_passed : ValidationMetadata → Bool
validation_passed m = all (λ r. r.passed) m.results

unfoldable pub check_training_record : NormalizedTrainingRecord → Result RecordError (Unit {0})
unfolding is_language_id
check_training_record r = do
  raise_if (not (r.schema_version == 1)) unsupported_schema_version
  raise_if (not (is_language_id r.language)) unstable_language

unfoldable pub single_turn_messages : Option Text → Text → Text → List TrainingMessage
single_turn_messages none u a =
    record { role = user; content = u } ∷ record { role = assistant; content = a } ∷ []
single_turn_messages (some s) u a =
    record { role = system; content = s }
    ∷ record { role = user; content = u }
    ∷ record { role = assistant; content = a }
    ∷ []
