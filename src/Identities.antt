-- ===== src/Identities.antt =====
-- src/tiny_qwen_coder/identities.py: the identities of a base model and of an adapter, and the
-- checks of their constructors.
use tiny_qwen_coder.Prelude.{
  ℕ, Bool, true, false, not, ◌&&◌, ◌||◌, Option, none, some, all, length, leb,
}
use tiny_qwen_coder.Prelude.Eq.{◌==◌, nat_eq, list_eq, option_eq}
use tiny_qwen_coder.Prelude.Result.{Result, ok, ◌>>◌, raise_if}
use tiny_qwen_coder.TextNormalization.{Text}
use tiny_qwen_coder.Data.Records.{is_blank}

pub data ManifestError : Type 0 where
  empty_identity_field not_a_git_sha adapter_half_defined : ManifestError

pub record BaseModelIdentity : Type 0 where
  pub repository : Text
  pub revision : Text
  pub tokenizer_repository : Text
  pub tokenizer_revision : Text

-- `[0-9a-f]`
abbrev pub is_lower_hex : ℕ → Bool
is_lower_hex c = (leb b'0' c && leb c b'9') || (leb b'a' c && leb c b'f')

unfoldable pub require_sha : Text → Result ManifestError (Unit {0})
require_sha t = raise_if (not (length t == 40 && all is_lower_hex t)) not_a_git_sha

unfoldable pub require_non_empty_field : Text → Result ManifestError (Unit {0})
unfolding is_blank
require_non_empty_field t = raise_if (is_blank t) empty_identity_field

unfoldable pub check_base_model : BaseModelIdentity → Result ManifestError (Unit {0})
unfolding require_sha require_non_empty_field
check_base_model i =
    require_non_empty_field i.repository
    >> (require_sha i.revision
        >> (require_non_empty_field i.tokenizer_repository >> require_sha i.tokenizer_revision))

pub record AdapterIdentity : Type 0 where
  pub family : Option Text
  pub adapter_id : Option Text

abbrev pub is_defined : Option Text → Bool
is_defined none = false
is_defined (some t) = true

abbrev require_defined : Option Text → Result ManifestError (Unit {0})
unfolding require_non_empty_field
require_defined none = ok tt
require_defined (some t) = require_non_empty_field t

unfoldable pub check_adapter_identity : AdapterIdentity → Result ManifestError (Unit {0})
unfolding require_non_empty_field
check_adapter_identity a =
    raise_if
      (not (is_defined a.family) && is_defined a.adapter_id
        || is_defined a.family && not (is_defined a.adapter_id))
      adapter_half_defined
    >> (require_defined a.family >> require_defined a.adapter_id)
