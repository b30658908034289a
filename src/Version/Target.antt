-- ===== src/Version/Target.antt =====
-- internal/output/version.go: target versions, checked where a caller supplies them.
pub mod Accepted
use sql_ai_tools.Prelude.{
  ℕ, Bool, true, false, List, [], ◌∷◌, ◌++◌, Option, none, some, ◌>>=◌, Bytes, codes, length, ltb,
  if◌then◌else◌, ◌||◌,
}
use sql_ai_tools.Text.{bytes_eq, trim_prefix, trim_space, split}
use sql_ai_tools.Text.Decimal.{parse_uint32}

-- The four errors of `ValidateTargetVersion`, with the text each quotes.
pub data TargetError : Type 0 where
  empty_target : TargetError
  not_major_minor : Bytes → TargetError
  empty_component : Bytes → TargetError
  non_numeric_component : Bytes → Bytes → TargetError

pub data Validated : Type 0 where
  refused : TargetError → Validated
  canonical : Bytes → Validated

-- The loop over the components: the first error, if any.
unfoldable pub check_components : Bytes → List Bytes → Option TargetError
check_components s [] = none
check_components s ([] ∷ parts) = some (empty_component s)
check_components s ((c ∷ p) ∷ parts) = numeric (parse_uint32 (c ∷ p)) (check_components s parts)
  where
    numeric : Option ℕ → Option TargetError → Option TargetError
    numeric none later = some (non_numeric_component s (c ∷ p))
    numeric (some n) later = later

validated : Bytes → Option TargetError → Validated
validated text (some e) = refused e
validated text none = canonical text

validate_text : Bytes → Validated
unfolding check_components validated
validate_text [] = refused empty_target
validate_text (c ∷ s) =
    let text = trim_prefix (c ∷ s) (codes "v") in
    let parts = split b'.' text in
    if ltb (length parts) 2 || ltb 3 (length parts)
    then refused (not_major_minor (c ∷ s))
    else validated text (check_components (c ∷ s) parts)

-- `ValidateTargetVersion`.
unfoldable pub validate_target_version : Bytes → Validated
unfolding validate_text
validate_target_version s = validate_text (trim_space s)

two_parts : List Bytes → Option Bytes
two_parts (major ∷ minor ∷ rest) = do
  _ ← parse_uint32 major
  _ ← parse_uint32 minor
  some (major ++ b'.' ∷ minor)
two_parts _ = none

-- `majorMinor`.
unfoldable pub major_minor : Bytes → Option Bytes
unfolding two_parts
major_minor v = two_parts (split b'.' (trim_prefix v (codes "v")))

-- The warning of `VersionMismatchWarning`, its message by the two versions that it names.
pub record MismatchWarning : Type 0 where
  pub parser_version : Bytes
  pub target : Bytes

differing : Bytes → Bytes → Option MismatchWarning
unfolding bytes_eq
differing parser target =
    if bytes_eq parser target
    then none
    else some (record { parser_version = parser; target = target })

-- `VersionMismatchWarning`.
unfoldable pub version_mismatch_warning : Bytes → Bytes → Option MismatchWarning
unfolding major_minor differing
version_mismatch_warning parser_version target_version = do
  parser_major_minor ← major_minor parser_version
  target_major_minor ← major_minor target_version
  differing parser_major_minor target_major_minor
