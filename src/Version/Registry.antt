-- ===== src/Version/Registry.antt =====
-- internal/version/registry.go: the registry of features and the version range of each. A panic is
-- the value `none` of an option, or for the constructor the reason it names.
pub mod Ranges
pub mod WellFormed
use sql_ai_tools.Prelude.{
  ℕ, Bool, true, false, List, [], ◌∷◌, Option, none, some, ◌>>=◌, Bytes, codes, ltb, ◌==◌,
  if◌then◌else◌, not, ◌&&◌, ◌||◌,
}
use sql_ai_tools.Prelude.Int.{ℤ, pos, negsuc}
use sql_ai_tools.Text.{bytes_eq, trim_prefix, split}
use sql_ai_tools.Text.Decimal.{parse_uint32}

pub record Feature : Type 0 where
  pub tag : Bytes
  pub name : Bytes
  pub introduced : Bytes
  pub removed : Bytes
  pub doc_url : Bytes

-- `Feature{}`.
abbrev pub zero_feature : Feature
zero_feature = record { tag = []; name = []; introduced = []; removed = []; doc_url = [] }

pub data Status : Type 0 where
  unknown : Status
  supported : Status
  not_yet_introduced : Status
  removed_since : Status

-- The panics of `NewRegistry`.
pub data Misconfigured : Type 0 where
  empty_tag : Misconfigured
  empty_name : Misconfigured
  duplicate_tag : Misconfigured
  invalid_introduced : Misconfigured
  removed_without_introduced : Misconfigured
  invalid_removed : Misconfigured
  removed_not_after : Misconfigured

-- The map by tag, the entry added last in front.
abbrev pub Registry : Type 0
Registry = List Feature

pub data Built : Type 0 where
  panicked : Misconfigured → Built
  built : Registry → Built

-- `s == ""`.
unfoldable pub is_empty : Bytes → Bool
is_empty [] = true
is_empty (c ∷ s) = false

unfoldable pub major_minor_of : List Bytes → Option (ℕ × ℕ)
major_minor_of (major_str ∷ minor_str ∷ rest) = do
  major ← parse_uint32 major_str
  minor ← parse_uint32 minor_str
  some (major, minor)
major_minor_of _ = none

-- `parseMajorMinor`.
unfoldable pub parse_major_minor : Bytes → Option (ℕ × ℕ)
unfolding major_minor_of
parse_major_minor v = major_minor_of (split b'.' (trim_prefix v (codes "v")))

-- The `switch` of `compareMajorMinor`.
unfoldable pub compare_parsed : ℕ × ℕ → ℕ × ℕ → ℤ
compare_parsed av bv =
    if not (av.0 == bv.0)
    then (if ltb av.0 bv.0 then negsuc 0 else pos 1)
    else if not (av.1 == bv.1)
    then (if ltb av.1 bv.1 then negsuc 0 else pos 1)
    else pos 0

-- `compareMajorMinor`: none where it panics.
unfoldable pub compare_major_minor : Bytes → Bytes → Option ℤ
unfolding compare_parsed
compare_major_minor a b = do
  av ← parse_major_minor a
  bv ← parse_major_minor b
  some (compare_parsed av bv)

-- `c < 0` and `c <= 0`.
unfoldable pub is_negative : ℤ → Bool
is_negative (pos n) = false
is_negative (negsuc n) = true

unfoldable pub is_positive : ℤ → Bool
is_positive (pos n) = ltb 0 n
is_positive (negsuc n) = false

-- `Registry.Lookup`.
unfoldable pub lookup : Registry → Bytes → Option Feature
unfolding bytes_eq
lookup [] tag = none
lookup (f ∷ fs) tag = let rest = lookup fs tag in if bytes_eq f.tag tag then some f else rest

is_registered : Option Feature → Bool
is_registered none = false
is_registered (some f) = true

is_version : Option (ℕ × ℕ) → Bool
is_version none = false
is_version (some v) = true

-- `compareMajorMinor(f.Removed, f.Introduced) <= 0`, which is reached with two versions only.
is_after : Option ℤ → Bool
unfolding is_positive
is_after none = false
is_after (some c) = is_positive c

-- The body of `NewRegistry`'s loop: the panic it ends in, if any.
unfoldable pub misconfigured : Registry → Feature → Option Misconfigured
unfolding is_empty is_registered is_version is_after
misconfigured by_tag f =
    if is_empty f.tag
    then some empty_tag
    else if is_empty f.name
    then some empty_name
    else if is_registered (lookup by_tag f.tag)
    then some duplicate_tag
    else if not (is_empty f.introduced) && not (is_version (parse_major_minor f.introduced))
    then some invalid_introduced
    else if is_empty f.removed
    then none
    else if is_empty f.introduced
    then some removed_without_introduced
    else if not (is_version (parse_major_minor f.removed))
    then some invalid_removed
    else if not (is_after (compare_major_minor f.removed f.introduced))
    then some removed_not_after
    else none

unfoldable pub add_features : Registry → List Feature → Built
unfolding misconfigured
add_features by_tag [] = built by_tag
add_features by_tag (f ∷ fs) = added (misconfigured by_tag f) (add_features (f ∷ by_tag) fs)
  where
    added : Option Misconfigured → Built → Built
    added (some p) rest = panicked p
    added none rest = rest

-- `NewRegistry`.
unfoldable pub new_registry : List Feature → Built
unfolding add_features
new_registry features = add_features [] features

-- `f.Introduced != "" && compareMajorMinor(target, f.Introduced) < 0`.
unfoldable pub predates : Bytes → Feature → Option Bool
unfolding is_empty is_negative
predates target f =
    if is_empty f.introduced
    then some false
    else (compare_major_minor target f.introduced >>= λ c. some (is_negative c))

-- `f.Removed != "" && compareMajorMinor(target, f.Removed) >= 0`.
unfoldable pub outlives : Bytes → Feature → Option Bool
unfolding is_empty is_negative
outlives target f =
    if is_empty f.removed
    then some false
    else (compare_major_minor target f.removed >>= λ c. some (not (is_negative c)))

-- The returns of `Supports` for a registered feature and a readable target.
unfoldable pub status_of : Bytes → Feature → Option Status
unfolding predates outlives
status_of target f = do
  early ← predates target f
  if early
      then some not_yet_introduced
      else (outlives target f >>= λ late. some (if late then removed_since else supported))

unfoldable pub supports_feature :
    Bytes → Option Feature → Option (ℕ × ℕ) → Option (Status × Feature)
unfolding status_of
supports_feature target none v = some (unknown, zero_feature)
supports_feature target (some f) none = some (unknown, zero_feature)
supports_feature target (some f) (some v) = do status ← status_of target f; some (status, f)

-- `Registry.Supports`: none where it panics.
unfoldable pub supports : Registry → Bytes → Bytes → Option (Status × Feature)
unfolding supports_feature lookup
supports r target tag = supports_feature target (lookup r tag) (parse_major_minor target)
