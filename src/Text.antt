-- ===== src/Text.antt =====
-- Go's `strings` and `strconv` functions that the modelled packages call, over bytes. Texts are
-- ASCII where white space is trimmed: Go also trims the other white space of Unicode.
pub mod Decimal
pub mod Laws
use sql_ai_tools.Prelude.{
  ℕ, zero, suc, Bool, true, false, ◌&&◌, ◌||◌, List, [], ◌∷◌, ◌++◌, Option, none, some, Bytes, ltb,
  leb, ◌==◌, if◌then◌else◌, drop, length,
}

-- `s == t` on strings.
unfoldable pub bytes_eq : Bytes → Bytes → Bool
bytes_eq [] [] = true
bytes_eq [] (c ∷ t) = false
bytes_eq (c ∷ s) [] = false
bytes_eq (c ∷ s) (d ∷ t) = c == d && bytes_eq s t

-- `strings.HasPrefix(s, prefix)`.
unfoldable pub has_prefix : Bytes → Bytes → Bool
has_prefix s [] = true
has_prefix [] (p ∷ prefix) = false
has_prefix (c ∷ s) (p ∷ prefix) = c == p && has_prefix s prefix

-- `strings.TrimPrefix(s, prefix)`.
unfoldable pub trim_prefix : Bytes → Bytes → Bytes
trim_prefix s prefix = if has_prefix s prefix then drop (length prefix) s else s

-- `strings.HasSuffix` and `strings.TrimSuffix(s, suffix)`: the text that `suffix` ends is found by
-- walking its tails.
unfoldable pub trim_suffix : Bytes → Bytes → Bytes
unfolding bytes_eq
trim_suffix [] suffix = []
trim_suffix (c ∷ s) suffix =
    let rest = trim_suffix s suffix in if bytes_eq (c ∷ s) suffix then [] else c ∷ rest

-- `strings.Split(s, sep)` for a separator of one byte.
unfoldable pub split_at : ℕ → Bytes → Bytes × List Bytes
split_at sep [] = ([], [])
split_at sep (c ∷ s) =
    let (first, rest) = split_at sep s in if c == sep then ([], first ∷ rest) else (c ∷ first, rest)

unfoldable pub split : ℕ → Bytes → List Bytes
unfolding split_at
split sep s = let (first, rest) = split_at sep s in first ∷ rest

unfoldable pub is_space : ℕ → Bool
is_space c = (leb 9 c && leb c 13) || c == 32

unfoldable pub trim_left : Bytes → Bytes
unfolding is_space
trim_left [] = []
trim_left (c ∷ s) = let rest = trim_left s in if is_space c then rest else c ∷ s

unfoldable pub trim_right : Bytes → Bytes
unfolding is_space
trim_right [] = []
trim_right (c ∷ s) = keep c (trim_right s)
  where
    keep : ℕ → Bytes → Bytes
    keep c [] = if is_space c then [] else c ∷ []
    keep c (d ∷ t) = c ∷ d ∷ t

-- `strings.TrimSpace`.
unfoldable pub trim_space : Bytes → Bytes
unfolding trim_left trim_right
trim_space s = trim_right (trim_left s)

-- An index in a text, by whether one starts at its first byte and by the index in the rest.
abbrev pub first_index : Bool → Option ℕ → Option ℕ
first_index true later = some 0
first_index false none = none
first_index false (some k) = some (suc k)

-- `strings.Index(s, sub)`.
unfoldable pub index : Bytes → Bytes → Option ℕ
unfolding has_prefix
index [] sub = first_index (has_prefix [] sub) none
index (c ∷ s) sub = first_index (has_prefix (c ∷ s) sub) (index s sub)
