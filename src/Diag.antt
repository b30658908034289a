-- ===== src/Diag.antt =====
-- internal/diag/error.go and category.go: errors of the parser and of a cluster as entries of the
-- envelope, with `CharIndexToByteOffset` of position.go. What the packages pgerror and pgconn say of
-- an error is a record.
pub mod Runes
use sql_ai_tools.Prelude.{
  ℕ, zero, suc, ◌+◌, ◌-◌, Bool, true, false, ◌||◌, ◌&&◌, List, [], ◌∷◌, ◌++◌, Option, none, some,
  Bytes, codes, length, take, drop, get_elem?, ltb, leb, ◌==◌, if◌then◌else◌, String,
}
use sql_ai_tools.Prelude.Int.{ℤ, pos, negsuc}
use sql_ai_tools.Text.{bytes_eq, has_prefix, index}
use sql_ai_tools.Position.{Position, position_from_byte_offset, extract_position}
use sql_ai_tools.Suggest.{Suggestion}
use sql_ai_tools.Keyword.{suggest_keyword}

pub data Category : Type 0 where
  syntax_error type_mismatch unknown_column unknown_table unknown_function : Category
  ambiguous_reference permission_denied connection_error query_canceled uncategorized : Category

pub record Entry : Type 0 where
  pub code : Bytes
  pub category : Category

abbrev pub entry : String → Category → Entry
entry s c = record { code = codes s; category = c }

-- `codeCategory` and `classCategory`.
abbrev pub code_category : List Entry
code_category =
    entry "42601" syntax_error
    ∷ entry "42703" unknown_column
    ∷ entry "42P01" unknown_table
    ∷ entry "42883" unknown_function
    ∷ entry "42804" type_mismatch
    ∷ entry "42702" ambiguous_reference
    ∷ entry "42725" ambiguous_reference
    ∷ entry "42P08" ambiguous_reference
    ∷ entry "42P09" ambiguous_reference
    ∷ entry "42P10" unknown_column
    ∷ entry "42501" permission_denied
    ∷ entry "57014" query_canceled
    ∷ []

abbrev pub class_category : List Entry
class_category =
    entry "42" syntax_error ∷ entry "22" type_mismatch ∷ entry "08" connection_error ∷ []

unfoldable pub lookup_category : List Entry → Bytes → Option Category
unfolding bytes_eq
lookup_category [] code = none
lookup_category (e ∷ entries) code =
    let rest = lookup_category entries code in
    if bytes_eq e.code code then some e.category else rest

abbrev pub or_uncategorized : Option Category → Category
or_uncategorized none = uncategorized
or_uncategorized (some c) = c

unfoldable pub class_of : Bytes → Option Category
unfolding lookup_category
class_of (a ∷ b ∷ rest) = lookup_category class_category (a ∷ b ∷ [])
class_of _ = none

abbrev pub first_of : Option Category → Option Category → Option Category
first_of (some c) other = some c
first_of none other = other

-- `CategoryForCode`.
unfoldable pub category_for_code : Bytes → Category
unfolding lookup_category class_of
category_for_code code =
    or_uncategorized (first_of (lookup_category code_category code) (class_of code))

-- `output.Error`, as far as this package fills it.
pub record Diagnosis : Type 0 where
  pub code : Bytes
  pub severity : Bytes
  pub message : Bytes
  pub position : Option Position
  pub category : Category
  pub suggestions : List Suggestion

abbrev pub severity_error : Bytes
severity_error = codes "ERROR"

-- The first text that is not empty, or the default.
unfoldable pub first_severity : List Bytes → Bytes
first_severity [] = severity_error
first_severity ([] ∷ rest) = first_severity rest
first_severity ((c ∷ s) ∷ rest) = c ∷ s

unfoldable pub is_ident_start : ℕ → Bool
is_ident_start c = c == 95 || (leb 65 c && leb c 90) || (leb 97 c && leb c 122)

unfoldable pub is_ident_cont : ℕ → Bool
unfolding is_ident_start
is_ident_cont c = is_ident_start c || (leb 48 c && leb c 57)

-- The loop of `identifierAt`.
unfoldable pub ident_run : Bytes → Bytes
unfolding is_ident_cont
ident_run [] = []
ident_run (c ∷ s) = let rest = ident_run s in if is_ident_cont c then c ∷ rest else []

unfoldable pub ident_from : Bytes → Bytes
unfolding is_ident_start ident_run
ident_from [] = []
ident_from (c ∷ s) = if is_ident_start c then c ∷ ident_run s else []

-- `identifierAt`; the offset of a position is never negative.
unfoldable pub identifier_at : Bytes → Option Position → Bytes
unfolding ident_from
identifier_at sql none = []
identifier_at sql (some p) = ident_from (drop p.byte_offset sql)

-- The text before the first `sep`, or all of it.
unfoldable pub before : Bytes → Bytes → Bytes
unfolding has_prefix
before sep [] = []
before sep (c ∷ s) = let rest = before sep s in if has_prefix (c ∷ s) sep then [] else c ∷ rest

-- What pgerror says of an error of the parser: its code, severity and flattened detail, and its text.
pub record PgError : Type 0 where
  pub code : Bytes
  pub severity : Bytes
  pub detail : Bytes
  pub text : Bytes

-- `FromParseError`.
unfoldable pub from_parse_error : List Bytes → PgError → Bytes → Diagnosis
unfolding first_severity before identifier_at category_for_code
from_parse_error keywords e sql =
    let at = extract_position (before (codes "\n--\n") e.detail) sql in
    record {
      code = e.code;
      severity = first_severity (e.severity ∷ []);
      message = e.text;
      position = at;
      category = category_for_code e.code;
      suggestions = suggest_keyword keywords (identifier_at sql at) at;
    }

abbrev pub at_index : Bytes → Option ℕ → Option Position
at_index sql none = none
at_index sql (some k) = position_from_byte_offset sql (pos k)

unfoldable pub expression_position : Bytes → Bytes → Option Position
unfolding index
expression_position [] sql = none
expression_position (c ∷ expr) sql = at_index sql (index sql (c ∷ expr))

-- `FromTypeError`.
unfoldable pub from_type_error : PgError → Bytes → Bytes → Diagnosis
unfolding first_severity expression_position
from_type_error e expr sql = record {
  code = e.code;
  severity = first_severity (e.severity ∷ []);
  message = e.text;
  position = expression_position expr sql;
  category = uncategorized;
  suggestions = [];
}

-- The number of bytes of the first code point of `c ∷ s`; an invalid byte is one of its own.
abbrev pub is_cont : ℕ → ℕ → Option ℕ → Bool
is_cont low high none = false
is_cont low high (some c) = leb low c && leb c high

unfoldable pub two : Bytes → ℕ → ℕ → ℕ
two s low high = if is_cont low high (get_elem? s 0) then 2 else 1

unfoldable pub three : Bytes → ℕ → ℕ → ℕ
three s low high =
    if is_cont low high (get_elem? s 0) && is_cont 128 191 (get_elem? s 1) then 3 else 1

unfoldable pub four : Bytes → ℕ → ℕ → ℕ
four s low high =
    if is_cont low high (get_elem? s 0)
      && is_cont 128 191 (get_elem? s 1)
      && is_cont 128 191 (get_elem? s 2)
    then 4
    else 1

unfoldable pub width : ℕ → Bytes → ℕ
unfolding two three four
width c s =
    if ltb c 194
    then 1
    else if ltb c 224
    then two s 128 191
    else if c == 224
    then three s 160 191
    else if c == 237
    then three s 128 159
    else if ltb c 240
    then three s 128 191
    else if c == 240
    then four s 144 191
    else if ltb c 244
    then four s 128 191
    else if c == 244
    then four s 128 143
    else 1

-- The bytes of the first `n` code points; `skip` bytes are left of the one that was begun.
unfoldable pub walk : ℕ → ℕ → Bytes → ℕ
unfolding width
walk skip n [] = 0
walk (suc skip) n (c ∷ s) = suc (walk skip n s)
walk zero zero (c ∷ s) = 0
walk zero (suc n) (c ∷ s) = suc (walk (width c s - 1) n s)

-- `CharIndexToByteOffset`.
unfoldable pub char_index_to_byte_offset : Bytes → ℤ → ℕ
unfolding walk
char_index_to_byte_offset sql (pos n) = walk 0 n sql
char_index_to_byte_offset sql (negsuc n) = 0

-- An error of a cluster: one with a `*pgconn.PgError` in its chain, or another with its text.
pub record ServerError : Type 0 where
  pub code : Bytes
  pub severity_unlocalized : Bytes
  pub severity : Bytes
  pub message : Bytes
  pub position : ℕ

pub data ClusterError : Type 0 where
  server_error : ServerError → ClusterError
  other_error : (text : Bytes) → ClusterError

-- The position of a server is an index of code points from 1 on; 0 is none.
unfoldable pub cluster_position : Bytes → ℕ → Option Position
unfolding char_index_to_byte_offset
cluster_position [] n = none
cluster_position (c ∷ sql) zero = none
cluster_position (c ∷ sql) (suc n) =
    position_from_byte_offset (c ∷ sql) (pos (char_index_to_byte_offset (c ∷ sql) (pos n)))

-- `FromClusterError`.
unfoldable pub from_cluster_error : ClusterError → Bytes → Diagnosis
unfolding cluster_position first_severity category_for_code
from_cluster_error (other_error text) sql = record {
  code = codes "internal_error";
  severity = severity_error;
  message = text;
  position = none;
  category = uncategorized;
  suggestions = [];
}
from_cluster_error (server_error e) sql = record {
  code = e.code;
  severity = first_severity (e.severity_unlocalized ∷ e.severity ∷ []);
  message = e.message;
  position = cluster_position sql e.position;
  category = category_for_code e.code;
  suggestions = [];
}
