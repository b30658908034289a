-- ===== src/Position.antt =====
-- internal/diag/position.go: positions of errors in the caller's text. Texts are bytes. An offset
-- that may be negative is an integer; `nil` is `none`.
pub mod Lines
use sql_ai_tools.Prelude.{
  ℕ, zero, suc, ◌+◌, ◌-◌, Bool, true, false, [], ◌∷◌, Option, none, some, Bytes, codes, length,
  take, drop, ltb, ◌==◌, if◌then◌else◌,
}
use sql_ai_tools.Prelude.Int.{ℤ, pos, negsuc}
use sql_ai_tools.Text.{has_prefix}

-- `output.Position`.
pub record Position : Type 0 where
  pub line : ℕ
  pub column : ℕ
  pub byte_offset : ℕ

-- `strings.Count(s, "\n")`.
unfoldable pub count_newlines : Bytes → ℕ
count_newlines [] = 0
count_newlines (c ∷ s) = let n = count_newlines s in if c == 10 then suc n else n

abbrev pub here_or_later : Bool → Option ℕ → Option ℕ
here_or_later b (some k) = some (suc k)
here_or_later true none = some 0
here_or_later false none = none

-- `strings.LastIndex(s, sub)`.
unfoldable pub last_index : Bytes → Bytes → Option ℕ
last_index [] sub = if has_prefix [] sub then some 0 else none
last_index (c ∷ s) sub = here_or_later (has_prefix (c ∷ s) sub) (last_index s sub)

-- `strings.IndexByte(s, b)`.
unfoldable pub index_byte : Bytes → ℕ → Option ℕ
index_byte [] b = none
index_byte (c ∷ s) b = let later = index_byte s b in if c == b then some 0 else bump later
  where
    bump : Option ℕ → Option ℕ
    bump none = none
    bump (some k) = some (suc k)

unfoldable pub clamp : ℕ → ℕ → ℕ
clamp offset limit = if ltb limit offset then limit else offset

unfoldable pub column_of : Option ℕ → ℕ → ℕ
column_of none offset = offset + 1
column_of (some last_nl) offset = offset - last_nl

-- `lineColumn`, at an offset from 0 on.
unfoldable pub line_column : Bytes → ℕ → ℕ × ℕ
unfolding clamp count_newlines last_index column_of
line_column sql byte_offset =
    let at = clamp byte_offset (length sql) in
    let prefix = take at sql in
    (count_newlines prefix + 1, column_of (last_index prefix (10 ∷ [])) at)

unfoldable pub position_at : Bytes → ℕ → Position
unfolding line_column
position_at sql offset =
    let (line, col) = line_column sql offset in
    record { line = line; column = col; byte_offset = offset }

-- `PositionFromByteOffset`.
unfoldable pub position_from_byte_offset : Bytes → ℤ → Option Position
unfolding position_at
position_from_byte_offset sql (negsuc n) = none
position_from_byte_offset sql (pos offset) = some (position_at sql offset)

-- `AdjustPosition`.
unfoldable pub adjust_position : Option Position → Bytes → (ℕ → ℕ) → Option Position
unfolding position_at
adjust_position none original translate = none
adjust_position (some p) original translate = some (position_at original (translate p.byte_offset))

abbrev pub detail_prefix : Bytes
detail_prefix = codes "source SQL:\n"

-- The offset of the caret in the statement's fragment.
fragment_offset : Option ℕ → ℕ → ℕ
fragment_offset none caret = caret
fragment_offset (some last_nl) caret = last_nl + 1 + caret

located : Bytes → Option ℕ → ℕ → Option Position
unfolding position_at
located sql none offset = none
located sql (some start) offset = some (position_at sql (start + offset))

with_caret : Bytes → Bytes → Option ℕ → Option Position
unfolding located fragment_offset last_index
with_caret fragment sql none = none
with_caret fragment sql (some caret) =
    located sql (last_index sql fragment) (fragment_offset (last_index fragment (10 ∷ [])) caret)

with_body : Bytes → Bytes → Option ℕ → Option Position
unfolding with_caret index_byte
with_body body sql none = none
with_body body sql (some last_nl) =
    with_caret (take last_nl body) sql (index_byte (drop (last_nl + 1) body) b'^')

-- `ExtractPosition`, with `caretColumn` as `IndexByte`.
unfoldable pub extract_position : Bytes → Bytes → Option Position
unfolding with_body last_index
extract_position detail sql =
    let body = drop (length detail_prefix) detail in
    if has_prefix detail detail_prefix then with_body body sql (last_index body (10 ∷ [])) else none
