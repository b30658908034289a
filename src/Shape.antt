-- ===== src/Shape.antt =====
-- internal/conn/explain_ddl_parse.go: the operations of a schema change from the text of EXPLAIN (DDL,
-- SHAPE), as code points.
pub mod Rendered
pub mod RoundTrip
use sql_ai_tools.Prelude.{
  ℕ, zero, suc, ◌+◌, Bool, true, false, ◌||◌, List, [], ◌∷◌, ◌++◌, length, drop, Option, none, some,
  Bytes, codes, ◌==◌, if◌then◌else◌, ◌⊎◌, inl, inr,
}
use sql_ai_tools.Text.{has_prefix, trim_prefix, trim_suffix, split, trim_space}
use sql_ai_tools.Explain.{trim_blank}

-- `DDLOperation`.
pub record DdlOperation : Type 0 where
  pub op : Bytes
  pub targets : List Bytes

pub data ShapeFault : Type 0 where
  empty_input no_header : ShapeFault
  unrecognized_prefix no_operation : (line : ℕ) → ShapeFault

pub data Shape : Type 0 where
  shape : (statement : Bytes) → (operations : List DdlOperation) → Shape
  shape_error : ShapeFault → Shape

abbrev pub ddl_plan_header_prefix : Bytes
ddl_plan_header_prefix = codes "Schema change plan for "

-- `strings.TrimRight(text, "\n")`.
unfoldable pub trim_newlines : Bytes → Bytes
trim_newlines [] = []
trim_newlines (c ∷ s) = keep c (trim_newlines s)
  where
    keep : ℕ → Bytes → Bytes
    keep c [] = if c == 10 then [] else c ∷ []
    keep c (d ∷ t) = c ∷ d ∷ t

unfoldable pub not_empty : Bytes → Option Bytes
not_empty [] = none
not_empty (c ∷ s) = some (c ∷ s)

-- `├── ` and `└── `.
abbrev pub middle : Bytes
middle = 9500 ∷ 9472 ∷ 9472 ∷ 32 ∷ []

abbrev pub last_one : Bytes
last_one = 9492 ∷ 9472 ∷ 9472 ∷ 32 ∷ []

-- The text behind the connector; both have the same length.
unfoldable pub behind_connector : Bytes → Option Bytes
unfolding has_prefix not_empty trim_space
behind_connector rest =
    if has_prefix rest middle || has_prefix rest last_one
    then not_empty (trim_space (drop 4 rest))
    else none

-- `stripConnector`.
unfoldable pub strip_connector : Bytes → Bytes → Option Bytes
unfolding behind_connector
strip_connector line prefix =
    if has_prefix line prefix then behind_connector (drop (length prefix) line) else none

pub data ShapeLine : Type 0 where
  operation_line : (text : Bytes) → ShapeLine
  target_line : (text : Bytes) → ShapeLine
  unrecognized : ShapeLine

-- ` │    ` and six spaces.
abbrev pub target_prefixes : List Bytes
target_prefixes = (32 ∷ 9474 ∷ 32 ∷ 32 ∷ 32 ∷ 32 ∷ []) ∷ codes "      " ∷ []

abbrev pub or_else : (Bytes → ShapeLine) → Option Bytes → ShapeLine → ShapeLine
or_else f none other = other
or_else f (some t) other = f t

unfoldable pub target_of : Bytes → List Bytes → ShapeLine
unfolding strip_connector
target_of line [] = unrecognized
target_of line (prefix ∷ prefixes) =
    or_else target_line (strip_connector line prefix) (target_of line prefixes)

-- `classifyShapeLine`.
unfoldable pub classify_shape_line : Bytes → ShapeLine
unfolding strip_connector target_of
classify_shape_line line =
    or_else operation_line (strip_connector line (32 ∷ [])) (target_of line target_prefixes)

-- The last operation takes one more target, if there is one.
unfoldable pub add_target : Bytes → List DdlOperation → Option (List DdlOperation)
add_target t [] = none
add_target t (o ∷ []) = some (record o { targets = o.targets ++ t ∷ [] } ∷ [])
add_target t (o ∷ p ∷ ops) = elim (add_target t (p ∷ ops)) [
  | none ↦ none
  | some rest ↦ some (o ∷ rest)
]

-- What a line makes of the operations before it.
unfoldable pub shape_step : ℕ → ShapeLine → List DdlOperation → ShapeFault ⊎ List DdlOperation
unfolding add_target
shape_step i unrecognized ops = inl (unrecognized_prefix i)
shape_step i (operation_line text) ops = inr (ops ++ record { op = text; targets = [] } ∷ [])
shape_step i (target_line text) ops = elim (add_target text ops) [
  | none ↦ inl (no_operation i)
  | some rest ↦ inr rest
]

-- Empty lines are skipped.
unfoldable pub line_step : ℕ → Bytes → List DdlOperation → ShapeFault ⊎ List DdlOperation
unfolding shape_step classify_shape_line
line_step i [] ops = inr ops
line_step i (c ∷ line) ops = shape_step i (classify_shape_line (c ∷ line)) ops

-- The loop, at the line with the number `i`.
unfoldable pub shape_lines : ℕ → Bytes → List Bytes → List DdlOperation → Shape
unfolding line_step trim_blank
shape_lines i statement [] ops = shape statement ops
shape_lines i statement (raw ∷ lines) ops = elim (line_step i (trim_blank raw) ops) [
  | inl e ↦ shape_error e
  | inr rest ↦ shape_lines (suc i) statement lines rest
]

unfoldable pub header_statement : Bytes → Bytes
header_statement header = trim_suffix (trim_prefix header ddl_plan_header_prefix) (codes ";")

unfoldable pub shape_of : List Bytes → Shape
unfolding shape_lines header_statement
shape_of [] = shape_error no_header
shape_of (header ∷ lines) =
    if has_prefix header ddl_plan_header_prefix
    then shape_lines 2 (header_statement header) lines []
    else shape_error no_header

-- `parseExplainDDLShape`.
unfoldable pub parse_explain_ddl_shape : Bytes → Shape
unfolding shape_of trim_newlines
parse_explain_ddl_shape [] = shape_error empty_input
parse_explain_ddl_shape (c ∷ text) = shape_of (split 10 (trim_newlines (c ∷ text)))
