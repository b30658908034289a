-- ===== src/Risk/Tree.antt =====
-- What internal/risk reads of a parsed statement. The trees are the parser's, which is not part of the
-- repository; a name is the text that its `String` gives, and a nil pointer is `none`.
use sql_ai_tools.Prelude.{ℕ, Bool, List, Option, Bytes}
use sql_ai_tools.Prelude.Int.{ℤ}

-- The items of a SELECT list.
pub data Expr : Type 0 where
  unqualified_star : Expr
  unresolved_name : Bool → Expr
  all_columns_selector : Expr
  other_expr : Expr

pub data LockingStrength : Type 0 where
  for_share for_update other_strength : LockingStrength

-- A `float64`: (-1)^negative * mantissa * 2^exponent, or an infinity.
pub data Float64 : Type 0 where
  finite : Bool → ℕ → ℤ → Float64
  infinite : Bool → Float64

-- An OFFSET: a literal, by its text and the `float64` of its value, or another expression.
pub data Offset : Type 0 where
  num_val : Bytes → Option Float64 → Offset
  other_offset : Offset

pub data Body : Type 0 where
  select_clause : List Expr → Bool → Body
  other_body : Body

-- `tree.Select`: `limit` is none without a LIMIT and an OFFSET, and has no offset without an OFFSET.
pub record Select : Type 0 where
  pub locking : List (Option LockingStrength)
  pub limit : Option (Option Offset)
  pub body : Body

-- A column, with whether it is declared PRIMARY KEY and whether it is SERIAL; a UNIQUE constraint,
-- with whether it is the PRIMARY KEY, and its columns.
pub data TableDef : Type 0 where
  column_def : Bytes → Bool → Bool → TableDef
  unique_constraint : Bool → List Bytes → TableDef
  other_def : TableDef

pub record CreateTable : Type 0 where
  pub table : Bytes
  pub defs : List TableDef
  pub has_as_source : Bool

pub data AlterCmd : Type 0 where
  drop_column : Bytes → AlterCmd
  other_cmd : AlterCmd

-- A DELETE and an UPDATE by whether they have a WHERE and a LIMIT, a TRUNCATE by its tables and
-- whether it has CASCADE.
pub data Ast : Type 0 where
  delete : Bool → Bool → Ast
  update : Bool → Bool → Ast
  drop_table : List Bytes → Ast
  drop_database : Bytes → Ast
  alter_table : Bytes → List AlterCmd → Ast
  select : Select → Ast
  truncate : List Bytes → Bool → Ast
  create_table : CreateTable → Ast
  prepare_transaction commit_prepared rollback_prepared : Ast
  savepoint release_savepoint rollback_to_savepoint : Bytes → Ast
  begin_transaction commit_transaction rollback_transaction : Ast
  other_statement : Ast

pub data StatementType : Type 0 where
  ddl dml other_type : StatementType

-- A statement of the parsed list, with its text, and what its `StatementType` and `StatementTag` give.
pub record Statement : Type 0 where
  pub ast : Ast
  pub sql : Bytes
  pub statement_type : StatementType
  pub tag : Bytes
