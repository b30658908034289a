-- ===== src/Safety/Statement.antt =====
-- What internal/safety reads of a parsed statement (`tree.Statement` of the parser, which is not
-- part of the repository): its tag, its statement type, the parser's two predicates, and which of
-- the concrete types that the source's type switches name it is. The fields are arbitrary: no
-- theorem assumes a relation among them.
use sql_ai_tools.Prelude.{Bool, Option, ℕ, String}

pub data StatementType : Type 0 where
  ddl dml dcl tcl : StatementType

-- `tree.Limit`: `count` is the LIMIT expression, `offset` the OFFSET expression.
pub record Limit : Type 0 where
  pub count : Option ℕ
  pub offset : Option ℕ
  pub limit_all : Bool

pub data Node : Type 0 where
  explain explain_analyze : Node
  set_zone_config set_cluster_setting set_tracing : Node
  create_tenant drop_tenant alter_tenant_set_cluster_setting : Node
  alter_tenant_rename alter_tenant_reset alter_tenant_service : Node
  alter_tenant_capability alter_tenant_replication create_tenant_from_replication : Node
  select : Option Limit → Node
  other : Node

pub record Statement : Type 0 where
  pub node : Node
  pub tag : String
  pub statement_type : StatementType
  pub modifies_schema : Bool
  pub writes_data : Bool

-- `case *tree.Explain, *tree.ExplainAnalyze`.
abbrev pub is_explain : Node → Bool
is_explain explain = Bool.true
is_explain explain_analyze = Bool.true
is_explain _ = Bool.false

abbrev pub is_dcl : StatementType → Bool
is_dcl dcl = Bool.true
is_dcl _ = Bool.false
