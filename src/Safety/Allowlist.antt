-- ===== src/Safety/Allowlist.antt =====
-- internal/safety/allowlist.go: the decision for one statement and for a batch. `nil` is `none`.
use Prim.Native.String.{◌++◌}
use sql_ai_tools.Prelude.{
  String, Bool, true, false, Option, none, some, List, [], ◌∷◌, if◌then◌else◌,
}
use sql_ai_tools.Safety.Mode.{Mode, read_only, safe_write, full_access, token}
use sql_ai_tools.Safety.Statement.{
  Statement, StatementType, ddl, dml, Node, set_zone_config, set_cluster_setting, set_tracing,
  create_tenant, drop_tenant, alter_tenant_set_cluster_setting, alter_tenant_rename,
  alter_tenant_reset, alter_tenant_service, alter_tenant_capability, alter_tenant_replication,
  create_tenant_from_replication, is_explain, is_dcl,
}

-- `type Operation int`; `unknown_op` is any value that is not declared.
pub data Operation : Type 0 where
  op_explain op_simulate op_execute unknown_op : Operation

-- `Operation.String`.
unfoldable pub op_token : Operation → String
op_token op_explain = "explain"
op_token op_simulate = "simulate"
op_token op_execute = "execute"
op_token unknown_op = "unknown"

pub data ViolationKind : Type 0 where
  kind_other kind_write kind_schema kind_privilege kind_cluster_admin : ViolationKind
  kind_nested_explain kind_unimplemented kind_bad_op_input : ViolationKind

pub record Violation : Type 0 where
  pub tag : String
  pub reason : String
  pub mode : Mode
  pub op : Operation
  pub kind : ViolationKind

-- `%q` of a token that needs no escape.
quoted : String → String
quoted s = "\"" ++ (s ++ "\"")

unfoldable pub not_yet_implemented : Mode → Operation → Statement → Violation
unfolding quoted token
not_yet_implemented mode op stmt = record {
  tag = stmt.tag;
  reason = "safety mode " ++ (quoted (token mode) ++ " is not yet implemented");
  mode = mode;
  op = op;
  kind = kind_unimplemented;
}

unfoldable pub is_cluster_admin_stmt : Node → Bool
is_cluster_admin_stmt set_zone_config = true
is_cluster_admin_stmt set_cluster_setting = true
is_cluster_admin_stmt set_tracing = true
is_cluster_admin_stmt create_tenant = true
is_cluster_admin_stmt drop_tenant = true
is_cluster_admin_stmt alter_tenant_set_cluster_setting = true
is_cluster_admin_stmt alter_tenant_rename = true
is_cluster_admin_stmt alter_tenant_reset = true
is_cluster_admin_stmt alter_tenant_service = true
is_cluster_admin_stmt _ = false

unfoldable pub is_tenant_mgmt_dml_stmt : Node → Bool
is_tenant_mgmt_dml_stmt alter_tenant_capability = true
is_tenant_mgmt_dml_stmt alter_tenant_replication = true
is_tenant_mgmt_dml_stmt create_tenant_from_replication = true
is_tenant_mgmt_dml_stmt _ = false

admin_suffix : Mode → String
admin_suffix read_only = "read_only mode forbids it"
admin_suffix _ = "rerun with --mode=full_access"

unfoldable pub cluster_admin_reason : Node → Mode → String
unfolding admin_suffix
cluster_admin_reason set_zone_config mode =
    "zone configuration changes require full_access; " ++ admin_suffix mode
cluster_admin_reason set_cluster_setting mode =
    "cluster setting changes require full_access; " ++ admin_suffix mode
cluster_admin_reason set_tracing mode = "tracing changes require full_access; " ++ admin_suffix mode
cluster_admin_reason create_tenant mode =
    "tenant management requires full_access; " ++ admin_suffix mode
cluster_admin_reason drop_tenant mode =
    "tenant management requires full_access; " ++ admin_suffix mode
cluster_admin_reason alter_tenant_set_cluster_setting mode =
    "tenant management requires full_access; " ++ admin_suffix mode
cluster_admin_reason alter_tenant_rename mode =
    "tenant management requires full_access; " ++ admin_suffix mode
cluster_admin_reason alter_tenant_reset mode =
    "tenant management requires full_access; " ++ admin_suffix mode
cluster_admin_reason alter_tenant_service mode =
    "tenant management requires full_access; " ++ admin_suffix mode
cluster_admin_reason alter_tenant_capability mode =
    "tenant management requires full_access; " ++ admin_suffix mode
cluster_admin_reason alter_tenant_replication mode =
    "tenant management requires full_access; " ++ admin_suffix mode
cluster_admin_reason create_tenant_from_replication mode =
    "tenant management requires full_access; " ++ admin_suffix mode
cluster_admin_reason _ mode = "cluster administration requires full_access; " ++ admin_suffix mode

-- The violation that rejects a nested EXPLAIN, which four functions build alike.
nested_explain : Mode → Operation → Statement → Violation
nested_explain mode op stmt = record {
  tag = stmt.tag;
  reason = "nested EXPLAIN is not permitted; pass the inner statement directly";
  mode = mode;
  op = op;
  kind = kind_nested_explain;
}

cluster_admin : Mode → Operation → Statement → Violation
cluster_admin mode op stmt = record {
  tag = stmt.tag;
  reason = cluster_admin_reason stmt.node mode;
  mode = mode;
  op = op;
  kind = kind_cluster_admin;
}

privilege : Mode → Operation → Statement → Violation
privilege mode op stmt = record {
  tag = stmt.tag;
  reason = "privilege/role changes require --mode=full_access";
  mode = mode;
  op = op;
  kind = kind_privilege;
}

unfoldable pub classify_dcl : Statement → Mode → Operation → Option Violation
unfolding is_cluster_admin_stmt cluster_admin privilege
classify_dcl stmt mode op =
    if is_dcl stmt.statement_type
    then some (
        if is_cluster_admin_stmt stmt.node
        then cluster_admin mode op stmt
        else privilege mode op stmt)
    else none

-- `if v := f(); v != nil { return v }; rest`.
abbrev pub or_else : Option Violation → Option Violation → Option Violation
or_else none rest = rest
or_else (some v) rest = some v

schema_reason : Operation → String
schema_reason op_explain =
    "statement modifies schema; rerun with --mode=safe_write or --mode=full_access"
schema_reason _ = "statement modifies schema; read_only mode forbids it"

-- The branch of `classifyReadOnly` for `OpExplain` and `OpExecute`.
unfoldable pub read_only_direct : Operation → Statement → Option Violation
unfolding classify_dcl is_tenant_mgmt_dml_stmt nested_explain cluster_admin schema_reason
read_only_direct op stmt =
    if is_explain stmt.node
    then some (nested_explain read_only op stmt)
    else or_else (classify_dcl stmt read_only op) (
        if is_tenant_mgmt_dml_stmt stmt.node
        then some (cluster_admin read_only op stmt)
        else if stmt.modifies_schema
        then some (record {
          tag = stmt.tag;
          reason = schema_reason op;
          mode = read_only;
          op = op;
          kind = kind_schema;
        })
        else if stmt.writes_data
        then some (record {
          tag = stmt.tag;
          reason = "statement writes data; read_only mode forbids it";
          mode = read_only;
          op = op;
          kind = kind_write;
        })
        else none)

bad_op_input : Statement → Violation
bad_op_input stmt = record {
  tag = stmt.tag;
  reason = "simulate has no route for this statement type; only DDL, DML, and SELECT are supported";
  mode = read_only;
  op = op_simulate;
  kind = kind_bad_op_input;
}

simulate_route : StatementType → Statement → Option Violation
simulate_route ddl stmt = none
simulate_route dml stmt = none
simulate_route _ stmt = some (bad_op_input stmt)

unfoldable pub classify_read_only : Operation → Statement → Option Violation
unfolding read_only_direct nested_explain simulate_route bad_op_input op_token
classify_read_only op_explain stmt = read_only_direct op_explain stmt
classify_read_only op_execute stmt = read_only_direct op_execute stmt
classify_read_only op_simulate stmt =
    if is_explain stmt.node
    then some (nested_explain read_only op_simulate stmt)
    else simulate_route stmt.statement_type stmt
classify_read_only unknown_op stmt = some (record {
  tag = stmt.tag;
  reason = "unknown operation " ++ (op_token unknown_op ++ " (programmer error)");
  mode = read_only;
  op = unknown_op;
  kind = kind_other;
})

unfoldable pub classify_safe_write_execute : Statement → Option Violation
unfolding classify_dcl is_tenant_mgmt_dml_stmt nested_explain cluster_admin
classify_safe_write_execute stmt =
    if is_explain stmt.node
    then some (nested_explain safe_write op_execute stmt)
    else or_else (classify_dcl stmt safe_write op_execute) (
        if is_tenant_mgmt_dml_stmt stmt.node
        then some (cluster_admin safe_write op_execute stmt)
        else if stmt.modifies_schema
        then some (record {
          tag = stmt.tag;
          reason = "statement modifies schema; rerun with --mode=full_access";
          mode = safe_write;
          op = op_execute;
          kind = kind_schema;
        })
        else none)

unfoldable pub classify_safe_write_explain : Statement → Option Violation
unfolding classify_dcl is_tenant_mgmt_dml_stmt nested_explain cluster_admin
classify_safe_write_explain stmt =
    if is_explain stmt.node
    then some (nested_explain safe_write op_explain stmt)
    else or_else (classify_dcl stmt safe_write op_explain) (
        if is_tenant_mgmt_dml_stmt stmt.node
        then some (cluster_admin safe_write op_explain stmt)
        else none)

unfoldable pub classify_full_access_execute : Statement → Option Violation
classify_full_access_execute stmt = none

unfoldable pub classify_full_access_explain : Statement → Option Violation
classify_full_access_explain stmt = none

unfoldable pub classify : Mode → Operation → Statement → Option Violation
unfolding classify_read_only classify_safe_write_execute classify_safe_write_explain
    classify_full_access_execute classify_full_access_explain not_yet_implemented quoted
classify read_only op stmt = classify_read_only op stmt
classify safe_write op_execute stmt = classify_safe_write_execute stmt
classify safe_write op_explain stmt = classify_safe_write_explain stmt
classify safe_write op stmt = some (not_yet_implemented safe_write op stmt)
classify full_access op_execute stmt = classify_full_access_execute stmt
classify full_access op_explain stmt = classify_full_access_explain stmt
classify full_access op stmt = some (not_yet_implemented full_access op stmt)
classify (Mode.unknown s) op stmt = some (record {
  tag = stmt.tag;
  reason = "unknown safety mode " ++ quoted s;
  mode = Mode.unknown s;
  op = op;
  kind = kind_other;
})

-- The loop of `CheckParsed`: the first violation is returned.
unfoldable pub first_violation : Mode → Operation → List Statement → Option Violation
first_violation mode op [] = none
first_violation mode op (s ∷ rest) = or_else (classify mode op s) (first_violation mode op rest)

empty_batch : Mode → Operation → Violation
empty_batch mode op = record {
  tag = "EMPTY";
  reason = "no statements parsed";
  mode = mode;
  op = op;
  kind = kind_other;
}

unfoldable pub check_parsed : Mode → Operation → List Statement → Option Violation
unfolding first_violation empty_batch
check_parsed mode op [] = some (empty_batch mode op)
check_parsed mode op (s ∷ rest) = first_violation mode op (s ∷ rest)

-- `parser.Parse` is an argument: it returns the statements or its error.
pub data ParseResult (E : Type 0) : Type 0 where
  parsed : List Statement → ParseResult E
  failed : E → ParseResult E

pub data Checked (E : Type 0) : Type 0 where
  verdict : Option Violation → Checked E
  error : E → Checked E

unfoldable pub check :
    {E : Type 0} → (String → ParseResult E) → Mode → Operation → String → Checked E
check parse mode op sql = elim (parse sql) [
  | parsed stmts ↦ verdict (check_parsed mode op stmts)
  | failed e ↦ error e
]
