-- ===== src/Risk/Defaults.antt =====
-- The rules that internal/risk runs by default, and the package's functions over them.
use sql_ai_tools.Prelude.{List, [], ◌∷◌, Option, Bytes, ◌⊎◌, inl, inr}
use sql_ai_tools.Risk.{Finding, Rule, MultiRule, Misconfigured, new_registry, analyze_parsed}
use sql_ai_tools.Risk.Tree.{Statement}
use sql_ai_tools.Risk.Rules.{
  delete_no_where_rule, update_no_where_rule, drop_table_rule, drop_database_rule,
  alter_table_drop_column_rule, truncate_table_rule,
}
use sql_ai_tools.Risk.Selects.{
  select_for_update_no_where_rule, select_for_share_no_where_rule, select_star_rule,
}
use sql_ai_tools.Risk.Schema.{
  serial_primary_key_rule, missing_primary_key_rule, large_offset_rule, xa_prepared_txn_rule,
  savepoint_cockroach_restart_rule,
}
use sql_ai_tools.Risk.Txn.{multiple_ddl_in_txn_rule, ddl_and_dml_in_txn_rule}

abbrev pub default_rules : List Rule
default_rules =
    delete_no_where_rule ∷ update_no_where_rule ∷ drop_table_rule ∷ drop_database_rule
    ∷ alter_table_drop_column_rule ∷ select_for_update_no_where_rule
    ∷ select_for_share_no_where_rule ∷ select_star_rule ∷ truncate_table_rule
    ∷ serial_primary_key_rule ∷ missing_primary_key_rule ∷ large_offset_rule ∷ xa_prepared_txn_rule
    ∷ savepoint_cockroach_restart_rule ∷ []

abbrev pub default_multi_rules : List MultiRule
default_multi_rules = multiple_ddl_in_txn_rule ∷ ddl_and_dml_in_txn_rule ∷ []

-- The package's `AnalyzeParsed`: the registry's panic, or the registry's answer.
unfoldable pub analyze_parsed_by_default :
    List Statement → Bytes → Misconfigured ⊎ Option (List Finding)
unfolding new_registry analyze_parsed
analyze_parsed_by_default stmts sql = elim (new_registry default_rules default_multi_rules) [
  | inl e ↦ inl e
  | inr r ↦ inr (analyze_parsed r stmts sql)
]
